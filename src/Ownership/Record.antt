-- ===== src/Ownership/Record.antt =====
-- ownership_persistence.cpp: the 64-byte records of the snapshot and the journal, little-endian and
-- with a checksum.
pub mod Laws
use andlify.Common.{
  ℕ, zero, suc, ◌+◌, ◌*◌, ◌/◌, ◌%◌, ◌^◌, Bool, true, false, not, ◌&&◌, List, [], ◌∷◌, ◌++◌,
  if◌then◌else◌, ◌==◌, take, drop,
}
use andlify.Common.Bytes.{Bytes}
use Prim.Native.Nat.{bit_xor}
use andlify.Ownership.{FileOwner}

abbrev pub record_size : ℕ
record_size = 64

-- `kMagic`
abbrev pub magic : ℕ
magic = 0x3141_5445_4d44_4e41

-- `data[i] = value >> (8 * i)`, byte by byte.
unfoldable pub encode : ℕ → ℕ → Bytes
encode value zero = []
encode value (suc size) = value % 256 ∷ encode (value / 256) size

-- `result |= data[i] << (8 * i)`; the bytes do not overlap, so `|` is a sum.
unfoldable pub decode : Bytes → ℕ
decode [] = 0
decode (b ∷ data') = b + 256 * decode data'

-- `(value ^ data[i]) * 16777619U`, from 2166136261U on.
unfoldable pub checksum_from : ℕ → Bytes → ℕ
checksum_from value [] = value
checksum_from value (b ∷ data') = checksum_from (bit_xor value b * 16777619 % 2 ^ 32) data'

unfoldable pub checksum : Bytes → ℕ
checksum data' = checksum_from 2166136261 data'

-- The first 60 bytes; the four before the checksum stay 0.
unfoldable pub pack_body : FileOwner → ℕ → Bytes
pack_body owner sequence =
    encode magic 8
    ++ (encode sequence 8
        ++ (encode owner.device 8
            ++ (encode owner.inode 8
                ++ (encode owner.birth_seconds 8
                    ++ (encode owner.birth_nanoseconds 4
                        ++ (encode owner.uid 4
                            ++ (encode owner.gid 4 ++ (encode owner.mode 4 ++ encode 0 4))))))))

unfoldable pub pack : FileOwner → ℕ → Bytes
pack owner sequence = pack_body owner sequence ++ encode (checksum (pack_body owner sequence)) 4

-- `Decode(r.data() + offset, size)`
unfoldable pub field_at : Bytes → ℕ → ℕ → ℕ
field_at r offset size = decode (take size (drop offset r))

unfoldable pub unpack : Bytes → FileOwner
unpack r = record {
  device = field_at r 16 8;
  inode = field_at r 24 8;
  birth_seconds = field_at r 32 8;
  birth_nanoseconds = field_at r 40 4;
  uid = field_at r 44 4;
  gid = field_at r 48 4;
  mode = field_at r 52 4;
}

-- The test of the magic number and of the checksum in `Replay`.
unfoldable pub is_sound : Bytes → Bool
is_sound r = field_at r 0 8 == magic && field_at r 60 4 == checksum (take 60 r)
