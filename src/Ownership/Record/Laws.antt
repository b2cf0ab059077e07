-- ===== src/Ownership/Record/Laws.antt =====
-- Packing and unpacking.
use andlify.Common.{
  ℕ, zero, suc, ◌+◌, ◌*◌, ◌/◌, ◌%◌, ◌^◌, ◌<◌, true, List, [], ◌∷◌, ◌++◌, ◌≡◌, refl, ap, ◌∙◌, arith,
  take, drop, length, length-append,
}
use andlify.Common.Bytes.{Bytes}
use mathlib.Core.Path.{subst}
use mathlib.Core.List.{append_assoc}
use Prim.Native.Nat.{bit_xor}
use native.Mathlib.Nat.{pow-suc}
use andlify.Ownership.{FileOwner}
use andlify.Ownership.Record.{
  magic, encode, decode, checksum_from, checksum, pack_body, pack, field_at, unpack, is_sound,
}

-- Every field fits its place in a record.
pub record Fits (owner : FileOwner) : Type 0 where
  pub device : owner.device < 2 ^ 64
  pub inode : owner.inode < 2 ^ 64
  pub birth_seconds : owner.birth_seconds < 2 ^ 64
  pub birth_nanoseconds : owner.birth_nanoseconds < 2 ^ 32
  pub uid : owner.uid < 2 ^ 32
  pub gid : owner.gid < 2 ^ 32
  pub mode : owner.mode < 2 ^ 32

pub length-encode : (value size : ℕ) → length (encode value size) ≡ size
unfolding encode
length-encode value zero = refl
length-encode value (suc size) = ap suc (length-encode (value / 256) size)

decode-encode : (size value : ℕ) → value < 256 ^ size → decode (encode value size) ≡ value
unfolding encode decode
decode-encode zero value h = omega arith
decode-encode (suc size) value h =
    let p = pow-suc 256 size in omega (arith, decode-encode size (value / 256) (omega arith))

take_append {ℓ} : {A : Type ℓ} (xs ys : List A) → take (length xs) (xs ++ ys) ≡ xs
take_append [] ys = refl
take_append (x ∷ xs) ys = ap (λ l. x ∷ l) (take_append xs ys)

drop_append {ℓ} :
    {A : Type ℓ} (n : ℕ) (xs ys : List A) → drop (length xs + n) (xs ++ ys) ≡ drop n ys
drop_append n [] ys = let e : 0 + n ≡ n = omega arith in rw e
drop_append n (x ∷ xs) ys =
    let e : suc (length xs) + n ≡ suc (length xs + n) = omega arith in rw e (drop_append n xs ys)

-- A field that begins after `offset` bytes.
skip :
    (value size offset length' : ℕ) (rest : Bytes)
    → field_at (encode value size ++ rest) (size + offset) length' ≡ field_at rest offset length'
unfolding field_at
skip value size offset length' rest =
    ap (λ l. decode (take length' l))
      (subst (λ n. drop (n + offset) (encode value size ++ rest) ≡ drop offset rest)
        (length-encode value size) (drop_append offset (encode value size) rest))

here :
    (value size : ℕ) (rest : Bytes)
    → value < 256 ^ size
    → field_at (encode value size ++ rest) 0 size ≡ value
unfolding field_at
here value size rest h =
    ap decode (
      subst (λ n. take n (encode value size ++ rest) ≡ encode value size) (length-encode value size)
        (take_append (encode value size) rest))
    ∙ decode-encode size value h

checksum_from-lt : (value : ℕ) (bytes : Bytes) → value < 2 ^ 32 → checksum_from value bytes < 2 ^ 32
unfolding checksum_from
checksum_from-lt value [] h = h
checksum_from-lt value (b ∷ bytes) h =
    checksum_from-lt (bit_xor value b * 16777619 % 2 ^ 32) bytes (omega arith)

checksum-lt : (bytes : Bytes) → checksum bytes < 2 ^ 32
unfolding checksum
checksum-lt bytes = checksum_from-lt 2166136261 bytes (omega arith)

-- The record as one row of fields.
module _ (owner : FileOwner) (sequence : ℕ) where
  check : ℕ
  check = checksum (pack_body owner sequence)

  row : Bytes
  row =
      encode magic 8
      ++ (encode sequence 8
          ++ (encode owner.device 8
              ++ (encode owner.inode 8
                  ++ (encode owner.birth_seconds 8
                      ++ (encode owner.birth_nanoseconds 4
                          ++ (encode owner.uid 4
                              ++ (encode owner.gid 4
                                  ++ (encode owner.mode 4 ++ (encode 0 4 ++ encode check 4)))))))))

  pack-row : pack owner sequence ≡ row
  unfolding pack pack_body row check
  pack-row = simp append_assoc

  length-pack_body : length (pack_body owner sequence) ≡ 60
  unfolding pack_body
  length-pack_body = simp (length-append, length-encode)

  pub length-pack : length (pack owner sequence) ≡ 64
  unfolding pack
  length-pack = simp (length-append, length-encode, length-pack_body)

  row-magic : field_at row 0 8 ≡ magic
  unfolding row
  row-magic = here magic 8 _ (omega arith)

  row-sequence : sequence < 2 ^ 64 → field_at row 8 8 ≡ sequence
  unfolding row
  row-sequence h = skip magic 8 0 8 _ ∙ (here sequence 8 _ h)

  row-device : owner.device < 2 ^ 64 → field_at row 16 8 ≡ owner.device
  unfolding row
  row-device h = skip magic 8 8 8 _ ∙ (skip sequence 8 0 8 _ ∙ (here owner.device 8 _ h))

  row-inode : owner.inode < 2 ^ 64 → field_at row 24 8 ≡ owner.inode
  unfolding row
  row-inode h =
      skip magic 8 16 8 _
      ∙ (skip sequence 8 8 8 _ ∙ (skip owner.device 8 0 8 _ ∙ (here owner.inode 8 _ h)))

  row-birth_seconds : owner.birth_seconds < 2 ^ 64 → field_at row 32 8 ≡ owner.birth_seconds
  unfolding row
  row-birth_seconds h =
      skip magic 8 24 8 _
      ∙ (skip sequence 8 16 8 _
          ∙ (skip owner.device 8 8 8 _
              ∙ (skip owner.inode 8 0 8 _ ∙ (here owner.birth_seconds 8 _ h))))

  row-birth_nanoseconds :
      owner.birth_nanoseconds < 2 ^ 32 → field_at row 40 4 ≡ owner.birth_nanoseconds
  unfolding row
  row-birth_nanoseconds h =
      skip magic 8 32 4 _
      ∙ (skip sequence 8 24 4 _
          ∙ (skip owner.device 8 16 4 _
              ∙ (skip owner.inode 8 8 4 _
                  ∙ (skip owner.birth_seconds 8 0 4 _ ∙ (here owner.birth_nanoseconds 4 _ h)))))

  row-uid : owner.uid < 2 ^ 32 → field_at row 44 4 ≡ owner.uid
  unfolding row
  row-uid h =
      skip magic 8 36 4 _
      ∙ (skip sequence 8 28 4 _
          ∙ (skip owner.device 8 20 4 _
              ∙ (skip owner.inode 8 12 4 _
                  ∙ (skip owner.birth_seconds 8 4 4 _
                      ∙ (skip owner.birth_nanoseconds 4 0 4 _ ∙ (here owner.uid 4 _ h))))))

  row-gid : owner.gid < 2 ^ 32 → field_at row 48 4 ≡ owner.gid
  unfolding row
  row-gid h =
      skip magic 8 40 4 _
      ∙ (skip sequence 8 32 4 _
          ∙ (skip owner.device 8 24 4 _
              ∙ (skip owner.inode 8 16 4 _
                  ∙ (skip owner.birth_seconds 8 8 4 _
                      ∙ (skip owner.birth_nanoseconds 4 4 4 _
                          ∙ (skip owner.uid 4 0 4 _ ∙ (here owner.gid 4 _ h)))))))

  row-mode : owner.mode < 2 ^ 32 → field_at row 52 4 ≡ owner.mode
  unfolding row
  row-mode h =
      skip magic 8 44 4 _
      ∙ (skip sequence 8 36 4 _
          ∙ (skip owner.device 8 28 4 _
              ∙ (skip owner.inode 8 20 4 _
                  ∙ (skip owner.birth_seconds 8 12 4 _
                      ∙ (skip owner.birth_nanoseconds 4 8 4 _
                          ∙ (skip owner.uid 4 4 4 _
                              ∙ (skip owner.gid 4 0 4 _ ∙ (here owner.mode 4 _ h))))))))

  pub pack_sequence : sequence < 2 ^ 64 → field_at (pack owner sequence) 8 8 ≡ sequence
  pack_sequence h = rw pack-row (row-sequence h)

  -- Every owner whose fields fit is read back as it was written.
  pub unpack-pack-owner : Fits owner → unpack (pack owner sequence) ≡ owner
  unfolding unpack
  unpack-pack-owner f = rw (
    pack-row,
    row-device f.device,
    row-inode f.inode,
    row-birth_seconds f.birth_seconds,
    row-birth_nanoseconds f.birth_nanoseconds,
    row-uid f.uid,
    row-gid f.gid,
    row-mode f.mode,
  )

  take-pack : take 60 (pack owner sequence) ≡ pack_body owner sequence
  unfolding pack check
  take-pack =
      subst (λ n. take n (pack_body owner sequence ++ encode check 4) ≡ pack_body owner sequence)
        length-pack_body (take_append (pack_body owner sequence) (encode check 4))

  drop-pack : drop 60 (pack owner sequence) ≡ encode check 4
  unfolding pack check
  drop-pack =
      subst (λ n. drop (n + 0) (pack_body owner sequence ++ encode check 4) ≡ encode check 4)
        length-pack_body (drop_append 0 (pack_body owner sequence) (encode check 4))

  pack-check : field_at (pack owner sequence) 60 4 ≡ check
  unfolding field_at
  pack-check =
      ap (λ l. decode (take 4 l)) drop-pack
      ∙ (ap decode (take_encode check)
          ∙ decode-encode 4 check (unfold check in checksum-lt (pack_body owner sequence)))
    where
      take_encode : (v : ℕ) → take 4 (encode v 4) ≡ encode v 4
      take_encode v = unfold encode in refl

  -- A record that was written passes the test of `Replay`.
  pub pack-is_sound : is_sound (pack owner sequence) ≡ true
  unfolding is_sound check
  pack-is_sound =
      let a : field_at (pack owner sequence) 0 8 ≡ magic = rw pack-row row-magic in
      rw (a, pack-check, take-pack) (ground arith)

  -- A record of an owner whose fields fit is 64 bytes long, passes the test of `Replay`, and gives
  -- back its sequence number and its owner.
  pub unpack-pack :
      Fits owner
      → sequence < 2 ^ 64
      → (length (pack owner sequence) ≡ 64)
        × (is_sound (pack owner sequence) ≡ true)
        × (field_at (pack owner sequence) 8 8 ≡ sequence)
        × (unpack (pack owner sequence) ≡ owner)
  unpack-pack f h = (length-pack, pack-is_sound, pack_sequence h, unpack-pack-owner f)
