-- ===== src/Ownership/Table.antt =====
-- `Hash`, `OwnershipStore::Put` and `OwnershipStore::Lookup`: linear probing in `kSlots` slots. The
-- array is a function of the index. `Put` is under the store's lock, and `Lookup` is modelled where
-- no writer is active, so its retry loop runs once.
pub mod Probe
pub mod Laws
pub mod Map
pub mod Count
pub mod Mirror
pub mod Scan
use andlify.Common.{
  ℕ, zero, suc, ◌+◌, ◌*◌, ◌/◌, ◌%◌, ◌^◌, Bool, true, false, not, ◌&&◌, ◌||◌, if◌then◌else◌, ◌==◌,
  Option, none, some,
}
use Prim.Native.Nat.{bit_xor}
use andlify.Ownership.{FileOwner, no_owner}

-- `kSlots`
abbrev pub slots : ℕ
slots = 2 ^ 19

-- 64-bit arithmetic, reduced to an index by `& (kSlots - 1)`.
unfoldable pub hash : ℕ → ℕ → ℕ
hash device inode =
    let a = bit_xor inode (device * 0x9e37_79b9_7f4a_7c15 % 2 ^ 64) in
    let b = bit_xor a (a / 2 ^ 30) * 0xbf58_476d_1ce4_e5b9 % 2 ^ 64 in
    bit_xor b (b / 2 ^ 27) % slots

abbrev pub Files : Type 0
Files = ℕ → FileOwner

-- `(index + 1) & (kSlots - 1)`
abbrev pub next_index : ℕ → ℕ
next_index index = (index + 1) % slots

abbrev pub is_free : FileOwner → Bool
is_free slot = slot.inode == 0

abbrev pub is_for : ℕ → ℕ → FileOwner → Bool
is_for device inode slot = slot.device == device && slot.inode == inode

-- `WriteOwner(files[index], owner)`
abbrev pub write_owner : Files → ℕ → FileOwner → Files
write_owner files index owner i = if i == index then owner else files i

-- The loop of `Put`, with `n` slots left to look at; `none` is ENOSPC.
unfoldable pub put_from : ℕ → ℕ → Files → FileOwner → Option Files
put_from zero index files owner = none
put_from (suc n) index files owner =
    let rest = put_from n (next_index index) files owner in
    if is_free (files index) || is_for owner.device owner.inode (files index)
    then some (write_owner files index owner)
    else rest

-- The loop of `Lookup`; `none` is ENOENT.
unfoldable pub lookup_from : ℕ → ℕ → Files → ℕ → ℕ → Option FileOwner
lookup_from zero index files device inode = none
lookup_from (suc n) index files device inode =
    let rest = lookup_from n (next_index index) files device inode in
    if is_free (files index)
    then none
    else if is_for device inode (files index)
    then some (files index)
    else rest

unfoldable pub lookup : Files → ℕ → ℕ → Option FileOwner
lookup files device inode = lookup_from slots (hash device inode) files device inode

-- The part of `Shared` that the file table needs. `version` is the readers' generation counter, odd
-- while a writer is active.
pub record Shared : Type 0 where
  pub version : ℕ
  pub sequence : ℕ
  pub checkpoint : ℕ
  pub dirty : Bool
  pub failed : Bool
  pub files : Files

pub data PutResult : Type 0 where
  stored : Shared → PutResult
  einval enospc : PutResult

unfoldable pub stored_or_full : Shared → Option Files → PutResult
stored_or_full shared none = enospc
stored_or_full shared (some files) = stored (record shared {
  files = files;
  version = if shared.version % 2 == 1 then shared.version else (shared.version + 2) % 2 ^ 64;
})

unfoldable pub put : Shared → FileOwner → PutResult
put shared owner =
    if owner.inode == 0
    then einval
    else stored_or_full shared (put_from slots (hash owner.device owner.inode) shared.files owner)
