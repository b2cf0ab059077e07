-- ===== src/Ownership/Table/Map.antt =====
-- `Put` and `Lookup` as the operations of a map.
use andlify.Common.{
  ℕ, zero, suc, ◌+◌, ◌-◌, ◌%◌, ◌^◌, ◌<◌, true, false, ◌≡◌, ◌≢◌, inl, inr, ap, arith, if◌then◌else◌,
  ◌==◌, refl, ◌∙◌, none, some, Option-cases,
}
use andlify.Ownership.{FileOwner}
use andlify.Ownership.Table.{
  slots, hash, Files, next_index, is_free, is_for, write_owner, lookup, Shared, stored,
  stored_or_full, put,
}
use andlify.Ownership.Table.Probe.{probe, put_at}
use andlify.Ownership.Table.Laws.{find_slot, IsIndexed, put_from_lem, write-IsIndexed, lookup-write}

-- A successful `Put` writes at the end of the key's probe.
pub stored_lem :
    (shared : Shared) (owner : FileOwner) (shared' : Shared)
    → put shared owner ≡ stored shared'
    → (is_free owner ≡ false)
      × (p : ℕ) × (find_slot shared.files owner.device owner.inode ≡ some p)
      × (shared'.files ≡ write_owner shared.files p owner)
unfolding put stored_or_full put_at
stored_lem shared owner shared' h =
    let run = put_from_lem shared.files owner in
    elim (Option-cases (find_slot shared.files owner.device owner.inode)) [
      | inl e ↦ absurd (ground arith)
      | inr (p, e) ↦ (ground arith, p, e, ground arith)
    ]

-- After a `Put` that succeeds the table is sound again, its own key finds the new owner, and every
-- other key finds what it found before.
pub lookup-put :
    (shared : Shared) (owner : FileOwner) (shared' : Shared) (device inode : ℕ)
    → IsIndexed shared.files
    → put shared owner ≡ stored shared'
    → IsIndexed shared'.files
      × (lookup shared'.files device inode
          ≡ (if is_for device inode owner then some owner else lookup shared.files device inode))
lookup-put shared owner shared' device inode h e =
    let (used, p, at, files) = stored_lem shared owner shared' e in
    rw files (
      write-IsIndexed shared.files owner p at used h,
      lookup-write shared.files owner p at used device inode h,
    )

-- The index after `k` more steps.
steps : ℕ → ℕ → ℕ
steps k index = (index + k) % slots

-- A probe that finds nothing has seen every slot on its way taken.
probe-none :
    (n index : ℕ) (files : Files) (device inode k : ℕ)
    → probe n index files device inode ≡ none
    → k < n
    → index < slots
    → is_free (files ((index + k) % slots)) ≡ false
unfolding probe
probe-none zero index files device inode k h a b = absurd (omega arith)
probe-none (suc n) index files device inode zero h a b =
    let e : (index + 0) % slots ≡ index = omega arith in rw e (ground arith)
probe-none (suc n) index files device inode (suc k) h a b =
    let e : (index + suc k) % slots ≡ ((index + 1) % slots + k) % slots = omega arith in
    rw e (
      probe-none n (next_index index) files device inode k (ground arith) (omega arith)
        (omega arith))

pub hash-lt-slots : (device inode : ℕ) → hash device inode < slots
unfolding hash
hash-lt-slots device inode = omega arith

-- The probe for any key stops where one slot is free.
pub find_slot_total :
    (files : Files) (device inode free : ℕ)
    → free < slots
    → is_free (files free) ≡ true
    → (p : ℕ) × (find_slot files device inode ≡ some p)
find_slot_total files device inode free lt e = elim (Option-cases (find_slot files device inode)) [
  | inr found ↦ found
  | inl at ↦
      let start = hash device inode in
      let bound = hash-lt-slots device inode in
      let k = (free + slots - start) % slots in
      let there : (start + k) % slots ≡ free = omega arith in
      let taken =
        probe-none slots start files device inode k (unfold find_slot in at) (omega arith) bound in
      absurd (ground (arith, ap (λ (x : ℕ). is_free (files x)) there))
]

-- `Put` writes where the probe stops.
pub put_found :
    (shared : Shared) (owner : FileOwner) (p : ℕ)
    → owner.inode ≢ 0
    → find_slot shared.files owner.device owner.inode ≡ some p
    → put shared owner
      ≡ stored (record shared {
        files = write_owner shared.files p owner;
        version = if shared.version % 2 == 1 then shared.version else (shared.version + 2) % 2 ^ 64;
      })
unfolding put stored_or_full put_at
put_found shared owner p h at =
    let run = put_from_lem shared.files owner in
    let used : (owner.inode == 0) ≡ false = ground arith in rw (used, run, at) refl

-- `Put` reports ENOSPC only when every slot is taken: where one slot is free and the inode is not 0,
-- it succeeds, and a generation counter that was even before is even after.
pub put_total :
    (shared : Shared) (owner : FileOwner) (free : ℕ)
    → owner.inode ≢ 0
    → free < slots
    → is_free (shared.files free) ≡ true
    → shared.version % 2 ≡ 0
    → (shared' : Shared) × (put shared owner ≡ stored shared') × (shared'.version % 2 ≡ 0)
put_total shared owner free h lt e even =
    let (p, at) = find_slot_total shared.files owner.device owner.inode free lt e in
    let even' : (shared.version % 2 == 1) ≡ false = ground arith in
    (
      record shared {
        files = write_owner shared.files p owner;
        version = (shared.version + 2) % 2 ^ 64;
      },
      put_found shared owner p h at ∙ rw even' refl,
      omega arith,
    )
