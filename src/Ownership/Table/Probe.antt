-- ===== src/Ownership/Table/Probe.antt =====
-- The slot at which a probe stops, and how a write moves it. The first slot on a key's way that is
-- free or holds the key is `probe`.
use andlify.Common.{
  ℕ, zero, suc, true, false, ◌||◌, ◌≡◌, ◌≢◌, inl, inr, refl, arith, Bool-cases, if◌then◌else◌, ◌==◌,
  Option, none, some,
}
use andlify.Ownership.{FileOwner}
use andlify.Ownership.Table.{Files, next_index, is_free, is_for, write_owner, put_from, lookup_from}

unfoldable pub probe : ℕ → ℕ → Files → ℕ → ℕ → Option ℕ
probe zero index files device inode = none
probe (suc n) index files device inode =
    let rest = probe n (next_index index) files device inode in
    if is_free (files index) || is_for device inode (files index) then some index else rest

-- What `Put` does with the slot, and what `Lookup` reads in it.
unfoldable pub put_at : Files → FileOwner → Option ℕ → Option Files
put_at files owner none = none
put_at files owner (some i) = some (write_owner files i owner)

unfoldable pub read_at : Files → Option ℕ → Option FileOwner
read_at files none = none
read_at files (some i) = if is_free (files i) then none else some (files i)

pub put_from-probe :
    (n index : ℕ) (files : Files) (owner : FileOwner)
    → put_from n index files owner
      ≡ put_at files owner (probe n index files owner.device owner.inode)
unfolding put_from probe put_at
put_from-probe zero index files owner = refl
put_from-probe (suc n) index files owner =
    ground (arith, put_from-probe n (next_index index) files owner)

pub lookup_from-probe :
    (n index : ℕ) (files : Files) (device inode : ℕ)
    → lookup_from n index files device inode ≡ read_at files (probe n index files device inode)
unfolding lookup_from probe read_at
lookup_from-probe zero index files device inode = refl
lookup_from-probe (suc n) index files device inode =
    ground (arith, lookup_from-probe n (next_index index) files device inode)

-- A probe stops where the slot is free or holds the key.
pub probe_stops :
    (n index : ℕ) (files : Files) (device inode i : ℕ)
    → probe n index files device inode ≡ some i
    → (is_free (files i) || is_for device inode (files i)) ≡ true
unfolding probe
probe_stops zero index files device inode i h = absurd (ground arith)
probe_stops (suc n) index files device inode i h =
    ground (arith, probe_stops n (next_index index) files device inode i)

-- A key that is stored is found again after another key is written elsewhere.
pub probe-write_other :
    (n index : ℕ) (files : Files) (device inode i p : ℕ) (owner : FileOwner)
    → probe n index files device inode ≡ some i
    → is_free (files i) ≡ false
    → is_free owner ≡ false
    → is_for device inode owner ≡ false
    → p ≢ i
    → probe n index (write_owner files p owner) device inode ≡ some i
unfolding probe
probe-write_other zero index files device inode i p owner h a b c d = absurd (ground arith)
probe-write_other (suc n) index files device inode i p owner h a b c d =
    elim (Bool-cases (index == p)) [
      | inl e ↦ ground (arith, probe-write_other n (next_index index) files device inode i p owner)
      | inr e ↦ ground (arith, probe-write_other n (next_index index) files device inode i p owner)
    ]

-- The key that is written at the end of its probe is found there.
pub probe-write_self :
    (n index : ℕ) (files : Files) (owner : FileOwner) (p : ℕ)
    → probe n index files owner.device owner.inode ≡ some p
    → probe n index (write_owner files p owner) owner.device owner.inode ≡ some p
unfolding probe
probe-write_self zero index files owner p h = absurd (ground arith)
probe-write_self (suc n) index files owner p h = elim (Bool-cases (index == p)) [
  | inl e ↦ ground (arith, probe-write_self n (next_index index) files owner p)
  | inr e ↦ ground (arith, probe-write_self n (next_index index) files owner p)
]
