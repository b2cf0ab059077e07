-- ===== src/Ownership/Table/Scan.antt =====
-- The table as the list of its slots: a walk over them finds what a lookup finds.
use andlify.Common.{
  ℕ, zero, suc, ◌≤◌, ◌<◌, true, false, not, ◌&&◌, ◌≡◌, ◌≢◌, ◌⊎◌, inl, inr, refl, sym, ap, ◌∙◌,
  arith, if◌then◌else◌, ◌==◌, Option, none, some, Bool-cases, Option-cases,
}
use andlify.Ownership.{FileOwner}
use andlify.Ownership.Table.{slots, Files, is_free, is_for, lookup}
use andlify.Ownership.Table.Laws.{find_slot, IsIndexed, lookup_lem, find_slot_stops}
use andlify.Ownership.Table.Mirror.{lookup_at, find_slot-lt-slots}
use andlify.Ownership.Table.Probe.{read_at}

-- The last of the first `n` slots that holds the key.
unfoldable pub scan : ℕ → Files → ℕ → ℕ → Option FileOwner
scan zero files device inode = none
scan (suc n) files device inode =
    let rest = scan n files device inode in
    if not (is_free (files n)) && is_for device inode (files n) then some (files n) else rest

-- A slot that holds a key is where the probe for it stops.
pub slot_of_key :
    (files : Files) (device inode i : ℕ)
    → IsIndexed files
    → (not (is_free (files i)) && is_for device inode (files i)) ≡ true
    → find_slot files device inode ≡ some i
slot_of_key files device inode i h e =
    let d : (files i).device ≡ device = ground arith in
    let n : (files i).inode ≡ inode = ground arith in
    elim (h i) [
      | inl free ↦ absurd (ground arith)
      | inr found ↦
          sym (ap (λ x. find_slot files x (files i).inode) d ∙ ap (find_slot files device) n)
          ∙ found
    ]

scan-cases :
    (n : ℕ) (files : Files) (device inode : ℕ)
    → (scan n files device inode ≡ none)
      ⊎ (i : ℕ) × (scan n files device inode ≡ some (files i))
        × (i < n)
        × ((not (is_free (files i)) && is_for device inode (files i)) ≡ true)
unfolding scan
scan-cases zero files device inode = inl refl
scan-cases (suc n) files device inode =
    elim (Bool-cases (not (is_free (files n)) && is_for device inode (files n))) [
      | inl e ↦ inr (n, rw e refl, omega arith, e)
      | inr e ↦ rw e (elim (scan-cases n files device inode) [
        | inl gone ↦ inl gone
        | inr (i, found, lt, key) ↦ inr (i, found, omega arith, key)
      ])
    ]

scan_finds :
    (n : ℕ) (files : Files) (device inode i : ℕ)
    → (not (is_free (files i)) && is_for device inode (files i)) ≡ true
    → i < n
    → scan n files device inode ≢ none
unfolding scan
scan_finds zero files device inode i e h = absurd (omega arith)
scan_finds (suc n) files device inode i e h =
    elim (Bool-cases (not (is_free (files n)) && is_for device inode (files n))) [
      | inl f ↦ rw f (ground arith)
      | inr f ↦ rw f (elim (Bool-cases (i == n)) [
        | inl g ↦
            let same : i ≡ n = ground arith in
            absurd (
              ground
                (arith, ap (λ k. not (is_free (files k)) && is_for device inode (files k)) same))
        | inr g ↦ scan_finds n files device inode i e (ground arith)
      ])
    ]

pub scan-lookup :
    (files : Files) (device inode : ℕ)
    → IsIndexed files
    → scan slots files device inode ≡ lookup files device inode
unfolding read_at
scan-lookup files device inode h = elim (scan-cases slots files device inode) [
  | inr (i, found, lt, key) ↦
      let at = lookup_at files device inode i (slot_of_key files device inode i h key) in
      let taken : is_free (files i) ≡ false = ground arith in found ∙ sym (at ∙ rw taken refl)
  | inl gone ↦ elim (Option-cases (find_slot files device inode)) [
    | inl e ↦ gone ∙ sym (lookup_lem files device inode ∙ ap (read_at files) e)
    | inr (p, e) ↦ elim (Bool-cases (is_free (files p))) [
      | inl f ↦ gone ∙ sym (lookup_at files device inode p e ∙ rw f refl)
      | inr f ↦
          let stops = find_slot_stops files device inode p e in
          absurd (
            scan_finds slots files device inode p (ground arith)
              (find_slot-lt-slots files device inode p e) gone)
    ]
  ]
]

-- No earlier slot holds the key of a slot.
pub scan-none :
    (n : ℕ) (files : Files) (i : ℕ)
    → IsIndexed files
    → is_free (files i) ≡ false
    → n ≤ i
    → scan n files (files i).device (files i).inode ≡ none
scan-none n files i h e le = elim (scan-cases n files (files i).device (files i).inode) [
  | inl gone ↦ gone
  | inr (j, found, lt, key) ↦
      let at = slot_of_key files (files i).device (files i).inode j h key in
      elim (h i) [
        | inl free ↦ absurd (ground arith)
        | inr here ↦ absurd (apart j i (sym at ∙ here) (omega arith))
      ]
]
  where
    apart : (j k : ℕ) → some j ≡ some k → j < k → ⊥
    apart j k e h = let same : j ≡ k = ground arith in omega arith

pub scan-vacant :
    (n : ℕ) (files : Files) (device inode : ℕ)
    → ((i : ℕ) → is_free (files i) ≡ true)
    → scan n files device inode ≡ none
unfolding scan
scan-vacant zero files device inode h = refl
scan-vacant (suc n) files device inode h = rw (h n) (scan-vacant n files device inode h)
