-- ===== src/Ownership/Table/Laws.antt =====
-- The table as a map from (device, inode) to an owner.
use andlify.Common.{
  ℕ, true, false, ◌||◌, ◌≡◌, ◌≢◌, ◌⊎◌, inl, inr, refl, sym, ap, ◌∙◌, arith, Bool-cases,
  if◌then◌else◌, ◌==◌, Option, none, some,
}
use andlify.Ownership.{FileOwner, no_owner}
use andlify.Ownership.Table.{slots, hash, Files, is_free, is_for, write_owner, put_from, lookup}
use andlify.Ownership.Table.Probe.{
  probe, put_at, read_at, put_from-probe, lookup_from-probe, probe_stops, probe-write_other,
  probe-write_self,
}

unfoldable pub find_slot : Files → ℕ → ℕ → Option ℕ
find_slot files device inode = probe slots (hash device inode) files device inode

-- Every slot is free, or is where the probe for its key stops.
abbrev pub IsIndexed : Files → Type 0
IsIndexed files =
    (i : ℕ)
    → (is_free (files i) ≡ true) ⊎ (find_slot files (files i).device (files i).inode ≡ some i)

pub empty-IsIndexed : IsIndexed (λ _. no_owner)
empty-IsIndexed i = inl refl

some_eq : (k j : ℕ) → some k ≡ some j → k ≡ j
some_eq k j e = ground arith

pub lookup_lem :
    (files : Files) (device inode : ℕ)
    → lookup files device inode ≡ read_at files (find_slot files device inode)
unfolding lookup find_slot
lookup_lem files device inode = lookup_from-probe slots (hash device inode) files device inode

pub put_from_lem :
    (files : Files) (owner : FileOwner)
    → put_from slots (hash owner.device owner.inode) files owner
      ≡ put_at files owner (find_slot files owner.device owner.inode)
unfolding find_slot
put_from_lem files owner = put_from-probe slots (hash owner.device owner.inode) files owner

pub find_slot_stops :
    (files : Files) (device inode i : ℕ)
    → find_slot files device inode ≡ some i
    → (is_free (files i) || is_for device inode (files i)) ≡ true
unfolding find_slot
find_slot_stops files device inode i h =
    probe_stops slots (hash device inode) files device inode i h

module _ (files : Files) (owner : FileOwner) (p : ℕ)
    (at : find_slot files owner.device owner.inode ≡ some p) (used : is_free owner ≡ false) where
  -- What another key finds before and after the write.
  find_slot-write_other :
      (device inode i : ℕ)
      → find_slot files device inode ≡ some i
      → is_free (files i) ≡ false
      → is_for device inode owner ≡ false
      → find_slot (write_owner files p owner) device inode ≡ some i
  find_slot-write_other device inode i h a b =
      let s = find_slot_stops files owner.device owner.inode p at in
      let t = find_slot_stops files device inode i h in
      let q : p ≢ i = λ e. ground arith in
      unfold find_slot in
      probe-write_other slots (hash device inode) files device inode i p owner h a used b q

  find_slot-write_self : find_slot (write_owner files p owner) owner.device owner.inode ≡ some p
  find_slot-write_self =
      unfold find_slot in probe-write_self slots (hash owner.device owner.inode) files owner p at

  kept_at : (i : ℕ) → (i == p) ≡ false → write_owner files p owner i ≡ files i
  kept_at i e = rw e

  pub write-IsIndexed : IsIndexed files → IsIndexed (write_owner files p owner)
  write-IsIndexed h i = elim (Bool-cases (i == p)) [
    | inl e ↦ let q : i ≡ p = ground arith in inr (rw e (find_slot-write_self ∙ ap some (sym q)))
    | inr e ↦ rw e (elim (h i) [
      | inl free ↦ inl free
      | inr found ↦ elim (Bool-cases (is_free (files i))) [
        | inl free ↦ inl free
        | inr full ↦ elim (Bool-cases (is_for (files i).device (files i).inode owner)) [
          | inl same ↦
              let d : owner.device ≡ (files i).device = ground arith in
              let n : owner.inode ≡ (files i).inode = ground arith in
              let both = sym (
                ap (λ x. find_slot files x owner.inode) d
                ∙ ap (find_slot files (files i).device) n) in
              absurd (clash i (sym found ∙ (both ∙ at)) e)
          | inr other ↦
              inr (find_slot-write_other (files i).device (files i).inode i found full other)
        ]
      ]
    ])
  ]
    where
      clash : (j : ℕ) → some j ≡ some p → (j == p) ≡ false → ⊥
      clash j a b = ground arith

  -- What another key finds after the write, it found before.
  find_slot_before :
      (device inode k : ℕ)
      → IsIndexed files
      → is_for device inode owner ≡ false
      → find_slot (write_owner files p owner) device inode ≡ some k
      → is_free (write_owner files p owner k) ≡ false
      → (find_slot files device inode ≡ some k) × (write_owner files p owner k ≡ files k)
  find_slot_before device inode k h other found full =
      let stops = find_slot_stops (write_owner files p owner) device inode k found in
      let ne : (k == p) ≡ false = apart (Bool-cases (k == p)) stops in
      let same = kept_at k ne in
      let full' : is_free (files k) ≡ false = ap is_free (sym same) ∙ full in
      let stops' : is_for device inode (files k) ≡ true =
        ap (is_for device inode) (sym same) ∙ (ground arith) in
      let d : (files k).device ≡ device = ground arith in
      let n : (files k).inode ≡ inode = ground arith in
      let at_k : find_slot files (files k).device (files k).inode ≡ some k = ground (arith, h k) in
      (
        sym (ap (λ x. find_slot files x (files k).inode) d ∙ ap (find_slot files device) n) ∙ at_k,
        same,
      )
    where
      apart :
          ((k == p) ≡ true) ⊎ ((k == p) ≡ false)
          → (is_free (write_owner files p owner k)
              || is_for device inode (write_owner files p owner k))
            ≡ true
          → (k == p) ≡ false
      apart (inr e) s = e
      apart (inl e) s = absurd (ground arith)

  read_other :
      (device inode : ℕ)
      → IsIndexed files
      → is_for device inode owner ≡ false
      → read_at (write_owner files p owner) (find_slot (write_owner files p owner) device inode)
        ≡ read_at files (find_slot files device inode)
  unfolding read_at
  read_other device inode h other =
      go (find_slot (write_owner files p owner) device inode) (find_slot files device inode) refl
        refl
    where
      files' : Files
      files' = write_owner files p owner

      -- A slot that holds another key is not the one that is written.
      kept :
          (j : ℕ)
          → find_slot files device inode ≡ some j
          → is_free (files j) ≡ false
          → files' j ≡ files j
      kept j e full =
          let s = find_slot_stops files device inode j e in
          let t = find_slot_stops files owner.device owner.inode p at in kept_at j (ne s t full)
        where
          ne :
              (is_free (files j) || is_for device inode (files j)) ≡ true
              → (is_free (files p) || is_for owner.device owner.inode (files p)) ≡ true
              → is_free (files j) ≡ false
              → (j == p) ≡ false
          ne s t full = elim (Bool-cases (j == p)) [
            | inr e ↦ e
            | inl e ↦ let q : j ≡ p = ground arith in absurd (ground (arith, ap files q))
          ]

      go :
          (f g : Option ℕ)
          → find_slot files' device inode ≡ f
          → find_slot files device inode ≡ g
          → read_at files' f ≡ read_at files g
      go none none a b = refl
      go none (some j) a b = elim (Bool-cases (is_free (files j))) [
        | inl free ↦ rw free
        | inr full ↦ absurd (ground (arith, find_slot-write_other device inode j b full other))
      ]
      go (some k) g a b = elim (Bool-cases (is_free (files' k))) [
        | inr full ↦
            let (e, same) = find_slot_before device inode k h other a full in
            let e' : g ≡ some k = sym b ∙ e in rw (e', same)
        | inl free ↦ gone k g a b free
      ]
        where
          gone :
              (k : ℕ) (g : Option ℕ)
              → find_slot files' device inode ≡ some k
              → find_slot files device inode ≡ g
              → is_free (files' k) ≡ true
              → read_at files' (some k) ≡ read_at files g
          gone k none a b free = rw free
          gone k (some j) a b free = elim (Bool-cases (is_free (files j))) [
            | inl free' ↦ rw (free, free')
            | inr full ↦
                let moved = find_slot-write_other device inode j b full other in
                absurd (ground (arith, kept j b full, ap files' (some_eq k j (sym a ∙ moved))))
          ]

  -- The map after the write.
  pub lookup-write :
      (device inode : ℕ)
      → IsIndexed files
      → lookup (write_owner files p owner) device inode
        ≡ (if is_for device inode owner then some owner else lookup files device inode)
  lookup-write device inode h = elim (Bool-cases (is_for device inode owner)) [
    | inl e ↦
        let d : owner.device ≡ device = ground arith in
        let n : owner.inode ≡ inode = ground arith in
        rw e (
          ap (λ x. lookup (write_owner files p owner) x inode) (sym d)
          ∙ (ap (lookup (write_owner files p owner) owner.device) (sym n)
              ∙ (lookup_lem (write_owner files p owner) owner.device owner.inode
                  ∙ (ap (read_at (write_owner files p owner)) find_slot-write_self ∙ self))))
    | inr e ↦ rw e (
        lookup_lem (write_owner files p owner) device inode
        ∙ (read_other device inode h e ∙ sym (lookup_lem files device inode)))
  ]
    where
      self : read_at (write_owner files p owner) (some p) ≡ some owner
      self = unfold read_at in ground arith
