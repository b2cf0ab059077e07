-- ===== src/Ownership/Table/Mirror.antt =====
-- Two tables with the same contents in other slots, as one that is replayed and the one in memory are.
use andlify.Common.{
  ℕ, zero, suc, ◌+◌, ◌%◌, ◌^◌, ◌<◌, Bool, true, false, ◌≡◌, inl, inr, refl, sym, ap, ◌∙◌, arith,
  if◌then◌else◌, ◌==◌, ltb, none, some, Bool-cases, Option-cases, ◌||◌,
}
use andlify.Ownership.{FileOwner}
use andlify.Ownership.Table.{
  slots, hash, Files, next_index, is_free, is_for, write_owner, lookup, Shared, stored, put,
}
use andlify.Ownership.Table.Probe.{probe, read_at}
use andlify.Ownership.Table.Laws.{find_slot, IsIndexed, lookup_lem}
use andlify.Ownership.Table.Map.{stored_lem, find_slot_total, put_found, lookup-put, hash-lt-slots}
use andlify.Ownership.Table.Count.{used, used-write, used-lt, free_slot}

pub record Mirrors (files base : Files) : Type 0 where
  pub indexed : IsIndexed base
  pub same : (device inode : ℕ) → lookup base device inode ≡ lookup files device inode
  pub count : used slots base ≡ used slots files

probe-lt-slots :
    (n index : ℕ) (files : Files) (device inode p : ℕ)
    → index < slots
    → probe n index files device inode ≡ some p
    → p < slots
unfolding probe
probe-lt-slots zero index files device inode p h e = absurd (ground arith)
probe-lt-slots (suc n) index files device inode p h e =
    elim (Bool-cases (is_free (files index) || is_for device inode (files index))) [
      | inl f ↦ let at : index ≡ p = ground arith in omega (arith, at)
      | inr f ↦
          probe-lt-slots n (next_index index) files device inode p (omega arith) (ground arith)
    ]

pub find_slot-lt-slots :
    (files : Files) (device inode p : ℕ) → find_slot files device inode ≡ some p → p < slots
unfolding find_slot
find_slot-lt-slots files device inode p e =
    probe-lt-slots slots (hash device inode) files device inode p (hash-lt-slots device inode) e

-- The slot for a key is free exactly when its lookup finds nothing.
pub lookup_at :
    (files : Files) (device inode p : ℕ)
    → find_slot files device inode ≡ some p
    → lookup files device inode ≡ (if is_free (files p) then none else some (files p))
unfolding read_at
lookup_at files device inode p e = lookup_lem files device inode ∙ ap (read_at files) e

free_iff :
    (files base : Files) (device inode p q : ℕ)
    → lookup base device inode ≡ lookup files device inode
    → find_slot files device inode ≡ some p
    → find_slot base device inode ≡ some q
    → is_free (base q) ≡ is_free (files p)
free_iff files base device inode p q same e f =
    let a = lookup_at files device inode p e in
    let b = lookup_at base device inode q f in
    let both = sym b ∙ (same ∙ a) in go (is_free (base q)) (is_free (files p)) both
  where
    go :
        (x y : Bool)
        → (if x then none else some (base q)) ≡ (if y then none else some (files p))
        → x ≡ y
    go true true e = refl
    go false false e = refl
    go true false e = absurd (ground arith)
    go false true e = absurd (ground arith)

-- The probe in the mirror stops where it does in the table.
find_mirrored :
    (files base : Files) (device inode p : ℕ)
    → Mirrors files base
    → find_slot files device inode ≡ some p
    → (q : ℕ) × (find_slot base device inode ≡ some q)
unfolding read_at
find_mirrored files base device inode p m e = elim (Option-cases (find_slot base device inode)) [
  | inr found ↦ found
  | inl missing ↦
      let gone : lookup base device inode ≡ none =
        lookup_lem base device inode ∙ ap (read_at base) missing in
      let at = lookup_at files device inode p e in
      let free : is_free (files p) ≡ true = ground (arith, m.same device inode) in
      let room = used-lt slots files p (find_slot-lt-slots files device inode p e) free in
      let (i, lt, vacant) = free_slot slots base (omega (arith, m.count)) in
      find_slot_total base device inode i lt vacant
]

-- A `Put` that succeeds in the table succeeds in its mirror, and they mirror each other after it.
pub put-Mirrors :
    (shared shared' base : Shared) (owner : FileOwner)
    → Mirrors shared.files base.files
    → IsIndexed shared.files
    → put shared owner ≡ stored shared'
    → (base' : Shared) × (put base owner ≡ stored base') × Mirrors shared'.files base'.files
put-Mirrors shared shared' base owner m indexed e =
    let (taken, p, at, files) = stored_lem shared owner shared' e in
    let (q, at') = find_mirrored shared.files base.files owner.device owner.inode p m at in
    let stores = put_found base owner q (ground arith) at' in
    let base' = record base {
      files = write_owner base.files q owner;
      version = if base.version % 2 == 1 then base.version else (base.version + 2) % 2 ^ 64;
    } in
    let room : ltb p slots ≡ true =
      ground (arith, find_slot-lt-slots shared.files owner.device owner.inode p at) in
    let room' : ltb q slots ≡ true =
      ground (arith, find_slot-lt-slots base.files owner.device owner.inode q at') in
    let both =
      free_iff shared.files base.files owner.device owner.inode p q
        (m.same owner.device owner.inode) at at' in
    let grows = used-write slots shared.files p owner taken in
    let grows' = used-write slots base.files q owner taken in
    (
      base',
      stores,
      record {
        indexed = (lookup-put base owner base' 0 0 m.indexed stores).0;
        same = λ device inode.
            (lookup-put base owner base' device inode m.indexed stores).1
            ∙ (ap (λ l. if is_for device inode owner then some owner else l) (m.same device inode)
                ∙ sym (lookup-put shared owner shared' device inode indexed e).1);
        count = rw (files, grows, grows', room, room', both, m.count) refl;
      },
    )
