-- ===== src/Ownership/Table/Count.antt =====
-- How many slots of the table are taken, and that `Put` succeeds while one is free.
use andlify.Common.{
  ℕ, zero, suc, ◌+◌, ◌≤◌, ◌<◌, true, false, ◌≡◌, inl, inr, refl, sym, ap, ◌∙◌, arith, if◌then◌else◌,
  ◌==◌, ltb, Bool-cases,
}
use andlify.Ownership.{FileOwner}
use andlify.Ownership.Table.{Files, is_free, write_owner}

-- The slots before `n` that are taken.
unfoldable pub used : ℕ → Files → ℕ
used zero files = 0
used (suc n) files = (if is_free (files n) then 0 else 1) + used n files

pub used_none : (n : ℕ) (files : Files) → ((i : ℕ) → is_free (files i) ≡ true) → used n files ≡ 0
unfolding used
used_none zero files h = refl
used_none (suc n) files h = rw (h n) (omega (arith, used_none n files h))

pub used_zero : (files : Files) → used 0 files ≡ 0
unfolding used
used_zero files = refl

pub used_free :
    (n : ℕ) (files : Files) → is_free (files n) ≡ true → used (suc n) files ≡ used n files
unfolding used
used_free n files h = rw h (omega arith)

pub used_taken :
    (n : ℕ) (files : Files) → is_free (files n) ≡ false → used (suc n) files ≡ suc (used n files)
unfolding used
used_taken n files h = rw h (omega arith)

-- A write of an owner takes a slot that was free, and no other.
pub used-write :
    (n : ℕ) (files : Files) (p : ℕ) (owner : FileOwner)
    → is_free owner ≡ false
    → used n (write_owner files p owner)
      ≡ used n files + (if ltb p n then (if is_free (files p) then 1 else 0) else 0)
unfolding used
used-write zero files p owner h = grind arith
used-write (suc n) files p owner h =
    let rest = used-write n files p owner h in
    elim (Bool-cases (n == p)) [
      | inl e ↦
          let same : n ≡ p = ground arith in
          let test : ltb p (suc n) ≡ true = ground arith in
          let before : ltb p n ≡ false = ground arith in
          let at : is_free (files n) ≡ is_free (files p) = ap (λ k. is_free (files k)) same in
          rw (e, h, test, at)
            (elim (Bool-cases (is_free (files p))) [
              | inl f ↦ ground (arith, rest)
              | inr f ↦ ground (arith, rest)
            ])
      | inr e ↦
          let test : ltb p (suc n) ≡ ltb p n = ground arith in rw (e, test) (omega (arith, rest))
    ]

pub used-le : (n : ℕ) (files : Files) → used n files ≤ n
unfolding used
used-le zero files = omega arith
used-le (suc n) files = elim (Bool-cases (is_free (files n))) [
  | inl e ↦ rw e (omega (arith, used-le n files))
  | inr e ↦ rw e (omega (arith, used-le n files))
]

-- While not all slots are taken one is free.
pub free_slot :
    (n : ℕ) (files : Files) → used n files < n → (i : ℕ) × (i < n) × (is_free (files i) ≡ true)
unfolding used
free_slot zero files h = absurd (omega arith)
free_slot (suc n) files h = elim (Bool-cases (is_free (files n))) [
  | inl e ↦ (n, omega arith, e)
  | inr e ↦ let (i, lt, free) = free_slot n files (ground (arith, h)) in (i, omega arith, free)
]

-- Where a slot is free, not all are taken.
pub used-lt : (n : ℕ) (files : Files) (i : ℕ) → i < n → is_free (files i) ≡ true → used n files < n
unfolding used
used-lt zero files i h e = absurd (omega arith)
used-lt (suc n) files i h e = elim (Bool-cases (i == n)) [
  | inl f ↦
      let same : i ≡ n = ground arith in
      let free : is_free (files n) ≡ true = ap (λ k. is_free (files k)) (sym same) ∙ e in
      rw free (omega (arith, used-le n files))
  | inr f ↦
      let rest = used-lt n files i (ground arith) e in
      elim (Bool-cases (is_free (files n))) [
        | inl g ↦ rw g (omega (arith, rest))
        | inr g ↦ rw g (omega (arith, rest))
      ]
]
