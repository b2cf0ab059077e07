-- ===== src/Common/Multiples.antt =====
-- Multiples of a page: their sums and differences, and numbers that are rounded to them.
use Prim.Native.Nat.{ℕ, ◌+◌, ◌-◌, ◌*◌, ◌≤◌, ◌<◌}
use mathlib.Core.Path.{◌≡◌, ap}
use mathlib.Core.Logic.{inl, inr}
use andlify.Common.Tests.{leb, Bool-cases}
use native.Mathlib.Nat.{mul-le-mul_right}
use native.Mathlib.Omega.{arith}
use andlify.Common.Powers.{IsRoundedDown}

abbrev pub Multiple : ℕ → ℕ → Type 0
Multiple p x = (n : ℕ) × (x ≡ n * p)

pub Multiple-add : (p x y : ℕ) → Multiple p x → Multiple p y → Multiple p (x + y)
Multiple-add p x y (n, e) (m, f) = (n + m, grind arith)

times_le : (n m p : ℕ) → n ≤ m → n * p ≤ m * p
times_le n m p h = mul-le-mul_right p h

pub Multiple-sub : (p x y : ℕ) → y ≤ x → Multiple p x → Multiple p y → Multiple p (x - y)
Multiple-sub p x y h (n, e) (m, f) = (
  n - m,
  elim (Bool-cases (leb m n)) [
    | inl le ↦
        let whole : m + (n - m) ≡ n = ground arith in
        let parts : n * p ≡ m * p + (n - m) * p = grind (arith, ap (λ (k : ℕ). k * p) whole) in
        omega (arith, parts)
    | inr gt ↦
        let none : n - m ≡ 0 = ground arith in
        let small = times_le n m p (ground arith) in
        omega (arith, small, ap (λ (k : ℕ). k * p) none)
  ],
)

pub Multiple-mul : (p q x : ℕ) → Multiple p q → Multiple q x → Multiple p x
Multiple-mul p q x (n, e) (m, f) = (m * n, grind arith)

-- A multiple below a number is below it rounded down.
pub least : (p k x r : ℕ) → IsRoundedDown p x r → k * p ≤ x → k * p ≤ r
least p k x r h le = elim (Bool-cases (leb k h.count)) [
  | inl small ↦ omega (arith, times_le k h.count p (ground arith), h.multiple)
  | inr large ↦
      let above = times_le (h.count + 1) k p (ground arith) in
      let split : (h.count + 1) * p ≡ h.count * p + p = grind arith in
      omega (arith, above, split, h.multiple, h.near)
]

-- A multiple `n * p` above a number, which is less than `p` below another, is above that too.
pub most : (p n k x : ℕ) → n * p < x + p → x ≤ k * p → n * p ≤ k * p
most p n k x near le = elim (Bool-cases (leb n k)) [
  | inl small ↦ times_le n k p (ground arith)
  | inr large ↦
      let above = times_le (k + 1) n p (ground arith) in
      let split : (k + 1) * p ≡ k * p + p = grind arith in omega (arith, above, split)
]
