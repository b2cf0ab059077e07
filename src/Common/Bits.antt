-- ===== src/Common/Bits.antt =====
-- `bit_and` at variables: one equation for the lowest digit, and associativity.
use Prim.Native.Nat.{ℕ, zero, suc, ◌+◌, ◌*◌, ◌/◌, ◌%◌, ◌≤◌, min}
use Prim.Native.Nat.{digits, max, bit_and, bit_or, bit_and-bitwise, bit_or-bitwise}
use mathlib.Core.Path.{◌≡◌, refl}
use native.Mathlib.Nat.{le_refl}
use native.Mathlib.Omega.{arith}

-- The digits of a conjunction, with fuel `k` for those of `x`.
abbrev and_digits : ℕ → ℕ → ℕ → ℕ
and_digits k x y = digits (λ (rest : ℕ). 0) min k x y

and_digits-zero : (k y : ℕ) → and_digits k 0 y ≡ 0
and_digits-zero zero y = refl
and_digits-zero (suc k) y = refl

-- Fuel that is enough gives what `x` itself as fuel gives.
and_digits_enough : (k l x y : ℕ) → x ≤ k → x ≤ l → and_digits l x y ≡ and_digits k x y
and_digits_enough k l zero y enough enough' = rw (and_digits-zero k y, and_digits-zero l y)
and_digits_enough zero l (suc x) y enough enough' = absurd (omega arith)
and_digits_enough (suc k) zero (suc x) y enough enough' = absurd (omega arith)
and_digits_enough (suc k) (suc l) (suc x) y enough enough' =
    let half = and_digits_enough k l (suc x / 2) (y / 2) (omega arith) (omega arith) in rw half refl

pub bit_and_step : (x y : ℕ) → bit_and x y ≡ bit_and (x / 2) (y / 2) * 2 + min (x % 2) (y % 2)
bit_and_step zero y = rw (bit_and-bitwise 0 y, bit_and-bitwise 0 (y / 2)) (omega arith)
bit_and_step (suc x) y =
    let half = and_digits_enough (suc x / 2) x (suc x / 2) (y / 2) (omega arith) (omega arith) in
    rw (bit_and-bitwise (suc x) y, bit_and-bitwise (suc x / 2) (y / 2)) (omega (arith, half))

pub zero-bit_and : (b : ℕ) → bit_and 0 b ≡ 0
zero-bit_and b = bit_and-bitwise 0 b

-- Induction on the number of binary digits, `n` of which are enough for `a`.
no_digits : (x k : ℕ) → x ≤ k → bit_and x 0 ≡ 0
no_digits zero k enough = zero-bit_and 0
no_digits (suc x) zero enough = absurd (omega arith)
no_digits (suc x) (suc k) enough =
    let half = no_digits (suc x / 2) k (omega arith) in omega (arith, half, bit_and_step (suc x) 0)

pub bit_and-zero : (x : ℕ) → bit_and x 0 ≡ 0
bit_and-zero x = no_digits x x (le_refl x)

min_assoc_digit : (a b c : ℕ) → min (min a b) c ≡ min a (min b c)
min_assoc_digit a b c = omega arith

bit_and_digits :
    (a b : ℕ)
    → (bit_and a b / 2 ≡ bit_and (a / 2) (b / 2)) × (bit_and a b % 2 ≡ min (a % 2) (b % 2))
bit_and_digits a b = omega (arith, bit_and_step a b)

bit_and_assoc_fuel : (n a b c : ℕ) → a ≤ n → bit_and (bit_and a b) c ≡ bit_and a (bit_and b c)
bit_and_assoc_fuel n zero b c h = rw (zero-bit_and b, zero-bit_and c, zero-bit_and (bit_and b c))
bit_and_assoc_fuel zero (suc a) b c h = absurd (omega arith)
bit_and_assoc_fuel (suc n) (suc a) b c h =
    let (p, q) = bit_and_digits (suc a) b in
    let (r, s) = bit_and_digits b c in
    let ih = bit_and_assoc_fuel n (suc a / 2) (b / 2) (c / 2) (omega arith) in
    rw (bit_and_step (bit_and (suc a) b) c, bit_and_step (suc a) (bit_and b c), p, q, r, s, ih)
      (omega arith)

pub bit_and_assoc : (a b c : ℕ) → bit_and (bit_and a b) c ≡ bit_and a (bit_and b c)
bit_and_assoc a b c = bit_and_assoc_fuel a a b c (le_refl a)

-- The digits of a disjunction, with fuel `k` for those of `x`.
abbrev or_digits : ℕ → ℕ → ℕ → ℕ
or_digits k x y = digits (λ (rest : ℕ). rest) max k x y

or_digits-zero : (k y : ℕ) → or_digits k 0 y ≡ y
or_digits-zero zero y = refl
or_digits-zero (suc k) y = refl

or_digits_enough : (k l x y : ℕ) → x ≤ k → x ≤ l → or_digits l x y ≡ or_digits k x y
or_digits_enough k l zero y enough enough' = rw (or_digits-zero k y, or_digits-zero l y)
or_digits_enough zero l (suc x) y enough enough' = absurd (omega arith)
or_digits_enough (suc k) zero (suc x) y enough enough' = absurd (omega arith)
or_digits_enough (suc k) (suc l) (suc x) y enough enough' =
    rw (or_digits_enough k l (suc x / 2) (y / 2) (omega arith) (omega arith)) refl

pub zero-bit_or : (y : ℕ) → bit_or 0 y ≡ y
zero-bit_or y = bit_or-bitwise 0 y

pub bit_or_step : (x y : ℕ) → bit_or x y ≡ bit_or (x / 2) (y / 2) * 2 + max (x % 2) (y % 2)
bit_or_step zero y = rw (bit_or-bitwise 0 y, bit_or-bitwise 0 (y / 2)) (omega arith)
bit_or_step (suc x) y =
    let half = or_digits_enough (suc x / 2) x (suc x / 2) (y / 2) (omega arith) (omega arith) in
    rw (bit_or-bitwise (suc x) y, bit_or-bitwise (suc x / 2) (y / 2)) (omega (arith, half))

bit_or_digits :
    (x y : ℕ) → (bit_or x y / 2 ≡ bit_or (x / 2) (y / 2)) × (bit_or x y % 2 ≡ max (x % 2) (y % 2))
bit_or_digits x y = omega (arith, bit_or_step x y)

distribute :
    (k x y z : ℕ) → x ≤ k → y ≤ k → bit_and (bit_or x y) z ≡ bit_or (bit_and x z) (bit_and y z)
distribute k zero y z a b = rw (zero-bit_or y, zero-bit_and z, zero-bit_or (bit_and y z))
distribute zero (suc x) y z a b = absurd (omega arith)
distribute (suc k) (suc x) y z a b =
    let (p, q) = bit_or_digits (suc x) y in
    let (r, s) = bit_and_digits (suc x) z in
    let (t, u) = bit_and_digits y z in
    let half = distribute k (suc x / 2) (y / 2) (z / 2) (omega arith) (omega arith) in
    rw
      (
        bit_and_step (bit_or (suc x) y) z,
        bit_or_step (bit_and (suc x) z) (bit_and y z),
        p,
        q,
        r,
        s,
        t,
        u,
        half,
      )
      (omega arith)

pub bit_and-bit_or : (x y z : ℕ) → bit_and (bit_or x y) z ≡ bit_or (bit_and x z) (bit_and y z)
bit_and-bit_or x y z = distribute (x + y) x y z (omega arith) (omega arith)

or_nothing : (x k : ℕ) → x ≤ k → bit_or x 0 ≡ x
or_nothing zero k enough = zero-bit_or 0
or_nothing (suc x) zero enough = absurd (omega arith)
or_nothing (suc x) (suc k) enough =
    let half = or_nothing (suc x / 2) k (omega arith) in omega (arith, half, bit_or_step (suc x) 0)

pub bit_or-zero : (x : ℕ) → bit_or x 0 ≡ x
bit_or-zero x = or_nothing x x (le_refl x)

swapped : (k x y : ℕ) → x ≤ k → bit_and x y ≡ bit_and y x
swapped k zero y enough = rw (zero-bit_and y, bit_and-zero y) refl
swapped zero (suc x) y enough = absurd (omega arith)
swapped (suc k) (suc x) y enough =
    let half = swapped k (suc x / 2) (y / 2) (omega arith) in
    omega (arith, half, bit_and_step (suc x) y, bit_and_step y (suc x))

pub bit_and_comm : (x y : ℕ) → bit_and x y ≡ bit_and y x
bit_and_comm x y = swapped x x y (le_refl x)

same_digits : (x k : ℕ) → x ≤ k → bit_and x x ≡ x
same_digits zero k enough = zero-bit_and 0
same_digits (suc x) zero enough = absurd (omega arith)
same_digits (suc x) (suc k) enough =
    let half = same_digits (suc x / 2) k (omega arith) in
    omega (arith, half, bit_and_step (suc x) (suc x))

pub bit_and_self : (x : ℕ) → bit_and x x ≡ x
bit_and_self x = same_digits x x (le_refl x)
