-- ===== src/Common/Powers.antt =====
-- Powers of two, as page sizes and alignments: the tests and the masks that the program makes of them.
use Prim.Native.Nat.{ℕ, zero, suc, ◌+◌, ◌-◌, ◌*◌, ◌/◌, ◌%◌, ◌^◌, ◌≤◌, ◌<◌, min, bit_and}
use mathlib.Core.Path.{subst, ◌≡◌, refl, sym, ap, ◌∙◌}
use mathlib.Core.Logic.{◌≢◌, inl, inr}
use andlify.Common.Tests.{◌==◌, Bool-cases}
use native.Mathlib.Nat.{le_refl}
use native.Mathlib.Omega.{arith}
use andlify.Common.Bits.{bit_and_step, bit_and_self, zero-bit_and}

pub data IsPower : ℕ → Type 0 where
  one : {p : ℕ} → p ≡ 1 → IsPower p
  double : (h : ℕ) {p : ℕ} → IsPower h → p ≡ 2 * h → IsPower p

pub IsPower-positive : (p : ℕ) → IsPower p → 0 < p
IsPower-positive p (one e) = omega arith
IsPower-positive p (double h w e) = omega (arith, IsPower-positive h w)

-- All low bits are kept by the mask below a power.
low_mask : (n x : ℕ) → IsPower n → x < n → bit_and x (n - 1) ≡ x
low_mask n x (one e) h =
    let none : x ≡ 0 = omega arith in
    ap (λ (k : ℕ). bit_and k (n - 1)) none ∙ (zero-bit_and (n - 1) ∙ sym none)
low_mask n x (double m w e) h =
    let half : bit_and (x / 2) (m - 1) ≡ x / 2 = low_mask m (x / 2) w (omega arith) in
    let halved : (n - 1) / 2 ≡ m - 1 = omega (arith, IsPower-positive m w) in
    let step =
      bit_and_step x (n - 1)
      ∙ ap (λ (k : ℕ). bit_and (x / 2) k * 2 + min (x % 2) ((n - 1) % 2)) halved in
    omega (arith, half, step, IsPower-positive m w)

-- A number with the bits below the power `p` cleared by the mask `q * p`.
pub record IsRoundedDown (p x r : ℕ) : Type 0 where
  pub count : ℕ
  pub multiple : r ≡ count * p
  pub below : r ≤ x
  pub near : x < r + p

times-double : (c m p : ℕ) → p ≡ 2 * m → c * p ≡ 2 * (c * m)
times-double c m p e = grind arith

IsRoundedDown-double :
    (m p x r half : ℕ)
    → p ≡ 2 * m
    → IsRoundedDown m (x / 2) half
    → r ≡ 2 * half
    → IsRoundedDown p x r
IsRoundedDown-double m p x r half e h twice = record {
  count = h.count;
  multiple = omega (arith, times-double h.count m p e, h.multiple);
  below = omega (arith, h.below);
  near = omega (arith, h.near);
}

mask_down :
    (p q x : ℕ)
    → IsPower p
    → IsPower (q + 1)
    → x < (q + 1) * p
    → IsRoundedDown p x (bit_and x (q * p))
mask_down p q x (one e) w h =
    let all : q * p ≡ (q + 1) - 1 = grind arith in
    let kept = ap (bit_and x) all ∙ low_mask (q + 1) x w (grind arith) in
    record {
      count = x;
      multiple = grind arith;
      below = omega (arith, kept);
      near = omega (arith, kept, e);
    }
mask_down p q x (double m v e) w h =
    let mask = times-double q m p e in
    let bound = times-double (q + 1) m p e in
    let low : (q * p) % 2 ≡ 0 = omega arith in
    let high : (q * p) / 2 ≡ q * m = omega arith in
    let step =
      bit_and_step x (q * p)
      ∙ ap (λ (k : ℕ). bit_and (x / 2) k * 2 + min (x % 2) ((q * p) % 2)) high in
    IsRoundedDown-double m p x (bit_and x (q * p)) (bit_and (x / 2) (q * m)) e
      (mask_down m q (x / 2) v w (omega arith)) (omega (arith, step, low))

-- The rest of a larger power.
pub cofactor :
    (p w : ℕ) → IsPower p → IsPower w → p ≤ w → (q : ℕ) × IsPower (q + 1) × ((q + 1) * p ≡ w)
cofactor p w (one e) v h =
    let q : (w - 1) + 1 ≡ w = omega (arith, IsPower-positive w v) in
    (w - 1, subst IsPower (sym q) v, omega (arith, ap (λ (k : ℕ). (w - 1 + 1) * k) e))
cofactor p w (double m u e) (one f) h = absurd (omega (arith, IsPower-positive m u))
cofactor p w (double m u e) (double n v f) h =
    let (q, power, times) = cofactor m n u v (omega arith) in
    (q, power, omega (arith, times-double (q + 1) m p e, times))

-- `value & ~(p - 1)` in 64 bits.
unfoldable pub page_down : ℕ → ℕ → ℕ
page_down p value = bit_and value (2 ^ 64 - 1 - (p - 1))

pub power : (k : ℕ) → IsPower (2 ^ k)
power zero = one refl
power (suc k) = double (2 ^ k) (power k) (omega arith)

pub word-IsPower : IsPower (2 ^ 64)
word-IsPower = power 64

pub page_down_lem :
    (p value : ℕ)
    → IsPower p
    → p ≤ 2 ^ 64
    → value < 2 ^ 64
    → IsRoundedDown p value (page_down p value)
unfolding page_down
page_down_lem p value w h lt =
    let (q, power, times) = cofactor p (2 ^ 64) w word-IsPower h in
    let mask : 2 ^ 64 - 1 - (p - 1) ≡ q * p = grind (arith, IsPower-positive p w) in
    rw mask (mask_down p q value w power (omega arith))

-- `align != 0 && (align & (align - 1)) == 0`
IsPower-bit_and : (k a : ℕ) → a ≤ k → a ≢ 0 → bit_and a (a - 1) ≡ 0 → IsPower a
IsPower-bit_and zero a h n e = absurd (omega arith)
IsPower-bit_and (suc k) a h n e = elim (Bool-cases (a % 2 == 0)) [
  | inl even ↦
      let high : (a - 1) / 2 ≡ a / 2 - 1 = ground arith in
      let step =
        bit_and_step a (a - 1)
        ∙ ap (λ (m : ℕ). bit_and (a / 2) m * 2 + min (a % 2) ((a - 1) % 2)) high in
      double (a / 2)
        (IsPower-bit_and k (a / 2) (ground arith) (ground arith) (ground (arith, step)))
        (ground arith)
  | inr odd ↦
      let high : (a - 1) / 2 ≡ a / 2 = ground arith in
      let step =
        bit_and_step a (a - 1)
        ∙ ap (λ (m : ℕ). bit_and (a / 2) m * 2 + min (a % 2) ((a - 1) % 2)) high in
      one (ground (arith, step, bit_and_self (a / 2)))
]

-- A number with no bit in common with the one before it is a power of two.
pub bit_and-IsPower : (a : ℕ) → a ≢ 0 → bit_and a (a - 1) ≡ 0 → IsPower a
bit_and-IsPower a n e = IsPower-bit_and a a (le_refl a) n e
