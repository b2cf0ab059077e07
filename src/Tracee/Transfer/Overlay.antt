-- ===== src/Tracee/Transfer/Overlay.antt =====
-- The bytes of a memory as a function of the address: a window of them, and data written over them.
use andlify.Common.{
  ℕ, zero, suc, ◌+◌, ◌-◌, ◌≤◌, ◌<◌, true, false, [], ◌∷◌, ◌++◌, ◌≡◌, ◌⊎◌, inl, inr, refl, sym, ap,
  ◌∙◌, arith, if◌then◌else◌, ◌==◌, ltb, take, drop, length, Bool-cases,
}
use native.Mathlib.Nat.{le_refl}
use mathlib.Core.Path.{fun_ext}
use andlify.Common.Bytes.{Bytes}

-- The bytes from an address on.
unfoldable pub window : (ℕ → ℕ) → ℕ → ℕ → Bytes
window f a zero = []
window f a (suc n) = f a ∷ window f (a + 1) n

-- The bytes of a memory with the data written over them.
unfoldable pub overlay : (ℕ → ℕ) → ℕ → Bytes → ℕ → ℕ
overlay f a [] x = f x
overlay f a (b ∷ data') x = if x == a then b else overlay f (a + 1) data' x

pub window-append :
    (f : ℕ → ℕ) (a n m : ℕ) → window f a (n + m) ≡ window f a n ++ window f (a + n) m
unfolding window
window-append f a zero m =
    let count : 0 + m ≡ m = omega arith in
    let start : a + 0 ≡ a = omega arith in rw (count, start) refl
window-append f a (suc n) m =
    let count : suc n + m ≡ suc (n + m) = omega arith in
    let start : a + 1 + n ≡ a + suc n = omega arith in
    rw count (
      ap (λ l. f a ∷ l)
        (window-append f (a + 1) n m ∙ ap (λ k. window f (a + 1) n ++ window f k m) start))

pub take-window : (f : ℕ → ℕ) (a n k : ℕ) → k ≤ n → take k (window f a n) ≡ window f a k
unfolding window
take-window f a n zero h = refl
take-window f a zero (suc k) h = absurd (omega arith)
take-window f a (suc n) (suc k) h = ap (λ l. f a ∷ l) (take-window f (a + 1) n k (omega arith))

pub drop-window : (f : ℕ → ℕ) (a n k : ℕ) → k ≤ n → drop k (window f a n) ≡ window f (a + k) (n - k)
unfolding window
drop-window f a n zero h =
    ap (λ x. window f x n) (omega arith) ∙ ap (window f (a + 0)) (omega arith)
drop-window f a zero (suc k) h = absurd (omega arith)
drop-window f a (suc n) (suc k) h =
    drop-window f (a + 1) n k (omega arith)
    ∙ (ap (λ x. window f x (n - k)) (omega arith) ∙ ap (window f (a + suc k)) (omega arith))

pub length-window : (f : ℕ → ℕ) (a n : ℕ) → length (window f a n) ≡ n
unfolding window
length-window f a zero = refl
length-window f a (suc n) = ap suc (length-window f (a + 1) n)

-- A window in two parts.
pub window_parts :
    (f : ℕ → ℕ) (a n k : ℕ) → k ≤ n → window f a n ≡ window f a k ++ window f (a + k) (n - k)
window_parts f a n k h = ap (window f a) (omega arith) ∙ window-append f a k (n - k)

pub overlay_before : (f : ℕ → ℕ) (a : ℕ) (data' : Bytes) (x : ℕ) → x < a → overlay f a data' x ≡ f x
unfolding overlay
overlay_before f a [] x h = refl
overlay_before f a (b ∷ data') x h =
    let other : (x == a) ≡ false = ground arith in
    rw other (overlay_before f (a + 1) data' x (omega arith))

pub overlay_after :
    (f : ℕ → ℕ) (a : ℕ) (data' : Bytes) (x : ℕ) → a + length data' ≤ x → overlay f a data' x ≡ f x
unfolding overlay
overlay_after f a [] x h = refl
overlay_after f a (b ∷ data') x h =
    let other : (x == a) ≡ false = ground arith in
    rw other (overlay_after f (a + 1) data' x (omega arith))

pub overlay_at :
    (f g : ℕ → ℕ) (a : ℕ) (data' : Bytes) (x : ℕ)
    → f x ≡ g x
    → overlay f a data' x ≡ overlay g a data' x
unfolding overlay
overlay_at f g a [] x h = h
overlay_at f g a (b ∷ data') x h = elim (Bool-cases (x == a)) [
  | inl e ↦ rw e refl
  | inr e ↦ rw e (overlay_at f g (a + 1) data' x h)
]

-- Two writes, one after the other.
pub overlay-append :
    (f : ℕ → ℕ) (a : ℕ) (s t : Bytes) (x : ℕ)
    → overlay f a (s ++ t) x ≡ overlay (overlay f a s) (a + length s) t x
unfolding overlay
overlay-append f a [] t x = ap (λ k. overlay f k t x) (omega arith)
overlay-append f a (b ∷ s) t x = elim (Bool-cases (x == a)) [
  | inl e ↦
      let before = overlay_before (overlay f a (b ∷ s)) (a + suc (length s)) t x (ground arith) in
      rw e (sym (before ∙ rw e refl))
  | inr e ↦
      let start : a + 1 + length s ≡ a + suc (length s) = omega arith in
      let same : overlay f (a + 1) s x ≡ overlay f a (b ∷ s) x = rw e refl in
      rw e (
        overlay-append f (a + 1) s t x
        ∙ (ap (λ k. overlay (overlay f (a + 1) s) k t x) start
            ∙ overlay_at (overlay f (a + 1) s) (overlay f a (b ∷ s)) (a + suc (length s)) t x same))
]

-- A write of what is there changes nothing.
pub overlay-window :
    (f g : ℕ → ℕ) (a n x : ℕ) → ((y : ℕ) → a ≤ y → g y ≡ f y) → overlay g a (window f a n) x ≡ g x
unfolding overlay window
overlay-window f g a zero x h = refl
overlay-window f g a (suc n) x h = elim (Bool-cases (x == a)) [
  | inl e ↦ let same : a ≡ x = ground arith in rw e (sym (h a (le_refl a)) ∙ ap g same)
  | inr e ↦ rw e (overlay-window f g (a + 1) n x (λ y k. h y (omega arith)))
]

pub window-overlay :
    (f : ℕ → ℕ) (a : ℕ) (data' : Bytes) → window (overlay f a data') a (length data') ≡ data'
unfolding overlay window
window-overlay f a data' = go f a data' (overlay f a data') (λ x h. refl)
  where
    go :
        (f : ℕ → ℕ) (a : ℕ) (data' : Bytes) (g : ℕ → ℕ)
        → ((x : ℕ) → a ≤ x → g x ≡ overlay f a data' x)
        → window g a (length data') ≡ data'
    go f a [] g h = refl
    go f a (b ∷ data') g h =
        let self : (a == a) ≡ true = ground arith in
        let first : g a ≡ b = h a (le_refl a) ∙ rw self refl in
        rw first (
          ap (λ l. b ∷ l)
            (go f (a + 1) data' g (λ x k.
              let other : (x == a) ≡ false = ground arith in h x (omega arith) ∙ rw other refl)))

-- Inside the range the bytes from before do not count.
pub overlay_inside :
    (f g : ℕ → ℕ) (a : ℕ) (data' : Bytes) (x : ℕ)
    → a ≤ x
    → x < a + length data'
    → overlay f a data' x ≡ overlay g a data' x
unfolding overlay
overlay_inside f g a [] x h k = absurd (omega arith)
overlay_inside f g a (b ∷ data') x h k = elim (Bool-cases (x == a)) [
  | inl e ↦ rw e refl
  | inr e ↦ rw e (overlay_inside f g (a + 1) data' x (ground arith) (omega arith))
]

pub overlay_again :
    (f g : ℕ → ℕ) (a : ℕ) (data' : Bytes) (x : ℕ)
    → ((x < a) ⊎ (a + length data' ≤ x) → g x ≡ f x)
    → overlay g a data' x ≡ overlay f a data' x
overlay_again f g a data' x h = elim (Bool-cases (ltb x a)) [
  | inl e ↦ overlay_at g f a data' x (h (inl (ground arith)))
  | inr e ↦ elim (Bool-cases (ltb x (a + length data'))) [
    | inl k ↦ overlay_inside g f a data' x (ground arith) (ground arith)
    | inr k ↦ overlay_at g f a data' x (h (inr (ground arith)))
  ]
]

pub window_same : (f g : ℕ → ℕ) (a n : ℕ) → ((x : ℕ) → f x ≡ g x) → window f a n ≡ window g a n
window_same f g a n same = ap (λ h. window h a n) (fun_ext same)
