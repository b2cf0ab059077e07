-- ===== src/Common/Components.antt =====
-- The loop over a path's components that the program writes with `find('/', start)`: the texts
-- between the slashes, the empty ones too.
use andlify.Common.Tests.{◌==◌, if◌then◌else◌, Bool-cases}
use andlify.Common.Bytes.{Bytes}
use Prim.Native.Nat.{ℕ}
use mathlib.Core.Path.{◌≡◌, refl, ap, ◌∙◌}
use mathlib.Core.Logic.{◌≢◌, inl, inr}
use mathlib.Core.List.{List, [], ◌∷◌, ◌++◌}
use native.Mathlib.Omega.{arith}

-- A byte in front of the first component.
unfoldable pub cons_head : ℕ → List Bytes → List Bytes
cons_head c [] = (c ∷ []) ∷ []
cons_head c (t ∷ ts) = (c ∷ t) ∷ ts

unfoldable pub tokens : Bytes → List Bytes
unfolding cons_head
tokens [] = [] ∷ []
tokens (c ∷ s) = let rest = tokens s in if c == b'/' then [] ∷ rest else cons_head c rest

-- The components with a slash between each two.
unfoldable pub join : List Bytes → Bytes
join [] = []
join (t ∷ []) = t
join (t ∷ u ∷ ts) = t ++ (b'/' ∷ join (u ∷ ts))

abbrev pub NoSlash : Bytes → Type 0
NoSlash [] = Unit
NoSlash (c ∷ s) = (c ≢ b'/') × NoSlash s

abbrev pub All {ℓ κ} : {A : Type ℓ} → (A → Type κ) → List A → Type κ
All P [] = Unit
All P (x ∷ xs) = P x × All P xs

pub All-append {ℓ κ} :
    {A : Type ℓ} (P : A → Type κ) (xs ys : List A) → All P xs → All P ys → All P (xs ++ ys)
All-append P [] ys p q = q
All-append P (x ∷ xs) ys p q = (p.0, All-append P xs ys p.1 q)

tokens-ne-nil : (s : Bytes) → tokens s ≢ []
unfolding tokens
tokens-ne-nil [] = ground arith
tokens-ne-nil (c ∷ s) = elim (Bool-cases (c == b'/')) [
  | inl e ↦ rw e (ground arith)
  | inr e ↦ rw e (go (tokens s))
]
  where
    go : (ts : List Bytes) → cons_head c ts ≢ []
    go [] = ground arith
    go (t ∷ ts) = ground arith

-- A slash ends a component.
pub tokens-append_slash : (a b : Bytes) → tokens (a ++ (b'/' ∷ b)) ≡ tokens a ++ tokens b
unfolding tokens
tokens-append_slash [] b = refl
tokens-append_slash (c ∷ a) b = elim (Bool-cases (c == b'/')) [
  | inl e ↦ rw (e, tokens-append_slash a b)
  | inr e ↦ rw (e, tokens-append_slash a b) (go (tokens a) (tokens-ne-nil a))
]
  where
    go : (ts : List Bytes) → ts ≢ [] → cons_head c (ts ++ tokens b) ≡ cons_head c ts ++ tokens b
    go [] h = absurd (h refl)
    go (t ∷ ts) h = refl

pub tokens_single : (t : Bytes) → NoSlash t → tokens t ≡ t ∷ []
unfolding tokens
tokens_single [] h = refl
tokens_single (c ∷ t) h = ground (arith, tokens_single t h.1)

-- Splitting undoes joining.
pub tokens-join :
    (t : Bytes) (ts : List Bytes) → All NoSlash (t ∷ ts) → tokens (join (t ∷ ts)) ≡ t ∷ ts
unfolding join
tokens-join t [] h = tokens_single t h.0
tokens-join t (u ∷ ts) h =
    tokens-append_slash t (join (u ∷ ts))
    ∙ (ap (λ l. l ++ tokens (join (u ∷ ts))) (tokens_single t h.0)
        ∙ ap (λ l. t ∷ l) (tokens-join u ts h.1))

-- No component holds a slash.
pub tokens-NoSlash : (s : Bytes) → All NoSlash (tokens s)
unfolding tokens
tokens-NoSlash [] = (tt, tt)
tokens-NoSlash (c ∷ s) = elim (Bool-cases (c == b'/')) [
  | inl e ↦ rw e (tt, tokens-NoSlash s)
  | inr e ↦ rw e (go (tokens s) (tokens-NoSlash s) (ground arith))
]
  where
    go : (ts : List Bytes) → All NoSlash ts → c ≢ b'/' → All NoSlash (cons_head c ts)
    go [] h n = ((n, tt), tt)
    go (t ∷ ts) h n = ((n, h.0), h.1)
