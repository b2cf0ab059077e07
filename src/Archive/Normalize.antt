-- ===== src/Archive/Normalize.antt =====
-- `NormalizeArchivePath` against a description by components, and what follows for the paths that
-- `ExtractRootfs` writes to.
use andlify.Common.{
  ℕ, zero, suc, Bool, true, false, not, ◌&&◌, ◌||◌, List, [], ◌∷◌, ◌++◌, ◌≡◌, inl, inr, refl, sym,
  ap, ◌∙◌, arith, if◌then◌else◌, Bool-cases, ◌==◌, Option, none, some, replicate, reverse-replicate,
}
use andlify.Common.Bytes.{Bytes, codes, str_eq, is_empty, str_eq_iff}
use andlify.Common.Components.{tokens, join, tokens-append_slash}
use mathlib.Core.List.{append_assoc, append-nil, reverse, reverse-reverse, reverse-append}
use andlify.Archive.{
  drop_slashes, strip_slashes, append_token, normalize_tokens, or_dot, normalize_archive_path,
}

-- The components that stay: not empty, and not `.`.
unfoldable pub is_kept : Bytes → Bool
is_kept t = not (is_empty t) && not (str_eq t (codes "."))

unfoldable pub kept : List Bytes → List Bytes
kept [] = []
kept (t ∷ ts) = if is_kept t then t ∷ kept ts else kept ts

unfoldable pub has_dot_dot : List Bytes → Bool
has_dot_dot [] = false
has_dot_dot (t ∷ ts) = str_eq t (codes "..") || has_dot_dot ts

kept-append : (ts us : List Bytes) → kept (ts ++ us) ≡ kept ts ++ kept us
unfolding kept
kept-append [] us = refl
kept-append (t ∷ ts) us = ground (arith, kept-append ts us)

has_dot_dot-append :
    (ts us : List Bytes) → has_dot_dot (ts ++ us) ≡ (has_dot_dot ts || has_dot_dot us)
unfolding has_dot_dot
has_dot_dot-append [] us = refl
has_dot_dot-append (t ∷ ts) us = ground (arith, has_dot_dot-append ts us)

-- Two texts with the same components, as far as the loop looks at them.
SameTokens : Bytes → Bytes → Type 0
SameTokens a b =
    (kept (tokens a) ≡ kept (tokens b)) × (has_dot_dot (tokens a) ≡ has_dot_dot (tokens b))

SameTokens-trans : (a b c : Bytes) → SameTokens a b → SameTokens b c → SameTokens a c
unfolding SameTokens
SameTokens-trans a b c p q = (p.0 ∙ q.0, p.1 ∙ q.1)

slash-SameTokens : (c : ℕ) (s : Bytes) → (c == b'/') ≡ true → SameTokens s (c ∷ s)
unfolding SameTokens kept has_dot_dot is_kept is_empty str_eq
slash-SameTokens c s h =
    let e : tokens (c ∷ s) ≡ [] ∷ tokens s = unfold tokens in rw h in
    (ap kept (sym e), ap has_dot_dot (sym e))

drop_slashes-SameTokens : (s : Bytes) → SameTokens (drop_slashes s) s
unfolding drop_slashes
drop_slashes-SameTokens [] = unfold SameTokens in (refl, refl)
drop_slashes-SameTokens (c ∷ s) = elim (Bool-cases (c == b'/')) [
  | inl e ↦ rw e (
      SameTokens-trans (drop_slashes s) s (c ∷ s) (drop_slashes-SameTokens s)
        (slash-SameTokens c s e))
  | inr e ↦ rw e (unfold SameTokens in (refl, refl))
]

leading : Bytes → ℕ
leading [] = 0
leading (c ∷ s) = let rest = leading s in if c == b'/' then suc rest else 0

leading_lem : (s : Bytes) → s ≡ replicate (leading s) b'/' ++ drop_slashes s
unfolding leading drop_slashes
leading_lem [] = refl
leading_lem (c ∷ s) = ground (arith, leading_lem s)

slashes-none :
    (k : ℕ)
    → (kept (tokens (replicate k b'/')) ≡ []) × (has_dot_dot (tokens (replicate k b'/')) ≡ false)
unfolding kept has_dot_dot tokens is_kept is_empty str_eq
slashes-none zero = (refl, refl)
slashes-none (suc k) = slashes-none k

append_slashes-SameTokens : (s : Bytes) (k : ℕ) → SameTokens s (s ++ replicate k b'/')
unfolding SameTokens
append_slashes-SameTokens s zero = (
  ap (λ x. kept (tokens x)) (sym (append-nil s)),
  ap (λ x. has_dot_dot (tokens x)) (sym (append-nil s)),
)
append_slashes-SameTokens s (suc k) =
    let h = slashes-none k in
    (
      rw (tokens-append_slash s (replicate k b'/'), kept-append, h.0) (sym (append-nil _)),
      rw (tokens-append_slash s (replicate k b'/'), has_dot_dot-append, h.1) (ground arith),
    )

-- The slashes that are stripped at both ends change no component.
strip_slashes-SameTokens : (s : Bytes) → SameTokens (strip_slashes s) s
unfolding strip_slashes
strip_slashes-SameTokens s =
    SameTokens-trans _ (drop_slashes s) s (back (drop_slashes s)) (drop_slashes-SameTokens s)
  where
    back : (x : Bytes) → SameTokens (reverse (drop_slashes (reverse x))) x
    back x =
        let k = leading (reverse x) in
        let e : reverse (drop_slashes (reverse x)) ++ replicate k b'/' ≡ x =
          ap (λ l. reverse (drop_slashes (reverse x)) ++ l) (sym (reverse-replicate k b'/'))
          ∙ (sym (reverse-append (replicate k b'/') (drop_slashes (reverse x)))
              ∙ (ap reverse (sym (leading_lem (reverse x))) ∙ reverse-reverse x)) in
        rw e at (append_slashes-SameTokens (reverse (drop_slashes (reverse x))) k)

is_nil : List Bytes → Bool
is_nil [] = true
is_nil (t ∷ us) = false

-- The text that the loop holds after the components `ts`.
IsHeld : Bytes → List Bytes → Type 0
IsHeld normalized ts = (normalized ≡ join ts) × (is_empty normalized ≡ is_nil ts)

join_snoc :
    (t : Bytes) (ts : List Bytes) (u : Bytes)
    → join ((t ∷ ts) ++ (u ∷ [])) ≡ join (t ∷ ts) ++ (b'/' ∷ u)
unfolding join
join_snoc t [] u = refl
join_snoc t (v ∷ ts) u =
    ap (λ x. t ++ (b'/' ∷ x)) (join_snoc v ts u)
    ∙ sym (append_assoc t (b'/' ∷ join (v ∷ ts)) (b'/' ∷ u))

append_not_empty : (a b : Bytes) (c : ℕ) → is_empty (a ++ (c ∷ b)) ≡ false
unfolding is_empty
append_not_empty [] b c = refl
append_not_empty (x ∷ a) b c = refl

append_token-IsHeld :
    (n : Bytes) (ds : List Bytes) (t : Bytes)
    → IsHeld n ds
    → is_empty t ≡ false
    → IsHeld (append_token n t) (ds ++ (t ∷ []))
unfolding IsHeld is_nil append_token
append_token-IsHeld n [] t h e = rw h.1 (unfold join in rw h.0 (refl, e))
append_token-IsHeld n (d ∷ ds) t h e =
    rw (h.1, append_assoc n (codes "/") t)
      (ap (λ x. x ++ (b'/' ∷ t)) h.0 ∙ sym (join_snoc d ds t), append_not_empty n t b'/')

dot_dot_kept : (t : Bytes) → str_eq t (codes "..") ≡ true → is_kept t ≡ true
dot_dot_kept t h =
    let e : t ≡ codes ".." = (str_eq_iff t (codes "..")).0 h in
    rw e (unfold is_kept is_empty str_eq in refl)

-- The loop refuses `..`, and otherwise appends the components that stay.
normalize_tokens_lem :
    (n : Bytes) (ds ts : List Bytes)
    → IsHeld n ds
    → normalize_tokens n ts ≡ (if has_dot_dot ts then none else some (join (ds ++ kept ts)))
unfolding normalize_tokens has_dot_dot kept is_kept IsHeld
normalize_tokens_lem n ds [] h = ap some (h.0 ∙ ap join (sym (append-nil ds)))
normalize_tokens_lem n ds (t ∷ ts) h = elim (Bool-cases (str_eq t (codes ".."))) [
  | inl e ↦ rw (dot_dot_kept t e, e)
  | inr e ↦ elim (Bool-cases (not (is_empty t) && not (str_eq t (codes ".")))) [
    | inl k ↦
        let f : is_empty t ≡ false = ground arith in
        rw (k, e)
          (normalize_tokens_lem (append_token n t) (ds ++ (t ∷ [])) ts
              (append_token-IsHeld n ds t h f)
            ∙ ap (λ l. if has_dot_dot ts then none else some (join l))
                (append_assoc ds (t ∷ []) (kept ts)))
    | inr k ↦ rw (k, e) (normalize_tokens_lem n ds ts h)
  ]
]

-- A name in an archive is refused exactly when one of its components is `..`; otherwise the result
-- is its components that are neither empty nor `.`, joined by single slashes, or `.` if there are none.
pub normalize_archive_path_lem :
    (path : Bytes)
    → normalize_archive_path path
      ≡ (if has_dot_dot (tokens path) then none else some (or_dot (join (kept (tokens path)))))
unfolding normalize_archive_path
normalize_archive_path_lem path =
    let same = strip_slashes-SameTokens path in
    let run = normalize_tokens_lem [] [] (tokens (strip_slashes path)) held in
    elim (Bool-cases (is_empty (strip_slashes path))) [
      | inl e ↦
          let z : strip_slashes path ≡ [] = empty_text (strip_slashes path) e in
          unfold SameTokens in
          rw (e, ← same.0, ← same.1, z)
            (unfold tokens kept has_dot_dot is_kept is_empty str_eq join or_dot in refl)
      | inr e ↦
          unfold SameTokens in
          rw (e, run, ← same.0, ← same.1)
            (finish (has_dot_dot (tokens (strip_slashes path)))
              (join (kept (tokens (strip_slashes path)))))
    ]
  where
    held : IsHeld [] []
    held = unfold IsHeld join is_empty is_nil in (refl, refl)

    empty_text : (s : Bytes) → is_empty s ≡ true → s ≡ []
    empty_text [] h = refl
    empty_text (c ∷ s) h = absurd (unfold is_empty in ground arith)

    finish :
        (b : Bool) (x : Bytes)
        → ◌≡◌ {A = Option Bytes}
            (elim (if b then none else some x) [
              | none ↦ none
              | some normalized ↦ some (or_dot normalized)
            ])
            (if b then none else some (or_dot x))
    finish true x = refl
    finish false x = refl
