-- ===== src/Rewrite/Prefix.antt =====
-- The prefix that path_rewrite.cpp puts before a path.
use andlify.Common.{
  ℕ, [], ◌∷◌, ◌++◌, ◌≡◌, ◌≢◌, ◌⊎◌, inl, inr, refl, sym, ap, ◌∙◌, arith, Bool-cases,
}
use andlify.Common.{◌==◌, if◌then◌else◌}
use andlify.Common.Bytes.{Bytes, is_empty}
use mathlib.Core.List.{reverse, reverse-reverse, reverse-append}
use andlify.Common.{suc, replicate, reverse-replicate}
use andlify.Rewrite.{slash, pop_slashes, trim_slashes, normalize_rootfs_prefix}

-- The last byte, if there is one before it, is no slash.
abbrev pub IsTrimmedEnd : Bytes → Type 0
IsTrimmedEnd [] = Unit
IsTrimmedEnd (c ∷ []) = Unit
IsTrimmedEnd (c ∷ d ∷ s) = c ≢ slash

pub pop_slashes-IsTrimmedEnd : (s : Bytes) → IsTrimmedEnd (pop_slashes s)
unfolding pop_slashes
pop_slashes-IsTrimmedEnd [] = tt
pop_slashes-IsTrimmedEnd (c ∷ []) = tt
pop_slashes-IsTrimmedEnd (c ∷ d ∷ s) = elim (Bool-cases (c == slash)) [
  | inl e ↦ rw e (pop_slashes-IsTrimmedEnd (d ∷ s))
  | inr e ↦ rw e (λ h. ground arith)
]

pub pop_slashes_fixed : (s : Bytes) → IsTrimmedEnd s → pop_slashes s ≡ s
unfolding pop_slashes
pop_slashes_fixed [] h = refl
pop_slashes_fixed (c ∷ []) h = refl
pop_slashes_fixed (c ∷ d ∷ s) h = ground arith

pub pop_slashes-ne-nil : (c : ℕ) (s : Bytes) → pop_slashes (c ∷ s) ≢ []
unfolding pop_slashes
pop_slashes-ne-nil c [] = ground arith
pop_slashes-ne-nil c (d ∷ s) = ground (arith, pop_slashes-ne-nil d s)

-- The slashes that are popped, as a count.
popped : Bytes → ℕ
popped [] = 0
popped (c ∷ []) = 0
popped (c ∷ d ∷ s) = let rest = popped (d ∷ s) in if c == slash then suc rest else 0

popped_lem : (s : Bytes) → s ≡ replicate (popped s) slash ++ pop_slashes s
unfolding popped pop_slashes
popped_lem [] = refl
popped_lem (c ∷ []) = refl
popped_lem (c ∷ d ∷ s) = ground (arith, popped_lem (d ∷ s))

trim_slashes_split : (s : Bytes) → s ≡ trim_slashes s ++ replicate (popped (reverse s)) slash
unfolding trim_slashes
trim_slashes_split s =
    sym (reverse-reverse s)
    ∙ (ap reverse (popped_lem (reverse s))
        ∙ (reverse-append (replicate (popped (reverse s)) slash) (pop_slashes (reverse s))
            ∙ ap (λ l. reverse (pop_slashes (reverse s)) ++ l)
                (reverse-replicate (popped (reverse s)) slash)))

trim_slashes_idem : (s : Bytes) → trim_slashes (trim_slashes s) ≡ trim_slashes s
unfolding trim_slashes
trim_slashes_idem s = rw (
  reverse-reverse (pop_slashes (reverse s)),
  pop_slashes_fixed (pop_slashes (reverse s)) (pop_slashes-IsTrimmedEnd (reverse s)),
)

reverse-ne-nil : (s : Bytes) → s ≢ [] → reverse s ≢ []
reverse-ne-nil s h e = h (sym (reverse-reverse s) ∙ ap reverse e)

pop_slashes_keeps : (s : Bytes) → s ≢ [] → pop_slashes s ≢ []
unfolding pop_slashes
pop_slashes_keeps [] h = h
pop_slashes_keeps (c ∷ s) h = pop_slashes-ne-nil c s

trim_slashes-ne-nil : (s : Bytes) → s ≢ [] → trim_slashes s ≢ []
unfolding trim_slashes
trim_slashes-ne-nil s h =
    reverse-ne-nil (pop_slashes (reverse s)) (pop_slashes_keeps (reverse s) (reverse-ne-nil s h))

-- What a normalised prefix looks like from its end: a lone byte, or a last byte that is no slash.
abbrev pub IsNormalPrefix : Bytes → Type 0
IsNormalPrefix s = (s ≢ []) × IsTrimmedEnd (reverse s)

-- The prefix is never empty, ends in a slash only if it is `/`, is normalised by one pass, and a
-- path that is not empty is its prefix followed by slashes alone.
pub normalize_rootfs_prefix_lem :
    (path : Bytes)
    → IsNormalPrefix (normalize_rootfs_prefix path)
      × (normalize_rootfs_prefix (normalize_rootfs_prefix path) ≡ normalize_rootfs_prefix path)
      × ((path ≡ []) ⊎ ((k : ℕ) × (path ≡ normalize_rootfs_prefix path ++ replicate k slash)))
unfolding normalize_rootfs_prefix is_empty
normalize_rootfs_prefix_lem [] =
    ((ground arith, tt), unfold trim_slashes pop_slashes in refl, inl refl)
normalize_rootfs_prefix_lem (c ∷ s) = (
  (
    trim_slashes-ne-nil (c ∷ s) (ground arith),
    unfold trim_slashes in rw reverse-reverse (pop_slashes-IsTrimmedEnd (reverse (c ∷ s))),
  ),
  ground (arith, trim_slashes_idem (c ∷ s), trim_slashes-ne-nil (c ∷ s)),
  inr (popped (reverse (c ∷ s)), trim_slashes_split (c ∷ s)),
)
