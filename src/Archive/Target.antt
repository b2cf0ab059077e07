-- ===== src/Archive/Target.antt =====
-- Where the names that `NormalizeArchivePath` lets through lead: `JoinPath`, and the target path in
-- `ExtractRootfs`.
use andlify.Common.{
  ℕ, true, false, not, ◌&&◌, List, [], ◌∷◌, ◌++◌, ◌≡◌, ◌≢◌, ◌⊎◌, inl, inr, refl, sym, ap, ◌∙◌,
  arith, if◌then◌else◌, Bool-cases, ◌==◌, some,
}
use andlify.Common.Bytes.{Bytes, codes, str_eq, is_empty, str_eq_iff}
use andlify.Common.Components.{
  tokens, join, All, NoSlash, tokens-append_slash, tokens-join, tokens-NoSlash,
}
use andlify.VirtualPath.{push_components}
use andlify.VirtualPath.Laws.{
  IsPlain, push_components-append, push_components_plain, push_empty, All-NoSlash,
}
use mathlib.Core.Path.{subst}
use mathlib.Core.List.{append_assoc, append-nil}
use andlify.Archive.Normalize.{is_kept, kept, has_dot_dot, normalize_archive_path_lem}
use andlify.Archive.{
  or_dot, normalize_archive_path, join_path, join_right, ends_in_slash, target_path,
}

kept-IsPlain : (ts : List Bytes) → All NoSlash ts → has_dot_dot ts ≡ false → All IsPlain (kept ts)
unfolding kept has_dot_dot is_kept
kept-IsPlain [] n h = tt
kept-IsPlain (t ∷ ts) n h = elim (Bool-cases (not (is_empty t) && not (str_eq t (codes ".")))) [
  | inr e ↦ rw e (kept-IsPlain ts n.1 (ground arith))
  | inl e ↦ rw e (
    (
      n.0,
      (λ q. not_empty t (ground arith) q),
      (λ q. ground (arith, str_eq_iff t (codes "."))),
      (λ q. ground (arith, str_eq_iff t (codes ".."))),
    ),
    kept-IsPlain ts n.1 (ground arith),
  )
]
  where
    not_empty : (t : Bytes) → is_empty t ≡ false → t ≢ []
    not_empty [] h = unfold is_empty in ground arith
    not_empty (c ∷ t) h = ground arith

plain_kept : (ts : List Bytes) → All IsPlain ts → (kept ts ≡ ts) × (has_dot_dot ts ≡ false)
unfolding kept has_dot_dot is_kept is_empty
plain_kept [] h = (refl, refl)
plain_kept ([] ∷ ts) h = absurd (h.0.1 refl)
plain_kept ((c ∷ t) ∷ ts) h =
    ground (
      arith,
      plain_kept ts h.1,
      h.0,
      str_eq_iff (c ∷ t) (codes "."),
      str_eq_iff (c ∷ t) (codes ".."),
    )

-- `.`, or plain components with single slashes between them.
abbrev pub IsRelative : Bytes → Type 0
IsRelative r =
    (r ≡ codes ".") ⊎ ((c : Bytes) × (cs : List Bytes) × (r ≡ join (c ∷ cs)) × All IsPlain (c ∷ cs))

or_dot-join :
    (t : Bytes) (ts : List Bytes) → All IsPlain (t ∷ ts) → or_dot (join (t ∷ ts)) ≡ join (t ∷ ts)
unfolding or_dot join is_empty
or_dot-join [] ts h = absurd (h.0.1 refl)
or_dot-join (c ∷ t) [] h = refl
or_dot-join (c ∷ t) (u ∷ ts) h = refl

or_dot-IsRelative : (ts : List Bytes) → All IsPlain ts → IsRelative (or_dot (join ts))
or_dot-IsRelative [] h = inl (unfold or_dot join is_empty in refl)
or_dot-IsRelative (t ∷ ts) h = inr (t, ts, or_dot-join t ts h, h)

normalized-IsRelative :
    (path : Bytes) {r : Bytes} → normalize_archive_path path ≡ some r → IsRelative r
normalized-IsRelative path {r} h =
    let e = sym (normalize_archive_path_lem path) ∙ h in
    elim (Bool-cases (has_dot_dot (tokens path))) [
      | inl d ↦ absurd (ground arith)
      | inr d ↦
          let q : or_dot (join (kept (tokens path))) ≡ r = ground arith in
          rw q at (
            or_dot-IsRelative (kept (tokens path))
              (kept-IsPlain (tokens path) (tokens-NoSlash path) d))
    ]

dot_normalized : normalize_archive_path (codes ".") ≡ some (codes ".")
dot_normalized =
    normalize_archive_path_lem (codes ".")
    ∙ (unfold tokens kept has_dot_dot is_kept is_empty str_eq join or_dot in refl)

-- A name that has been accepted is accepted again, unchanged.
pub normalize_archive_path_idem :
    (path : Bytes) {r : Bytes}
    → normalize_archive_path path ≡ some r
    → normalize_archive_path r ≡ some r
normalize_archive_path_idem path {r} h = elim (normalized-IsRelative path h) [
  | inl e ↦ rw e dot_normalized
  | inr (c, cs, e, p) ↦
      let k = plain_kept (c ∷ cs) p in
      rw
        (
          e,
          normalize_archive_path_lem (join (c ∷ cs)),
          tokens-join c cs (All-NoSlash (c ∷ cs) p),
          k.0,
          k.1,
        )
        (ap some (or_dot-join c cs p))
]

ends_in_slash_split : (s : Bytes) → ends_in_slash s ≡ true → (d : Bytes) × (s ≡ d ++ codes "/")
unfolding ends_in_slash
ends_in_slash_split [] h = absurd (ground arith)
ends_in_slash_split (c ∷ []) h = ([], ground arith)
ends_in_slash_split (c ∷ d ∷ s) h =
    let (t, e) = ends_in_slash_split (d ∷ s) h in (c ∷ t, ap (λ x. c ∷ x) e)

-- A destination and a name that starts with no slash.
join_path_lem :
    (dst : Bytes) (c : ℕ) (s : Bytes)
    → (c == b'/') ≡ false
    → join_path dst (c ∷ s) ≡ (
        if is_empty dst
        then c ∷ s
        else if ends_in_slash dst
        then dst ++ (c ∷ s)
        else dst ++ (b'/' ∷ c ∷ s))
unfolding join_path join_right
join_path_lem [] c s h = unfold is_empty in refl
join_path_lem (d ∷ dst) c s h = elim (Bool-cases (ends_in_slash (d ∷ dst))) [
  | inl e ↦ unfold is_empty in rw (e, h)
  | inr e ↦ unfold is_empty in rw (e, h) (append_assoc (d ∷ dst) (codes "/") (c ∷ s))
]

-- A text that ends in a slash, and one more after it.
push_slash_end :
    (t s : Bytes)
    → push_components [] (tokens ((t ++ codes "/") ++ s))
      ≡ push_components (push_components [] (tokens (t ++ codes "/"))) (tokens s)
push_slash_end t s =
    rw
      (
        append_assoc t (codes "/") s,
        tokens-append_slash t s,
        tokens-append_slash t [],
        push_components-append,
        push_components-append,
      )
      (ap (λ l. push_components l (tokens s)) (sym (skip (push_components [] (tokens t)))))
  where
    skip : (cs : List Bytes) → push_components cs (tokens []) ≡ cs
    skip cs = unfold tokens push_components in push_empty cs

-- The components of a joined path are those of its two parts.
push_components-join_path :
    (dst : Bytes) (c : ℕ) (s : Bytes)
    → (c == b'/') ≡ false
    → push_components [] (tokens (join_path dst (c ∷ s)))
      ≡ push_components (push_components [] (tokens dst)) (tokens (c ∷ s))
push_components-join_path [] c s h =
    rw (join_path_lem [] c s h) (unfold tokens is_empty push_components in rw push_empty refl)
push_components-join_path (d ∷ dst) c s h = elim (Bool-cases (ends_in_slash (d ∷ dst))) [
  | inr e ↦
      unfold is_empty in
      rw (join_path_lem (d ∷ dst) c s h, e, tokens-append_slash (d ∷ dst) (c ∷ s))
        (push_components-append [] (tokens (d ∷ dst)) (tokens (c ∷ s)))
  | inl e ↦
      let (t, p) = ends_in_slash_split (d ∷ dst) e in
      unfold is_empty in
      rw (join_path_lem (d ∷ dst) c s h, e)
        (subst
          (λ x.
            push_components [] (tokens (x ++ (c ∷ s)))
            ≡ push_components (push_components [] (tokens x)) (tokens (c ∷ s)))
          (sym p) (push_slash_end t (c ∷ s)))
]

join_split :
    (c : Bytes) (cs : List Bytes)
    → All IsPlain (c ∷ cs)
    → (a : ℕ) × (s : Bytes) × (join (c ∷ cs) ≡ a ∷ s) × ((a == b'/') ≡ false)
unfolding join
join_split [] cs p = absurd (p.0.1 refl)
join_split (a ∷ t) [] p = (a, t, refl, ground (arith, p.0.0))
join_split (a ∷ t) (u ∷ us) p = (a, t ++ (b'/' ∷ join (u ∷ us)), refl, ground (arith, p.0.0))

push_components-join_plain :
    (dst c : Bytes) (cs : List Bytes)
    → All IsPlain (c ∷ cs)
    → push_components [] (tokens (join_path dst (join (c ∷ cs))))
      ≡ push_components [] (tokens dst) ++ (c ∷ cs)
push_components-join_plain dst c cs p =
    let (a, s, e, n) = join_split c cs p in
    ap (λ x. push_components [] (tokens (join_path dst x))) e
    ∙ (push_components-join_path dst a s n
        ∙ (ap (λ x. push_components (push_components [] (tokens dst)) (tokens x)) (sym e)
            ∙ (ap (push_components (push_components [] (tokens dst)))
                  (tokens-join c cs (All-NoSlash (c ∷ cs) p))
                ∙ push_components_plain (push_components [] (tokens dst)) (c ∷ cs) p)))

-- An accepted name is extracted to the destination or beneath it: read component by component, the
-- target is the destination followed by plain components, so no `..` of the name leads out of it.
pub target_path-components :
    (dst path : Bytes) {r : Bytes}
    → normalize_archive_path path ≡ some r
    → (cs : List Bytes) × (push_components [] (tokens (target_path dst r))
        ≡ push_components [] (tokens dst) ++ cs)
      × All IsPlain cs
unfolding target_path
target_path-components dst path {r} h = elim (Bool-cases (str_eq r (codes "."))) [
  | inl e ↦ ([], rw e (sym (append-nil (push_components [] (tokens dst)))), tt)
  | inr e ↦ elim (normalized-IsRelative path h) [
    | inl q ↦ absurd (ground (arith, str_eq_iff r (codes ".")))
    | inr (c, cs, q, p) ↦ (c ∷ cs, rw (e, q) (push_components-join_plain dst c cs p), p)
  ]
]
