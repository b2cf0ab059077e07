-- ===== src/Permissions/Search/Parents.antt =====
-- `std::filesystem::path::parent_path` on the paths of a rootfs: it is shorter, and does not leave it.
use andlify.Common.{
  ℕ, ◌≤◌, ◌<◌, true, false, ◌&&◌, [], ◌∷◌, ◌++◌, ◌≡◌, ◌≢◌, ◌⊎◌, inl, inr, refl, sym, ap, ◌∙◌, arith,
  ◌==◌, length, length-append, Bool-cases,
}
use mathlib.Core.List.{reverse, reverse-append, reverse-reverse, append_assoc}
use andlify.Common.Bytes.{
  Bytes, codes, str_eq_refl, starts_with, starts_with-append, starts_with_rest, is_empty,
}
use andlify.Archive.{drop_slashes}
use andlify.Permissions.{drop_name, parent_path, managed}

-- What is left of a text without its last name is shorter, unless it is a slash or nothing.
drop_slashes-le : (s : Bytes) → length (drop_slashes s) ≤ length s
unfolding drop_slashes
drop_slashes-le [] = omega arith
drop_slashes-le (c ∷ s) = elim (Bool-cases (c == b'/')) [
  | inl e ↦ rw e (omega (arith, drop_slashes-le s))
  | inr e ↦ rw e (omega arith)
]

drop_name-le : (s : Bytes) → length (drop_name s) ≤ length s
unfolding drop_name
drop_name-le [] = omega arith
drop_name-le (c ∷ s) = elim (Bool-cases (c == b'/')) [
  | inl e ↦ rw e (omega arith)
  | inr e ↦ rw e (omega (arith, drop_name-le s))
]

last_name-lt : (s : Bytes) → 0 < length s → length (drop_slashes (drop_name s)) < length s
unfolding drop_name drop_slashes
last_name-lt [] h = absurd (omega arith)
last_name-lt (c ∷ s) h = elim (Bool-cases (c == b'/')) [
  | inl e ↦ rw (e, e) (omega (arith, drop_slashes-le s))
  | inr e ↦ rw e (omega (arith, drop_slashes-le (drop_name s), drop_name-le s))
]

length-reverse : (s : Bytes) → length (reverse s) ≡ length s
length-reverse [] = refl
length-reverse (c ∷ s) =
    ap length (reverse-append (c ∷ []) s)
    ∙ (length-append (reverse s) (c ∷ []) ∙ omega (arith, length-reverse s))

pub parent_path-lt : (path : Bytes) → 1 < length path → length (parent_path path) < length path
unfolding parent_path
parent_path-lt path h =
    let parent = reverse (drop_slashes (drop_name (reverse path))) in
    let size = length-reverse (drop_slashes (drop_name (reverse path))) in
    let whole = length-reverse path in
    let less = last_name-lt (reverse path) (omega (arith, whole, h)) in
    elim (Bool-cases (is_empty parent && starts_with (codes "/") path)) [
      | inl e ↦ rw e h
      | inr e ↦ rw e (omega (arith, size, whole, less))
    ]

pub parent_path-le : (path : Bytes) → length (parent_path path) ≤ length path
unfolding parent_path
parent_path-le path =
    let parent = reverse (drop_slashes (drop_name (reverse path))) in
    let size = length-reverse (drop_slashes (drop_name (reverse path))) in
    let whole = length-reverse path in
    elim (Bool-cases (is_empty parent && starts_with (codes "/") path)) [
      | inl e ↦
          let (rest, split) = starts_with_rest (codes "/") path (ground arith) in
          rw e (omega (arith, ap length split))
      | inr e ↦ rw e (
          omega (
            arith,
            size,
            whole,
            drop_slashes-le (drop_name (reverse path)),
            drop_name-le (reverse path),
          ))
    ]

-- The root of a rootfs is named without a slash at the end.
abbrev pub IsRoot : Bytes → Type 0
IsRoot root = (s : Bytes) × (c : ℕ) × (root ≡ s ++ (c ∷ [])) × ((c == b'/') ≡ false)

-- The root of the rootfs or a path beneath it.
abbrev pub IsIn : Bytes → Bytes → Type 0
IsIn root path = (path ≡ root) ⊎ ((t : Bytes) × (path ≡ root ++ (b'/' ∷ t)))

pub IsIn-managed : (root path : Bytes) → IsIn root path → managed root path ≡ true
unfolding managed
IsIn-managed root path (inl e) = rw (e, str_eq_refl root) refl
IsIn-managed root path (inr (t, e)) =
    let prefix : starts_with (root ++ codes "/") path ≡ true =
      ap (starts_with (root ++ codes "/")) (e ∙ sym (append_assoc root (codes "/") t))
      ∙ starts_with-append (root ++ codes "/") t in
    ground arith

-- A text from its end, up to a slash and a byte that is none.
module _ (c : ℕ) (r : Bytes) (plain : (c == b'/') ≡ false) where
  drop_name_to :
      (q : Bytes) → (q' : Bytes) × (drop_name (q ++ (b'/' ∷ c ∷ r)) ≡ q' ++ (b'/' ∷ c ∷ r))
  unfolding drop_name
  drop_name_to [] = ([], refl)
  drop_name_to (x ∷ q) = elim (Bool-cases (x == b'/')) [
    | inl e ↦ (x ∷ q, rw e refl)
    | inr e ↦ let (q', h) = drop_name_to q in (q', rw e h)
  ]

  drop_slashes_to :
      (q : Bytes)
      → (drop_slashes (q ++ (b'/' ∷ c ∷ r)) ≡ c ∷ r)
        ⊎ ((q' : Bytes) × (drop_slashes (q ++ (b'/' ∷ c ∷ r)) ≡ q' ++ (b'/' ∷ c ∷ r)))
  unfolding drop_slashes
  drop_slashes_to [] = inl (rw plain refl)
  drop_slashes_to (x ∷ q) = elim (Bool-cases (x == b'/')) [
    | inl e ↦ elim (drop_slashes_to q) [ inl h ↦ inl (rw e h) | inr (q', h) ↦ inr (q', rw e h) ]
    | inr e ↦ inr (x ∷ q, rw e refl)
  ]

  last_name_to :
      (q : Bytes)
      → (drop_slashes (drop_name (q ++ (b'/' ∷ c ∷ r))) ≡ c ∷ r)
        ⊎ ((q' : Bytes) × (drop_slashes (drop_name (q ++ (b'/' ∷ c ∷ r))) ≡ q' ++ (b'/' ∷ c ∷ r)))
  last_name_to q = let (p, h) = drop_name_to q in rw h (drop_slashes_to p)

reverse-last : (s : Bytes) (c : ℕ) → reverse (s ++ (c ∷ [])) ≡ c ∷ reverse s
reverse-last s c = reverse-append s (c ∷ [])

-- The parent of a path beneath the root, as a text from its end.
parent_path-reverse :
    (path back : Bytes)
    → drop_slashes (drop_name (reverse path)) ≡ back
    → back ≢ []
    → parent_path path ≡ reverse back
unfolding parent_path
parent_path-reverse path back e n =
    let filled : is_empty (reverse back) ≡ false =
      kept (reverse back) (λ z. n (sym (reverse-reverse back) ∙ ap reverse z)) in
    rw (e, filled) refl
  where
    kept : (s : Bytes) → s ≢ [] → is_empty s ≡ false
    kept [] h = absurd (h refl)
    kept (x ∷ s) h = unfold is_empty in refl

pub parent_path-IsIn : (root t : Bytes) → IsRoot root → IsIn root (parent_path (root ++ (b'/' ∷ t)))
parent_path-IsIn root t (s, c, e, plain) =
    let back = reverse root in
    let last : reverse root ≡ c ∷ reverse s = ap reverse e ∙ reverse-last s c in
    let whole : reverse (root ++ (b'/' ∷ t)) ≡ reverse t ++ (b'/' ∷ c ∷ reverse s) =
      reverse-append root (b'/' ∷ t)
      ∙ (ap (λ l. l ++ reverse root) (reverse-append (b'/' ∷ []) t)
          ∙ (append_assoc (reverse t) (b'/' ∷ []) (reverse root)
              ∙ ap (λ l. reverse t ++ (b'/' ∷ l)) last)) in
    let again : reverse (c ∷ reverse s) ≡ root = ap reverse (sym last) ∙ reverse-reverse root in
    elim (last_name_to c (reverse s) plain (reverse t)) [
      | inl h ↦ inl (
          parent_path-reverse (root ++ (b'/' ∷ t)) (c ∷ reverse s)
            (ap (λ l. drop_slashes (drop_name l)) whole ∙ h) (ground arith)
          ∙ again)
      | inr (q, h) ↦ inr (
        reverse q,
        parent_path-reverse (root ++ (b'/' ∷ t)) (q ++ (b'/' ∷ c ∷ reverse s))
              (ap (λ l. drop_slashes (drop_name l)) whole ∙ h) (filled q)
            ∙ (reverse-append q (b'/' ∷ c ∷ reverse s)
                ∙ (ap (λ l. l ++ reverse q) (reverse-append (b'/' ∷ []) (c ∷ reverse s))
                    ∙ (ap (λ l. (l ++ (b'/' ∷ [])) ++ reverse q) again
                        ∙ append_assoc root (b'/' ∷ []) (reverse q)))),
      )
    ]
  where
    filled : (q : Bytes) → q ++ (b'/' ∷ c ∷ reverse s) ≢ []
    filled [] h = absurd (ground arith)
    filled (x ∷ q) h = absurd (ground arith)
