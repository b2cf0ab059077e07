-- ===== src/Permissions/Search/Laws.antt =====
-- `Search` comes to an end, and what a search that succeeds has seen.
use andlify.Common.{
  ℕ, zero, suc, ◌<◌, Bool, true, false, not, ◌&&◌, [], ◌∷◌, ◌++◌, ◌≡◌, ◌≢◌, inl, inr, refl, sym, ap,
  ◌∙◌, arith, if◌then◌else◌, Option, some, length, length-append, Bool-cases,
}
use andlify.Common.Bytes.{Bytes, codes, str_eq, str_eq_iff, starts_with_rest}
use andlify.Ownership.{FileOwner}
use andlify.Permissions.{
  FileCredentials, x_ok, is_dir, access_allowed, parent_path, Result, ok, error, Files, managed,
  owner_of, eacces, enotdir,
}
use andlify.Permissions.Search.{search_from, search}
use andlify.Permissions.Search.Parents.{
  IsRoot, IsIn, IsIn-managed, parent_path-lt, parent_path-le, parent_path-IsIn,
}

-- A path of the rootfs that is not its root has more than one byte.
managed-length :
    (root path : Bytes)
    → root ≢ []
    → managed root path ≡ true
    → str_eq path root ≡ false
    → 1 < length path
unfolding managed
managed-length root path n h e =
    let (rest, split) = starts_with_rest (root ++ codes "/") path (ground arith) in
    let size = length-append (root ++ codes "/") rest in
    let size' = length-append root (codes "/") in
    omega (arith, ap length split, size, size', filled root n)
  where
    filled : (s : Bytes) → s ≢ [] → 0 < length s
    filled [] k = absurd (k refl)
    filled (c ∷ s) k = omega arith

named : {root : Bytes} → IsRoot root → root ≢ []
named (s, c, e, plain) z = absurd (apart s (sym e ∙ z))
  where
    apart : (s : Bytes) → s ++ (c ∷ []) ≡ [] → ⊥
    apart [] h = ground arith
    apart (x ∷ s) h = ground arith

module _ {S : Type 0} (files : Files S) (c : FileCredentials) where
  -- The directories from one up to the root of the rootfs, each of which is one that the caller may
  -- search, and what the store becomes as they are looked up.
  pub data Searched : S → Bytes → S → Type 0 where
    at_root :
        {s s' : S} {path : Bytes} (owner : FileOwner)
        → owner_of files s path ≡ (ok owner, s')
        → (is_dir owner.mode && access_allowed owner c x_ok) ≡ true
        → path ≡ files.root
        → Searched s path s'
    above :
        {s s' s'' : S} {path : Bytes} (owner : FileOwner)
        → owner_of files s path ≡ (ok owner, s')
        → (is_dir owner.mode && access_allowed owner c x_ok) ≡ true
        → Searched s' (parent_path path) s''
        → Searched s path s''

  -- What a search ends with.
  abbrev pub IsSearch : S → Bytes → Option (ℕ × S) → Type 0
  IsSearch s path result =
      (error_number : ℕ) × (s' : S) × (result ≡ some (error_number, s'))
      × (error_number ≡ 0 → Searched s path s')

  -- The directory that a turn of the loop looks at.
  turn-IsSearch :
      (s s' : S) (parent : Bytes) (found : Result FileOwner) (rest : Option (ℕ × S))
      → owner_of files s parent ≡ (found, s')
      → ((e : ℕ) → found ≡ error e → e ≢ 0)
      → (str_eq parent files.root ≡ false → IsSearch s' (parent_path parent) rest)
      → IsSearch s parent (elim found [
        | error e ↦ some (e, s')
        | ok owner ↦
            if not (is_dir owner.mode)
            then some (enotdir, s')
            else if not (access_allowed owner c x_ok)
            then some (eacces, s')
            else if str_eq parent files.root
            then some (0, s')
            else rest
      ])
  turn-IsSearch s s' parent (error e) rest here errors later =
      (e, s', refl, λ z. absurd (errors e refl z))
  turn-IsSearch s s' parent (ok owner) rest here errors later =
      elim (Bool-cases (is_dir owner.mode)) [
        | inr d ↦ rw d (enotdir, s', refl, λ z. absurd (ground arith))
        | inl d ↦ rw d (elim (Bool-cases (access_allowed owner c x_ok)) [
          | inr a ↦ rw a (eacces, s', refl, λ z. absurd (ground arith))
          | inl a ↦
              let granted : (is_dir owner.mode && access_allowed owner c x_ok) ≡ true =
                rw (d, a) refl in
              rw a (elim (Bool-cases (str_eq parent files.root)) [
                | inl r ↦ rw r (
                  0,
                  s',
                  refl,
                  λ z. at_root owner here granted ((str_eq_iff parent files.root).0 r),
                )
                | inr r ↦
                    let (number, s'', result, seen) = later r in
                    rw (r, result) (number, s'', refl, λ z. above owner here granted (seen z))
              ])
        ])
      ]

  search_from-IsSearch :
      (fuel : ℕ) (s : S) (parent : Bytes)
      → IsRoot files.root
      → ((s s' : S) (path : Bytes) (e : ℕ) → owner_of files s path ≡ (error e, s') → e ≢ 0)
      → IsIn files.root parent
      → length parent < fuel
      → IsSearch s parent (search_from files fuel s parent c)
  unfolding search_from
  search_from-IsSearch zero s parent root errors here h = absurd (omega arith)
  search_from-IsSearch (suc fuel) s parent root errors here h =
      let e = IsIn-managed files.root parent here in
      let found = (owner_of files s parent).0 in
      let s' = (owner_of files s parent).1 in
      let turn =
        turn-IsSearch s s' parent found (search_from files fuel s' (parent_path parent) c) refl
          (λ k same. errors s s' parent k (ap (λ (f : Result FileOwner). (f, s')) same))
          (λ other.
            search_from-IsSearch fuel s' (parent_path parent) root errors
              (above_in parent here other)
              (omega (
                arith,
                h,
                parent_path-lt parent (managed-length files.root parent (named root) e other),
              ))) in
      in_rootfs (some (0, s)) _ (managed files.root parent) e turn
    where
      in_rootfs :
          (a b : Option (ℕ × S)) (test : Bool)
          → test ≡ true
          → IsSearch s parent b
          → IsSearch s parent (if not test then a else b)
      in_rootfs a b test e found = rw e found

      above_in :
          (path : Bytes)
          → IsIn files.root path
          → str_eq path files.root ≡ false
          → IsIn files.root (parent_path path)
      above_in path (inl e) other = absurd (apart ((str_eq_iff path files.root).1 e))
        where
          apart : str_eq path files.root ≡ true → ⊥
          apart same = ground arith
      above_in path (inr (t, e)) other = rw e (parent_path-IsIn files.root t root)

  -- A search of the way to a path beneath the root of the rootfs comes to an end, where the root
  -- is named without a slash at the end and an error is not 0; and one that gives no error has
  -- found each directory from the path's parent up to the root itself, by way of each one's
  -- parent, and each is a directory that the caller may search.
  pub search-IsSearch :
      (s : S) (t : Bytes)
      → IsRoot files.root
      → ((s s' : S) (path : Bytes) (e : ℕ) → owner_of files s path ≡ (error e, s') → e ≢ 0)
      → let path = files.root ++ (b'/' ∷ t) in IsSearch s (parent_path path) (search files s path c)
  unfolding search
  search-IsSearch s t root errors =
      let path = files.root ++ (b'/' ∷ t) in
      let e = IsIn-managed files.root path (inr (t, refl)) in
      rw e (
        search_from-IsSearch (suc (length path)) s (parent_path path) root errors
          (parent_path-IsIn files.root t root) (omega (arith, parent_path-le path)))
