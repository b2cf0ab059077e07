-- ===== src/VirtualPath/Roots.antt =====
-- library/src/main/cpp/ptrace_engine.cpp: paths after an emulated `pivot_root`. The new root is a
-- directory of the rootfs, and the old one appears at a path beneath it; an empty text is none.
use andlify.Common.{
  Bool, true, false, not, ◌||◌, [], ◌∷◌, ◌++◌, ◌≡◌, ◌≢◌, ◌⊎◌, inl, inr, refl, sym, ap, ◌∙◌, arith,
  Bool-cases, if◌then◌else◌, length, drop,
}
use andlify.Common.Bytes.{
  Bytes, codes, str_eq, str_eq_iff, str_eq_refl, is_empty, starts_with, starts_with_rest,
}

pub record Roots : Type 0 where
  pub emulated_new_root : Bytes
  pub emulated_old_root : Bytes

-- A path is the directory or beneath it.
abbrev pub is_within : Bytes → Bytes → Bool
is_within dir path = str_eq path dir || starts_with (dir ++ codes "/") path

unfoldable pub map_emulated_old_root_in_rootfs : Roots → Bytes → Bytes
map_emulated_old_root_in_rootfs state path =
    if is_empty state.emulated_old_root
    then path
    else let old_root_in_rootfs = state.emulated_new_root ++ state.emulated_old_root in
      if not (is_within old_root_in_rootfs path)
      then path
      else let mapped = drop (length old_root_in_rootfs) path in
        if is_empty mapped then codes "/" else mapped

unfoldable pub map_rootfs_path_to_emulated_root : Roots → Bytes → Bytes
map_rootfs_path_to_emulated_root state path =
    if is_empty state.emulated_new_root || str_eq state.emulated_new_root (codes "/")
    then path
    else if str_eq path state.emulated_new_root
    then codes "/"
    else if starts_with (state.emulated_new_root ++ codes "/") path
    then drop (length state.emulated_new_root) path
    else if is_empty state.emulated_old_root
    then path
    else if str_eq path (codes "/")
    then state.emulated_old_root
    else state.emulated_old_root ++ path

drop-length_append : (a b : Bytes) → drop (length a) (a ++ b) ≡ b
drop-length_append [] b = refl
drop-length_append (x ∷ a) b = drop-length_append a b

starts_with_slash : (a s : Bytes) → starts_with (a ++ codes "/") (a ++ (b'/' ∷ s)) ≡ true
unfolding starts_with
starts_with_slash [] s = refl
starts_with_slash (x ∷ a) s = ground (arith, starts_with_slash a s)

append_nil_drop : (a : Bytes) → drop (length a) a ≡ []
append_nil_drop [] = refl
append_nil_drop (x ∷ a) = append_nil_drop a

assoc : (a b s : Bytes) → a ++ (b ++ s) ≡ (a ++ b) ++ s
assoc [] b s = refl
assoc (x ∷ a) b s = ap (λ l. x ∷ l) (assoc a b s)

-- An absolute path beneath the old root, seen from the rootfs.
old_root-append :
    (state : Roots) (s : Bytes)
    → is_empty state.emulated_old_root ≡ false
    → map_emulated_old_root_in_rootfs state
        (state.emulated_new_root ++ (state.emulated_old_root ++ (b'/' ∷ s)))
      ≡ (b'/' ∷ s)
unfolding map_emulated_old_root_in_rootfs is_empty
old_root-append state s h =
    let dir = state.emulated_new_root ++ state.emulated_old_root in
    rw
      (assoc state.emulated_new_root state.emulated_old_root (b'/' ∷ s), h, starts_with_slash dir s)
      (let e = drop-length_append dir (b'/' ∷ s) in ground (arith, e))

old_root-itself :
    (state : Roots)
    → is_empty state.emulated_old_root ≡ false
    → map_emulated_old_root_in_rootfs state (state.emulated_new_root ++ state.emulated_old_root)
      ≡ codes "/"
unfolding map_emulated_old_root_in_rootfs is_empty
old_root-itself state h =
    let dir = state.emulated_new_root ++ state.emulated_old_root in
    rw (h, str_eq_refl dir, append_nil_drop dir)

append_nil : (a : Bytes) → a ++ [] ≡ a
append_nil [] = refl
append_nil (x ∷ a) = ap (λ l. x ∷ l) (append_nil a)

-- An absolute path is `/`, or has more than the slash.
root_or_more :
    (s : Bytes)
    → (str_eq (b'/' ∷ s) (codes "/") ≡ true) × (is_empty s ≡ true)
      ⊎ (str_eq (b'/' ∷ s) (codes "/") ≡ false) × (is_empty s ≡ false)
unfolding str_eq is_empty
root_or_more [] = inl (refl, refl)
root_or_more (x ∷ s) = inr (refl, refl)

str_ne : {x y : Bytes} → x ≢ y → str_eq x y ≡ false
str_ne {x} {y} n = elim (Bool-cases (str_eq x y)) [
  | inl e ↦ absurd (n ((str_eq_iff x y).0 e))
  | inr e ↦ e
]

-- With both emulated roots set and the new one not `/`, an absolute path outside the new root is
-- shown as the old root, and it after that unless it is `/`, and what is shown maps back from the
-- new root to the path; a path beneath the new root is shown as what follows the new root, from
-- the slash on, and the new root itself as `/`.
pub map_emulated_old_root-map_rootfs_path :
    (state : Roots) (s : Bytes)
    → is_empty state.emulated_new_root ≡ false
    → state.emulated_new_root ≢ codes "/"
    → is_empty state.emulated_old_root ≡ false
    → let path = b'/' ∷ s in
      let shown = map_rootfs_path_to_emulated_root state path in
      (is_within state.emulated_new_root path ≡ false)
        × (shown ≡ state.emulated_old_root ++ (if is_empty s then [] else path))
        × (map_emulated_old_root_in_rootfs state (state.emulated_new_root ++ shown) ≡ path)
      ⊎ ((t : Bytes) × (shown ≡ (b'/' ∷ t)) × (path ≡ state.emulated_new_root ++ (b'/' ∷ t)))
      ⊎ (path ≡ state.emulated_new_root) × (shown ≡ codes "/")
unfolding map_rootfs_path_to_emulated_root
map_emulated_old_root-map_rootfs_path state s a b c =
    let path : Bytes = b'/' ∷ s in
    let new = state.emulated_new_root in
    let other : str_eq new (codes "/") ≡ false = str_ne b in
    elim (Bool-cases (str_eq path new)) [
      | inl e ↦ inr (inr ((str_eq_iff path new).0 e, rw (a, other, e)))
      | inr e ↦ elim (Bool-cases (starts_with (new ++ codes "/") path)) [
        | inl f ↦
            let (t, g) = starts_with_rest (new ++ codes "/") path f in
            let split = g ∙ sym (assoc new (codes "/") t) in
            inr (
              inl (
                t,
                rw (a, other, e, f)
                    (ap (drop (length new)) split ∙ drop-length_append new (b'/' ∷ t)),
                split,
              ))
        | inr f ↦ elim (root_or_more s) [
          | inl (r, k) ↦ inl (
            rw (e, f),
            rw (a, other, e, f, c, r, k) (sym (append_nil state.emulated_old_root)),
            rw (a, other, e, f, c, r)
                (old_root-itself state c ∙ sym ((str_eq_iff path (codes "/")).0 r)),
          )
          | inr (r, k) ↦ inl (
            rw (e, f),
            rw (a, other, e, f, c, r, k) refl,
            rw (a, other, e, f, c, r) (old_root-append state s c),
          )
        ]
      ]
    ]
