-- ===== src/Rewrite/Confinement.antt =====
-- Where the paths that path_rewrite.cpp answers may lie.
use andlify.Common.{
  Bool, true, false, ◌||◌, [], ◌∷◌, ◌++◌, ◌≡◌, ◌≢◌, ◌⊎◌, inl, inr, refl, ap, ◌∙◌, arith, Bool-cases,
}
use andlify.Common.{if◌then◌else◌}
use andlify.Common.Bytes.{
  Bytes, codes, str_eq, starts_with, is_empty, str_eq_iff, starts_with_rest, starts_with-append,
  str_eq_refl,
}
use mathlib.Core.List.{append_assoc}
use andlify.Rewrite.{
  slash, normalize_rootfs_prefix, is_absolute_unix_path, is_passthrough_unix_path,
  rewrite_path_to_rootfs, build_real_path_in_rootfs,
}
use andlify.Rewrite.{
  inotify_max_user_watches_path, overflow_uid_path, overflow_gid_path, hostname_path,
}

-- `path` is `root`, or lies in it.
abbrev pub Beneath : Bytes → Bytes → Type 0
Beneath root path = (path ≡ root) ⊎ ((t : Bytes) × (path ≡ root ++ (slash ∷ t)))

pub Beneath-of_test :
    (root path : Bytes)
    → (str_eq path root || starts_with (root ++ codes "/") path) ≡ true
    → Beneath root path
Beneath-of_test root path h = elim (Bool-cases (str_eq path root)) [
  | inl e ↦ inl ((str_eq_iff path root).0 e)
  | inr e ↦
      let (t, p) = starts_with_rest (root ++ codes "/") path (ground arith) in
      inr (t, p ∙ append_assoc root (codes "/") t)
]

pub test_of_Beneath :
    (root path : Bytes)
    → Beneath root path
    → (str_eq path root || starts_with (root ++ codes "/") path) ≡ true
test_of_Beneath root path (inl e) = rw (e, str_eq_refl root)
test_of_Beneath root path (inr (t, e)) =
    let h = starts_with-append (root ++ codes "/") t in
    let h' : starts_with (root ++ codes "/") path ≡ true =
      rw (e, ← append_assoc root (codes "/") t) h in
    ground arith

absolute_split :
    (path : Bytes) → is_absolute_unix_path path ≡ true → (t : Bytes) × (path ≡ slash ∷ t)
unfolding is_absolute_unix_path
absolute_split [] h = absurd (ground arith)
absolute_split (c ∷ s) h = (s, ground arith)

-- The special files of /proc have a stand-in in the rootfs.
special : Bytes → Bool
special path =
    str_eq path inotify_max_user_watches_path
    || str_eq path overflow_uid_path
    || str_eq path hostname_path
    || str_eq path overflow_gid_path

special_cases :
    (root path : Bytes)
    → special path ≡ true
    → is_absolute_unix_path path ≡ true
    → str_eq root (codes "/") ≡ false
    → str_eq path (codes "/") ≡ false
    → (t : Bytes) × (rewrite_path_to_rootfs root path ≡ root ++ (slash ∷ t))
unfolding special rewrite_path_to_rootfs
special_cases root path h abs h' h'' =
    elim (Bool-cases (str_eq path inotify_max_user_watches_path)) [
      | inl e ↦ (codes "tmp/.andlify-inotify-max-user-watches", rw (abs, h', h'', e))
      | inr e₁ ↦ elim (Bool-cases (str_eq path overflow_uid_path)) [
        | inl e ↦ (codes "tmp/.andlify-kernel-overflowuid", rw (abs, h', h'', e₁, e))
        | inr e₂ ↦ elim (Bool-cases (str_eq path hostname_path)) [
          | inl e ↦ (codes "tmp/.andlify-kernel-hostname", rw (abs, h', h'', e₁, e₂, e))
          | inr e₃ ↦
              let e : str_eq path overflow_gid_path ≡ true = ground arith in
              (codes "tmp/.andlify-kernel-overflowgid", rw (abs, h', h'', e₁, e₂, e₃, e))
        ]
      ]
    ]

plain_lem :
    (root path : Bytes)
    → special path ≡ false
    → is_absolute_unix_path path ≡ true
    → str_eq root (codes "/") ≡ false
    → str_eq path (codes "/") ≡ false
    → rewrite_path_to_rootfs root path ≡ (
        if str_eq path root || starts_with (root ++ codes "/") path
        then path
        else if is_passthrough_unix_path path
        then path
        else root ++ path)
unfolding special rewrite_path_to_rootfs
plain_lem root path h abs h' h'' = ground arith

root_test : (root : Bytes) → root ≢ codes "/" → str_eq root (codes "/") ≡ false
root_test root h = ground (arith, str_eq_iff root (codes "/"))

-- An absolute path is moved beneath the rootfs, or it is one of the host's own paths of /dev,
-- /proc and /sys and stays as it is. The rootfs is any directory but `/`.
pub rewrite_path_to_rootfs-Beneath :
    (root path : Bytes)
    → root ≢ codes "/"
    → is_absolute_unix_path path ≡ true
    → Beneath root (rewrite_path_to_rootfs root path)
      ⊎ (is_passthrough_unix_path path ≡ true) × (rewrite_path_to_rootfs root path ≡ path)
rewrite_path_to_rootfs-Beneath root path h abs =
    let h' = root_test root h in
    elim (Bool-cases (str_eq path (codes "/"))) [
      | inl e ↦ inl (inl (unfold rewrite_path_to_rootfs in rw (abs, h', e)))
      | inr e ↦ elim (Bool-cases (special path)) [
        | inl s ↦ inl (inr (special_cases root path s abs h' e))
        | inr s ↦ elim (Bool-cases (str_eq path root || starts_with (root ++ codes "/") path)) [
          | inl b ↦ inl (rw (plain_lem root path s abs h' e, b) (Beneath-of_test root path b))
          | inr b ↦ elim (Bool-cases (is_passthrough_unix_path path)) [
            | inl q ↦ inr (q, rw (plain_lem root path s abs h' e, b, q))
            | inr q ↦
                let (t, p) = absolute_split path abs in
                inl (inr (t, (rw (plain_lem root path s abs h' e, b, q)) ∙ ap (λ x. root ++ x) p))
          ]
        ]
      ]
    ]

Beneath-ne_slash :
    (root path : Bytes)
    → root ≢ codes "/"
    → is_absolute_unix_path root ≡ true
    → Beneath root path
    → str_eq path (codes "/") ≡ false
unfolding str_eq
Beneath-ne_slash [] path h a b = absurd (unfold is_absolute_unix_path in ground arith)
Beneath-ne_slash (c ∷ []) path h a (inl e) = unfold is_absolute_unix_path in ground arith
Beneath-ne_slash (c ∷ []) path h a (inr (t, e)) = ground arith
Beneath-ne_slash (c ∷ d ∷ s) path h a (inl e) = ground arith
Beneath-ne_slash (c ∷ d ∷ s) path h a (inr (t, e)) = ground arith

-- A directory with an entry in /proc is /proc, or lies there.
abbrev pub InProc : Bytes → Type 0
InProc root = (root ≡ codes "/proc") ⊎ (starts_with (codes "/proc/") root ≡ true)

Beneath-proc :
    (root t : Bytes)
    → root ≢ []
    → root ≢ codes "/"
    → Beneath root (codes "/proc/" ++ t)
    → InProc root
unfolding starts_with
Beneath-proc [] t h h' b = absurd (h refl)
Beneath-proc (a ∷ []) t h h' (inl e) = absurd (ground arith)
Beneath-proc (a ∷ []) t h h' (inr (u, e)) = absurd (ground arith)
Beneath-proc (a ∷ b ∷ []) t h h' (inl e) = absurd (ground arith)
Beneath-proc (a ∷ b ∷ []) t h h' (inr (u, e)) = absurd (ground arith)
Beneath-proc (a ∷ b ∷ c ∷ []) t h h' (inl e) = absurd (ground arith)
Beneath-proc (a ∷ b ∷ c ∷ []) t h h' (inr (u, e)) = absurd (ground arith)
Beneath-proc (a ∷ b ∷ c ∷ d ∷ []) t h h' (inl e) = absurd (ground arith)
Beneath-proc (a ∷ b ∷ c ∷ d ∷ []) t h h' (inr (u, e)) = absurd (ground arith)
Beneath-proc (a ∷ b ∷ c ∷ d ∷ f ∷ []) t h h' (inl e) = inl (ground arith)
Beneath-proc (a ∷ b ∷ c ∷ d ∷ f ∷ []) t h h' (inr (u, e)) = inl (ground arith)
Beneath-proc (a ∷ b ∷ c ∷ d ∷ f ∷ g ∷ r) t h h' (inl e) = inr (ground arith)
Beneath-proc (a ∷ b ∷ c ∷ d ∷ f ∷ g ∷ r) t h h' (inr (u, e)) = inr (ground arith)

special_proc : (path : Bytes) → special path ≡ true → (t : Bytes) × (path ≡ codes "/proc/" ++ t)
unfolding special
special_proc path h = elim (Bool-cases (str_eq path inotify_max_user_watches_path)) [
  | inl e ↦ (codes "sys/fs/inotify/max_user_watches", (str_eq_iff path _).0 e)
  | inr e₁ ↦ elim (Bool-cases (str_eq path overflow_uid_path)) [
    | inl e ↦ (codes "sys/kernel/overflowuid", (str_eq_iff path _).0 e)
    | inr e₂ ↦ elim (Bool-cases (str_eq path hostname_path)) [
      | inl e ↦ (codes "sys/kernel/hostname", (str_eq_iff path _).0 e)
      | inr e₃ ↦ (codes "sys/kernel/overflowgid", (str_eq_iff path _).0 (ground arith))
    ]
  ]
]

-- What lies beneath a rootfs that is not in /proc is no special file.
Beneath-not_special :
    (root path : Bytes)
    → is_absolute_unix_path root ≡ true
    → root ≢ codes "/"
    → ¬ InProc root
    → Beneath root path
    → special path ≡ false
Beneath-not_special root path a h n b = elim (Bool-cases (special path)) [
  | inr e ↦ e
  | inl e ↦
      let (t, p) = special_proc path e in
      let root_ne : root ≢ [] = λ q. absurd (unfold is_absolute_unix_path in ground arith) in
      absurd (n (Beneath-proc root t root_ne h (rw p at b)))
]

rewrite_fixed :
    (root path : Bytes)
    → is_absolute_unix_path root ≡ true
    → root ≢ codes "/"
    → ¬ InProc root
    → is_absolute_unix_path path ≡ true
    → Beneath root path
    → rewrite_path_to_rootfs root path ≡ path
rewrite_fixed root path a h n a' b = rw (
  plain_lem root path (Beneath-not_special root path a h n b) a' (root_test root h)
      (Beneath-ne_slash root path h a b),
  test_of_Beneath root path b,
)

Beneath-absolute :
    (root path : Bytes)
    → is_absolute_unix_path root ≡ true
    → Beneath root path
    → is_absolute_unix_path path ≡ true
unfolding is_absolute_unix_path
Beneath-absolute [] path a b = absurd (ground arith)
Beneath-absolute (c ∷ s) path a (inl e) = ground arith
Beneath-absolute (c ∷ s) path a (inr (t, e)) = ground arith

-- A path that has been moved beneath the rootfs is not moved a second time. The rootfs is an
-- absolute directory other than `/`, and not in /proc.
pub rewrite_path_to_rootfs_idem :
    (root path : Bytes)
    → is_absolute_unix_path root ≡ true
    → root ≢ codes "/"
    → ¬ InProc root
    → is_absolute_unix_path path ≡ true
    → rewrite_path_to_rootfs root (rewrite_path_to_rootfs root path)
      ≡ rewrite_path_to_rootfs root path
rewrite_path_to_rootfs_idem root path a h n a' =
    elim (rewrite_path_to_rootfs-Beneath root path h a') [
      | inl b ↦ rewrite_fixed root _ a h n (Beneath-absolute root _ a b) b
      | inr (q, e) ↦ ap (rewrite_path_to_rootfs root) e
    ]

-- A command's path in the rootfs, relative or absolute, becomes a path beneath the rootfs, unless
-- it is one of the host's own paths; the empty one is the rootfs.
pub build_real_path_in_rootfs-Beneath :
    (rootfs command : Bytes)
    → normalize_rootfs_prefix rootfs ≢ codes "/"
    → is_passthrough_unix_path command ≡ false
    → Beneath (normalize_rootfs_prefix rootfs) (build_real_path_in_rootfs rootfs command)
unfolding build_real_path_in_rootfs is_empty
build_real_path_in_rootfs-Beneath rootfs [] h p = inl refl
build_real_path_in_rootfs-Beneath rootfs (c ∷ s) h p =
    elim (Bool-cases (is_absolute_unix_path (c ∷ s))) [
      | inl a ↦
          rw a (elim (rewrite_path_to_rootfs-Beneath (normalize_rootfs_prefix rootfs) (c ∷ s) h a) [
            | inl b ↦ b
            | inr (q, e) ↦ absurd (ground arith)
          ])
      | inr a ↦
          rw (a, root_test (normalize_rootfs_prefix rootfs) h)
            (inr (c ∷ s, append_assoc (normalize_rootfs_prefix rootfs) (codes "/") (c ∷ s)))
    ]
