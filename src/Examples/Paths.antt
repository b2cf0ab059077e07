-- ===== src/Examples/Paths.antt =====
-- The path functions of path_rewrite.cpp, ptrace_engine.cpp and rootfs_extractor.cpp on small inputs.
use andlify.Common.{
  true, false, List, [], ◌∷◌, ◌++◌, ◌≡◌, ◌≢◌, ◌⊎◌, refl, arith, if◌then◌else◌, none, some,
}
use andlify.Common.Bytes.{Bytes, codes, str_eq, is_empty, starts_with}
use andlify.Common.Components.{tokens, join, All}
use andlify.VirtualPath.{
  pop_back, push_component, push_components, render, resolve_virtual_relative_path,
}
use andlify.VirtualPath.Laws.{IsPlain, IsResolved, resolve_virtual_relative_path-IsResolved}
use andlify.VirtualPath.Roots.{
  Roots, is_within, map_emulated_old_root_in_rootfs, map_rootfs_path_to_emulated_root,
  map_emulated_old_root-map_rootfs_path,
}
use andlify.Archive.{
  drop_slashes, strip_slashes, append_token, normalize_tokens, or_dot, normalize_archive_path,
  join_path, join_right, ends_in_slash, target_path,
}
use andlify.Archive.Normalize.{kept, has_dot_dot, normalize_archive_path_lem}
use andlify.Archive.Target.{target_path-components}
use andlify.Rewrite.{
  pop_slashes, trim_slashes, normalize_rootfs_prefix, is_absolute_unix_path,
  is_passthrough_unix_path, rewrite_path_to_rootfs, build_real_path_in_rootfs,
}
use andlify.Rewrite.Confinement.{Beneath, rewrite_path_to_rootfs-Beneath}

program : Unit {0}
unfolding str_eq is_empty starts_with tokens join push_component push_components pop_back render
    resolve_virtual_relative_path drop_slashes strip_slashes append_token normalize_tokens or_dot
    normalize_archive_path join_path join_right ends_in_slash target_path pop_slashes trim_slashes
    normalize_rootfs_prefix is_absolute_unix_path is_passthrough_unix_path rewrite_path_to_rootfs
    build_real_path_in_rootfs
program = tt

abbrev rootfs : Bytes
rootfs = codes "/data/rootfs"

abbrev messy : Bytes
messy = codes "./usr//bin/"

normalize_messy : normalize_archive_path messy ≡ some (codes "usr/bin")
unfolding program
normalize_messy = refl

normalize_escape : normalize_archive_path (codes "/usr/../../etc") ≡ none
unfolding program
normalize_escape = refl

normalize_root : normalize_archive_path (codes "//") ≡ some (codes ".")
unfolding program
normalize_root = refl

target_messy : target_path rootfs (codes "usr/bin") ≡ codes "/data/rootfs/usr/bin"
unfolding program
target_messy = refl

resolve_up :
    resolve_virtual_relative_path (codes "/home/user") (codes "../../../etc/./passwd")
    ≡ codes "/etc/passwd"
unfolding program
resolve_up = refl

rewrite_dev : rewrite_path_to_rootfs rootfs (codes "/dev/null") ≡ codes "/dev/null"
unfolding program
rewrite_dev = refl

rewrite_shm : rewrite_path_to_rootfs rootfs (codes "/dev/shm/a") ≡ codes "/data/rootfs/dev/shm/a"
unfolding program
rewrite_shm = refl

rewrite_hostname :
    rewrite_path_to_rootfs rootfs (codes "/proc/sys/kernel/hostname")
    ≡ codes "/data/rootfs/tmp/.andlify-kernel-hostname"
unfolding program
rewrite_hostname = refl

rootfs_absolute : is_absolute_unix_path rootfs ≡ true
unfolding program
rootfs_absolute = refl

etc_absolute : is_absolute_unix_path (codes "/etc") ≡ true
unfolding program
etc_absolute = refl

etc_not_passthrough : is_passthrough_unix_path (codes "/etc") ≡ false
unfolding program
etc_not_passthrough = refl

rootfs_not_slash : rootfs ≢ codes "/"
rootfs_not_slash = ground arith

rootfs_outside_proc : ¬ ((rootfs ≡ codes "/proc") ⊎ (starts_with (codes "/proc/") rootfs ≡ true))
unfolding program
rootfs_outside_proc = ground arith

prefix_not_slash : normalize_rootfs_prefix (codes "/data/rootfs//") ≢ codes "/"
unfolding program
prefix_not_slash = ground arith

target_path-components_example :
    (cs : List Bytes) × (push_components [] (tokens (target_path rootfs (codes "usr/bin")))
      ≡ push_components [] (tokens rootfs) ++ cs)
    × All IsPlain cs
target_path-components_example = target_path-components rootfs messy normalize_messy

normalize_archive_path_lem_example :
    normalize_archive_path messy
    ≡ (if has_dot_dot (tokens messy) then none else some (or_dot (join (kept (tokens messy)))))
normalize_archive_path_lem_example = normalize_archive_path_lem messy

rewrite_path_to_rootfs-Beneath_example :
    Beneath rootfs (rewrite_path_to_rootfs rootfs (codes "/etc"))
    ⊎ (is_passthrough_unix_path (codes "/etc") ≡ true)
      × (rewrite_path_to_rootfs rootfs (codes "/etc") ≡ codes "/etc")
rewrite_path_to_rootfs-Beneath_example =
    rewrite_path_to_rootfs-Beneath rootfs (codes "/etc") rootfs_not_slash etc_absolute

resolve_virtual_relative_path-IsResolved_example :
    IsResolved (resolve_virtual_relative_path (codes "/home") (codes "../etc"))
    × (resolve_virtual_relative_path
          (codes "/")
          (resolve_virtual_relative_path (codes "/home") (codes "../etc"))
        ≡ resolve_virtual_relative_path (codes "/home") (codes "../etc"))
resolve_virtual_relative_path-IsResolved_example =
    resolve_virtual_relative_path-IsResolved (codes "/home") (codes "../etc")

abbrev roots : Roots
roots = record { emulated_new_root = codes "/new"; emulated_old_root = codes "/old" }

new_root_not_slash : roots.emulated_new_root ≢ codes "/"
new_root_not_slash = ground arith

new_root_given : is_empty roots.emulated_new_root ≡ false
unfolding program
new_root_given = refl

old_root_given : is_empty roots.emulated_old_root ≡ false
unfolding program
old_root_given = refl

map_emulated_old_root-map_rootfs_path_example :
    let path = codes "/etc" in
    let shown = map_rootfs_path_to_emulated_root roots path in
    (is_within (codes "/new") path ≡ false)
      × (shown ≡ codes "/old" ++ (if is_empty (codes "etc") then [] else path))
      × (map_emulated_old_root_in_rootfs roots (codes "/new" ++ shown) ≡ path)
    ⊎ ((t : Bytes) × (shown ≡ (b'/' ∷ t)) × (path ≡ codes "/new" ++ (b'/' ∷ t)))
    ⊎ (path ≡ codes "/new") × (shown ≡ codes "/")
map_emulated_old_root-map_rootfs_path_example =
    map_emulated_old_root-map_rootfs_path roots (codes "etc") new_root_given new_root_not_slash
      old_root_given
