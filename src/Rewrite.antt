-- ===== src/Rewrite.antt =====
-- library/src/main/cpp/path_rewrite.cpp and path_rewrite.h: absolute guest paths are moved beneath
-- the directory of the extracted rootfs. Paths are lists of bytes.
pub mod Prefix
pub mod Confinement
use andlify.Common.{ℕ, Bool, true, false, not, ◌&&◌, ◌||◌, List, [], ◌∷◌, ◌++◌}
use andlify.Common.{◌==◌, if◌then◌else◌}
use andlify.Common.Bytes.{Bytes, codes, str_eq, starts_with, is_empty}
use mathlib.Core.List.{reverse}

abbrev pub slash : ℕ
slash = b'/'

-- The files of /proc that a guest may not read on Android, and their stand-ins in the rootfs.
abbrev pub inotify_max_user_watches_path : Bytes
inotify_max_user_watches_path = codes "/proc/sys/fs/inotify/max_user_watches"

abbrev pub inotify_max_user_watches_backing_path : Bytes
inotify_max_user_watches_backing_path = codes "/tmp/.andlify-inotify-max-user-watches"

abbrev pub overflow_uid_path : Bytes
overflow_uid_path = codes "/proc/sys/kernel/overflowuid"

abbrev pub overflow_uid_backing_path : Bytes
overflow_uid_backing_path = codes "/tmp/.andlify-kernel-overflowuid"

abbrev pub overflow_gid_path : Bytes
overflow_gid_path = codes "/proc/sys/kernel/overflowgid"

abbrev pub overflow_gid_backing_path : Bytes
overflow_gid_backing_path = codes "/tmp/.andlify-kernel-overflowgid"

abbrev pub hostname_path : Bytes
hostname_path = codes "/proc/sys/kernel/hostname"

abbrev pub hostname_backing_path : Bytes
hostname_backing_path = codes "/tmp/.andlify-kernel-hostname"

-- `while (s.size() > 1 && s.back() == '/') s.pop_back()`, on the text read from its end.
unfoldable pub pop_slashes : Bytes → Bytes
pop_slashes [] = []
pop_slashes (c ∷ []) = c ∷ []
pop_slashes (c ∷ d ∷ s) = let rest = pop_slashes (d ∷ s) in if c == slash then rest else c ∷ d ∷ s

unfoldable pub trim_slashes : Bytes → Bytes
trim_slashes s = reverse (pop_slashes (reverse s))

unfoldable pub normalize_rootfs_prefix : Bytes → Bytes
normalize_rootfs_prefix rootfs_path =
    if is_empty rootfs_path then codes "/" else trim_slashes rootfs_path

unfoldable pub is_absolute_unix_path : Bytes → Bool
is_absolute_unix_path [] = false
is_absolute_unix_path (c ∷ s) = c == slash

unfoldable pub is_passthrough_unix_path : Bytes → Bool
is_passthrough_unix_path path =
    if str_eq path (codes "/dev") || str_eq path (codes "/dev/")
    then false
    else if str_eq path (codes "/dev/shm") || starts_with (codes "/dev/shm/") path
    then false
    else starts_with (codes "/dev/") path
      || str_eq path (codes "/proc")
      || starts_with (codes "/proc/") path
      || str_eq path (codes "/sys")
      || starts_with (codes "/sys/") path

unfoldable pub rewrite_path_to_rootfs : Bytes → Bytes → Bytes
rewrite_path_to_rootfs normalized_rootfs original_path =
    if not (is_absolute_unix_path original_path)
    then original_path
    else if str_eq normalized_rootfs (codes "/")
    then original_path
    else if str_eq original_path (codes "/")
    then normalized_rootfs
    else if str_eq original_path inotify_max_user_watches_path
    then normalized_rootfs ++ inotify_max_user_watches_backing_path
    else if str_eq original_path overflow_uid_path
    then normalized_rootfs ++ overflow_uid_backing_path
    else if str_eq original_path hostname_path
    then normalized_rootfs ++ hostname_backing_path
    else if str_eq original_path overflow_gid_path
    then normalized_rootfs ++ overflow_gid_backing_path
    else if str_eq original_path normalized_rootfs
        || starts_with (normalized_rootfs ++ codes "/") original_path
    then original_path
    else if is_passthrough_unix_path original_path
    then original_path
    else normalized_rootfs ++ original_path

unfoldable pub build_real_path_in_rootfs : Bytes → Bytes → Bytes
build_real_path_in_rootfs rootfs_path command_path_in_rootfs =
    let normalized_rootfs = normalize_rootfs_prefix rootfs_path in
    if is_empty command_path_in_rootfs
    then normalized_rootfs
    else if is_absolute_unix_path command_path_in_rootfs
    then rewrite_path_to_rootfs normalized_rootfs command_path_in_rootfs
    else if str_eq normalized_rootfs (codes "/")
    then codes "/" ++ command_path_in_rootfs
    else normalized_rootfs ++ codes "/" ++ command_path_in_rootfs
