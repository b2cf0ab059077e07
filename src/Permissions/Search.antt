-- ===== src/Permissions/Search.antt =====
-- `Search` in virtual_filesystem.cpp: the directories on the way to a file, from its own up to the root of
-- the rootfs, which the caller must be able to search.
pub mod Laws
pub mod Parents
use andlify.Common.{ℕ, zero, suc, Bool, true, false, not, if◌then◌else◌, Option, none, some, length}
use andlify.Common.Bytes.{Bytes, str_eq}
use andlify.Permissions.{
  FileCredentials, x_ok, is_dir, access_allowed, parent_path, Result, ok, error, Files, managed,
  owner_of, eacces, enotdir,
}

module _ {S : Type 0} (files : Files S) where
  -- The loop, with at most `fuel` turns; `none` is a loop that goes on.
  unfoldable pub search_from : ℕ → S → Bytes → FileCredentials → Option (ℕ × S)
  search_from zero s parent c = none
  search_from (suc fuel) s parent c =
      let (found, s') = owner_of files s parent in
      let rest = search_from fuel s' (parent_path parent) c in
      if not (managed files.root parent) then some (0, s) else elim found [
        | error e ↦ some (e, s')
        | ok owner ↦
            if not (is_dir owner.mode)
            then some (enotdir, s')
            else if not (access_allowed owner c x_ok)
            then some (eacces, s')
            else if str_eq parent files.root
            then some (0, s')
            else rest
      ]

  -- 0 is no error.
  unfoldable pub search : S → Bytes → FileCredentials → Option (ℕ × S)
  search s path c =
      if not (managed files.root path)
      then some (0, s)
      else search_from (suc (length path)) s (parent_path path) c
