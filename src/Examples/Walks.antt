-- ===== src/Examples/Walks.antt =====
-- A search of directories (library/src/main/cpp/filesystem/virtual_filesystem.cpp) in a small rootfs.
use andlify.Common.{ℕ, [], ◌∷◌, ◌++◌, ◌≡◌, ◌≢◌, refl, arith, ap}
use andlify.Common.Bytes.{Bytes, codes}
use andlify.Ownership.{FileOwner, no_owner}
use andlify.Permissions.{FileCredentials, Result, ok, error, Files, owner_of, parent_path}
use andlify.Permissions.Search.{search}
use andlify.Permissions.Search.Laws.{IsSearch, search-IsSearch}
use andlify.Permissions.Search.Parents.{IsRoot}

abbrev walker : FileCredentials
walker = record { uid = 1000; gid = 1000; groups = []; mask = 0 }

abbrev open_directory : FileOwner
open_directory = record no_owner { device = 1; inode = 2; mode = 0x41ed }

-- Every file is a directory that all may search.
abbrev open_files : Files Unit
open_files = record {
  root = codes "/r";
  lstat = λ s path. ok (1, 2);
  chmod = λ s path mode. (ok tt, s);
  lookup = λ s device inode. ok open_directory;
  identify = λ s path. ok open_directory;
  set = λ s owner previous. (ok tt, s);
}

no_errors :
    (s s' : Unit) (path : Bytes) (e : ℕ) → owner_of open_files s path ≡ (error e, s') → e ≢ 0
unfolding owner_of
no_errors s s' path e h = absurd (apart (ap (λ (r : Result FileOwner × Unit). r.0) h))
  where
    apart : ok open_directory ≡ error e → ⊥
    apart h = ground arith

open_files-IsRoot : IsRoot (codes "/r")
open_files-IsRoot = (codes "/", b'r', refl, refl)

search-IsSearch_example :
    let path = codes "/r" ++ (b'/' ∷ codes "a/b") in
    IsSearch open_files walker tt (parent_path path) (search open_files tt path walker)
search-IsSearch_example =
    search-IsSearch open_files walker tt (codes "a/b") open_files-IsRoot no_errors
