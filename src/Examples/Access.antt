-- ===== src/Examples/Access.antt =====
-- The permission checks of virtual_filesystem.cpp on one file.
use andlify.Common.{Option, ℕ, true, false, ◌||◌, [], ◌∷◌, ◌≡◌, ◌≢◌, ◌⊎◌, refl, arith, some}
use Prim.Native.Nat.{bit_and}
use andlify.Common.Bytes.{codes, is_empty, starts_with}
use andlify.Archive.{drop_slashes}
use andlify.Ownership.{FileOwner}
use andlify.Permissions.{
  FileCredentials, Files, ok, group, is_in, access_allowed, class_bits, sticky, drop_name,
  parent_path, owner_of, parent_of, is_dir, is_reg, is_fifo, is_lnk, s_isgid,
}
use andlify.Permissions.Change.{
  returns, proceeds, may_chown, chowned, chmodded, chmod_mode, outcome_of, chown_file, chmod_file,
  remove_entry,
}
use andlify.Permissions.Change.Laws.{
  MayChown, MayChmod, MayRemove, chown_file-MayChown, chmod_file-MayChmod, remove_entry-MayRemove,
}
use andlify.Tracee.{Regs}
use andlify.Permissions.Calls.{OpenHow, needed, check_needed, check_call, execve}
use andlify.Permissions.Calls.Checks.{IsChecked, check_call-IsChecked}
use andlify.Permissions.Create.{
  opened_owner, new_gid, new_mode, directory, node, link, created_owner,
}
use andlify.Permissions.Create.Laws.{Belongs, opened_owner-Belongs, created_owner-Belongs}

program : Unit {0}
unfolding needed check_needed check_call is_in group class_bits access_allowed sticky may_chown
    chowned chmodded chmod_mode outcome_of chown_file chmod_file remove_entry drop_name parent_path
    owner_of parent_of new_gid new_mode created_owner drop_slashes is_empty starts_with
program = tt

abbrev user : FileCredentials
user = record { uid = 1000; gid = 1000; groups = 27 ∷ []; mask = 18 }

user_not_root : user.uid ≢ 0
user_not_root = ground arith

-- A file of the user's, and a directory of mode 0777.
abbrev file : FileOwner
file = record {
  device = 64;
  inode = 42;
  birth_seconds = 0;
  birth_nanoseconds = 0;
  uid = 1000;
  gid = 1000;
  mode = 0x89ed;
}

abbrev shared_directory : FileOwner
shared_directory = record file { uid = 0; gid = 0; mode = 0x41ff }

-- A store that holds one owner, whatever the file.
abbrev files : Files FileOwner
files = record {
  root = codes "/r";
  lstat = λ s path. ok (64, 42);
  chmod = λ s path mode. (ok tt, s);
  lookup = λ s device inode. ok s;
  identify = λ s path. ok s;
  set = λ s new previous. (ok tt, new);
}

chown_user :
    chown_file files user file true 0 0xffff_ffff 27 (some file)
    ≡ returns (chowned file 0xffff_ffff 27)
unfolding program
chown_user = refl

chown_file-MayChown_example :
    (new : FileOwner) × (files.set file new (some file) ≡ (ok tt, chowned file 0xffff_ffff 27))
    × MayChown user file new
chown_file-MayChown_example =
    chown_file-MayChown files user file file (chowned file 0xffff_ffff 27) true 0 0xffff_ffff 27
      user_not_root chown_user

chmod_user :
    chmod_file files user file (codes "/r/a") false 0 0x1a4 (some file)
    ≡ returns (chmodded user file 0x1a4)
unfolding program
chmod_user = refl

chmod_file-MayChmod_example :
    (new stored : FileOwner) × (files.set file new (some file) ≡ (ok tt, stored))
    × MayChmod user file new
chmod_file-MayChmod_example =
    chmod_file-MayChmod files user file file (chmodded user file 0x1a4) (codes "/r/a") false 0 0x1a4
      chmod_user

remove_user :
    remove_entry files user shared_directory (codes "/r/a") (some file) ≡ proceeds shared_directory
unfolding program
remove_user = refl

remove_entry-MayRemove_example :
    (owner parent : FileOwner) × (some file ≡ some owner)
    × (parent_of files shared_directory (codes "/r/a") user ≡ (ok parent, shared_directory))
    × MayRemove user parent owner
remove_entry-MayRemove_example =
    remove_entry-MayRemove files user shared_directory shared_directory (codes "/r/a") (some file)
      remove_user

opened_owner-Belongs_example :
    let made = opened_owner shared_directory user 0x9ff in
    Belongs shared_directory user made
    × (is_reg made.mode ≡ true)
    × ((user.uid ≡ 0) ⊎ (group user made.gid ≡ true) ⊎ (bit_and made.mode s_isgid ≡ 0))
opened_owner-Belongs_example = opened_owner-Belongs shared_directory user 0x9ff

abbrev queue : FileOwner
queue = record file { device = 0; inode = 0; mode = 0x11a4 }

mknod_queue : created_owner node shared_directory user 0x11b6 ≡ some queue
unfolding program
mknod_queue = refl

created_owner-Belongs_example :
    Belongs shared_directory user queue
    × ((node ≡ directory) × (is_dir queue.mode ≡ true)
        ⊎ (node ≡ node) × ((is_reg queue.mode || is_fifo queue.mode) ≡ true)
        ⊎ (node ≡ link) × (is_lnk queue.mode ≡ true))
created_owner-Belongs_example =
    created_owner-Belongs node shared_directory user 0x11b6 queue mknod_queue

abbrev how : ℕ → Option OpenHow
how address = some (record { flags = 0; mode = 0; resolve = 0 })

abbrev call : Regs
call = record { x0 = 3; x1 = 4096; x2 = 8192; x3 = 24; x4 = 0; x5 = 0; x8 = 437; pc = 512 }

check_call-IsChecked_example :
    IsChecked shared_directory execve call user file
      (check_call shared_directory execve call user (some file))
check_call-IsChecked_example = check_call-IsChecked shared_directory call user file execve
