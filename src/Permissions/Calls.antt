-- ===== src/Permissions/Calls.antt =====
-- `PrepareFileOperation`: the calls it handles, which argument of each is the path, and the check of
-- those calls that change neither an owner nor a directory.
pub mod Checks
pub mod Laws
use andlify.Common.{
  ℕ, ◌+◌, ◌-◌, ◌^◌, Bool, true, false, not, ◌&&◌, ◌||◌, if◌then◌else◌, ◌==◌, ltb, Option, none,
  some,
}
use Prim.Native.Nat.{bit_and}
use andlify.Tracee.{Regs}
use andlify.Ownership.{FileOwner}
use andlify.Permissions.{
  FileCredentials, access_allowed, has, x_ok, w_ok, eperm, eacces, einval, eopnotsupp,
}
use andlify.Permissions.Change.{Outcome, fails, returns, proceeds}

pub data FileCall : Type 0 where
  setxattr lsetxattr removexattr lremovexattr mknodat mkdirat unlinkat symlinkat linkat renameat
        truncate ftruncate faccessat chdir fchdir fchmod fchmodat fchownat fchown openat readlinkat
        newfstatat utimensat execve renameat2 execveat statx openat2 faccessat2 fchmodat2 :
      FileCall

-- By the syscall number; `none` is the default of the switch.
unfoldable pub file_call_of : ℕ → Option FileCall
file_call_of n =
    if n == 5
    then some setxattr
    else if n == 6
    then some lsetxattr
    else if n == 14
    then some removexattr
    else if n == 15
    then some lremovexattr
    else if n == 33
    then some mknodat
    else if n == 34
    then some mkdirat
    else if n == 35
    then some unlinkat
    else if n == 36
    then some symlinkat
    else if n == 37
    then some linkat
    else if n == 38
    then some renameat
    else if n == 45
    then some truncate
    else if n == 46
    then some ftruncate
    else if n == 48
    then some faccessat
    else if n == 49
    then some chdir
    else if n == 50
    then some fchdir
    else if n == 52
    then some fchmod
    else if n == 53
    then some fchmodat
    else if n == 54
    then some fchownat
    else if n == 55
    then some fchown
    else if n == 56
    then some openat
    else if n == 78
    then some readlinkat
    else if n == 79
    then some newfstatat
    else if n == 88
    then some utimensat
    else if n == 221
    then some execve
    else if n == 276
    then some renameat2
    else if n == 281
    then some execveat
    else if n == 291
    then some statx
    else if n == 437
    then some openat2
    else if n == 439
    then some faccessat2
    else if n == 452
    then some fchmodat2
    else none

abbrev pub at_symlink_nofollow : ℕ
at_symlink_nofollow = 0x100

abbrev pub at_symlink_follow : ℕ
at_symlink_follow = 0x400

abbrev pub o_creat : ℕ
o_creat = 0x40

abbrev pub o_excl : ℕ
o_excl = 0x80

-- Of AArch64.
abbrev pub o_nofollow : ℕ
o_nofollow = 0x8000

-- The three fields of `struct open_how`.
pub record OpenHow : Type 0 where
  pub flags : ℕ
  pub mode : ℕ
  pub resolve : ℕ

-- Where the file is named: by the descriptor in the first argument, by a path in one argument that is
-- relative to the descriptor in another (`none` is the working directory), or the call is refused.
pub data Target : Type 0 where
  by_fd : Target
  by_path : ℕ → Option ℕ → Bool → Target
  refused : ℕ → Target

abbrev at_1 : Bool → Target
at_1 follow = by_path 1 (some 0) follow

-- The body of `kOpenat2`, with what `ReadTraceeMemory` gives at an address.
unfoldable pub openat2_target : (ℕ → Option OpenHow) → Regs → Target
openat2_target read_how a = if ltb a.x3 24 then refused einval else elim (read_how a.x2) [
  | none ↦ refused einval
  | some how ↦
      if has (2 ^ 64 - 1 - 0x12) how.resolve
      then refused eopnotsupp
      else at_1 (not (has o_nofollow how.flags))
]

-- The switch.
unfoldable pub path_target : (ℕ → Option OpenHow) → FileCall → Regs → Target
path_target read_how openat a =
    at_1 (not (has o_nofollow a.x2) && not (has o_creat a.x2 && has o_excl a.x2))
path_target read_how openat2 a = openat2_target read_how a
path_target read_how mknodat a = at_1 false
path_target read_how mkdirat a = at_1 false
path_target read_how unlinkat a = at_1 false
path_target read_how renameat a = at_1 false
path_target read_how renameat2 a = at_1 false
path_target read_how readlinkat a = at_1 false
path_target read_how symlinkat a = by_path 2 (some 1) false
path_target read_how linkat a = at_1 (has at_symlink_follow a.x4)
path_target read_how faccessat a = at_1 true
path_target read_how fchmodat a = at_1 true
path_target read_how fchownat a = at_1 (not (has at_symlink_nofollow a.x4))
path_target read_how newfstatat a = at_1 (not (has at_symlink_nofollow a.x3))
path_target read_how utimensat a =
    if a.x1 == 0 then by_fd else at_1 (not (has at_symlink_nofollow a.x3))
path_target read_how statx a = at_1 (not (has at_symlink_nofollow a.x2))
path_target read_how faccessat2 a = at_1 (not (has at_symlink_nofollow a.x3))
path_target read_how fchmodat2 a = at_1 (not (has at_symlink_nofollow a.x3))
path_target read_how chdir a = by_path 0 none true
path_target read_how execve a = by_path 0 none true
path_target read_how execveat a = at_1 (not (has at_symlink_nofollow a.x4))
path_target read_how fchmod a = by_fd
path_target read_how fchown a = by_fd
path_target read_how fchdir a = by_fd
path_target read_how ftruncate a = by_fd
path_target read_how truncate a = by_path 0 none true
path_target read_how setxattr a = by_path 0 none true
path_target read_how removexattr a = by_path 0 none true
path_target read_how lsetxattr a = by_path 0 none false
path_target read_how lremovexattr a = by_path 0 none false

-- The permission that a call which is left to the kernel needs; 0 is none.
unfoldable pub needed : FileCall → ℕ
needed chdir = x_ok
needed fchdir = x_ok
needed execve = x_ok
needed execveat = x_ok
needed truncate = w_ok
needed ftruncate = w_ok
needed setxattr = w_ok
needed lsetxattr = w_ok
needed removexattr = w_ok
needed lremovexattr = w_ok
needed _ = 0

abbrev pub is_utimensat : FileCall → Bool
is_utimensat utimensat = true
is_utimensat _ = false

unfoldable pub check_needed : {S : Type 0} → S → FileOwner → FileCredentials → ℕ → Outcome S
check_needed s owner c mask =
    if not (mask == 0) && not (access_allowed owner c mask) then fails eacces s else proceeds s

-- The end of the function; setting the times of a file to a given time (`a[2]`) is its owner's alone.
unfoldable pub check_call :
    {S : Type 0} → S → FileCall → Regs → FileCredentials → Option FileOwner → Outcome S
check_call s call a c none = proceeds s
check_call s call a c (some owner) =
    if is_utimensat call && not (c.uid == 0) && not (c.uid == owner.uid)
    then (if not (a.x2 == 0) then fails eperm s else check_needed s owner c w_ok)
    else check_needed s owner c (needed call)
