-- ===== src/Permissions.antt =====
-- library/src/main/cpp/filesystem/virtual_filesystem.cpp: which file operations the owner and the
-- mode that the store keeps of a file allow to a tracee.
pub mod Change
pub mod Create
pub mod Calls
pub mod Search
use andlify.Common.{
  ℕ, ◌+◌, ◌-◌, ◌/◌, ◌^◌, Bool, true, false, not, ◌&&◌, ◌||◌, List, [], ◌∷◌, ◌++◌, if◌then◌else◌,
  ◌==◌, Option, none, some,
}
use Prim.Native.Nat.{bit_and}
use mathlib.Core.List.{reverse}
use andlify.Common.Bytes.{Bytes, codes, str_eq, starts_with, is_empty}
use andlify.Archive.{drop_slashes}
use andlify.Ownership.{FileOwner}

pub record FileCredentials : Type 0 where
  pub uid : ℕ
  pub gid : ℕ
  pub groups : List ℕ
  pub mask : ℕ

abbrev pub eperm : ℕ
eperm = 1

abbrev pub enoent : ℕ
enoent = 2

abbrev pub eacces : ℕ
eacces = 13

abbrev pub enotdir : ℕ
enotdir = 20

abbrev pub einval : ℕ
einval = 22

abbrev pub eopnotsupp : ℕ
eopnotsupp = 95

-- R_OK, W_OK and X_OK are 4, 2 and 1.
abbrev pub x_ok : ℕ
x_ok = 1

abbrev pub w_ok : ℕ
w_ok = 2

abbrev pub r_ok : ℕ
r_ok = 4

abbrev pub s_ifmt : ℕ
s_ifmt = 0xf000

abbrev pub s_isuid : ℕ
s_isuid = 0x800

abbrev pub s_isgid : ℕ
s_isgid = 0x400

abbrev pub s_isvtx : ℕ
s_isvtx = 0x200

abbrev pub is_type : ℕ → ℕ → Bool
is_type type mode = bit_and mode s_ifmt == type

-- `S_ISDIR`, `S_ISREG`, `S_ISLNK` and `S_ISFIFO`.
abbrev pub is_dir : ℕ → Bool
is_dir = is_type 0x4000

abbrev pub is_reg : ℕ → Bool
is_reg = is_type 0x8000

abbrev pub is_lnk : ℕ → Bool
is_lnk = is_type 0xa000

abbrev pub is_fifo : ℕ → Bool
is_fifo = is_type 0x1000

-- Whether a bit of the mask is in the number.
abbrev pub has : ℕ → ℕ → Bool
has mask n = not (bit_and n mask == 0)

-- `std::find(groups.begin(), groups.end(), gid) != groups.end()`
unfoldable pub is_in : ℕ → List ℕ → Bool
is_in gid [] = false
is_in gid (g ∷ groups) = g == gid || is_in gid groups

unfoldable pub group : FileCredentials → ℕ → Bool
group credentials gid = credentials.gid == gid || is_in gid credentials.groups

-- The bits of the mode from those of the caller's class on.
unfoldable pub class_bits : FileOwner → FileCredentials → ℕ
class_bits owner c =
    if c.uid == owner.uid
    then owner.mode / 64
    else if group c owner.gid
    then owner.mode / 8
    else owner.mode

-- `Allowed`
unfoldable pub access_allowed : FileOwner → FileCredentials → ℕ → Bool
access_allowed owner c mask =
    if c.uid == 0
    then not (has x_ok mask) || is_dir owner.mode || has 0x49 owner.mode
    else bit_and (class_bits owner c) mask == mask

-- `Sticky`; 0 is no error.
unfoldable pub sticky : FileOwner → FileOwner → FileCredentials → ℕ
sticky parent target c =
    if has s_isvtx parent.mode
      && not (c.uid == 0)
      && not (c.uid == parent.uid)
      && not (c.uid == target.uid)
    then eperm
    else 0

-- `std::filesystem::path::parent_path` on a text read from its end: the last name and the slashes
-- before it are dropped.
unfoldable pub drop_name : Bytes → Bytes
drop_name [] = []
drop_name (c ∷ s) = let rest = drop_name s in if c == b'/' then c ∷ s else rest

unfoldable pub parent_path : Bytes → Bytes
parent_path path =
    let parent = reverse (drop_slashes (drop_name (reverse path))) in
    if is_empty parent && starts_with (codes "/") path then codes "/" else parent

-- The result of a call that sets `errno` where it fails.
pub data Result (A : Type 0) : Type 0 where
  ok : A → Result A
  error : ℕ → Result A

-- The kernel's view of files and the store's operations (`Lookup`, `Identify`, `Set`), on a state `S`.
pub record Files (S : Type 0) : Type 0 where
  pub root : Bytes
  pub lstat : S → Bytes → Result (ℕ × ℕ)
  pub chmod : S → Bytes → ℕ → Result Unit × S
  pub lookup : S → ℕ → ℕ → Result FileOwner
  pub identify : S → Bytes → Result FileOwner
  pub set : S → FileOwner → Option FileOwner → Result Unit × S

unfoldable pub managed : Bytes → Bytes → Bool
managed root path = str_eq path root || starts_with (root ++ codes "/") path

module _ {S : Type 0} (files : Files S) where
  -- `Owner`: a file that the store does not know is entered as it is found.
  unfoldable pub owner_of : S → Bytes → Result FileOwner × S
  owner_of s path = elim (files.lstat s path) [
    | error e ↦ (error e, s)
    | ok (device, inode) ↦ elim (files.lookup s device inode) [
      | ok owner ↦ (ok owner, s)
      | error e ↦ if not (e == enoent) then (error e, s) else elim (files.identify s path) [
        | error e ↦ (error e, s)
        | ok owner ↦
            let (done, s') = files.set s owner none in
            elim done [ error e ↦ (error e, s') | ok _ ↦ (ok owner, s') ]
      ]
    ]
  ]

  -- `Parent`: the parent directory, where entries may be made and removed in it.
  unfoldable pub parent_of : S → Bytes → FileCredentials → Result FileOwner × S
  parent_of s path c =
      let (found, s') = owner_of s (parent_path path) in
      elim found [
        | error e ↦ (error e, s')
        | ok parent ↦
            if not (access_allowed parent c (w_ok + x_ok))
            then (error eacces, s')
            else (ok parent, s')
      ]

  -- `CheckFileAccess`; 0 is no error.
  unfoldable pub check_file_access : S → Bytes → FileCredentials → ℕ → ℕ × S
  check_file_access s path credentials mask =
      if not (managed files.root path)
      then (0, s)
      else let (found, s') = owner_of s path in
        elim found [
          | error e ↦ (e, s')
          | ok owner ↦
              if not (is_dir owner.mode) && mask == x_ok
              then (enotdir, s')
              else (if access_allowed owner credentials mask then 0 else eacces, s')
        ]
