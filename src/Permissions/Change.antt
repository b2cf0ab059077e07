-- ===== src/Permissions/Change.antt =====
-- `PrepareFileOperation` on a file of the rootfs: the changes of owner and mode, and the checks of an
-- entry's removal.
pub mod Laws
use andlify.Common.{
  ℕ, ◌+◌, ◌-◌, ◌/◌, ◌%◌, ◌^◌, Bool, true, false, not, ◌&&◌, ◌||◌, List, [], ◌∷◌, ◌++◌,
  if◌then◌else◌, ◌==◌, Option, none, some,
}
use Prim.Native.Nat.{bit_and, bit_or}
use andlify.Common.Bytes.{Bytes}
use andlify.Ownership.{FileOwner}
use andlify.Permissions.{
  FileCredentials, Files, Result, ok, error, group, access_allowed, sticky, parent_of, has, is_dir,
  is_reg, is_lnk, s_ifmt, s_isuid, s_isgid, eperm, enoent, einval, eopnotsupp, eacces, w_ok, r_ok,
}

-- UINT32_MAX
abbrev pub unchanged : ℕ
unchanged = 0xffff_ffff

-- `~(S_ISUID | S_ISGID)` and `~S_ISGID` in 32 bits.
abbrev pub not_set_ids : ℕ
not_set_ids = 0xffff_f3ff

abbrev pub not_set_gid : ℕ
not_set_gid = 0xffff_fbff

-- `~(AT_SYMLINK_NOFOLLOW | AT_EMPTY_PATH)` in 64 bits.
abbrev pub other_at_flags : ℕ
other_at_flags = 2 ^ 64 - 1 - 0x1100

-- What the tracer does with the call: it answers `-errno` or 0, or leaves the call to the kernel.
pub data Outcome (S : Type 0) : Type 0 where
  fails : ℕ → S → Outcome S
  returns : S → Outcome S
  proceeds : S → Outcome S

unfoldable pub may_chown : FileCredentials → FileOwner → ℕ → ℕ → Bool
may_chown c owner uid gid = not (
    not (c.uid == 0)
    && (not (c.uid == owner.uid)
        || not (uid == unchanged) && not (uid == owner.uid)
        || not (gid == unchanged) && not (gid == owner.gid) && not (group c gid)))

-- The new owner of the file.
unfoldable pub chowned : FileOwner → ℕ → ℕ → FileOwner
chowned owner uid gid = record owner {
  uid = if not (uid == unchanged) then uid else owner.uid;
  gid = if not (gid == unchanged) then gid else owner.gid;
  mode =
      if not (is_dir owner.mode) && (not (uid == unchanged) || not (gid == unchanged))
      then bit_and owner.mode not_set_ids
      else owner.mode;
}

-- The permissions that `chmod` sets.
unfoldable pub chmod_mode : FileCredentials → FileOwner → ℕ → ℕ
chmod_mode c owner requested =
    let mode = bit_and requested 0xfff in
    if not (c.uid == 0) && not (group c owner.gid) then bit_and mode not_set_gid else mode

unfoldable pub chmodded : FileCredentials → FileOwner → ℕ → FileOwner
chmodded c owner requested = record owner {
  mode = bit_or (bit_and owner.mode s_ifmt) (chmod_mode c owner requested);
}

unfoldable pub outcome_of : {S : Type 0} → Result Unit × S → Outcome S
outcome_of (error e, s) = fails e s
outcome_of (ok _, s) = returns s

module _ {S : Type 0} (files : Files S) (c : FileCredentials) where
  -- `fchownat` where `at` is true, with its flags, and `fchown`; the ids are 32-bit words.
  unfoldable pub chown_file : S → Bool → ℕ → ℕ → ℕ → Option FileOwner → Outcome S
  chown_file s at flags uid gid none = fails enoent s
  chown_file s at flags uid gid (some owner) =
      if at && has other_at_flags flags
      then fails einval s
      else if not (may_chown c owner uid gid)
      then fails eperm s
      else outcome_of (files.set s (chowned owner uid gid) (some owner))

  -- `fchmod`, `fchmodat` and, where `at2` is true, `fchmodat2` with its flags. The kernel's own mode
  -- always lets the app read and write.
  unfoldable pub chmod_file : S → Bytes → Bool → ℕ → ℕ → Option FileOwner → Outcome S
  chmod_file s path at2 flags requested none = fails enoent s
  chmod_file s path at2 flags requested (some owner) =
      if not (c.uid == 0) && not (c.uid == owner.uid)
      then fails eperm s
      else if at2 && has other_at_flags flags
      then fails einval s
      else if is_lnk owner.mode
      then fails eopnotsupp s
      else let (done, s') = files.set s (chmodded c owner requested) (some owner) in
        elim done [
          | error e ↦ fails e s'
          | ok _ ↦ outcome_of (
              files.chmod s' path (
                bit_or (chmod_mode c owner requested) (if is_dir owner.mode then 0x1c0 else 0x180)))
        ]

  -- `faccessat`
  unfoldable pub access_file : S → ℕ → Option FileOwner → Outcome S
  access_file s mode none = fails enoent s
  access_file s mode (some owner) =
      if has (2 ^ 32 - 8) mode
      then fails einval s
      else if access_allowed owner c (mode % 2 ^ 32)
      then returns s
      else fails eacces s

  -- The check of the entry that `unlinkat` or `renameat` takes out of its directory.
  unfoldable pub remove_entry : S → Bytes → Option FileOwner → Outcome S
  remove_entry s path none = fails enoent s
  remove_entry s path (some owner) =
      let (found, s') = parent_of files s path c in
      elim found [
        | error e ↦ fails e s'
        | ok parent ↦
            if not (sticky parent owner c == 0)
            then fails (sticky parent owner c) s'
            else proceeds s'
      ]
