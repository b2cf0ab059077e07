-- ===== src/Permissions/Create.antt =====
-- `PrepareFileOperation`: the owner and the mode of a file that a call makes.
pub mod Laws
use andlify.Common.{
  ℕ, ◌+◌, ◌-◌, ◌%◌, ◌^◌, Bool, true, false, not, ◌&&◌, ◌||◌, if◌then◌else◌, ◌==◌, Option, none,
  some,
}
use Prim.Native.Nat.{bit_and, bit_or}
use andlify.Ownership.{FileOwner, no_owner}
use andlify.Permissions.{FileCredentials, group, has, is_reg, is_fifo, s_ifmt, s_isgid}
use andlify.Permissions.Change.{not_set_gid}

-- `~c.mask` in 32 bits.
abbrev pub unmasked : FileCredentials → ℕ
unmasked c = 2 ^ 32 - 1 - c.mask

-- `(parent.mode & S_ISGID) ? parent.gid : c.gid`
unfoldable pub new_gid : FileOwner → FileCredentials → ℕ
new_gid parent c = if has s_isgid parent.mode then parent.gid else c.gid

-- `openat` with O_CREAT: `pending->owner`.
unfoldable pub opened_owner : FileOwner → FileCredentials → ℕ → FileOwner
opened_owner parent c mode =
    let gid = new_gid parent c in
    let made = bit_or 0x8000 (bit_and (bit_and mode 0xfff) (unmasked c)) in
    record no_owner {
      uid = c.uid;
      gid = gid;
      mode = if not (c.uid == 0) && not (group c gid) then bit_and made not_set_gid else made;
    }

pub data NewEntry : Type 0 where
  directory node link : NewEntry

-- The mode of `mkdirat`, `mknodat` and `symlinkat`.
unfoldable pub new_mode : NewEntry → FileOwner → FileCredentials → ℕ → ℕ
new_mode directory parent c mode =
    bit_or (bit_or (bit_and (bit_and (mode % 2 ^ 32) (unmasked c)) 0xfff) 0x4000)
      (bit_and parent.mode s_isgid)
new_mode node parent c mode =
    let masked = bit_and (mode % 2 ^ 32) (unmasked c) in
    if not (has s_ifmt masked) then bit_or masked 0x8000 else masked
new_mode link parent c mode = 0xa1ff

-- `none` is EPERM: a tracee makes no device.
unfoldable pub created_owner : NewEntry → FileOwner → FileCredentials → ℕ → Option FileOwner
created_owner entry parent c mode =
    let made = record no_owner {
      uid = c.uid;
      gid = new_gid parent c;
      mode = new_mode entry parent c mode;
    } in
    elim entry [
      | node ↦ if not (is_reg made.mode) && not (is_fifo made.mode) then none else some made
      | directory ↦ some made
      | link ↦ some made
    ]
