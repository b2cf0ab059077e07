-- ===== src/Permissions/Calls/Laws.antt =====
-- Where the path of a call is.
use andlify.Common.{
  ℕ, suc, ◌-◌, ◌^◌, ◌<◌, Bool, true, false, not, ◌≡◌, inl, inr, refl, arith, Bool-cases, ◌==◌, ltb,
  Option, none, some, Option-cases,
}
use andlify.Tracee.{Regs}
use andlify.Permissions.{has, einval, eopnotsupp}
use andlify.Permissions.Calls.{
  FileCall, OpenHow, Target, by_fd, by_path, refused, openat2_target, path_target, openat2,
  o_nofollow, utimensat, setxattr, lsetxattr, removexattr, lremovexattr, symlinkat, truncate,
  ftruncate, chdir, fchdir, fchmod, fchown, execve,
}

-- The path is the first argument, or follows the descriptor of its directory, and is among the first
-- three; only `openat2` is refused, for its size, its address or its constraints.
pub data IsPlaced (call : FileCall) : Target → Type 0 where
  fd : IsPlaced call by_fd
  first : (follow : Bool) → IsPlaced call (by_path 0 none follow)
  after : (dir : ℕ) (follow : Bool) → dir < 2 → IsPlaced call (by_path (suc dir) (some dir) follow)
  bad_how : call ≡ openat2 → IsPlaced call (refused einval)
  bad_resolve : call ≡ openat2 → IsPlaced call (refused eopnotsupp)

openat2_target-IsPlaced :
    (read_how : ℕ → Option OpenHow) (a : Regs) → IsPlaced openat2 (openat2_target read_how a)
unfolding openat2_target
openat2_target-IsPlaced read_how a = elim (Bool-cases (ltb a.x3 24)) [
  | inl short ↦ rw short (bad_how refl)
  | inr long ↦ rw long (elim (Option-cases (read_how a.x2)) [
    | inl e ↦ rw e (bad_how refl)
    | inr (how, e) ↦ rw e (elim (Bool-cases (has (2 ^ 64 - 1 - 0x12) how.resolve)) [
      | inl extra ↦ rw extra (bad_resolve refl)
      | inr plain ↦ rw plain (after 0 (not (has o_nofollow how.flags)) (omega arith))
    ])
  ])
]

-- Every call that is handled names its file by the descriptor in its first argument, by a path in the
-- first argument, or by a path in the argument after the directory's descriptor; only `openat2` is
-- refused, with EINVAL or EOPNOTSUPP.
pub path_target-IsPlaced :
    (read_how : ℕ → Option OpenHow) (call : FileCall) (a : Regs)
    → IsPlaced call (path_target read_how call a)
unfolding path_target
path_target-IsPlaced read_how openat2 a = openat2_target-IsPlaced read_how a
path_target-IsPlaced read_how utimensat a = elim (Bool-cases (a.x1 == 0)) [
  | inl e ↦ rw e fd
  | inr e ↦ rw e (after 0 _ (omega arith))
]
path_target-IsPlaced read_how symlinkat a = after 1 false (omega arith)
path_target-IsPlaced read_how chdir a = first true
path_target-IsPlaced read_how execve a = first true
path_target-IsPlaced read_how truncate a = first true
path_target-IsPlaced read_how setxattr a = first true
path_target-IsPlaced read_how removexattr a = first true
path_target-IsPlaced read_how lsetxattr a = first false
path_target-IsPlaced read_how lremovexattr a = first false
path_target-IsPlaced read_how fchmod a = fd
path_target-IsPlaced read_how fchown a = fd
path_target-IsPlaced read_how fchdir a = fd
path_target-IsPlaced read_how ftruncate a = fd
path_target-IsPlaced read_how _ a = after 0 _ (omega arith)
