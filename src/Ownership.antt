-- ===== src/Ownership.antt =====
-- library/src/main/cpp/ownership: the virtual owner of every file, by device and inode.
-- `Ownership.Table` is the open-addressing table of ownership_store.cpp.
pub mod Journal
pub mod Processes
pub mod Record
pub mod Table
pub mod Terminals
pub mod Write
use andlify.Common.{ℕ, Bool, ◌==◌, ◌&&◌}

pub record FileOwner : Type 0 where
  pub device : ℕ
  pub inode : ℕ
  pub birth_seconds : ℕ
  pub birth_nanoseconds : ℕ
  pub uid : ℕ
  pub gid : ℕ
  pub mode : ℕ

-- `FileOwner{}`
abbrev pub no_owner : FileOwner
no_owner = record {
  device = 0;
  inode = 0;
  birth_seconds = 0;
  birth_nanoseconds = 0;
  uid = 0;
  gid = 0;
  mode = 0;
}

unfoldable pub same_birth : FileOwner → FileOwner → Bool
same_birth a b = a.birth_seconds == b.birth_seconds && a.birth_nanoseconds == b.birth_nanoseconds
