-- ===== src/Tracee.antt =====
-- library/src/main/cpp/ptrace_engine.cpp: what the tracer keeps for each traced process, and the
-- calls that it answers from there. A register is a 64-bit word, written out as a number.
pub mod History
pub mod Credentials
pub mod Limits
pub mod Transfer
pub mod Exec
pub mod Blocked
pub mod Devices
pub mod Namespaces
use andlify.Common.{ℕ, ◌+◌, ◌-◌, ◌%◌, ◌^◌, Bool, true, false, List, if◌then◌else◌, Option}
use andlify.Common.Bytes.{Bytes}

-- `regs[0]` to `regs[5]`, the syscall number in `regs[8]`, and the program counter.
pub record Regs : Type 0 where
  pub x0 : ℕ
  pub x1 : ℕ
  pub x2 : ℕ
  pub x3 : ℕ
  pub x4 : ℕ
  pub x5 : ℕ
  pub x8 : ℕ
  pub pc : ℕ

pub record SyscallRecord : Type 0 where
  pub number : ℕ
  pub args : List ℕ
  pub result : ℕ
  pub finished : Bool

-- The user ids `real_uid`, `effective_uid`, `saved_uid` and `fs_uid`, or the four group ids.
pub record Ids : Type 0 where
  pub real : ℕ
  pub effective : ℕ
  pub saved : ℕ
  pub fs : ℕ

pub record Rlimit : Type 0 where
  pub rlim_cur : ℕ
  pub rlim_max : ℕ

-- What becomes of a syscall that another filter has trapped.
pub data BlockedSyscallRetry : Type 0 where
  none_blocked awaiting_entry in_flight exited : BlockedSyscallRetry

-- The fields of `TraceeState` that the modelled calls read or write.
pub record TraceeState : Type 0 where
  pub expect_entry : Bool
  pub blocked_syscall_retry : BlockedSyscallRetry
  pub retried_syscall_number : ℕ
  pub pending_openat2_retry : Bool
  pub retrying_openat2 : Bool
  pub pending_openat_dirfd : ℕ
  pub pending_openat_path : ℕ
  pub pending_openat_flags : ℕ
  pub pending_openat_mode : ℕ
  pub uid : Ids
  pub gid : Ids
  pub supplementary_groups : List ℕ
  pub no_new_privileges : Bool
  pub file_descriptor_limit : Rlimit
  pub emulated_mount_namespace : Bool
  pub emulated_network_namespace : Bool
  pub emulated_user_namespace : Bool
  pub pending_clone_namespace_flags : ℕ
  pub has_emulated_return : Bool
  pub emulated_return : ℕ
  pub recent_syscalls : List SyscallRecord
  pub recent_syscall_count : ℕ

-- The memory of the tracee, as `ReadTraceeMemory` and `WriteTraceeMemory` give it; a write that
-- fails may have changed a part.
pub record Memory (M : Type 0) : Type 0 where
  pub read : M → ℕ → ℕ → Option Bytes
  pub write : M → ℕ → Bytes → Bool × M

-- Whether the kernel takes new registers (`SetRegs`) and a new syscall number (`SetSyscallNumber`).
pub record Ptrace : Type 0 where
  pub set_regs : Regs → Bool
  pub set_syscall_number : Regs → Bool

abbrev pub sys_getpid : ℕ
sys_getpid = 172

-- `-errno` as a 64-bit word.
abbrev pub negated : ℕ → ℕ
negated errno = 2 ^ 64 - errno

abbrev pub eperm : ℕ
eperm = 1

abbrev pub efault : ℕ
efault = 14

abbrev pub einval : ℕ
einval = 22

abbrev pub root_uid : ℕ
root_uid = 0

-- A register read as `uint32_t`.
abbrev pub u32 : ℕ → ℕ
u32 x = x % 2 ^ 32

-- The call is turned into `getpid`, whose result is replaced at the exit stop.
unfoldable pub set_emulated_syscall_return : Ptrace → TraceeState → Regs → ℕ → TraceeState × Regs
set_emulated_syscall_return ptrace state regs return_value =
    let regs' = record regs { x8 = sys_getpid } in
    if ptrace.set_syscall_number regs'
    then (record state { has_emulated_return = true; emulated_return = return_value }, regs')
    else (state, regs')
