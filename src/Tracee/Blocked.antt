-- ===== src/Tracee/Blocked.antt =====
-- `RetryBlockedSyscall`, `SuppressBlockedSyscall` and `ResumeTracee`: a call that a filter of the
-- system has trapped before the tracer saw it. A syscall number that is -1 is its 64-bit word.
pub mod Laws
use andlify.Common.{
  ℕ, ◌+◌, ◌-◌, ◌%◌, ◌^◌, Bool, true, false, not, ◌&&◌, ◌||◌, List, [], ◌∷◌, if◌then◌else◌, ◌==◌,
  Option, none, some,
}
use andlify.Tracee.{
  Regs, TraceeState, Ptrace, BlockedSyscallRetry, none_blocked, awaiting_entry, in_flight, exited,
  negated, sys_getpid,
}
use andlify.Tracee.History.{record_syscall_result}

-- What PTRACE_GETSIGINFO gives for a SIGSYS.
pub record SigInfo : Type 0 where
  pub si_code : ℕ
  pub si_arch : ℕ
  pub si_call_addr : ℕ
  pub si_syscall : ℕ

abbrev pub sys_seccomp : ℕ
sys_seccomp = 1

abbrev pub audit_arch_aarch64 : ℕ
audit_arch_aarch64 = 0xc000_00b7

abbrev pub sys_openat : ℕ
sys_openat = 56

abbrev pub sys_openat2 : ℕ
sys_openat2 = 437

abbrev pub enosys : ℕ
enosys = 38

-- `kTracedSyscalls`
abbrev pub traced_syscalls : List ℕ
traced_syscalls =
    5 ∷ 6 ∷ 8 ∷ 9 ∷ 11 ∷ 12 ∷ 14 ∷ 15 ∷ 33 ∷ 57 ∷ 39 ∷ 40 ∷ 41 ∷ 34 ∷ 35 ∷ 36 ∷ 37 ∷ 38 ∷ 43 ∷ 45
    ∷ 46 ∷ 48 ∷ 49 ∷ 50 ∷ 52 ∷ 53 ∷ 54 ∷ 55 ∷ 56 ∷ 78 ∷ 79 ∷ 80 ∷ 88 ∷ 276 ∷ 291 ∷ 437 ∷ 439 ∷ 452
    ∷ 442 ∷ 221 ∷ 281 ∷ 91 ∷ 198 ∷ 200 ∷ 202 ∷ 203 ∷ 206 ∷ 207 ∷ 209 ∷ 211 ∷ 212 ∷ 242 ∷ 261 ∷ 143
    ∷ 144 ∷ 145 ∷ 146 ∷ 147 ∷ 148 ∷ 149 ∷ 150 ∷ 151 ∷ 152 ∷ 158 ∷ 159 ∷ 163 ∷ 164 ∷ 167 ∷ 220 ∷ 97
    ∷ 435 ∷ 174 ∷ 175 ∷ 176 ∷ 177 ∷ 29 ∷ 17 ∷ 166 ∷ []

unfoldable pub is_among : ℕ → List ℕ → Bool
is_among n [] = false
is_among n (traced ∷ rest) = traced == n || is_among n rest

unfoldable pub is_traced_syscall : ℕ → Bool
is_traced_syscall n = is_among n traced_syscalls

abbrev is_awaiting_entry : BlockedSyscallRetry → Bool
is_awaiting_entry awaiting_entry = true
is_awaiting_entry _ = false

-- Whether `ResumeTracee` asks for a stop at the next syscall (PTRACE_SYSCALL).
unfoldable pub stops_at_syscall : TraceeState → Bool
stops_at_syscall state = not state.expect_entry || is_awaiting_entry state.blocked_syscall_retry

-- A trap by seccomp at a call that the tracer handles.
unfoldable pub is_retried : TraceeState → Bool → SigInfo → Bool
is_retried state retried_syscall_exited info =
    info.si_code == sys_seccomp
    && info.si_arch == audit_arch_aarch64
    && not (info.si_call_addr == 0)
    && is_traced_syscall info.si_syscall
    && not (retried_syscall_exited && info.si_syscall == state.retried_syscall_number)

-- The address of the instruction before, in 64 bits.
abbrev pub before : ℕ → ℕ
before address = (address + 2 ^ 64 - 4) % 2 ^ 64

-- The two options are what PTRACE_GETSIGINFO and `GetRegs` give, `none` where they fail. The registers of the tracee
-- after the call are last.
unfoldable pub retry_blocked_syscall :
    Ptrace → Option SigInfo → Option Regs → TraceeState → Bool → Bool × TraceeState × Option Regs
retry_blocked_syscall ptrace none get_regs state retried_syscall_exited = (false, state, get_regs)
retry_blocked_syscall ptrace (some info) none state retried_syscall_exited = (false, state, none)
retry_blocked_syscall ptrace (some info) (some regs) state retried_syscall_exited =
    if not (is_retried state retried_syscall_exited info)
    then (false, state, some regs)
    else let regs' = record regs { pc = before info.si_call_addr } in
      if not (ptrace.set_regs regs') then (false, state, some regs) else (
        true,
        record state { expect_entry = true; blocked_syscall_retry = awaiting_entry },
        some regs',
      )

-- The call that is suppressed: the one that was trapped, or the one in the registers.
unfoldable pub blocked_syscall : Option SigInfo → Regs → ℕ
blocked_syscall none regs = regs.x8
blocked_syscall (some info) regs = info.si_syscall

-- The address after the trapped instruction, 0 for none.
unfoldable pub call_address : Option SigInfo → ℕ
call_address none = 0
call_address (some info) = info.si_call_addr

-- An `openat2` that is tried again as `openat`.
unfoldable pub retry_openat : Ptrace → ℕ → Regs → TraceeState → Bool × TraceeState × Option Regs
retry_openat ptrace address regs state =
    let regs' = record regs {
      x0 = state.pending_openat_dirfd;
      x1 = state.pending_openat_path;
      x2 = state.pending_openat_flags;
      x3 = state.pending_openat_mode;
      x8 = sys_openat;
      pc = before address;
    } in
    if not (ptrace.set_regs regs') then (false, state, some regs) else (
      true,
      record state {
        expect_entry = true;
        has_emulated_return = false;
        emulated_return = 0;
        pending_openat2_retry = false;
        retrying_openat2 = true;
      },
      some regs',
    )

-- The result that the tracee sees in place of the signal.
unfoldable pub suppressed_result : TraceeState → ℕ → ℕ
suppressed_result state blocked =
    if blocked == sys_getpid && state.has_emulated_return
    then state.emulated_return
    else negated enosys

unfoldable pub suppress_with : Ptrace → ℕ → Regs → TraceeState → Bool × TraceeState × Option Regs
suppress_with ptrace value regs state =
    let regs' = record regs { x0 = value } in
    let state' = record_syscall_result state value in
    if not (ptrace.set_regs regs') then (false, state', some regs) else (
      true,
      record state' { expect_entry = true; has_emulated_return = false; emulated_return = 0 },
      some regs',
    )

unfoldable pub suppress_blocked_syscall :
    Ptrace → Option SigInfo → Option Regs → TraceeState → Bool × TraceeState × Option Regs
suppress_blocked_syscall ptrace info none state = (false, state, none)
suppress_blocked_syscall ptrace info (some regs) state =
    let blocked = blocked_syscall info regs in
    if blocked == sys_openat2 && state.pending_openat2_retry && not (call_address info == 0)
    then retry_openat ptrace (call_address info) regs state
    else suppress_with ptrace (suppressed_result state blocked) regs state
