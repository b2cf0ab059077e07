-- ===== src/Tracee/History.antt =====
-- `RecordSyscallEntry` and `RecordSyscallResult`: a ring of the last calls of a tracee.
pub mod Laws
pub mod Reports
use andlify.Common.{
  ℕ, suc, ◌+◌, ◌-◌, ◌%◌, zero, Bool, true, false, List, [], ◌∷◌, if◌then◌else◌, ◌==◌, set,
  get_elem?, Option, none, some, replicate,
}
use Prim.Native.Nat.{min}
use andlify.Tracee.{Regs, SyscallRecord, TraceeState}

abbrev pub syscall_history_size : ℕ
syscall_history_size = 32

unfoldable pub entry_record : Regs → SyscallRecord
entry_record regs = record {
  number = regs.x8;
  args = regs.x0 ∷ regs.x1 ∷ regs.x2 ∷ regs.x3 ∷ regs.x4 ∷ regs.x5 ∷ [];
  result = 0;
  finished = false;
}

unfoldable pub record_syscall_entry : TraceeState → Regs → TraceeState
record_syscall_entry state regs = record state {
  recent_syscalls =
      set state.recent_syscalls (state.recent_syscall_count % syscall_history_size)
        (entry_record regs);
  recent_syscall_count = suc state.recent_syscall_count;
}

-- A record that is finished keeps its result.
unfoldable pub finish_record : ℕ → SyscallRecord → SyscallRecord
finish_record result r = if r.finished then r else record r { result = result; finished = true }

-- `none` cannot occur: the ring has all its slots.
unfoldable pub finish_at : List SyscallRecord → ℕ → ℕ → List SyscallRecord
finish_at records i result = elim (get_elem? records i) [
  | none ↦ records
  | some r ↦ set records i (finish_record result r)
]

unfoldable pub record_syscall_result : TraceeState → ℕ → TraceeState
record_syscall_result state result =
    if state.recent_syscall_count == 0 then state else record state {
      recent_syscalls =
          finish_at state.recent_syscalls ((state.recent_syscall_count - 1) % syscall_history_size)
            result;
    }

-- The loop at the end of `LogCrashContext`: `n` calls from the `i`-th on.
unfoldable pub logged_from : List SyscallRecord → ℕ → ℕ → List SyscallRecord
logged_from records i zero = []
logged_from records i (suc n) =
    let rest = logged_from records (suc i) n in
    elim (get_elem? records (i % syscall_history_size)) [ none ↦ rest | some r ↦ r ∷ rest ]

-- The calls that a crash report lists.
unfoldable pub logged_calls : TraceeState → List SyscallRecord
logged_calls state =
    let count = min state.recent_syscall_count syscall_history_size in
    logged_from state.recent_syscalls (state.recent_syscall_count - count) count
