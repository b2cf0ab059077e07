-- ===== src/Tracee/Exec.antt =====
-- `MaybeEmulatePrctlSyscall` and `ApplyExecCredentialTransition`: the flag that gives up new
-- privileges, and the ids that a program takes from its file.
pub mod Laws
use andlify.Common.{ℕ, Bool, true, false, not, ◌&&◌, ◌||◌, if◌then◌else◌, ◌==◌, Option, none, some}
use Prim.Native.Nat.{bit_and}
use andlify.Tracee.{Regs, Ids, TraceeState, Ptrace, set_emulated_syscall_return}

abbrev pub sys_prctl : ℕ
sys_prctl = 167

abbrev pub pr_set_dumpable : ℕ
pr_set_dumpable = 4

abbrev pub pr_set_no_new_privs : ℕ
pr_set_no_new_privs = 38

abbrev pub pr_get_no_new_privs : ℕ
pr_get_no_new_privs = 39

-- A `prctl` of that option and second argument, with no more arguments.
unfoldable pub is_prctl : Regs → ℕ → ℕ → Bool
is_prctl regs option value =
    regs.x8 == sys_prctl
    && regs.x0 == option
    && regs.x1 == value
    && regs.x2 == 0
    && regs.x3 == 0
    && regs.x4 == 0

-- The first statement: the kernel executes the call, and the tracer notes it.
unfoldable pub note_no_new_privileges : TraceeState → Regs → TraceeState
note_no_new_privileges state regs =
    if is_prctl regs pr_set_no_new_privs 1 then record state { no_new_privileges = true } else state

unfoldable pub maybe_emulate_prctl_syscall : Ptrace → TraceeState → Regs → Bool × TraceeState × Regs
maybe_emulate_prctl_syscall ptrace state regs =
    let state' = note_no_new_privileges state regs in
    if is_prctl regs pr_get_no_new_privs 0
    then (let (state'', regs') =
          set_emulated_syscall_return ptrace state' regs
            (if state'.no_new_privileges then 1 else 0) in
        (true, state'', regs'))
    else if not (regs.x8 == sys_prctl) || not (regs.x0 == pr_set_dumpable) || not (regs.x1 == 0)
    then (false, state', regs)
    else (let (state'', regs') = set_emulated_syscall_return ptrace state' regs 0 in
        (true, state'', regs'))

-- The fields of `executable_stat` after `ReplaceAppOwnership`.
pub record ExecutableStat : Type 0 where
  pub st_uid : ℕ
  pub st_gid : ℕ
  pub st_mode : ℕ

abbrev pub s_isuid : ℕ
s_isuid = 0x800

abbrev pub s_isgid : ℕ
s_isgid = 0x400

-- The ids of one kind: those of the file where its mode has the bit, and a copy of the effective one
-- in any case.
unfoldable pub transition_ids : Bool → ℕ → ℕ → ℕ → Ids → Ids
transition_ids no_new_privileges mode bit id ids =
    let effective =
      if not no_new_privileges && not (bit_and mode bit == 0) then id else ids.effective in
    record ids { effective = effective; saved = effective; fs = effective }

-- `none` is an executable that is not pending, or whose `fstat` fails.
unfoldable pub apply_exec_credential_transition : TraceeState → Option ExecutableStat → TraceeState
apply_exec_credential_transition state none = state
apply_exec_credential_transition state (some stat) = record state {
  uid = transition_ids state.no_new_privileges stat.st_mode s_isuid stat.st_uid state.uid;
  gid = transition_ids state.no_new_privileges stat.st_mode s_isgid stat.st_gid state.gid;
}
