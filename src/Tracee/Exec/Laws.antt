-- ===== src/Tracee/Exec/Laws.antt =====
-- What a tracee that has given up new privileges can become by identity calls, `prctl` and `exec`.
use andlify.Common.{
  ℕ, true, not, ◌||◌, List, [], ◌∷◌, ◌≡◌, inl, inr, refl, ◌∙◌, arith, Bool-cases, ◌==◌, Option,
  none, some,
}
use andlify.Tracee.{Regs, TraceeState, Memory, Ptrace, sys_getpid, set_emulated_syscall_return}
use andlify.Tracee.Credentials.Privileges.{
  IsDropped, run_uid_gid_calls, run_uid_gid_calls-IsDropped,
}
use andlify.Tracee.Exec.{
  is_prctl, note_no_new_privileges, maybe_emulate_prctl_syscall, ExecutableStat, transition_ids,
  apply_exec_credential_transition, pr_set_no_new_privs, pr_get_no_new_privs, pr_set_dumpable,
  sys_prctl,
}

-- What happens to a tracee, with the memory that it has then.
pub data Step (M : Type 0) : Type 0 where
  identity_calls : M → List Regs → Step M
  prctl : Regs → Step M
  exec : Option ExecutableStat → Step M

pub run_step : {M : Type 0} → Memory M → Ptrace → TraceeState → Step M → TraceeState
run_step memory ptrace state (identity_calls m calls) =
    run_uid_gid_calls memory ptrace state m calls
run_step memory ptrace state (prctl regs) = (maybe_emulate_prctl_syscall ptrace state regs).1
run_step memory ptrace state (exec stat) = apply_exec_credential_transition state stat

pub run_steps : {M : Type 0} → Memory M → Ptrace → TraceeState → List (Step M) → TraceeState
run_steps memory ptrace state [] = state
run_steps memory ptrace state (step ∷ steps) =
    run_steps memory ptrace (run_step memory ptrace state step) steps

-- A step that leaves the user ids alone, and the flag set.
record Keeps (old new : TraceeState) : Type 0 where
  uid : new.uid ≡ old.uid
  flag : old.no_new_privileges ≡ true → new.no_new_privileges ≡ true

emulated_return-Keeps :
    (ptrace : Ptrace) (old state : TraceeState) (regs : Regs) (value : ℕ)
    → Keeps old state
    → Keeps old (set_emulated_syscall_return ptrace state regs value).0
unfolding set_emulated_syscall_return
emulated_return-Keeps ptrace old state regs value h =
    elim (Bool-cases (ptrace.set_syscall_number (record regs { x8 = sys_getpid }))) [
      | inl e ↦ rw e (record { uid = h.uid; flag = h.flag })
      | inr e ↦ rw e h
    ]

note-Keeps : (state : TraceeState) (regs : Regs) → Keeps state (note_no_new_privileges state regs)
unfolding note_no_new_privileges
note-Keeps state regs = elim (Bool-cases (is_prctl regs pr_set_no_new_privs 1)) [
  | inl e ↦ rw e (record { uid = refl; flag = λ f. refl })
  | inr e ↦ rw e (record { uid = refl; flag = λ f. f })
]

prctl-Keeps :
    (ptrace : Ptrace) (state : TraceeState) (regs : Regs)
    → Keeps state (maybe_emulate_prctl_syscall ptrace state regs).1
unfolding maybe_emulate_prctl_syscall
prctl-Keeps ptrace state regs =
    let noted = note_no_new_privileges state regs in
    let h = note-Keeps state regs in
    elim (Bool-cases (is_prctl regs pr_get_no_new_privs 0)) [
      | inl e ↦ rw e (emulated_return-Keeps ptrace state noted regs _ h)
      | inr e ↦
          elim (Bool-cases (
            not (regs.x8 == sys_prctl) || not (regs.x0 == pr_set_dumpable) || not (regs.x1 == 0))) [
              | inl f ↦ rw (e, f) h
              | inr f ↦ rw (e, f) (emulated_return-Keeps ptrace state noted regs 0 h)
            ]
    ]

Keeps-IsDropped : {old new : TraceeState} → Keeps old new → IsDropped old → IsDropped new
Keeps-IsDropped h d = ground (arith, h.uid, d)

exec-IsDropped :
    (state : TraceeState) (stat : Option ExecutableStat)
    → state.no_new_privileges ≡ true
    → IsDropped state
    → IsDropped (apply_exec_credential_transition state stat)
      × ((apply_exec_credential_transition state stat).no_new_privileges ≡ true)
unfolding apply_exec_credential_transition transition_ids
exec-IsDropped state none f d = (d, f)
exec-IsDropped state (some stat) f d =
    rw f (
      record { real = d.real; effective = d.effective; saved = d.effective; fs = d.effective },
      refl,
    )

-- A tracee that has set `no_new_privileges` and none of whose user ids is 0 has none that is 0 after
-- any sequence of identity calls, of `prctl`s and of programs executed, whatever the mode of their
-- files; and the flag stays set.
pub run_steps-IsDropped :
    {M : Type 0} (memory : Memory M) (ptrace : Ptrace) (state : TraceeState) (steps : List (Step M))
    → state.no_new_privileges ≡ true
    → IsDropped state
    → IsDropped (run_steps memory ptrace state steps)
      × ((run_steps memory ptrace state steps).no_new_privileges ≡ true)
unfolding run_steps run_step
run_steps-IsDropped memory ptrace state [] f d = (d, f)
run_steps-IsDropped memory ptrace state (identity_calls m calls ∷ steps) f d =
    let (d', g, f') = run_uid_gid_calls-IsDropped memory ptrace state m calls d in
    run_steps-IsDropped memory ptrace (run_uid_gid_calls memory ptrace state m calls) steps (f' ∙ f)
      d'
run_steps-IsDropped memory ptrace state (prctl regs ∷ steps) f d =
    let h = prctl-Keeps ptrace state regs in
    run_steps-IsDropped memory ptrace (maybe_emulate_prctl_syscall ptrace state regs).1 steps
      (h.flag f) (Keeps-IsDropped h d)
run_steps-IsDropped memory ptrace state (exec stat ∷ steps) f d =
    let (d', f') = exec-IsDropped state stat f d in
    run_steps-IsDropped memory ptrace (apply_exec_credential_transition state stat) steps f' d'
