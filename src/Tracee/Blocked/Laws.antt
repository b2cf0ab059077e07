-- ===== src/Tracee/Blocked/Laws.antt =====
-- What a tracee is left with after a trapped call.
use andlify.Common.{
  ◌+◌, ◌-◌, ◌%◌, ◌^◌, ◌≤◌, ◌<◌, Bool, true, false, ◌≡◌, ◌≢◌, ◌⊎◌, inl, inr, arith, Bool-cases, some,
}
use andlify.Tracee.{Regs, TraceeState, Ptrace}
use andlify.Tracee.Blocked.{
  SigInfo, is_traced_syscall, stops_at_syscall, is_retried, retry_blocked_syscall,
}

-- A trapped call is retried only where the tracer handles it and it is not one that was just retried
-- and trapped again; the tracee is then at the trapped instruction with the same arguments, and is
-- resumed up to its entry.
pub retry_blocked_syscall-stops :
    (ptrace : Ptrace) (info : SigInfo) (regs regs' : Regs) (state state' : TraceeState)
    (exited : Bool)
    → 4 ≤ info.si_call_addr
    → info.si_call_addr < 2 ^ 64
    → retry_blocked_syscall ptrace (some info) (some regs) state exited ≡ (true, state', some regs')
    → (is_traced_syscall info.si_syscall ≡ true)
      × ((exited ≡ false) ⊎ (info.si_syscall ≢ state.retried_syscall_number))
      × (regs' ≡ record regs { pc = regs'.pc })
      × (regs'.pc + 4 ≡ info.si_call_addr)
      × (state'.expect_entry ≡ true)
      × (stops_at_syscall state' ≡ true)
unfolding retry_blocked_syscall is_retried stops_at_syscall
retry_blocked_syscall-stops ptrace info regs regs' state state' exited a b h =
    let pc = (info.si_call_addr + 2 ^ 64 - 4) % 2 ^ 64 in
    let there : pc + 4 ≡ info.si_call_addr = omega arith in
    elim (Bool-cases (is_retried state exited info)) [
      | inr e ↦ absurd (ground arith)
      | inl e ↦ elim (Bool-cases (ptrace.set_regs (record regs { pc = pc }))) [
        | inr f ↦ absurd (ground arith)
        | inl f ↦
            (ground arith, ground arith, ground arith, ground arith, ground arith, ground arith)
      ]
    ]
