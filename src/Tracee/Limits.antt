-- ===== src/Tracee/Limits.antt =====
-- `MaybeEmulateFileDescriptorLimit`: the limit on open files is the tracer's own number.
pub mod Laws
use andlify.Common.{
  ℕ, zero, suc, ◌+◌, ◌*◌, ◌/◌, ◌%◌, ◌^◌, Bool, true, false, not, ◌&&◌, ◌||◌, List, [], ◌∷◌, ◌++◌,
  if◌then◌else◌, ◌==◌, ltb, Option, none, some,
}
use andlify.Common.Bytes.{Bytes}
use andlify.Tracee.{
  Regs, Rlimit, TraceeState, Memory, Ptrace, negated, eperm, efault, einval, root_uid,
  set_emulated_syscall_return,
}

abbrev pub rlimit_nofile : ℕ
rlimit_nofile = 7

abbrev pub sys_getrlimit : ℕ
sys_getrlimit = 163

abbrev pub sys_setrlimit : ℕ
sys_setrlimit = 164

abbrev pub sys_prlimit64 : ℕ
sys_prlimit64 = 261

-- The addresses of the new and the old limit, 0 for none; `none` where the call is another one.
unfoldable pub limit_addresses : ℕ → Regs → Option (ℕ × ℕ)
limit_addresses pid regs =
    if regs.x8 == sys_getrlimit
    then (if not (regs.x0 == rlimit_nofile) then none else some (0, regs.x1))
    else if regs.x8 == sys_setrlimit
    then (if not (regs.x0 == rlimit_nofile) then none else some (regs.x1, 0))
    else if regs.x8 == sys_prlimit64
    then (if not (regs.x0 == 0) && not (regs.x0 == pid) || not (regs.x1 == rlimit_nofile)
        then none
        else some (regs.x2, regs.x3))
    else none

-- A new limit that may be kept, or the errno of the refusal.
pub data LimitRequest : Type 0 where
  granted : Rlimit → LimitRequest
  refused : ℕ → LimitRequest

-- The parameters `rlimit_of` and `bytes_of` are the layout of `struct rlimit` in memory.
module _ {M : Type 0} (memory : Memory M) (rlimit_of : Bytes → Rlimit)
    (bytes_of : Rlimit → Bytes) where
  -- The new limit that the call asks for, with the checks of its two numbers.
  unfoldable pub requested_limit : TraceeState → M → ℕ → LimitRequest
  requested_limit state m new_limit_address = elim (memory.read m new_limit_address 16) [
    | none ↦ refused efault
    | some bytes ↦
        let new_limit = rlimit_of bytes in
        if ltb new_limit.rlim_max new_limit.rlim_cur
        then refused einval
        else if not (state.uid.effective == root_uid)
            && ltb state.file_descriptor_limit.rlim_max new_limit.rlim_max
        then refused eperm
        else granted new_limit
  ]

  -- The old limit is written last; if that fails, the new one is taken back.
  unfoldable pub answer_limit : TraceeState → TraceeState → M → ℕ → ℕ × TraceeState × M
  answer_limit old state m old_limit_address =
      if old_limit_address == 0
      then (0, state, m)
      else let (ok, m') = memory.write m old_limit_address (bytes_of old.file_descriptor_limit) in
        if ok then (0, state, m') else (
          negated efault,
          record state { file_descriptor_limit = old.file_descriptor_limit },
          m',
        )

  unfoldable pub perform_limit : TraceeState → M → ℕ → ℕ → ℕ × TraceeState × M
  perform_limit state m new_limit_address old_limit_address =
      if new_limit_address == 0
      then answer_limit state state m old_limit_address
      else elim (requested_limit state m new_limit_address) [
        | refused errno ↦ (negated errno, state, m)
        | granted new_limit ↦
            answer_limit state (record state { file_descriptor_limit = new_limit }) m
              old_limit_address
      ]

  unfoldable pub maybe_emulate_file_descriptor_limit :
      ℕ → Ptrace → TraceeState → Regs → M → Bool × TraceeState × Regs × M
  maybe_emulate_file_descriptor_limit pid ptrace state regs m = elim (limit_addresses pid regs) [
    | none ↦ (false, state, regs, m)
    | some (new_limit_address, old_limit_address) ↦
        let (value, state', m') = perform_limit state m new_limit_address old_limit_address in
        let (state'', regs') = set_emulated_syscall_return ptrace state' regs value in
        (true, state'', regs', m')
  ]
