-- ===== src/Tracee/Limits/Laws.antt =====
-- The limit that `MaybeEmulateFileDescriptorLimit` keeps for a tracee.
use andlify.Common.{ℕ, ◌≤◌, ◌≡◌, ◌⊎◌, inl, inr, refl, arith, Option-cases}
use andlify.Common.Bytes.{Bytes}
use andlify.Tracee.{
  Regs, Rlimit, TraceeState, Memory, Ptrace, root_uid, set_emulated_syscall_return,
}
use andlify.Tracee.Limits.{
  LimitRequest, granted, refused, limit_addresses, requested_limit, answer_limit, perform_limit,
  maybe_emulate_file_descriptor_limit,
}

emulated_return-limit :
    (ptrace : Ptrace) (state : TraceeState) (regs : Regs) (value : ℕ)
    → (set_emulated_syscall_return ptrace state regs value).0.file_descriptor_limit
      ≡ state.file_descriptor_limit
unfolding set_emulated_syscall_return
emulated_return-limit ptrace state regs value = ground arith

-- A limit that a call may leave behind: the old one, or a consistent one that the caller may set.
abbrev pub Allowed : TraceeState → Rlimit → Type 0
Allowed state limit =
    (limit ≡ state.file_descriptor_limit)
    ⊎ (limit.rlim_cur ≤ limit.rlim_max) × (state.uid.effective ≡ root_uid)
    ⊎ (limit.rlim_cur ≤ limit.rlim_max) × (limit.rlim_max ≤ state.file_descriptor_limit.rlim_max)

LimitRequest-cases :
    (q : LimitRequest) → ((l : Rlimit) × (q ≡ granted l)) ⊎ ((e : ℕ) × (q ≡ refused e))
LimitRequest-cases (granted l) = inl (l, refl)
LimitRequest-cases (refused e) = inr (e, refl)

module _ {M : Type 0} (memory : Memory M) (rlimit_of : Bytes → Rlimit)
    (bytes_of : Rlimit → Bytes) where
  requested_limit-Allowed :
      (state : TraceeState) (m : M) (address : ℕ) (limit : Rlimit)
      → requested_limit memory rlimit_of bytes_of state m address ≡ granted limit
      → Allowed state limit
  unfolding requested_limit
  requested_limit-Allowed state m address limit h = ground arith

  answer_limit-limit :
      (old state : TraceeState) (m : M) (address : ℕ)
      → let limit =
          (answer_limit memory rlimit_of bytes_of old state m address).1.file_descriptor_limit in
        (limit ≡ state.file_descriptor_limit) ⊎ (limit ≡ old.file_descriptor_limit)
  unfolding answer_limit
  answer_limit-limit old state m address = ground arith

  perform_limit-Allowed :
      (state : TraceeState) (m : M) (new_address old_address : ℕ)
      → Allowed state
          (perform_limit memory rlimit_of bytes_of state m new_address
            old_address).1.file_descriptor_limit
  unfolding perform_limit
  perform_limit-Allowed state m new_address old_address =
      elim (LimitRequest-cases (requested_limit memory rlimit_of bytes_of state m new_address)) [
        | inl (limit, e) ↦ ground (
          arith,
          requested_limit-Allowed state m new_address limit e,
          answer_limit-limit state state m old_address,
          answer_limit-limit state (record state { file_descriptor_limit = limit }) m old_address,
        )
        | inr (errno, e) ↦ ground (arith, answer_limit-limit state state m old_address)
      ]

  -- The limit after a call is the one before, or has its soft part within its hard part; and then
  -- the caller is effective root, or the hard part has not grown.
  pub maybe_emulate_file_descriptor_limit-Allowed :
      (pid : ℕ) (ptrace : Ptrace) (state : TraceeState) (regs : Regs) (m : M)
      → Allowed state
          (maybe_emulate_file_descriptor_limit memory rlimit_of bytes_of pid ptrace state regs
            m).1.file_descriptor_limit
  unfolding maybe_emulate_file_descriptor_limit
  maybe_emulate_file_descriptor_limit-Allowed pid ptrace state regs m =
      elim (Option-cases (limit_addresses pid regs)) [
        | inl e ↦ rw (e, maybe_emulate_file_descriptor_limit) (inl refl)
        | inr ((a, b), e) ↦
            let r = perform_limit memory rlimit_of bytes_of state m a b in
            rw (e, maybe_emulate_file_descriptor_limit, emulated_return-limit ptrace r.1 regs r.0)
              (perform_limit-Allowed state m a b)
      ]

  -- A call that does not return 0 leaves the limit as it was, also where the new limit was in
  -- order and only the old one could not be written.
  pub perform_limit_atomic :
      (state : TraceeState) (m : M) (new_address old_address : ℕ)
      → let r = perform_limit memory rlimit_of bytes_of state m new_address old_address in
        (r.0 ≡ 0) ⊎ (r.1.file_descriptor_limit ≡ state.file_descriptor_limit)
  unfolding perform_limit answer_limit
  perform_limit_atomic state m new_address old_address =
      elim (LimitRequest-cases (requested_limit memory rlimit_of bytes_of state m new_address)) [
        | inl (limit, e) ↦ ground arith
        | inr (errno, e) ↦ ground arith
      ]
