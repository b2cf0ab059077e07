-- ===== src/Tracee/Namespaces/Laws.antt =====
-- What the kernel sees of the calls that `MaybeEmulateNamespaceSyscall` edits.
use andlify.Common.{
  ℕ, true, false, not, ◌||◌, ◌≡◌, ◌≢◌, ◌⊎◌, inl, inr, ap, ◌∙◌, arith, Bool-cases, ◌==◌,
}
use andlify.Common.Bits.{bit_and_assoc, bit_and-zero}
use Prim.Native.Nat.{bit_and}
use andlify.Tracee.{Regs, TraceeState, Ptrace, set_emulated_syscall_return, sys_getpid}
use andlify.Tracee.Namespaces.{
  namespace_clone_flags, other_flags, clone_newns, clone_newnet, clone_newuser,
  enter_emulated_namespaces, stored_regs, emulate_unshare, emulate_clone,
}

-- No namespace is asked for by these flags.
abbrev pub IsStripped : ℕ → Type 0
IsStripped flags = bit_and flags namespace_clone_flags ≡ 0

pub bit_and-IsStripped : (flags : ℕ) → IsStripped (bit_and flags other_flags)
bit_and-IsStripped flags =
    bit_and_assoc flags other_flags namespace_clone_flags ∙ bit_and-zero flags

other_flags_again :
    (flags : ℕ) → bit_and (bit_and flags other_flags) other_flags ≡ bit_and flags other_flags
other_flags_again flags = bit_and_assoc flags other_flags other_flags

-- The call that the kernel executes with the registers `new` asks for no namespace, and for all else
-- that `old` asks for.
abbrev pub Executes : Regs → Regs → Type 0
Executes old new =
    IsStripped new.x0
    × (bit_and new.x0 other_flags ≡ bit_and old.x0 other_flags)
    × (new.x8 ≡ old.x8)

-- The call is answered `value` in place of the kernel.
abbrev pub Answers : ℕ → TraceeState → Regs → Type 0
Answers value state regs =
    (state.has_emulated_return ≡ true) × (state.emulated_return ≡ value) × (regs.x8 ≡ sys_getpid)

-- The tracee is in the namespaces that it was in, and in those that the flags name.
abbrev pub Entered : ℕ → TraceeState → TraceeState → Type 0
Entered flags old new =
    (new.emulated_mount_namespace
      ≡ (old.emulated_mount_namespace || not (bit_and flags clone_newns == 0)))
    × (new.emulated_network_namespace
        ≡ (old.emulated_network_namespace || not (bit_and flags clone_newnet == 0)))
    × (new.emulated_user_namespace
        ≡ (old.emulated_user_namespace || not (bit_and flags clone_newuser == 0)))

-- A namespace flag among those that the tracer takes out.
named :
    (flags : ℕ)
    → let kept = bit_and flags namespace_clone_flags in
      (bit_and kept clone_newns ≡ bit_and flags clone_newns)
      × (bit_and kept clone_newnet ≡ bit_and flags clone_newnet)
      × (bit_and kept clone_newuser ≡ bit_and flags clone_newuser)
named flags = (
  bit_and_assoc flags namespace_clone_flags clone_newns,
  bit_and_assoc flags namespace_clone_flags clone_newnet,
  bit_and_assoc flags namespace_clone_flags clone_newuser,
)

module _ {M : Type 0} (ptrace : Ptrace) (state : TraceeState) (regs : Regs) (m : M) where
  -- Where the kernel takes the new registers, an `unshare` is left to it only if it asks for no
  -- namespace or for something else, and then asks for no namespace and for all else as before;
  -- one that asks for namespaces and nothing else is answered 0.
  pub emulate_unshare-Executes :
      ((r : Regs) → ptrace.set_regs r ≡ true)
      → ((r : Regs) → ptrace.set_syscall_number r ≡ true)
      → let out = emulate_unshare ptrace state regs m in
        (out.0 ≡ false)
          × ((bit_and regs.x0 namespace_clone_flags ≡ 0) ⊎ (bit_and regs.x0 other_flags ≢ 0))
          × Executes regs out.2
        ⊎ (out.0 ≡ true)
          × (bit_and regs.x0 namespace_clone_flags ≢ 0)
          × (bit_and regs.x0 other_flags ≡ 0)
          × Answers 0 out.1 out.2
  unfolding emulate_unshare stored_regs set_emulated_syscall_return
  emulate_unshare-Executes a b = ground (
    arith,
    a (record regs { x0 = bit_and regs.x0 other_flags }),
    b (record regs { x0 = bit_and regs.x0 other_flags; x8 = sys_getpid }),
    bit_and-IsStripped regs.x0,
    other_flags_again regs.x0,
  )

  -- Whether the registers are taken or not, `unshare` puts the tracee into the mount, network and user
  -- namespaces that its flags name, and takes it out of none.
  pub emulate_unshare-Entered : Entered regs.x0 state (emulate_unshare ptrace state regs m).1
  unfolding emulate_unshare set_emulated_syscall_return enter_emulated_namespaces
  emulate_unshare-Entered =
      let (p, q, r) = named regs.x0 in
      elim (Bool-cases (bit_and regs.x0 namespace_clone_flags == 0)) [
        | inl e ↦
            let z : bit_and regs.x0 namespace_clone_flags ≡ 0 = ground arith in
            let flag = λ (k : ℕ). ap (λ (x : ℕ). bit_and x k) z in
            ground (arith, flag clone_newns, flag clone_newnet, flag clone_newuser)
        | inr e ↦ ground arith
      ]

  -- `clone` leaves the caller in its namespaces; the flags wait for its child.
  pub emulate_clone-Executes :
      ((r : Regs) → ptrace.set_regs r ≡ true)
      → bit_and regs.x0 namespace_clone_flags ≢ 0
      → let out = emulate_clone ptrace state regs m in
        (out.0 ≡ false)
        × Executes regs out.2
        × (out.1 ≡ record state {
          pending_clone_namespace_flags = bit_and regs.x0 namespace_clone_flags;
        })
  unfolding emulate_clone stored_regs
  emulate_clone-Executes a b = ground (
    arith,
    a (record regs { x0 = bit_and regs.x0 other_flags }),
    bit_and-IsStripped regs.x0,
    other_flags_again regs.x0,
  )
