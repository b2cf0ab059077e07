-- ===== src/Tracee/Devices/Laws.antt =====
-- What a tracee gets for the calls of `Tracee.Devices`.
use andlify.Common.{
  ℕ, true, false, not, ◌||◌, ◌≡◌, ◌⊎◌, inl, inr, refl, sym, ap, ◌∙◌, arith, Bool-cases, ◌==◌,
  Option, some, Option-cases,
}
use Prim.Native.Nat.{bit_and, bit_or}
use andlify.Common.Bytes.{Bytes}
use andlify.Common.Bits.{bit_and_assoc, bit_and-zero, zero-bit_or, bit_or-zero, bit_and-bit_or}
use andlify.Tracee.{
  Regs, TraceeState, Memory, Ptrace, negated, efault, set_emulated_syscall_return, sys_getpid,
}
use andlify.Tracee.Devices.{
  is_loopback, with_index, interface_index, enodev, sys_socket, sock_flags, is_raw_icmp,
  maybe_rewrite_ping_socket, apply_emulated_syscall_return,
}

-- Where the kernel takes the registers, the value with which a call is answered is what the tracee finds
-- in its first register at the exit of the call, with the others as they are then; it is found once: a
-- second exit stop is left alone.
pub apply_emulated_syscall_return-set :
    (ptrace : Ptrace) (state : TraceeState) (regs at_exit : Regs) (value : ℕ)
    → ((r : Regs) → ptrace.set_regs r ≡ true)
    → ((r : Regs) → ptrace.set_syscall_number r ≡ true)
    → let entered = (set_emulated_syscall_return ptrace state regs value).0 in
      let out = apply_emulated_syscall_return ptrace entered (some at_exit) in
      (out.0 ≡ true)
      × (out.2 ≡ some (record at_exit { x0 = value }))
      × ((again : Option Regs)
          → apply_emulated_syscall_return ptrace out.1 again ≡ (false, out.1, again))
unfolding apply_emulated_syscall_return set_emulated_syscall_return
apply_emulated_syscall_return-set ptrace state regs at_exit value a b =
    rw (b (record regs { x8 = sys_getpid }), a (record at_exit { x0 = value }))
      (refl, refl, λ again. refl)

ping_type : (type : ℕ) → bit_and (bit_or (bit_and type sock_flags) 2) 0xf ≡ 2
ping_type type =
    bit_and-bit_or (bit_and type sock_flags) 2 0xf
    ∙ (ap (λ (n : ℕ). bit_or n 2) (bit_and_assoc type sock_flags 0xf ∙ bit_and-zero type)
        ∙ zero-bit_or 2)

ping_flags :
    (type : ℕ) → bit_and (bit_or (bit_and type sock_flags) 2) sock_flags ≡ bit_and type sock_flags
ping_flags type =
    bit_and-bit_or (bit_and type sock_flags) 2 sock_flags
    ∙ (bit_or-zero (bit_and (bit_and type sock_flags) sock_flags)
        ∙ bit_and_assoc type sock_flags sock_flags)

-- A socket that is rewritten was a raw one for ICMP of either version, and becomes a datagram socket of
-- the same domain, protocol and flags.
pub maybe_rewrite_ping_socket-Datagram :
    (ptrace : Ptrace) (regs regs' : Regs)
    → maybe_rewrite_ping_socket ptrace regs ≡ (true, regs')
    → (regs.x8 ≡ sys_socket)
      × (is_raw_icmp regs ≡ true)
      × (bit_and regs'.x1 0xf ≡ 2)
      × (bit_and regs'.x1 sock_flags ≡ bit_and regs.x1 sock_flags)
      × (regs' ≡ record regs { x1 = regs'.x1 })
unfolding maybe_rewrite_ping_socket
maybe_rewrite_ping_socket-Datagram ptrace regs regs' h =
    let made = record regs { x1 = bit_or (bit_and regs.x1 sock_flags) 2 } in
    elim (Bool-cases (not (regs.x8 == sys_socket) || not (is_raw_icmp regs))) [
      | inl e ↦ absurd (ground arith)
      | inr e ↦ elim (Bool-cases (ptrace.set_regs made)) [
        | inr f ↦ absurd (ground arith)
        | inl f ↦
            let same : made ≡ regs' = ground arith in
            (
              ground arith,
              ground arith,
              ap (λ (r : Regs). bit_and r.x1 0xf) (sym same) ∙ ping_type regs.x1,
              ap (λ (r : Regs). bit_and r.x1 sock_flags) (sym same) ∙ ping_flags regs.x1,
              ground arith,
            )
      ]
    ]

-- A tracee in an emulated network namespace never learns the index of an interface from the kernel: it
-- gets 0, after a request for `lo` was written back, or ENODEV, or EFAULT for a bad address.
pub interface_index-Isolated :
    {M : Type 0} (memory : Memory M) (ptrace : Ptrace) (state : TraceeState) (m : M) (address : ℕ)
    → state.emulated_network_namespace ≡ true
    → (value : ℕ) × (m' : M) × (interface_index memory ptrace state m address ≡ some (value, m'))
      × ((value ≡ 0)
            × ((request : Bytes) × (memory.read m address 40 ≡ some request)
                × (is_loopback request ≡ true))
          ⊎ (value ≡ negated enodev) × (m' ≡ m)
          ⊎ (value ≡ negated efault))
unfolding interface_index
interface_index-Isolated memory ptrace state m address h = elim (Bool-cases (address == 0)) [
  | inl e ↦ (negated efault, m, rw e, inr (inr refl))
  | inr e ↦ elim (Option-cases (memory.read m address 40)) [
    | inl r ↦ (negated efault, m, rw (e, r), inr (inr refl))
    | inr (request, r) ↦ elim (Bool-cases (is_loopback request)) [
      | inr other ↦ (negated enodev, m, rw (e, r, other, h), inr (inl (refl, refl)))
      | inl lo ↦
          let w = memory.write m address (with_index request) in
          elim (Bool-cases w.0) [
            | inl ok ↦ (0, w.1, rw (e, r, lo, ok), inl (refl, (request, r, lo)))
            | inr bad ↦ (negated efault, w.1, rw (e, r, lo, bad), inr (inr refl))
          ]
    ]
  ]
]
