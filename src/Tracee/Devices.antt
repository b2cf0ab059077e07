-- ===== src/Tracee/Devices.antt =====
-- `MaybeHandleIoctlSyscall`, `MaybeRewritePingSocket`, `MaybeEmulateUnavailableAuditSocket` and
-- `ApplyEmulatedSyscallReturn`: calls on devices and sockets that are answered or rewritten.
pub mod Laws
use andlify.Common.{
  ℕ, ◌+◌, ◌-◌, ◌^◌, Bool, true, false, not, ◌&&◌, ◌||◌, List, [], ◌∷◌, ◌++◌, if◌then◌else◌, ◌==◌,
  take, drop, Option, none, some,
}
use Prim.Native.Nat.{bit_and, bit_or}
use andlify.Common.Bytes.{Bytes, codes, str_eq, is_empty, starts_with}
use andlify.Tracee.{Regs, TraceeState, Memory, Ptrace, negated, efault, set_emulated_syscall_return}

abbrev pub sys_ioctl : ℕ
sys_ioctl = 29

abbrev pub sys_socket : ℕ
sys_socket = 198

abbrev pub siocgifindex : ℕ
siocgifindex = 0x8933

abbrev pub enodev : ℕ
enodev = 19

abbrev pub enotty : ℕ
enotty = 25

abbrev pub eprotonosupport : ℕ
eprotonosupport = 93

-- `sizeof(ifreq)`, of which the name is the first 16 bytes and the index the next four.
abbrev pub ifreq_size : ℕ
ifreq_size = 40

-- `strcmp(ifr_name, "lo") == 0`
unfoldable pub is_loopback : Bytes → Bool
is_loopback request = str_eq (take 3 request) (codes "lo" ++ (0 ∷ []))

-- The request with the end of its name cut off and the index 1.
unfoldable pub with_index : Bytes → Bytes
with_index request = take 15 request ++ (0 ∷ 1 ∷ 0 ∷ 0 ∷ 0 ∷ drop 20 request)

-- The request of newer kernels for one that a terminal of the app knows; 0 is none.
unfoldable pub rewritten_request : Bytes → ℕ → ℕ
rewritten_request target request =
    if not (starts_with (codes "/dev/pts/") target)
    then 0
    else if request == 0x802c_542a
    then 0x5401
    else if request == 0x402c_542b
    then 0x5402
    else if request == 0x402c_542c
    then 0x5403
    else if request == 0x402c_542d
    then 0x5404
    else 0

unfoldable pub is_terminal_request : ℕ → Bool
is_terminal_request request =
    request == 0x5413 || request == 0x5401 || request == 0x540f || request == 0x5410

unfoldable pub is_no_terminal : Bytes → Bool
is_no_terminal target =
    starts_with (codes "pipe:") target
    || starts_with (codes "socket:") target
    || starts_with (codes "anon_inode:") target

-- Whether the call is handled, with what is left.
abbrev pub Handled : Type 0 → Type 0
Handled M = Bool × TraceeState × Regs × M

-- An answer in place of the kernel's.
unfoldable pub answered : {M : Type 0} → Ptrace → TraceeState → Regs → M → ℕ → Handled M
answered ptrace state regs m value =
    let (state', regs') = set_emulated_syscall_return ptrace state regs value in
    (true, state', regs', m)

module _ {M : Type 0} (memory : Memory M) (ptrace : Ptrace) where
  -- SIOCGIFINDEX: `none` leaves it to the kernel.
  unfoldable pub interface_index : TraceeState → M → ℕ → Option (ℕ × M)
  interface_index state m address =
      if address == 0 then some (negated efault, m) else elim (memory.read m address ifreq_size) [
        | none ↦ some (negated efault, m)
        | some request ↦
            if not (is_loopback request) && not state.emulated_network_namespace
            then none
            else if not (is_loopback request)
            then some (negated enodev, m)
            else let (written, m') = memory.write m address (with_index request) in
              if written then some (0, m') else some (negated efault, m')
      ]

  -- The other requests, on a descriptor that is a link to `target`, empty where it cannot be read.
  unfoldable pub terminal_ioctl : Bytes → TraceeState → Regs → M → Handled M
  terminal_ioctl target state regs m =
      let request = rewritten_request target regs.x1 in
      let regs' = record regs { x1 = request } in
      if not (request == 0)
      then (if not (ptrace.set_regs regs')
          then (false, state, regs, m)
          else (true, state, regs', m))
      else if is_terminal_request regs.x1 && is_no_terminal target
      then answered ptrace state regs m (negated enotty)
      else (false, state, regs, m)

  unfoldable pub maybe_handle_ioctl_syscall : Bytes → TraceeState → Regs → M → Handled M
  maybe_handle_ioctl_syscall target state regs m =
      if not (regs.x8 == sys_ioctl)
      then (false, state, regs, m)
      else if regs.x1 == siocgifindex
      then elim (interface_index state m regs.x2) [
        | none ↦ (false, state, regs, m)
        | some (value, m') ↦ answered ptrace state regs m' value
      ]
      else terminal_ioctl target state regs m

-- `~kSockTypeMask` in 64 bits.
abbrev pub sock_flags : ℕ
sock_flags = 2 ^ 64 - 1 - 0xf

unfoldable pub is_raw_icmp : Regs → Bool
is_raw_icmp regs =
    bit_and regs.x1 0xf == 3 && (regs.x0 == 2 && regs.x2 == 1 || regs.x0 == 10 && regs.x2 == 58)

unfoldable pub maybe_rewrite_ping_socket : Ptrace → Regs → Bool × Regs
maybe_rewrite_ping_socket ptrace regs =
    if not (regs.x8 == sys_socket) || not (is_raw_icmp regs)
    then (false, regs)
    else let regs' = record regs { x1 = bit_or (bit_and regs.x1 sock_flags) 2 } in
      if not (ptrace.set_regs regs') then (false, regs) else (true, regs')

unfoldable pub maybe_emulate_unavailable_audit_socket :
    Ptrace → TraceeState → Regs → Bool × TraceeState × Regs
maybe_emulate_unavailable_audit_socket ptrace state regs =
    if not (regs.x8 == sys_socket) || not (regs.x0 == 16) || not (regs.x2 == 9)
    then (false, state, regs)
    else (let (state', regs') =
          set_emulated_syscall_return ptrace state regs (negated eprotonosupport) in
        (true, state', regs'))

-- At the exit stop; `none` is where `GetRegs` fails. The registers of the tracee are last.
unfoldable pub apply_emulated_syscall_return :
    Ptrace → TraceeState → Option Regs → Bool × TraceeState × Option Regs
apply_emulated_syscall_return ptrace state at_exit =
    if not state.has_emulated_return
    then (false, state, at_exit)
    else let state' = record state { has_emulated_return = false; emulated_return = 0 } in
      elim at_exit [
        | none ↦ (false, state', none)
        | some regs ↦
            let regs' = record regs { x0 = state.emulated_return } in
            if not (ptrace.set_regs regs')
            then (false, state', some regs)
            else (true, state', some regs')
      ]
