-- ===== src/Tracee/Namespaces.antt =====
-- `EnterEmulatedNamespaces` and `MaybeEmulateNamespaceSyscall`: the namespace flags of `unshare`,
-- `clone` and `clone3` never reach the kernel; the tracer notes them.
pub mod Laws
pub mod Strips
use andlify.Common.{
  ℕ, zero, suc, ◌+◌, ◌-◌, ◌*◌, ◌/◌, ◌%◌, ◌^◌, Bool, true, false, not, ◌&&◌, ◌||◌, List, [], ◌∷◌,
  ◌++◌, if◌then◌else◌, ◌==◌, ltb, Option, none, some,
}
use andlify.Common.Bytes.{Bytes}
use Prim.Native.Nat.{bit_and}
use andlify.Tracee.{Regs, TraceeState, Memory, Ptrace, set_emulated_syscall_return}

abbrev pub sys_unshare : ℕ
sys_unshare = 97

abbrev pub sys_clone : ℕ
sys_clone = 220

abbrev pub sys_clone3 : ℕ
sys_clone3 = 435

abbrev pub clone_newns : ℕ
clone_newns = 0x0002_0000

abbrev pub clone_newuser : ℕ
clone_newuser = 0x1000_0000

abbrev pub clone_newnet : ℕ
clone_newnet = 0x4000_0000

-- CLONE_NEWCGROUP, NEWIPC, NEWNET, NEWNS, NEWPID, NEWUSER and NEWUTS.
abbrev pub namespace_clone_flags : ℕ
namespace_clone_flags = 0x7e02_0000

-- `~kNamespaceCloneFlags` in 64 bits.
abbrev pub other_flags : ℕ
other_flags = 2 ^ 64 - 1 - namespace_clone_flags

unfoldable pub enter_emulated_namespaces : TraceeState → ℕ → TraceeState
enter_emulated_namespaces state flags = record state {
  emulated_mount_namespace = state.emulated_mount_namespace || not (bit_and flags clone_newns == 0);
  emulated_network_namespace =
      state.emulated_network_namespace || not (bit_and flags clone_newnet == 0);
  emulated_user_namespace = state.emulated_user_namespace || not (bit_and flags clone_newuser == 0);
}

-- Whether the call is answered here, with the state, the registers that the kernel holds and the
-- memory that are left.
abbrev pub NamespaceOutcome : Type 0 → Type 0
NamespaceOutcome M = Bool × TraceeState × Regs × M

-- The registers in the tracee after `SetRegs`.
unfoldable pub stored_regs : Ptrace → Regs → Regs → Regs
stored_regs ptrace old new = if ptrace.set_regs new then new else old

module _ {M : Type 0} (ptrace : Ptrace) where
  unfoldable pub emulate_unshare : TraceeState → Regs → M → NamespaceOutcome M
  emulate_unshare state regs m =
      let namespace_flags = bit_and regs.x0 namespace_clone_flags in
      if namespace_flags == 0
      then (false, state, regs, m)
      else let state' = enter_emulated_namespaces state namespace_flags in
        let regs' = record regs { x0 = bit_and regs.x0 other_flags } in
        if regs'.x0 == 0
        then (let (state'', regs'') = set_emulated_syscall_return ptrace state' regs' 0 in
            (true, state'', regs'', m))
        else (false, state', stored_regs ptrace regs regs', m)

  unfoldable pub emulate_clone : TraceeState → Regs → M → NamespaceOutcome M
  emulate_clone state regs m =
      let namespace_flags = bit_and regs.x0 namespace_clone_flags in
      if namespace_flags == 0 then (false, state, regs, m) else (
        false,
        record state { pending_clone_namespace_flags = namespace_flags },
        stored_regs ptrace regs (record regs { x0 = bit_and regs.x0 other_flags }),
        m,
      )

-- The parameters `word_of` and `bytes_of` are the layout of a `uint64_t` in memory.
module _ {M : Type 0} (memory : Memory M) (word_of : Bytes → ℕ) (bytes_of : ℕ → Bytes) where
  unfoldable pub emulate_clone3 : TraceeState → Regs → M → NamespaceOutcome M
  emulate_clone3 state regs m =
      if regs.x0 == 0 || ltb regs.x1 8
      then (false, state, regs, m)
      else elim (memory.read m regs.x0 8) [
        | none ↦ (false, state, regs, m)
        | some bytes ↦
            let flags = word_of bytes in
            let namespace_flags = bit_and flags namespace_clone_flags in
            if namespace_flags == 0 then (false, state, regs, m) else (
              false,
              record state { pending_clone_namespace_flags = namespace_flags },
              regs,
              (memory.write m regs.x0 (bytes_of (bit_and flags other_flags))).1,
            )
      ]

  unfoldable pub maybe_emulate_namespace_syscall :
      Ptrace → TraceeState → Regs → M → NamespaceOutcome M
  maybe_emulate_namespace_syscall ptrace state regs m =
      if regs.x8 == sys_unshare
      then emulate_unshare ptrace state regs m
      else if regs.x8 == sys_clone
      then emulate_clone ptrace state regs m
      else if not (regs.x8 == sys_clone3)
      then (false, state, regs, m)
      else emulate_clone3 state regs m
