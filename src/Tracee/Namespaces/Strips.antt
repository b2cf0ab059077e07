-- ===== src/Tracee/Namespaces/Strips.antt =====
-- What reaches the kernel of the flags of all three calls that `MaybeEmulateNamespaceSyscall` handles.
use andlify.Common.{
  ℕ, ◌^◌, ◌<◌, true, false, not, ◌||◌, ◌≡◌, ◌≢◌, ◌⊎◌, if◌then◌else◌, ◌==◌, ltb, Option, none, some,
}
use Prim.Native.Nat.{bit_and}
use andlify.Common.Bytes.{Bytes}
use andlify.Tracee.{Regs, TraceeState, Memory}
use andlify.Tracee.Namespaces.{
  sys_unshare, sys_clone, sys_clone3, namespace_clone_flags, other_flags, NamespaceOutcome,
}
use andlify.Tracee.Namespaces.Laws.{IsStripped, Answers, Entered}

module _ {M : Type 0} (memory : Memory M) (word_of : Bytes → ℕ) (bytes_of : ℕ → Bytes) where
  -- A 64-bit word that was written is read.
  pub record HasWords : Type 0 where
    pub stored :
        (m : M) (a n : ℕ)
        → n < 2 ^ 64
        → (memory.write m a (bytes_of n)).0 ≡ true
        → memory.read (memory.write m a (bytes_of n)).1 a 8 ≡ some (bytes_of n)
    pub layout : (n : ℕ) → n < 2 ^ 64 → word_of (bytes_of n) ≡ n

  -- The flags that a call asks the kernel for: `unshare` and `clone` in the first register, `clone3` at
  -- the start of its structure. Any other call, and a structure that cannot be read, asks for none.
  unfoldable pub requested : Regs → M → Option ℕ
  requested regs m =
      if regs.x8 == sys_unshare || regs.x8 == sys_clone
      then some regs.x0
      else if not (regs.x8 == sys_clone3) || regs.x0 == 0 || ltb regs.x1 8
      then none
      else elim (memory.read m regs.x0 8) [ none ↦ none | some bytes ↦ some (word_of bytes) ]

  -- The tracer keeps the namespaces: those of `unshare` are entered at once, those of the other calls wait
  -- for the child.
  abbrev pub IsNoted : ℕ → Regs → TraceeState → TraceeState → Type 0
  IsNoted flags regs old new =
      ((regs.x8 ≡ sys_unshare) → Entered flags old new)
      × ((regs.x8 ≢ sys_unshare)
          → IsStripped flags
            ⊎ (new.pending_clone_namespace_flags ≡ bit_and flags namespace_clone_flags))

  -- The kernel is left a call for the same flags without the namespaces, or the call is an `unshare` of
  -- namespaces alone and is answered 0.
  abbrev pub Strips : TraceeState → Regs → ℕ → NamespaceOutcome M → Type 0
  Strips state regs flags out =
      IsNoted flags regs state out.1
      × ((out.0 ≡ true)
            × (regs.x8 ≡ sys_unshare)
            × (bit_and flags namespace_clone_flags ≢ 0)
            × (bit_and flags other_flags ≡ 0)
            × Answers 0 out.1 out.2
          ⊎ (out.0 ≡ false)
            × ((regs.x8 ≡ sys_unshare) → IsStripped flags ⊎ (bit_and flags other_flags ≢ 0))
            × ((left : ℕ) × (requested out.2 out.3 ≡ some left)
                × IsStripped left
                × (bit_and left other_flags ≡ bit_and flags other_flags)))
