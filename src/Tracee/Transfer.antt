-- ===== src/Tracee/Transfer.antt =====
-- ptrace_memory.cpp: bytes to and from the memory of a tracee, all at once or word by word. `peek` and
-- `poke` are PTRACE_PEEKDATA and PTRACE_POKEDATA with a word as its eight bytes in memory, and `vm_read`
-- and `vm_write` are `process_vm_readv` and `process_vm_writev`; `none` and not `ok` is a call that
-- fails or that copies less than was asked for.
pub mod Mapped
pub mod Overlay
pub mod Reads
pub mod Texts
pub mod Writes
use andlify.Common.{
  ℕ, zero, suc, ◌+◌, ◌-◌, ◌%◌, ◌^◌, Bool, true, false, ◌||◌, List, [], ◌∷◌, ◌++◌, if◌then◌else◌,
  ◌==◌, ltb, take, drop, length, Option, none, some,
}
use Prim.Native.Nat.{min}
use andlify.Common.Bytes.{Bytes, c_string, has_nul, is_empty}

-- What the tracee's memory is after a call, and if the call succeeds.
pub record Copied {ℓ} (M : Type ℓ) : Type ℓ where
  pub ok : Bool
  pub memory : M

-- `remote_address + copied`
abbrev pub advance : ℕ → ℕ → ℕ
advance address chunk = (address + chunk) % 2 ^ 64

module _ {ℓ} {M : Type ℓ} (peek : M → ℕ → Option Bytes) (poke : M → ℕ → Bytes → Option M)
    (vm_read : M → ℕ → ℕ → Option Bytes) (vm_write : M → ℕ → Bytes → Copied M) where
  -- The loop of `ReadTraceeMemory`, with at most `fuel` turns.
  unfoldable pub read_words : ℕ → M → ℕ → ℕ → Option Bytes
  read_words fuel memory address zero = some []
  read_words zero memory address (suc n) = none
  read_words (suc fuel) memory address (suc n) =
      let chunk = min 8 (suc n) in
      let rest = read_words fuel memory (advance address chunk) (suc n - chunk) in
      elim (peek memory address) [
        | none ↦ none
        | some word ↦ elim rest [ none ↦ none | some bytes ↦ some (take chunk word ++ bytes) ]
      ]

  unfoldable pub read_tracee_memory : M → ℕ → ℕ → Option Bytes
  read_tracee_memory memory address len =
      if address == 0 || len == 0 then none else elim (vm_read memory address len) [
        | some bytes ↦ some bytes
        | none ↦ read_words len memory address len
      ]

  -- The loop of `ReadTraceeCStringPtrace`; `none` too where `max_len` bytes have no NUL.
  unfoldable pub read_string_words : ℕ → M → ℕ → ℕ → Option Bytes
  read_string_words fuel memory address zero = none
  read_string_words zero memory address (suc n) = none
  read_string_words (suc fuel) memory address (suc n) =
      let chunk = min 8 (suc n) in
      let rest = read_string_words fuel memory (advance address chunk) (suc n - chunk) in
      elim (peek memory address) [
        | none ↦ none
        | some word ↦
            if has_nul (take chunk word)
            then some (c_string (take chunk word))
            else elim rest [ none ↦ none | some bytes ↦ some (take chunk word ++ bytes) ]
      ]

  unfoldable pub read_tracee_c_string : M → ℕ → ℕ → Option Bytes
  read_tracee_c_string memory address max_len =
      if address == 0 || max_len == 0 then none else elim (vm_read memory address max_len) [
        | some bytes ↦ if has_nul bytes then some (c_string bytes) else none
        | none ↦ read_string_words max_len memory address max_len
      ]

  -- The word that goes to the tracee: the last one keeps the bytes after the data.
  unfoldable pub word_of : M → ℕ → Bytes → Option Bytes
  word_of memory address data' =
      if ltb (length data') 8
      then elim (peek memory address) [
        | none ↦ none
        | some word ↦ some (data' ++ drop (length data') word)
      ]
      else some (take 8 data')

  -- The loop of `WriteTraceeMemoryPtrace`.
  unfoldable pub write_words : ℕ → M → ℕ → Bytes → Copied M
  write_words fuel memory address [] = record { ok = true; memory = memory }
  write_words zero memory address (b ∷ data') = record { ok = false; memory = memory }
  write_words (suc fuel) memory address (b ∷ data') = elim (word_of memory address (b ∷ data')) [
    | none ↦ record { ok = false; memory = memory }
    | some word ↦ elim (poke memory address word) [
      | none ↦ record { ok = false; memory = memory }
      | some memory' ↦
          write_words fuel memory' (advance address (min 8 (length (b ∷ data'))))
            (drop 8 (b ∷ data'))
    ]
  ]

  unfoldable pub write_tracee_memory : M → ℕ → Bytes → Copied M
  write_tracee_memory memory address data' =
      if address == 0 || is_empty data'
      then record { ok = false; memory = memory }
      else let at_once = vm_write memory address data' in
        if at_once.ok then at_once else write_words (length data') at_once.memory address data'
