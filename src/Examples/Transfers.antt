-- ===== src/Examples/Transfers.antt =====
-- The transfers of library/src/main/cpp/ptrace_memory.cpp on a memory that is read and written by words.
use andlify.Common.{
  ℕ, zero, suc, ◌+◌, ◌-◌, ◌*◌, ◌<◌, ◌≢◌, Bool, ◌&&◌, leb, if◌then◌else◌, length, true, false, [],
  ◌∷◌, ◌≡◌, ◌⊎◌, refl, sym, arith, Option, none, some, ap,
}
use andlify.Common.Bytes.{Bytes}
use andlify.Tracee.Transfer.{Copied, read_tracee_memory, read_tracee_c_string, write_tracee_memory}
use andlify.Tracee.Transfer.Overlay.{window, overlay}
use andlify.Tracee.Transfer.Reads.{IsMemory, Fault, read_tracee_memory-window}
use andlify.Tracee.Transfer.Texts.{TextFault, text_of, read_tracee_c_string-text}
use andlify.Tracee.Transfer.Writes.{
  IsWritten, write_tracee_memory-IsWritten, read_tracee_memory-write,
}
use andlify.Tracee.Transfer.Mapped.{IsMapping, write_tracee_memory-ok}

abbrev Plain : Type 0
Plain = ℕ → ℕ

-- The tracee has one page, and no address below or above it.
abbrev in_page : ℕ → Bool
in_page a = leb 4096 a && leb (a + 8) 8192

abbrev plain_peek : Plain → ℕ → Option Bytes
plain_peek m a = if in_page a then some (window m a 8) else none

abbrev plain_poke : Plain → ℕ → Bytes → Option Plain
plain_poke m a word = if in_page a then some (overlay m a word) else none

-- The calls for many bytes at once are refused.
abbrev no_read : Plain → ℕ → ℕ → Option Bytes
no_read m a n = none

abbrev no_write : Plain → ℕ → Bytes → Copied Plain
no_write m a data' = record { ok = false; memory = m }

abbrev plain_byte : Plain → ℕ → ℕ
plain_byte m = m

plain-IsMemory : IsMemory plain_peek plain_poke no_read no_write plain_byte
plain-IsMemory = record {
  peeked = λ m a word e. sym (some_eq (in_page a) (window m a 8) word e);
  poked = λ m m' a word size e x.
      ap (λ (f : Plain). f x) (sym (some_memory (in_page a) (overlay m a word) m' e));
  vm_reads = λ m a n bytes e. absurd (ground arith);
  vm_written = λ m a data' e. absurd (ground arith);
  vm_outside = λ m a data' x h. refl;
}
  where
    some_eq : (test : Bool) (a b : Bytes) → (if test then some a else none) ≡ some b → a ≡ b
    some_eq true a b e = ap (λ (o : Option Bytes). elim o [ none ↦ a | some x ↦ x ]) e
    some_eq false a b e = absurd (ground arith)

    some_memory : (test : Bool) (a b : Plain) → (if test then some a else none) ≡ some b → a ≡ b
    some_memory true a b e = ap (λ (o : Option Plain). elim o [ none ↦ a | some x ↦ x ]) e
    some_memory false a b e = absurd (ground arith)

abbrev Paged : Plain → ℕ → Type 0
Paged m a = in_page a ≡ true

plain-IsMapping : IsMapping plain_peek plain_poke no_write Paged
plain-IsMapping = record {
  peeks = λ m x h. peeks m x h;
  pokes = λ m x word h. pokes m x word h;
  poke_keeps = λ m m' x y word e h. h;
  vm_keeps = λ m x y bytes h. h;
}
  where
    peeks : (m : Plain) (x : ℕ) → in_page x ≡ true → plain_peek m x ≢ none
    peeks m x h = rw h (λ e. absurd (ground arith))

    pokes : (m : Plain) (x : ℕ) (word : Bytes) → in_page x ≡ true → plain_poke m x word ≢ none
    pokes m x word h = rw h (λ e. absurd (apart e))
      where
        apart : {f : Plain} → some f ≡ none → ⊥
        apart e = cc

-- The text "hi", its NUL, and zeros.
abbrev greeting : Plain
greeting zero = b'h'
greeting (suc zero) = b'i'
greeting (suc (suc n)) = 0

abbrev shifted : Plain
shifted x = greeting (x - 4096)

read_tracee_memory-window_example :
    (read_tracee_memory plain_peek plain_poke no_read no_write shifted 4096 11
      ≡ some (window shifted 4096 11))
    ⊎ (read_tracee_memory plain_peek plain_poke no_read no_write shifted 4096 11 ≡ none)
      × (no_read shifted 4096 11 ≡ none)
      × Fault plain_peek shifted 4096 11
read_tracee_memory-window_example =
    read_tracee_memory-window plain_peek plain_poke no_read no_write plain_byte plain-IsMemory
      shifted 4096 11 (ground arith) (ground arith) (omega arith)

read_tracee_c_string-text_example :
    (read_tracee_c_string plain_peek plain_poke no_read no_write shifted 4096 11
      ≡ text_of (window shifted 4096 11))
    ⊎ (read_tracee_c_string plain_peek plain_poke no_read no_write shifted 4096 11 ≡ none)
      × (no_read shifted 4096 11 ≡ none)
      × TextFault plain_peek plain_byte shifted 4096 11
read_tracee_c_string-text_example =
    read_tracee_c_string-text plain_peek plain_poke no_read no_write plain_byte plain-IsMemory
      shifted 4096 11 (ground arith) (ground arith) (omega arith)

abbrev message : Bytes
message = 1 ∷ 2 ∷ 3 ∷ 4 ∷ 5 ∷ 6 ∷ 7 ∷ 8 ∷ 9 ∷ 10 ∷ []

write_tracee_memory-IsWritten_example :
    IsWritten plain_peek plain_poke no_read no_write plain_byte plain-IsMemory shifted 4096 message
      (write_tracee_memory plain_peek plain_poke no_read no_write shifted 4096 message)
write_tracee_memory-IsWritten_example =
    write_tracee_memory-IsWritten plain_peek plain_poke no_read no_write plain_byte plain-IsMemory
      shifted 4096 message (omega arith)

message_mapped : (i : ℕ) → 8 * i < length message → Paged shifted (4096 + 8 * i)
message_mapped i lt = ground arith

write_tracee_memory-ok_example :
    (write_tracee_memory plain_peek plain_poke no_read no_write shifted 4096 message).ok ≡ true
write_tracee_memory-ok_example =
    write_tracee_memory-ok plain_peek plain_poke no_read no_write Paged plain-IsMapping shifted 4096
      message (ground arith) (ground arith) (omega arith) message_mapped

message-ok :
    (write_tracee_memory plain_peek plain_poke no_read no_write shifted 4096 message).ok ≡ true
message-ok =
    write_tracee_memory-ok plain_peek plain_poke no_read no_write Paged plain-IsMapping shifted 4096
      message (ground arith) (ground arith) (omega arith) message_mapped

read_tracee_memory-write_example :
    (read_tracee_memory plain_peek plain_poke no_read no_write
        (write_tracee_memory plain_peek plain_poke no_read no_write shifted 4096 message).memory
        4096
        10
      ≡ some message)
    ⊎ (read_tracee_memory plain_peek plain_poke no_read no_write
          (write_tracee_memory plain_peek plain_poke no_read no_write shifted 4096 message).memory
          4096
          10
        ≡ none)
      × Fault plain_peek
          (write_tracee_memory plain_peek plain_poke no_read no_write shifted 4096 message).memory
          4096
          10
read_tracee_memory-write_example =
    read_tracee_memory-write plain_peek plain_poke no_read no_write plain_byte plain-IsMemory
      shifted 4096 message (ground arith) (ground arith) (omega arith) message-ok
