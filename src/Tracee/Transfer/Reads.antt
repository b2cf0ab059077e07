-- ===== src/Tracee/Transfer/Reads.antt =====
-- What is read of a tracee's memory, by either way.
use andlify.Common.{
  ℕ, zero, suc, ◌+◌, ◌-◌, ◌*◌, ◌^◌, ◌≤◌, ◌<◌, true, false, ◌||◌, ◌++◌, ◌≡◌, ◌≢◌, ◌⊎◌, inl, inr,
  refl, sym, ap, ◌∙◌, arith, ◌==◌, take, length, Option, none, some, Option-cases,
}
use Prim.Native.Nat.{min}
use native.Mathlib.Nat.{le_refl}
use andlify.Common.Bytes.{Bytes}
use andlify.Tracee.Transfer.Overlay.{window, overlay, window_parts, take-window}
use andlify.Tracee.Transfer.{Copied, advance, read_words, read_tracee_memory}

-- The calls reach the bytes of a memory; a write of several bytes that fails may have written some of
-- them.
pub record IsMemory {ℓ} {M : Type ℓ} (peek : M → ℕ → Option Bytes) (poke : M → ℕ → Bytes → Option M)
    (vm_read : M → ℕ → ℕ → Option Bytes) (vm_write : M → ℕ → Bytes → Copied M) (byte : M → ℕ → ℕ)
    : Type ℓ where
  pub peeked : (m : M) (a : ℕ) (word : Bytes) → peek m a ≡ some word → word ≡ window (byte m) a 8
  pub poked :
      (m m' : M) (a : ℕ) (word : Bytes)
      → length word ≡ 8
      → poke m a word ≡ some m'
      → (x : ℕ) → byte m' x ≡ overlay (byte m) a word x
  pub vm_reads :
      (m : M) (a n : ℕ) (bytes : Bytes) → vm_read m a n ≡ some bytes → bytes ≡ window (byte m) a n
  pub vm_written :
      (m : M) (a : ℕ) (data' : Bytes)
      → (vm_write m a data').ok ≡ true
      → (x : ℕ) → byte (vm_write m a data').memory x ≡ overlay (byte m) a data' x
  pub vm_outside :
      (m : M) (a : ℕ) (data' : Bytes) (x : ℕ)
      → (x < a) ⊎ (a + length data' ≤ x)
      → byte (vm_write m a data').memory x ≡ byte m x

-- A word of the `n` bytes from `a` on, among those that a loop over words reads, cannot be read.
abbrev pub Fault {ℓ} : {M : Type ℓ} → (M → ℕ → Option Bytes) → M → ℕ → ℕ → Type 0
Fault peek m a n = (i : ℕ) × (8 * i < n) × (peek m (a + 8 * i) ≡ none)

-- A fault after the first word.
pub next_address :
    (a n i : ℕ)
    → a + suc n + 8 ≤ 2 ^ 64
    → 8 * i < suc n - min 8 (suc n)
    → advance a (min 8 (suc n)) + 8 * i ≡ a + 8 * suc i
next_address a n i bound lt = omega arith

pub zero_offset : (a : ℕ) → a + 8 * 0 ≡ a
zero_offset a = omega arith

-- The part of a word that is asked for.
pub chunk-window :
    (f : ℕ → ℕ) (a n : ℕ) (word : Bytes)
    → word ≡ window f a 8
    → take (min 8 (suc n)) word ≡ window f a (min 8 (suc n))
chunk-window f a n word e =
    ap (take (min 8 (suc n))) e ∙ take-window f a 8 (min 8 (suc n)) (omega arith)

-- The next turn's address.
pub next_window :
    (f : ℕ → ℕ) (a n : ℕ)
    → a + suc n + 8 ≤ 2 ^ 64
    → window f (advance a (min 8 (suc n))) (suc n - min 8 (suc n))
      ≡ window f (a + min 8 (suc n)) (suc n - min 8 (suc n))
next_window f a n h = ap (λ x. window f x (suc n - min 8 (suc n))) (omega arith)

module _ {ℓ} {M : Type ℓ} (peek : M → ℕ → Option Bytes) (poke : M → ℕ → Bytes → Option M)
    (vm_read : M → ℕ → ℕ → Option Bytes) (vm_write : M → ℕ → Bytes → Copied M) (byte : M → ℕ → ℕ)
    (is : IsMemory peek poke vm_read vm_write byte) where
  read_words-window :
      (fuel : ℕ) (m : M) (a n : ℕ)
      → n ≤ fuel
      → a + n + 8 ≤ 2 ^ 64
      → (read_words peek poke vm_read vm_write fuel m a n ≡ some (window (byte m) a n))
        ⊎ (read_words peek poke vm_read vm_write fuel m a n ≡ none) × Fault peek m a n
  unfolding read_words window
  read_words-window fuel m a zero h bound = inl refl
  read_words-window zero m a (suc n) h bound = absurd (omega arith)
  read_words-window (suc fuel) m a (suc n) h bound = elim (Option-cases (peek m a)) [
    | inl e ↦ inr (rw (e, read_words) refl, (0, omega arith, ap (peek m) (zero_offset a) ∙ e))
    | inr (word, e) ↦
        let first = chunk-window (byte m) a n word (is.peeked m a word e) in
        let parts = window_parts (byte m) a (suc n) (min 8 (suc n)) (omega arith) in
        elim (read_words-window fuel m (advance a (min 8 (suc n))) (suc n - min 8 (suc n))
          (omega arith) (omega arith)) [
            | inl rest ↦ inl (
                rw (e, read_words, rest)
                  (ap some (
                    ap
                      (λ l.
                        l ++ window (byte m) (advance a (min 8 (suc n))) (suc n - min 8 (suc n)))
                      first
                    ∙ (ap (λ l. window (byte m) a (min 8 (suc n)) ++ l)
                          (next_window (byte m) a n bound)
                        ∙ sym parts))))
            | inr (rest, (i, lt, fault)) ↦ inr (
              rw (e, read_words, rest) refl,
              (suc i, omega arith, ap (peek m) (sym (next_address a n i bound lt)) ∙ fault),
            )
          ]
  ]

  -- `ReadTraceeMemory` gives the bytes of the memory, whichever way it reads them, or it fails,
  -- and then the read at once has failed and one of the words that make up the range cannot be
  -- read; for an address and a length that are not 0 and do not come to the end of memory, where
  -- the calls reach the bytes of a memory.
  pub read_tracee_memory-window :
      (m : M) (a n : ℕ)
      → a ≢ 0
      → n ≢ 0
      → a + n + 8 ≤ 2 ^ 64
      → (read_tracee_memory peek poke vm_read vm_write m a n ≡ some (window (byte m) a n))
        ⊎ (read_tracee_memory peek poke vm_read vm_write m a n ≡ none)
          × (vm_read m a n ≡ none)
          × Fault peek m a n
  unfolding read_tracee_memory
  read_tracee_memory-window m a n h k bound =
      let test : (a == 0 || n == 0) ≡ false = ground arith in
      elim (Option-cases (vm_read m a n)) [
        | inr (bytes, e) ↦ inl (rw (test, e) (ap some (is.vm_reads m a n bytes e)))
        | inl e ↦ elim (read_words-window n m a n (le_refl n) bound) [
          | inl read ↦ inl (rw (test, e) read)
          | inr (failed, fault) ↦ inr (rw (test, e) failed, e, fault)
        ]
      ]
