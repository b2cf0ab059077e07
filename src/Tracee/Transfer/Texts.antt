-- ===== src/Tracee/Transfer/Texts.antt =====
-- What is read of a text in a tracee's memory, by either way.
use andlify.Common.{
  ℕ, zero, suc, ◌+◌, ◌-◌, ◌*◌, ◌^◌, ◌≤◌, ◌<◌, true, false, ◌||◌, [], ◌∷◌, ◌++◌, ◌≡◌, ◌≢◌, ◌⊎◌, inl,
  inr, refl, sym, ap, ◌∙◌, arith, if◌then◌else◌, ◌==◌, take, Option, none, some, Bool-cases,
  Option-cases,
}
use Prim.Native.Nat.{min}
use native.Mathlib.Nat.{le_refl}
use andlify.Common.Bytes.{Bytes, c_string, has_nul}
use andlify.Tracee.Transfer.Overlay.{window, window_parts, window-append}
use andlify.Tracee.Transfer.Reads.{IsMemory, next_address, zero_offset, chunk-window, next_window}
use andlify.Tracee.Transfer.{Copied, advance, read_string_words, read_tracee_c_string}

has_nul-append :
    (s t : Bytes) → has_nul s ≡ true → (has_nul (s ++ t) ≡ true) × (c_string (s ++ t) ≡ c_string s)
unfolding has_nul c_string
has_nul-append [] t h = absurd (ground arith)
has_nul-append (c ∷ s) t h = elim (Bool-cases (c == 0)) [
  | inl e ↦ rw e (refl, refl)
  | inr e ↦ let rest = has_nul-append s t (ground arith) in rw e (rest.0, ap (λ l. c ∷ l) rest.1)
]

c_string-append :
    (s t : Bytes)
    → has_nul s ≡ false
    → (has_nul (s ++ t) ≡ has_nul t) × (c_string (s ++ t) ≡ s ++ c_string t)
unfolding has_nul c_string
c_string-append [] t h = (refl, refl)
c_string-append (c ∷ s) t h = elim (Bool-cases (c == 0)) [
  | inl e ↦ absurd (ground arith)
  | inr e ↦ let rest = c_string-append s t (ground arith) in rw e (rest.0, ap (λ l. c ∷ l) rest.1)
]

-- The same with no NUL in the bytes before it.
abbrev pub TextFault {ℓ} : {M : Type ℓ} → (M → ℕ → Option Bytes) → (M → ℕ → ℕ) → M → ℕ → ℕ → Type 0
TextFault peek byte m a n =
    (i : ℕ) × (8 * i < n)
    × (peek m (a + 8 * i) ≡ none)
    × (has_nul (window (byte m) a (8 * i)) ≡ false)

-- The text that a window holds.
abbrev pub text_of : Bytes → Option Bytes
text_of bytes = if has_nul bytes then some (c_string bytes) else none

-- A word that is not the last is read whole.
chunk_whole : (n i : ℕ) → 8 * i < suc n - min 8 (suc n) → min 8 (suc n) ≡ 8
chunk_whole n i lt = omega arith

next_start :
    (a n i : ℕ)
    → a + suc n + 8 ≤ 2 ^ 64
    → 8 * i < suc n - min 8 (suc n)
    → advance a (min 8 (suc n)) ≡ a + 8
next_start a n i bound lt = omega arith

module _ {ℓ} {M : Type ℓ} (peek : M → ℕ → Option Bytes) (poke : M → ℕ → Bytes → Option M)
    (vm_read : M → ℕ → ℕ → Option Bytes) (vm_write : M → ℕ → Bytes → Copied M) (byte : M → ℕ → ℕ)
    (is : IsMemory peek poke vm_read vm_write byte) where
  no_bytes : (m : M) (a : ℕ) → has_nul (window (byte m) a (8 * 0)) ≡ false
  unfolding has_nul window
  no_bytes m a = refl

  -- No NUL in the first word and none in those after it.
  clear_before :
      (m : M) (a n i : ℕ) (word : Bytes)
      → take (min 8 (suc n)) word ≡ window (byte m) a (min 8 (suc n))
      → a + suc n + 8 ≤ 2 ^ 64
      → 8 * i < suc n - min 8 (suc n)
      → has_nul (take (min 8 (suc n)) word) ≡ false
      → has_nul (window (byte m) (advance a (min 8 (suc n))) (8 * i)) ≡ false
      → has_nul (window (byte m) a (8 * suc i)) ≡ false
  clear_before m a n i word first bound lt z clear =
      let whole = chunk_whole n i lt in
      let head : has_nul (window (byte m) a 8) ≡ false =
        ap (λ k. has_nul (window (byte m) a k)) (sym whole) ∙ (ap has_nul (sym first) ∙ z) in
      let rest : has_nul (window (byte m) (a + 8) (8 * i)) ≡ false =
        ap (λ k. has_nul (window (byte m) k (8 * i))) (sym (next_start a n i bound lt)) ∙ clear in
      ap has_nul (ap (window (byte m) a) (omega arith) ∙ window-append (byte m) a 8 (8 * i))
      ∙ ((c_string-append (window (byte m) a 8) (window (byte m) (a + 8) (8 * i)) head).0 ∙ rest)

  read_string_words-text :
      (fuel : ℕ) (m : M) (a n : ℕ)
      → n ≤ fuel
      → a + n + 8 ≤ 2 ^ 64
      → (read_string_words peek poke vm_read vm_write fuel m a n ≡ text_of (window (byte m) a n))
        ⊎ (read_string_words peek poke vm_read vm_write fuel m a n ≡ none)
          × TextFault peek byte m a n
  unfolding read_string_words
  read_string_words-text fuel m a zero h bound = inl (unfold window in unfold has_nul in refl)
  read_string_words-text zero m a (suc n) h bound = absurd (omega arith)
  read_string_words-text (suc fuel) m a (suc n) h bound = elim (Option-cases (peek m a)) [
    | inl e ↦ inr (
      rw (e, read_string_words) refl,
      (0, omega arith, ap (peek m) (zero_offset a) ∙ e, no_bytes m a),
    )
    | inr (word, e) ↦
        let chunk = min 8 (suc n) in
        let first = chunk-window (byte m) a n word (is.peeked m a word e) in
        let parts = window_parts (byte m) a (suc n) chunk (omega arith) in
        elim (Bool-cases (has_nul (take chunk word))) [
          | inl z ↦
              let (found, cut) =
                has_nul-append (take chunk word) (window (byte m) (a + chunk) (suc n - chunk)) z in
              inl (
                rw (e, read_string_words, z)
                  (sym (
                    ap text_of (
                      parts
                      ∙ ap (λ l. l ++ window (byte m) (a + chunk) (suc n - chunk)) (sym first))
                    ∙ rw (found, cut) refl)))
          | inr z ↦
              let later =
                c_string-append (take chunk word) (window (byte m) (a + chunk) (suc n - chunk)) z in
              elim (read_string_words-text fuel m (advance a chunk) (suc n - chunk) (omega arith)
                (omega arith)) [
                  | inr (rest, (i, lt, fault, clear)) ↦ inr (
                    rw (e, read_string_words, z, rest) refl,
                    (
                      suc i,
                      omega arith,
                      ap (peek m) (sym (next_address a n i bound lt)) ∙ fault,
                      clear_before m a n i word first bound lt z clear,
                    ),
                  )
                  | inl rest ↦
                      let rest' = rest ∙ ap text_of (next_window (byte m) a n bound) in
                      inl (
                        rw (e, read_string_words, z, rest')
                          (sym (
                            ap text_of (
                              parts
                              ∙ ap (λ l. l ++ window (byte m) (a + chunk) (suc n - chunk))
                                  (sym first))
                            ∙ joined _ _ later)))
                ]
        ]
  ]
    where
      joined :
          (s t : Bytes)
          → (has_nul (s ++ t) ≡ has_nul t) × (c_string (s ++ t) ≡ s ++ c_string t)
          → text_of (s ++ t) ≡ elim (text_of t) [ none ↦ none | some bytes ↦ some (s ++ bytes) ]
      joined s t (h, k) = elim (Bool-cases (has_nul t)) [
        | inl e ↦ rw (h, e) (ap some k)
        | inr e ↦ rw (h, e) refl
      ]

  -- `ReadTraceeCString` gives the bytes before the first NUL among the `max_len` bytes from the
  -- address on, whichever way it reads them, and fails where there is none; or it fails where the
  -- read at once has failed and one of the words that make up the range, with no NUL before it,
  -- cannot be read; for an address and a length that are not 0 and do not come to the end of
  -- memory, where the calls reach the bytes of a memory.
  pub read_tracee_c_string-text :
      (m : M) (a n : ℕ)
      → a ≢ 0
      → n ≢ 0
      → a + n + 8 ≤ 2 ^ 64
      → (read_tracee_c_string peek poke vm_read vm_write m a n ≡ text_of (window (byte m) a n))
        ⊎ (read_tracee_c_string peek poke vm_read vm_write m a n ≡ none)
          × (vm_read m a n ≡ none)
          × TextFault peek byte m a n
  unfolding read_tracee_c_string
  read_tracee_c_string-text m a n h k bound =
      let test : (a == 0 || n == 0) ≡ false = ground arith in
      elim (Option-cases (vm_read m a n)) [
        | inr (bytes, e) ↦ inl (rw (test, e) (ap text_of (is.vm_reads m a n bytes e)))
        | inl e ↦ elim (read_string_words-text n m a n (le_refl n) bound) [
          | inl read ↦ inl (rw (test, e) read)
          | inr (failed, fault) ↦ inr (rw (test, e) failed, e, fault)
        ]
      ]
