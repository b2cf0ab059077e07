-- ===== src/Tracee/Transfer/Writes.antt =====
-- What is written to a tracee's memory, by either way.
use andlify.Common.{
  ℕ, zero, suc, ◌+◌, ◌-◌, ◌^◌, ◌≤◌, ◌<◌, true, false, ◌||◌, [], ◌∷◌, ◌++◌, ◌≡◌, ◌≢◌, ◌⊎◌, inl, inr,
  refl, sym, ap, ◌∙◌, arith, ◌==◌, ltb, take, drop, length, Option, none, some, Bool-cases,
  Option-cases, length-append, length-take, length-drop, take-append-drop,
}
use Prim.Native.Nat.{min}
use mathlib.Core.Path.{subst}
use andlify.Common.Bytes.{Bytes, is_empty}
use andlify.Tracee.Transfer.{
  Copied, advance, read_tracee_memory, word_of, write_words, write_tracee_memory,
}
use andlify.Tracee.Transfer.Overlay.{
  window, overlay, drop-window, length-window, overlay_before, overlay_after, overlay_at,
  overlay-append, overlay-window, window-overlay, overlay_again, window_same,
}
use andlify.Tracee.Transfer.Reads.{IsMemory, read_tracee_memory-window, Fault}

module _ {ℓ} {M : Type ℓ} (peek : M → ℕ → Option Bytes) (poke : M → ℕ → Bytes → Option M)
    (vm_read : M → ℕ → ℕ → Option Bytes) (vm_write : M → ℕ → Bytes → Copied M) (byte : M → ℕ → ℕ)
    (is : IsMemory peek poke vm_read vm_write byte) where
  -- What a write does: no byte outside its range changes, and where it succeeds the data is there.
  pub record IsWritten (m : M) (a : ℕ) (data' : Bytes) (result : Copied M) : Type ℓ where
    pub outside : (x : ℕ) → (x < a) ⊎ (a + length data' ≤ x) → byte result.memory x ≡ byte m x
    pub inside : result.ok ≡ true → (x : ℕ) → byte result.memory x ≡ overlay (byte m) a data' x

  unchanged-IsWritten :
      (m : M) (a : ℕ) (data' : Bytes) → IsWritten m a data' (record { ok = false; memory = m })
  unchanged-IsWritten m a data' = record {
    outside = λ x h. refl;
    inside = λ e. absurd (ground arith);
  }

  -- The last word: the data and the bytes after it.
  word_of-short :
      (m : M) (a : ℕ) (data' word : Bytes) (x : ℕ)
      → length data' < 8
      → word_of peek poke vm_read vm_write m a data' ≡ some word
      → (length word ≡ 8) × (overlay (byte m) a word x ≡ overlay (byte m) a data' x)
  unfolding word_of
  word_of-short m a data' word x h e =
      let short : ltb (length data') 8 ≡ true = ground arith in
      elim (Option-cases (peek m a)) [
        | inl f ↦ absurd (ground arith)
        | inr (old, f) ↦
            let same : data' ++ drop (length data') old ≡ word = ground arith in
            let there = is.peeked m a old f in
            let tail =
              ap (drop (length data')) there
              ∙ drop-window (byte m) a 8 (length data') (omega arith) in
            let whole : data' ++ window (byte m) (a + length data') (8 - length data') ≡ word =
              ap (λ l. data' ++ l) (sym tail) ∙ same in
            let size =
              length-append data' (window (byte m) (a + length data') (8 - length data')) in
            let rest = length-window (byte m) (a + length data') (8 - length data') in
            (
              omega (arith, ap length whole, size, rest, h),
              ap (λ w. overlay (byte m) a w x) (sym whole)
                  ∙ (overlay-append (byte m) a data'
                        (window (byte m) (a + length data') (8 - length data')) x
                      ∙ overlay-window (byte m) (overlay (byte m) a data') (a + length data')
                          (8 - length data') x (λ y k. overlay_after (byte m) a data' y k)),
            )
      ]

  -- What remains after a turn.
  then-IsWritten :
      (m m' : M) (a : ℕ) (s t : Bytes) (result : Copied M)
      → ((x : ℕ) → byte m' x ≡ overlay (byte m) a s x)
      → IsWritten m' (a + length s) t result
      → IsWritten m a (s ++ t) result
  then-IsWritten m m' a s t result first rest = record {
    outside = λ x h. elim h [
      | inl before ↦
          rest.outside x (inl (omega arith)) ∙ (first x ∙ overlay_before (byte m) a s x before)
      | inr after ↦
          let size = length-append s t in
          rest.outside x (inr (omega (arith, size)))
          ∙ (first x ∙ overlay_after (byte m) a s x (omega (arith, size)))
    ];
    inside = λ e x.
        rest.inside e x
        ∙ (overlay_at (byte m') (overlay (byte m) a s) (a + length s) t x (first x)
            ∙ sym (overlay-append (byte m) a s t x));
  }

  -- A turn with a whole word, or the last one.
  turn-IsWritten :
      (m m' : M) (a : ℕ) (data' word : Bytes) (result : Copied M)
      → word_of peek poke vm_read vm_write m a data' ≡ some word
      → poke m a word ≡ some m'
      → (8 ≤ length data' → IsWritten m' (a + 8) (drop 8 data') result)
      → (length data' < 8 → result ≡ record { ok = true; memory = m' })
      → IsWritten m a data' result
  unfolding word_of
  turn-IsWritten m m' a data' word result e f long short =
      elim (Bool-cases (ltb (length data') 8)) [
        | inl lt ↦
            let small : length data' < 8 = ground arith in
            let size = (word_of-short m a data' word 0 small e).0 in
            subst (IsWritten m a data') (sym (short small)) (record {
              outside = λ x h.
                  is.poked m m' a word size f x
                  ∙ ((word_of-short m a data' word x small e).1 ∙ elim h [
                    | inl before ↦ overlay_before (byte m) a data' x before
                    | inr after ↦ overlay_after (byte m) a data' x after
                  ]);
              inside =
                  λ t x. is.poked m m' a word size f x ∙ (word_of-short m a data' word x small e).1;
            })
        | inr ge ↦
            let first : take 8 data' ≡ word = ground arith in
            let size : length (take 8 data') ≡ 8 =
              omega (arith, length-take 8 data', ltb_false (length data') ge) in
            let wrote = is.poked m m' a word (ap length (sym first) ∙ size) f in
            subst (λ d. IsWritten m a d result) (take-append-drop 8 data')
              (then-IsWritten m m' a (take 8 data') (drop 8 data') result
                (λ x. wrote x ∙ ap (λ w. overlay (byte m) a w x) (sym first))
                (subst (λ k. IsWritten m' (a + k) (drop 8 data') result) (sym size)
                  (long (ground arith))))
      ]
    where
      ltb_false : (k : ℕ) → ltb k 8 ≡ false → 8 ≤ k
      ltb_false k h = ground arith

  write_words-IsWritten :
      (fuel : ℕ) (m : M) (a : ℕ) (data' : Bytes)
      → a + length data' + 8 ≤ 2 ^ 64
      → IsWritten m a data' (write_words peek poke vm_read vm_write fuel m a data')
  unfolding write_words
  write_words-IsWritten fuel m a [] bound = record {
    outside = λ x h. refl;
    inside = λ e x. unfold overlay in refl;
  }
  write_words-IsWritten zero m a (b ∷ data') bound = unchanged-IsWritten m a (b ∷ data')
  write_words-IsWritten (suc fuel) m a (b ∷ data') bound =
      elim (Option-cases (word_of peek poke vm_read vm_write m a (b ∷ data'))) [
        | inl e ↦ rw (e, write_words) (unchanged-IsWritten m a (b ∷ data'))
        | inr (word, e) ↦ elim (Option-cases (poke m a word)) [
          | inl f ↦ rw (e, write_words, f) (unchanged-IsWritten m a (b ∷ data'))
          | inr (m', f) ↦
              let size = length-drop 8 (b ∷ data') in
              let next = advance a (min 8 (suc (length data'))) in
              rw (e, write_words, f)
                (turn-IsWritten m m' a (b ∷ data') word
                  (write_words peek poke vm_read vm_write fuel m' next (drop 8 (b ∷ data'))) e f
                  (λ long.
                    let start : next ≡ a + 8 = omega (arith, long) in
                    subst
                      (λ k.
                        IsWritten m' (a + 8) (drop 8 (b ∷ data'))
                          (write_words peek poke vm_read vm_write fuel m' k (drop 8 (b ∷ data'))))
                      (sym start)
                      (write_words-IsWritten fuel m' (a + 8) (drop 8 (b ∷ data'))
                        (omega (arith, size, long))))
                  (λ short. ended fuel m' next (drop 8 (b ∷ data')) (omega (arith, size, short))))
        ]
      ]
    where
      ended :
          (fuel : ℕ) (m : M) (a : ℕ) (rest : Bytes)
          → length rest ≡ 0
          → write_words peek poke vm_read vm_write fuel m a rest ≡ record { ok = true; memory = m }
      ended fuel m a [] h = refl
      ended fuel m a (b ∷ rest) h = absurd (omega arith)

  -- `WriteTraceeMemory` changes no byte outside the range of the data, even where it fails, and
  -- where it succeeds the range holds the data, whichever way it was written; for a range that
  -- does not come to the end of memory, where the calls reach the bytes of a memory.
  pub write_tracee_memory-IsWritten :
      (m : M) (a : ℕ) (data' : Bytes)
      → a + length data' + 8 ≤ 2 ^ 64
      → IsWritten m a data' (write_tracee_memory peek poke vm_read vm_write m a data')
  unfolding write_tracee_memory
  write_tracee_memory-IsWritten m a data' bound = elim (Bool-cases (a == 0 || is_empty data')) [
    | inl e ↦ rw e (unchanged-IsWritten m a data')
    | inr e ↦ rw e (elim (Bool-cases (vm_write m a data').ok) [
      | inl ok ↦
          rw ok
            (record { outside = is.vm_outside m a data'; inside = λ t. is.vm_written m a data' ok })
      | inr failed ↦
          let part = (vm_write m a data').memory in
          let rest = write_words-IsWritten (length data') part a data' bound in
          rw failed (record {
            outside = λ x h. rest.outside x h ∙ is.vm_outside m a data' x h;
            inside = λ t x.
                rest.inside t x
                ∙ overlay_again (byte m) (byte part) a data' x (is.vm_outside m a data' x);
          })
    ])
  ]

  -- What a `WriteTraceeMemory` that succeeds wrote is read back by `ReadTraceeMemory`, whichever
  -- way each of the two goes, or the read fails and a word of the range cannot be read; for an
  -- address that is not 0 and data that is not empty and does not come to the end of memory, where
  -- the calls reach the bytes of a memory.
  pub read_tracee_memory-write :
      (m : M) (a : ℕ) (data' : Bytes)
      → a ≢ 0
      → data' ≢ []
      → a + length data' + 8 ≤ 2 ^ 64
      → (write_tracee_memory peek poke vm_read vm_write m a data').ok ≡ true
      → (read_tracee_memory peek poke vm_read vm_write
            (write_tracee_memory peek poke vm_read vm_write m a data').memory
            a
            (length data')
          ≡ some data')
        ⊎ (read_tracee_memory peek poke vm_read vm_write
              (write_tracee_memory peek poke vm_read vm_write m a data').memory
              a
              (length data')
            ≡ none)
          × Fault peek
              (write_tracee_memory peek poke vm_read vm_write m a data').memory
              a
              (length data')
  read_tracee_memory-write m a data' h k bound ok =
      let result = write_tracee_memory peek poke vm_read vm_write m a data' in
      let written = (write_tracee_memory-IsWritten m a data' bound).inside ok in
      elim (read_tracee_memory-window peek poke vm_read vm_write byte is result.memory a
        (length data') h (not_empty data' k) bound) [
          | inr (e, refused, fault) ↦ inr (e, fault)
          | inl e ↦ inl (
              e
              ∙ ap some (
                  window_same (byte result.memory) (overlay (byte m) a data') a (length data')
                    written
                  ∙ window-overlay (byte m) a data'))
        ]
    where
      not_empty : (xs : Bytes) → xs ≢ [] → length xs ≢ 0
      not_empty [] n = absurd (n refl)
      not_empty (x ∷ xs) n = ground arith
