-- ===== src/Tracee/Transfer/Mapped.antt =====
-- Writes to addresses that the tracee has.
use andlify.Common.{
  ℕ, zero, suc, ◌+◌, ◌*◌, ◌^◌, ◌≤◌, ◌<◌, true, false, ◌||◌, [], ◌∷◌, ◌≡◌, ◌≢◌, inl, inr, refl,
  arith, ◌==◌, drop, length, Option, none, some, Bool-cases, Option-cases, length-drop,
}
use Prim.Native.Nat.{min}
use native.Mathlib.Nat.{le_refl}
use mathlib.Core.Path.{subst}
use andlify.Common.Bytes.{Bytes, is_empty}
use andlify.Tracee.Transfer.{Copied, advance, word_of, write_words, write_tracee_memory}

-- Where the tracee has memory that can be written, a word can be read and written, and no write takes
-- memory away.
pub record IsMapping {ℓ} {M : Type ℓ} (peek : M → ℕ → Option Bytes)
    (poke : M → ℕ → Bytes → Option M) (vm_write : M → ℕ → Bytes → Copied M)
    (mapped : M → ℕ → Type 0) : Type ℓ where
  pub peeks : (m : M) (x : ℕ) → mapped m x → peek m x ≢ none
  pub pokes : (m : M) (x : ℕ) (word : Bytes) → mapped m x → poke m x word ≢ none
  pub poke_keeps :
      (m m' : M) (x y : ℕ) (word : Bytes) → poke m y word ≡ some m' → mapped m x → mapped m' x
  pub vm_keeps :
      (m : M) (x y : ℕ) (bytes : Bytes) → mapped m x → mapped (vm_write m y bytes).memory x

module _ {ℓ} {M : Type ℓ} (peek : M → ℕ → Option Bytes) (poke : M → ℕ → Bytes → Option M)
    (vm_read : M → ℕ → ℕ → Option Bytes) (vm_write : M → ℕ → Bytes → Copied M)
    (mapped : M → ℕ → Type 0) (is : IsMapping peek poke vm_write mapped) where
  -- The words of the `n` bytes from `a` on.
  abbrev pub Maps : M → ℕ → ℕ → Type 0
  Maps m a n = (i : ℕ) → 8 * i < n → mapped m (a + 8 * i)

  first_mapped : (m : M) (a n : ℕ) → Maps m a (suc n) → mapped m a
  first_mapped m a n maps =
      let start : a + 8 * 0 ≡ a = omega arith in subst (mapped m) start (maps 0 (omega arith))

  -- The word of a turn.
  word_of-mapped :
      (m : M) (a : ℕ) (data' : Bytes)
      → mapped m a
      → word_of peek poke vm_read vm_write m a data' ≢ none
  unfolding word_of
  word_of-mapped m a data' here e = elim (Option-cases (peek m a)) [
    | inl f ↦ is.peeks m a here f
    | inr (old, f) ↦ ground arith
  ]

  -- What remains after a turn.
  rest_mapped :
      (m m' : M) (a : ℕ) (data' word : Bytes)
      → a + length data' + 8 ≤ 2 ^ 64
      → poke m a word ≡ some m'
      → Maps m a (length data')
      → Maps m' (advance a (min 8 (length data'))) (length (drop 8 data'))
  rest_mapped m m' a data' word bound written maps i lt =
      let size = length-drop 8 data' in
      let same : a + 8 * suc i ≡ advance a (min 8 (length data')) + 8 * i =
        omega (arith, size, lt, bound) in
      subst (mapped m') same
        (is.poke_keeps m m' (a + 8 * suc i) a word written (maps (suc i) (omega (arith, size, lt))))

  write_words-ok :
      (fuel : ℕ) (m : M) (a : ℕ) (data' : Bytes)
      → length data' ≤ fuel
      → a + length data' + 8 ≤ 2 ^ 64
      → Maps m a (length data')
      → (write_words peek poke vm_read vm_write fuel m a data').ok ≡ true
  unfolding write_words
  write_words-ok fuel m a [] h bound maps = refl
  write_words-ok zero m a (b ∷ data') h bound maps = absurd (omega arith)
  write_words-ok (suc fuel) m a (b ∷ data') h bound maps =
      let here = first_mapped m a (length data') maps in
      elim (Option-cases (word_of peek poke vm_read vm_write m a (b ∷ data'))) [
        | inl e ↦ absurd (word_of-mapped m a (b ∷ data') here e)
        | inr (word, e) ↦ elim (Option-cases (poke m a word)) [
          | inl f ↦ absurd (is.pokes m a word here f)
          | inr (m', f) ↦
              let size = length-drop 8 (b ∷ data') in
              rw (e, write_words, f)
                (write_words-ok fuel m' (advance a (min 8 (suc (length data'))))
                  (drop 8 (b ∷ data')) (omega (arith, size)) (omega (arith, size, bound))
                  (rest_mapped m m' a (b ∷ data') word bound f maps))
        ]
      ]

  -- `WriteTraceeMemory` comes to an end and succeeds where the address is not 0, the data is not
  -- empty and does not come to the end of memory, and the tracee has each of the words that make
  -- up the range, where a word that it has can be read and written and no write takes memory away.
  pub write_tracee_memory-ok :
      (m : M) (a : ℕ) (data' : Bytes)
      → a ≢ 0
      → data' ≢ []
      → a + length data' + 8 ≤ 2 ^ 64
      → Maps m a (length data')
      → (write_tracee_memory peek poke vm_read vm_write m a data').ok ≡ true
  unfolding write_tracee_memory
  write_tracee_memory-ok m a [] h k bound maps = absurd (k refl)
  write_tracee_memory-ok m a (b ∷ data') h k bound maps =
      let test : (a == 0 || is_empty (b ∷ data')) ≡ false = unfold is_empty in ground arith in
      rw test (elim (Bool-cases (vm_write m a (b ∷ data')).ok) [
        | inl ok ↦ rw ok refl
        | inr failed ↦ rw failed (
            write_words-ok (length (b ∷ data')) (vm_write m a (b ∷ data')).memory a (b ∷ data')
              (le_refl (length (b ∷ data'))) bound
              (λ i lt. is.vm_keeps m (a + 8 * i) a (b ∷ data') (maps i lt)))
      ])
