-- ===== src/Ownership/Journal/Records.antt =====
-- A file as a row of 64-byte records, and what bytes at its end do to them.
use andlify.Common.{
  ℕ, zero, suc, ◌*◌, ◌≤◌, List, [], ◌∷◌, ◌++◌, ◌≡◌, refl, sym, ap, ◌∙◌, arith, take, drop, length,
  length-drop,
}
use andlify.Common.Bytes.{Bytes}
use andlify.Ownership.Journal.{records}

module _ {ℓ} {A : Type ℓ} where
  pub take_of_le : (n : ℕ) (xs ys : List A) → n ≤ length xs → take n (xs ++ ys) ≡ take n xs
  take_of_le zero xs ys h = refl
  take_of_le (suc n) [] ys h = absurd (omega arith)
  take_of_le (suc n) (x ∷ xs) ys h = ap (λ l. x ∷ l) (take_of_le n xs ys (omega arith))

  pub drop_of_le : (n : ℕ) (xs ys : List A) → n ≤ length xs → drop n (xs ++ ys) ≡ drop n xs ++ ys
  drop_of_le zero xs ys h = refl
  drop_of_le (suc n) [] ys h = absurd (omega arith)
  drop_of_le (suc n) (x ∷ xs) ys h = drop_of_le n xs ys (omega arith)

  pub take_whole : (xs : List A) → take (length xs) xs ≡ xs
  take_whole [] = refl
  take_whole (x ∷ xs) = ap (λ l. x ∷ l) (take_whole xs)

-- Bytes after the last whole record are in no record.
pub records-append :
    (n : ℕ) (bytes rest : Bytes)
    → n * 64 ≤ length bytes
    → records n (bytes ++ rest) ≡ records n bytes
unfolding records
records-append zero bytes rest h = refl
records-append (suc n) bytes rest h =
    let l = length-drop 64 bytes in
    rw (take_of_le 64 bytes rest (omega arith), drop_of_le 64 bytes rest (omega arith))
      (ap (λ l. take 64 bytes ∷ l) (records-append n (drop 64 bytes) rest (omega arith)))

-- A record after whole records is the last one.
pub records_snoc :
    (n : ℕ) (bytes r : Bytes)
    → length bytes ≡ n * 64
    → length r ≡ 64
    → records (suc n) (bytes ++ r) ≡ records n bytes ++ (r ∷ [])
unfolding records
records_snoc zero [] r h k = ap (λ l. l ∷ []) (ap (λ n. take n r) (sym k) ∙ take_whole r)
records_snoc zero (b ∷ bytes) r h k = absurd (omega arith)
records_snoc (suc n) bytes r h k =
    let l = length-drop 64 bytes in
    rw (take_of_le 64 bytes r (omega arith), drop_of_le 64 bytes r (omega arith))
      (ap (λ l. take 64 bytes ∷ l) (records_snoc n (drop 64 bytes) r (omega arith) k))
