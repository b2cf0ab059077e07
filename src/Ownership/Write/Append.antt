-- ===== src/Ownership/Write/Append.antt =====
-- What `WriteAll` leaves in the file.
use andlify.Common.{
  ℕ, zero, suc, ◌+◌, ◌≤◌, List, [], ◌∷◌, ◌++◌, ◌≡◌, ◌≢◌, ◌⊎◌, inl, inr, refl, sym, ap, ◌∙◌, arith,
  take, drop, length, length-drop,
}
use andlify.Common.Bytes.{Bytes}
use andlify.Ownership.Write.{WriteAnswer, interrupted, refused, wrote, complete, Written, write_all}

-- The first `k` bytes of the data are in the file, all of them where the status says so.
pub record IsPartly (file data' : Bytes) (written : Written) : Type 0 where
  pub rest : Bytes
  pub done : Bytes
  pub split : data' ≡ done ++ rest
  pub left : written.file ≡ file ++ done
  pub all : (written.status ≡ complete) × (rest ≡ []) ⊎ (written.status ≢ complete) × (rest ≢ [])

append_more : (file done more : Bytes) → (file ++ done) ++ more ≡ file ++ (done ++ more)
append_more [] done more = refl
append_more (b ∷ file) done more = ap (λ l. b ∷ l) (append_more file done more)

pub append_nil : (file : Bytes) → file ≡ file ++ []
append_nil [] = refl
append_nil (b ∷ file) = ap (λ l. b ∷ l) (append_nil file)

split_at : (n : ℕ) (xs : Bytes) → xs ≡ take n xs ++ drop n xs
split_at zero xs = refl
split_at (suc n) [] = refl
split_at (suc n) (x ∷ xs) = ap (λ l. x ∷ l) (split_at n xs)

pub write_all-IsPartly :
    (answers : List WriteAnswer) (file data' : Bytes)
    → IsPartly file data' (write_all answers file data')
unfolding write_all
write_all-IsPartly answers file [] = record {
  rest = [];
  done = [];
  split = refl;
  left = append_nil file;
  all = inl (refl, refl);
}
write_all-IsPartly [] file (b ∷ data') = record {
  rest = b ∷ data';
  done = [];
  split = refl;
  left = append_nil file;
  all = inr (ground arith, ground arith);
}
write_all-IsPartly (interrupted ∷ answers) file (b ∷ data') =
    write_all-IsPartly answers file (b ∷ data')
write_all-IsPartly (refused ∷ answers) file (b ∷ data') = record {
  rest = b ∷ data';
  done = [];
  split = refl;
  left = append_nil file;
  all = inr (ground arith, ground arith);
}
write_all-IsPartly (wrote zero ∷ answers) file (b ∷ data') = record {
  rest = b ∷ data';
  done = [];
  split = refl;
  left = append_nil file;
  all = inr (ground arith, ground arith);
}
write_all-IsPartly (wrote (suc n) ∷ answers) file (b ∷ data') =
    let later = write_all-IsPartly answers (file ++ (b ∷ take n data')) (drop n data') in
    record {
      rest = later.rest;
      done = (b ∷ take n data') ++ later.done;
      split =
          ap (λ l. b ∷ l)
            (split_at n data'
              ∙ (ap (λ l. take n data' ++ l) later.split
                  ∙ sym (append_more (take n data') later.done later.rest)));
      left = later.left ∙ append_more file (b ∷ take n data') later.done;
      all = later.all;
    }

-- The bytes that are written before the first error.
abbrev pub writes : List WriteAnswer → ℕ
writes [] = 0
writes (interrupted ∷ answers) = writes answers
writes (refused ∷ answers) = 0
writes (wrote zero ∷ answers) = 0
writes (wrote (suc n) ∷ answers) = suc n + writes answers

-- `WriteAll` ends with all of the data in the file, however the kernel divides it and however
-- often it is interrupted, where the writes before the first error come to its length.
pub write_all-completes :
    (answers : List WriteAnswer) (file data' : Bytes)
    → length data' ≤ writes answers
    → write_all answers file data' ≡ record { status = complete; file = file ++ data' }
unfolding write_all
write_all-completes answers file [] h =
    ap (λ f. record { status = complete; file = f }) (append_nil file)
write_all-completes [] file (b ∷ data') h = absurd (omega arith)
write_all-completes (interrupted ∷ answers) file (b ∷ data') h =
    write_all-completes answers file (b ∷ data') h
write_all-completes (refused ∷ answers) file (b ∷ data') h = absurd (omega arith)
write_all-completes (wrote zero ∷ answers) file (b ∷ data') h = absurd (omega arith)
write_all-completes (wrote (suc n) ∷ answers) file (b ∷ data') h =
    let l = length-drop n data' in
    write_all-completes answers (file ++ (b ∷ take n data')) (drop n data') (omega arith)
    ∙ ap (λ f. record { status = complete; file = f })
        (append_more file (b ∷ take n data') (drop n data')
          ∙ ap (λ l. file ++ (b ∷ l)) (sym (split_at n data')))
