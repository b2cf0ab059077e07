-- ===== src/Elf/Place/Traces.antt =====
-- The memory that a request of `MapExecutable` changes, and the requests of its loop.
use andlify.Common.{
  ℕ, ◌+◌, ◌^◌, ◌≤◌, Bool, true, false, not, ◌&&◌, List, [], ◌∷◌, if◌then◌else◌, ◌==◌, ltb, ◌≡◌, inl,
  inr, refl, sym, ap, arith, Bool-cases,
}
use mathlib.Core.Path.{subst}
use andlify.Common.Components.{All}
use andlify.Elf.{Header, Segment, Image, is_loaded}
use andlify.Elf.Place.{
  Request, write_path, openat, reserve, munmap, map_file, map_zeros, write_zeros, close, Run,
  word_sub, word_add, image_size, reserve_size, base_of, Place, place_of, anonymous_start, call_if,
  write_if, map_segment, map_segments, trim, and_then, file_request, zeros_request, tail_request,
}
use andlify.Elf.Place.Reserved.{IsHeld, IsInside}

abbrev pub IsWithin : ℕ → ℕ → ℕ → ℕ → Type 0
IsWithin low high start size = (low ≤ start) × (start + size ≤ high)

-- The memory that a request changes is from `low` to `high`.
abbrev pub Stays : ℕ → ℕ → Request → Type 0
Stays low high (write_path a) = Unit
Stays low high (openat a) = Unit
Stays low high (reserve a n) = Unit
Stays low high (munmap a n) = IsWithin low high a n
Stays low high (map_file a n prot fd offset) = IsWithin low high a n
Stays low high (map_zeros a n prot) = IsWithin low high a n
Stays low high (write_zeros a n) = IsWithin low high a n
Stays low high (close fd) = Unit

-- The rest of a segment after its file pages.
anonymous-IsWithin :
    (low high : ℕ) (place : Place) (segment : Segment)
    → high ≤ 2 ^ 63
    → IsInside low high place
    → ltb (anonymous_start place segment) place.end ≡ true
    → IsWithin low high
        (anonymous_start place segment)
        (word_sub place.end (anonymous_start place segment))
unfolding anonymous_start
anonymous-IsWithin low high place segment bound inside e =
    elim (Bool-cases (segment.p_filesz == 0)) [
      | inl z ↦ subst Rest (sym (start z)) (λ l. (inside.first, ground (arith, inside.last))) e
      | inr z ↦
          subst Rest (sym (later z))
            (λ l. (
              omega (arith, inside.first, inside.file_first, inside.file_pages),
              ground (arith, inside.last),
            ))
            e
    ]
  where
    Rest : ℕ → Type 0
    Rest a = ltb a place.end ≡ true → IsWithin low high a (word_sub place.end a)

    start : (segment.p_filesz == 0) ≡ true → anonymous_start place segment ≡ place.start
    start z = rw z

    later : (segment.p_filesz == 0) ≡ false → anonymous_start place segment ≡ place.file_pages_end
    later z = rw z

-- The bytes of the last file page after the file's.
tail-IsWithin :
    (low high : ℕ) (place : Place) (segment : Segment)
    → high ≤ 2 ^ 63
    → IsInside low high place
    → (ltb segment.p_filesz segment.p_memsz
        && not (segment.p_filesz == 0)
        && ltb place.file_end (anonymous_start place segment))
      ≡ true
    → IsWithin low high place.file_end (word_sub (anonymous_start place segment) place.file_end)
unfolding anonymous_start
tail-IsWithin low high place segment bound inside e = elim (Bool-cases (segment.p_filesz == 0)) [
  | inl z ↦ absurd (ground arith)
  | inr z ↦
      let before : ltb place.file_end place.file_pages_end ≡ true =
        ground (arith, ap (λ a. ltb place.file_end a) (later z)) in
      subst (λ a. IsWithin low high place.file_end (word_sub a place.file_end)) (sym (later z))
        (omega (arith, inside.first, inside.file_first), ground (arith, before, inside.file_last))
]
  where
    later : (segment.p_filesz == 0) ≡ false → anonymous_start place segment ≡ place.file_pages_end
    later z = rw z

module _ (kernel : List Request → Request → ℕ) (page_size : ℕ) where
  call_if-All :
      (P : Request → Type 0) (needed : Bool) (request : Request) (trace : List Request)
      → (needed ≡ true → P request)
      → All P trace
      → All P (call_if kernel page_size needed request trace).trace
  unfolding call_if
  call_if-All P true request trace h t = (h refl, t)
  call_if-All P false request trace h t = t

  write_if-All :
      (P : Request → Type 0) (needed : Bool) (request : Request) (trace : List Request)
      → (needed ≡ true → P request)
      → All P trace
      → All P (write_if kernel page_size needed request trace).trace
  unfolding write_if
  write_if-All P true request trace h t = (h refl, t)
  write_if-All P false request trace h t = t

  pub if-All :
      (P : Request → Type 0) (test : Bool) (a b : Run)
      → All P a.trace
      → All P b.trace
      → All P (if test then a else b).trace
  if-All P true a b p q = p
  if-All P false a b p q = q

  and_then-All :
      (P : Request → Type 0) (run : Run) (next : List Request → Run)
      → All P run.trace
      → ((trace : List Request) → All P trace → All P (next trace).trace)
      → All P (and_then run next).trace
  unfolding and_then
  and_then-All P run next t h = if-All P (run.error == 0) (next run.trace) run (h run.trace t) t

  map_segment-Stays :
      (low high fd : ℕ) (place : Place) (segment : Segment) (trace : List Request)
      → high ≤ 2 ^ 63
      → IsInside low high place
      → All (Stays low high) trace
      → All (Stays low high) (map_segment kernel page_size place fd segment trace).trace
  unfolding map_segment
  map_segment-Stays low high fd place segment trace bound inside t =
      let pages : IsWithin low high place.start (word_sub place.file_pages_end place.start) = (
        inside.first,
        omega (arith, inside.file_first, inside.file_pages, inside.file_last, bound),
      ) in
      let mapped =
        call_if-All (Stays low high) (not (segment.p_filesz == 0))
          (file_request kernel page_size place fd segment) trace (λ e. pages) t in
      let zeroed = and_then-All (Stays low high) _ _ mapped (λ u.
        call_if-All (Stays low high) _ (zeros_request kernel page_size place segment) u
          (anonymous-IsWithin low high place segment bound inside)) in
      and_then-All (Stays low high) _ _ zeroed (λ u.
        write_if-All (Stays low high) _ (tail_request kernel page_size place segment) u
          (tail-IsWithin low high place segment bound inside))

  pub map_segments-Stays :
      (low high bias fd : ℕ) (segments : List Segment) (trace : List Request)
      → high ≤ 2 ^ 63
      → All (λ s. is_loaded s ≡ true → IsInside low high (place_of page_size bias s)) segments
      → All (Stays low high) trace
      → All (Stays low high) (map_segments kernel page_size bias fd segments trace).trace
  unfolding map_segments
  map_segments-Stays low high bias fd [] trace bound inside t = t
  map_segments-Stays low high bias fd (segment ∷ segments) trace bound inside t =
      elim (Bool-cases (is_loaded segment)) [
        | inr e ↦ rw e (map_segments-Stays low high bias fd segments trace bound inside.1 t)
        | inl e ↦ rw e (
            and_then-All (Stays low high) _ _
              (map_segment-Stays low high fd (place_of page_size bias segment) segment trace bound
                (inside.0 e) t)
              (λ u. map_segments-Stays low high bias fd segments u bound inside.1))
      ]

  module _ (low high mapping : ℕ) (header : Header) (image : Image) where
    pub trim-Stays :
        (trace : List Request)
        → high ≡ mapping + reserve_size header image
        → low ≡ mapping
        → IsHeld page_size low high (base_of header image mapping) (image_size image)
        → All (Stays low high) trace
        → All (Stays low high) (trim kernel page_size header image mapping trace)
    unfolding trim
    trim-Stays trace top bottom held t =
        let base = base_of header image mapping in
        let size = image_size image in
        let head : Within_head base = elim (Bool-cases (base == mapping)) [
          | inl e ↦ rw e t
          | inr e ↦
              rw e (
                (omega (arith, bottom), omega (arith, bottom, held.first, held.last, held.bound)),
                t,
              )
        ] in
        elim (Bool-cases
          (ltb (word_add base size) (word_add mapping (reserve_size header image)))) [
            | inl e ↦ rw e (
              (
                omega (arith, held.first, held.last, held.bound),
                ground (arith, top, held.first, held.last, held.bound),
              ),
              head,
            )
            | inr e ↦ rw e head
          ]
      where
        Within_head : ℕ → Type 0
        Within_head base =
            All (Stays low high)
              (if base == mapping then trace else munmap mapping (word_sub base mapping) ∷ trace)
