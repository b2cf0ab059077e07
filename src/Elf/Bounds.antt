-- ===== src/Elf/Bounds.antt =====
-- What holds of a program file that `OpenElfExecutable` accepts: where its segments lie, in the file and
-- in memory.
use andlify.Common.{
  ℕ, ◌+◌, ◌-◌, ◌*◌, ◌%◌, ◌^◌, ◌≤◌, ◌<◌, true, List, [], ◌∷◌, ltb, leb, Option, some, ◌≡◌, ◌≢◌, ◌⊎◌,
  inl, inr, refl, sym, arith, Bool-cases,
}
use Prim.Native.Nat.{min, max}
use mathlib.Core.Path.{subst}
use andlify.Common.Bytes.{Bytes}
use andlify.Common.Powers.{IsPower, IsPower-positive, bit_and-IsPower, page_down_lem}
use andlify.Elf.{
  Header, Segment, Image, page_up, align_ok, load_ok, holds_entry, holds_phdrs, add_segment,
  is_loaded, load_segment,
}

abbrev pub Any {ℓ} : {A : Type ℓ} → (A → Type 0) → List A → Type 0
Any P [] = ⊥
Any P (x ∷ xs) = P x ⊎ Any P xs

-- A number rounded up to a multiple of the power `p`.
pub record IsRoundedUp (p x r : ℕ) : Type 0 where
  pub count : ℕ
  pub multiple : r ≡ count * p
  pub above : x ≤ r
  pub near : r < x + p

-- `PageUp` is the next multiple, where it does not wrap around.
pub page_up_lem :
    (p value : ℕ) → IsPower p → value + p ≤ 2 ^ 64 → IsRoundedUp p value (page_up value p)
unfolding page_up
page_up_lem p value w h =
    let positive = IsPower-positive p w in
    let last : (value + p + (2 ^ 64 - 1)) % 2 ^ 64 ≡ value + p - 1 = omega arith in
    let down = page_down_lem p (value + p - 1) w (omega arith) (omega arith) in
    rw last (record {
      count = down.count;
      multiple = down.multiple;
      above = omega (arith, down.near);
      near = omega (arith, down.below);
    })

-- A segment that is loaded lies in the file and between the pages of the image, with its bytes at the
-- place in their page that they have in the file, and aligned as it asks.
pub record IsPlaced (page_size st_size : ℕ) (image : Image) (segment : Segment) : Type 0 where
  pub in_file : segment.p_offset + segment.p_filesz ≤ st_size
  pub size : segment.p_filesz ≤ segment.p_memsz
  pub first : image.first_page ≤ segment.p_vaddr
  pub last : segment.p_vaddr + segment.p_memsz ≤ image.end_page
  pub congruent : segment.p_vaddr % page_size ≡ segment.p_offset % page_size
  pub aligned :
      (segment.p_align ≤ 1)
      ⊎ IsPower segment.p_align
        × (segment.p_align ≤ image.alignment)
        × (segment.p_vaddr % segment.p_align ≡ segment.p_offset % segment.p_align)

-- The pages of an image, of which `first_page` is 2 ^ 64 - 1 before a segment is loaded.
pub record IsPaged (page_size : ℕ) (image : Image) : Type 0 where
  pub end_page : image.end_page ≤ 2 ^ 63 - 1
  pub end_count : (n : ℕ) × (image.end_page ≡ n * page_size)
  pub first_count : (image.first_page ≡ 2 ^ 64 - 1) ⊎ ((n : ℕ) × (image.first_page ≡ n * page_size))
  pub alignment : IsPower image.alignment
  pub large : page_size ≤ image.alignment
  pub bound : image.alignment ≤ 2 ^ 32

-- An image that only gains segments.
pub record Grows (old new : Image) : Type 0 where
  pub first : new.first_page ≤ old.first_page
  pub last : old.end_page ≤ new.end_page
  pub alignment : old.alignment ≤ new.alignment

max-lift : (P : ℕ → Type 0) (a b : ℕ) → P a → P b → P (max a b)
max-lift P a b p q = elim (Bool-cases (ltb a b)) [
  | inl e ↦ let same : max a b ≡ b = ground arith in subst P (sym same) q
  | inr e ↦ let same : max a b ≡ a = ground arith in subst P (sym same) p
]

min-lift : (P : ℕ → Type 0) (a b : ℕ) → P a → P b → P (min a b)
min-lift P a b p q = elim (Bool-cases (ltb a b)) [
  | inl e ↦ let same : min a b ≡ a = ground arith in subst P (sym same) p
  | inr e ↦ let same : min a b ≡ b = ground arith in subst P (sym same) q
]

module _ (page_size st_size : ℕ) (header : Header) (power : IsPower page_size)
    (small : page_size ≤ 2 ^ 32) where
  align_ok-IsPower :
      (segment : Segment)
      → align_ok segment ≡ true
      → (segment.p_align ≤ 1)
        ⊎ IsPower segment.p_align
          × (segment.p_align ≤ 2 ^ 32)
          × (segment.p_vaddr % segment.p_align ≡ segment.p_offset % segment.p_align)
  unfolding align_ok
  align_ok-IsPower segment h = elim (Bool-cases (leb segment.p_align 1)) [
    | inl e ↦ inl (ground arith)
    | inr e ↦
        let n : segment.p_align ≢ 0 = ground arith in
        inr (bit_and-IsPower segment.p_align n (ground arith), ground arith, ground arith)
  ]

  add_segment-Grows :
      (image : Image) (segment : Segment) → Grows image (add_segment page_size header image segment)
  unfolding add_segment
  add_segment-Grows image segment = record {
    first = omega arith;
    last = omega arith;
    alignment = omega arith;
  }

  add_segment-IsPlaced :
      (image : Image) (segment : Segment)
      → load_ok page_size st_size segment ≡ true
      → IsPlaced page_size st_size (add_segment page_size header image segment) segment
  unfolding add_segment load_ok
  add_segment-IsPlaced image segment h =
      let down = page_down_lem page_size segment.p_vaddr power (omega arith) (ground arith) in
      let up = page_up_lem page_size (segment.p_vaddr + segment.p_memsz) power (ground arith) in
      record {
        in_file = ground arith;
        size = ground arith;
        first = omega (arith, down.below);
        last = omega (arith, up.above);
        congruent = ground arith;
        aligned = elim (align_ok-IsPower segment (ground arith)) [
          | inl e ↦ inl e
          | inr (p, q, r) ↦ inr (p, omega arith, r)
        ];
      }

  max_align :
      (image : Image) (segment : Segment)
      → align_ok segment ≡ true
      → IsPaged page_size image
      → IsPower (max image.alignment segment.p_align)
        × (max image.alignment segment.p_align ≤ 2 ^ 32)
  max_align image segment h old = elim (align_ok-IsPower segment h) [
    | inl e ↦
        let positive = IsPower-positive image.alignment old.alignment in
        let same : max image.alignment segment.p_align ≡ image.alignment = omega arith in
        (subst IsPower (sym same) old.alignment, omega (arith, old.bound))
    | inr (p, q, r) ↦
        (max-lift IsPower image.alignment segment.p_align old.alignment p, omega (arith, old.bound))
  ]

  add_segment-IsPaged :
      (image : Image) (segment : Segment)
      → load_ok page_size st_size segment ≡ true
      → IsPaged page_size image
      → IsPaged page_size (add_segment page_size header image segment)
  unfolding add_segment load_ok
  add_segment-IsPaged image segment h old =
      let down = page_down_lem page_size segment.p_vaddr power (omega arith) (ground arith) in
      let up = page_up_lem page_size (segment.p_vaddr + segment.p_memsz) power (ground arith) in
      record {
        end_page = ground (arith, old.end_page, up.near);
        end_count =
            max-lift (λ (v : ℕ). (n : ℕ) × (v ≡ n * page_size)) image.end_page _ old.end_count
              (up.count, up.multiple);
        first_count =
            min-lift (λ (v : ℕ). (v ≡ 2 ^ 64 - 1) ⊎ ((n : ℕ) × (v ≡ n * page_size)))
              image.first_page _ old.first_count (inr (down.count, down.multiple));
        alignment = (max_align image segment (ground arith) old).0;
        large = omega (arith, old.large);
        bound = (max_align image segment (ground arith) old).1;
      }

  -- What a step of the loop does to the image.
  pub record Steps (old new : Image) (segment : Segment) : Type 0 where
    pub paged : IsPaged page_size old → IsPaged page_size new
    pub grows : Grows old new
    pub placed : is_loaded segment ≡ true → IsPlaced page_size st_size new segment
    pub entry :
        new.entry_mapped ≡ true
        → (old.entry_mapped ≡ true)
          ⊎ (is_loaded segment ≡ true) × (holds_entry header segment ≡ true)
    pub phdr :
        (new.phdr_mapped ≡ old.phdr_mapped) × (new.phdr_address ≡ old.phdr_address)
        ⊎ (is_loaded segment ≡ true)
          × (holds_phdrs header segment ≡ true)
          × (new.phdr_address
              ≡ (segment.p_vaddr + header.e_phoff + (2 ^ 64 - segment.p_offset)) % 2 ^ 64)

  pub load_segment-Steps :
      (pread : ℕ → ℕ → Option Bytes) (image new : Image) (segment : Segment)
      → load_segment pread page_size st_size header image segment ≡ some new
      → Steps image new segment
  unfolding load_segment
  load_segment-Steps pread image new segment h = elim (Bool-cases (is_loaded segment)) [
    | inr e ↦
        let same : image ≡ new = ground arith in
        subst (λ i. Steps image i segment) same
          (record {
            paged = λ p. p;
            grows = record { first = omega arith; last = omega arith; alignment = omega arith };
            placed = λ l. absurd (ground arith);
            entry = λ t. inl t;
            phdr = inl (refl, refl);
          })
    | inl e ↦
        let ok : load_ok page_size st_size segment ≡ true = ground arith in
        let same : add_segment page_size header image segment ≡ new = ground arith in
        subst (λ i. Steps image i segment) same
          (record {
            paged = add_segment-IsPaged image segment ok;
            grows = add_segment-Grows image segment;
            placed = λ l. add_segment-IsPlaced image segment ok;
            entry = unfold add_segment in λ t. ground arith;
            phdr = unfold add_segment in ground arith;
          })
  ]
