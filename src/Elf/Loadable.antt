-- ===== src/Elf/Loadable.antt =====
-- The loop of `OpenElfExecutable` and what its result promises to the code that maps it.
use andlify.Common.{
  ℕ, ◌+◌, ◌-◌, ◌*◌, ◌%◌, ◌^◌, ◌≤◌, ◌<◌, true, false, List, [], ◌∷◌, leb, Option, some, ◌≡◌, ◌⊎◌,
  inl, inr, refl, ◌∙◌, arith, Option-cases,
}
use mathlib.Core.Path.{subst}
use andlify.Common.Bytes.{Bytes}
use andlify.Common.Components.{All}
use andlify.Common.Powers.{IsPower}
use andlify.Elf.{
  Header, Segment, Image, phdr_size, holds_entry, holds_phdrs, read_interpreter, is_loaded,
  load_segment, scan_segments, no_image, open_elf_executable,
}
use andlify.Elf.Bounds.{Any, IsPlaced, IsPaged, Grows, Steps, load_segment-Steps}

Any-with {ℓ} :
    {A : Type ℓ} {P Q R : A → Type 0} (xs : List A)
    → ((x : A) → P x → Q x → R x)
    → All P xs
    → Any Q xs
    → Any R xs
Any-with [] f p q = q
Any-with (x ∷ xs) f p (inl q) = inl (f x p.0 q)
Any-with (x ∷ xs) f p (inr q) = inr (Any-with xs f p.1 q)

-- What the code that maps an image relies on.
pub record IsLoadable (page_size st_size : ℕ) (header : Header) (image : Image)
    (segments : List Segment) : Type 0 where
  pub order : image.first_page < image.end_page
  pub end : image.end_page ≤ 2 ^ 63 - 1
  pub first_count : (n : ℕ) × (image.first_page ≡ n * page_size)
  pub end_count : (n : ℕ) × (image.end_page ≡ n * page_size)
  pub alignment :
      IsPower image.alignment × (page_size ≤ image.alignment) × (image.alignment ≤ 2 ^ 32)
  pub placed : All (λ s. is_loaded s ≡ true → IsPlaced page_size st_size image s) segments
  pub entry :
      Any
        (λ s.
          (is_loaded s ≡ true)
          × (s.p_vaddr ≤ header.e_entry)
          × (header.e_entry < s.p_vaddr + s.p_memsz))
        segments
  pub phdrs :
      Any
        (λ s.
          (is_loaded s ≡ true)
          × (s.p_offset ≤ header.e_phoff)
          × (header.e_phoff + header.e_phnum * phdr_size ≤ s.p_offset + s.p_filesz)
          × (image.phdr_address ≡ s.p_vaddr + (header.e_phoff - s.p_offset)))
        segments

module _ (pread : ℕ → ℕ → Option Bytes) (page_size st_size : ℕ) (header : Header)
    (page : IsPower page_size) (small : page_size ≤ 2 ^ 32) where
  read_interpreter-name :
      (image named : Image) (segment : Segment)
      → read_interpreter pread page_size st_size header image segment ≡ some named
      → named ≡ record image { interpreter = named.interpreter }
  unfolding read_interpreter
  read_interpreter-name image named segment h = ground arith

  IsPlaced-Grows :
      (old new : Image) (segment : Segment)
      → Grows old new
      → IsPlaced page_size st_size old segment
      → IsPlaced page_size st_size new segment
  IsPlaced-Grows old new segment g h = record {
    in_file = h.in_file;
    size = h.size;
    first = omega (arith, g.first, h.first);
    last = omega (arith, g.last, h.last);
    congruent = h.congruent;
    aligned = elim h.aligned [
      | inl e ↦ inl e
      | inr (p, q, r) ↦ inr (p, omega (arith, g.alignment, q), r)
    ];
  }

  -- A segment that has the program headers, at the address where they are.
  abbrev HasPhdrs : Image → Segment → Type 0
  HasPhdrs image segment =
      (is_loaded segment ≡ true)
      × (holds_phdrs header segment ≡ true)
      × (image.phdr_address
          ≡ (segment.p_vaddr + header.e_phoff + (2 ^ 64 - segment.p_offset)) % 2 ^ 64)

  abbrev HasEntry : Segment → Type 0
  HasEntry segment = (is_loaded segment ≡ true) × (holds_entry header segment ≡ true)

  record Scanned (image final : Image) (segments : List Segment) : Type 0 where
    paged : IsPaged page_size image → IsPaged page_size final
    grows : Grows image final
    placed : All (λ s. is_loaded s ≡ true → IsPlaced page_size st_size final s) segments
    entry : final.entry_mapped ≡ true → (image.entry_mapped ≡ true) ⊎ Any HasEntry segments
    phdr :
        (final.phdr_mapped ≡ image.phdr_mapped) × (final.phdr_address ≡ image.phdr_address)
        ⊎ Any (HasPhdrs final) segments

  scan_more :
      (image next final : Image) (segment : Segment) (segments : List Segment)
      → Steps page_size st_size header page small image next segment
      → Scanned next final segments
      → Scanned image final (segment ∷ segments)
  scan_more image next final segment segments a b = record {
    paged = λ p. b.paged (a.paged p);
    grows = record {
      first = omega (arith, a.grows.first, b.grows.first);
      last = omega (arith, a.grows.last, b.grows.last);
      alignment = omega (arith, a.grows.alignment, b.grows.alignment);
    };
    placed = (λ l. IsPlaced-Grows next final segment b.grows (a.placed l), b.placed);
    entry = λ t. elim (b.entry t) [
      | inr later ↦ inr (inr later)
      | inl here ↦ elim (a.entry here) [ inl old ↦ inl old | inr new ↦ inr (inl new) ]
    ];
    phdr = elim b.phdr [
      | inr later ↦ inr (inr later)
      | inl (m, k) ↦ elim a.phdr [
        | inl (n, l) ↦ inl (m ∙ n, k ∙ l)
        | inr (x, y, z) ↦ inr (inl (x, y, k ∙ z))
      ]
    ];
  }

  -- The name of the interpreter has no part in the bounds.
  reframe :
      (image next : Image) (name : Bytes) (segment : Segment)
      → Steps page_size st_size header page small (record image { interpreter = name }) next segment
      → Steps page_size st_size header page small image next segment
  reframe image next name segment h = record {
    paged = λ p. h.paged (record {
      end_page = p.end_page;
      end_count = p.end_count;
      first_count = p.first_count;
      alignment = p.alignment;
      large = p.large;
      bound = p.bound;
    });
    grows = record { first = h.grows.first; last = h.grows.last; alignment = h.grows.alignment };
    placed = h.placed;
    entry = h.entry;
    phdr = h.phdr;
  }

  scan_segments-Scanned :
      (image final : Image) (segments : List Segment)
      → scan_segments pread page_size st_size header image segments ≡ some final
      → Scanned image final segments
  unfolding scan_segments
  scan_segments-Scanned image final [] h =
      let same : image ≡ final = ground arith in
      subst (λ i. Scanned image i []) same
        (record {
          paged = λ p. p;
          grows = record { first = omega arith; last = omega arith; alignment = omega arith };
          placed = tt;
          entry = λ t. inl t;
          phdr = inl (refl, refl);
        })
  scan_segments-Scanned image final (segment ∷ segments) h =
      elim (Option-cases (read_interpreter pread page_size st_size header image segment)) [
        | inl e ↦ absurd (ground arith)
        | inr (named, e) ↦
            elim (Option-cases (load_segment pread page_size st_size header named segment)) [
              | inl f ↦ absurd (ground arith)
              | inr (next, f) ↦
                  let same = read_interpreter-name image named segment e in
                  let step =
                    load_segment-Steps page_size st_size header page small pread named next segment
                      f in
                  let rest = scan_segments-Scanned next final segments (ground arith) in
                  scan_more image next final segment segments
                    (reframe image next named.interpreter segment (
                      subst (λ i. Steps page_size st_size header page small i next segment) same
                        step))
                    rest
            ]
      ]

  start-IsPaged : IsPaged page_size (no_image pread page_size st_size header)
  start-IsPaged = record {
    end_page = omega arith;
    end_count = (0, omega arith);
    first_count = inl refl;
    alignment = page;
    large = omega arith;
    bound = small;
  }

  HasEntry-bounds :
      (image : Image) (s : Segment)
      → (is_loaded s ≡ true → IsPlaced page_size st_size image s)
      → HasEntry s
      → (is_loaded s ≡ true)
        × (s.p_vaddr ≤ header.e_entry)
        × (header.e_entry < s.p_vaddr + s.p_memsz)
  unfolding holds_entry
  HasEntry-bounds image s p h = (h.0, ground arith, ground arith)

  HasPhdrs-bounds :
      (image : Image) (s : Segment)
      → image.end_page ≤ 2 ^ 63 - 1
      → st_size < 2 ^ 63
      → (is_loaded s ≡ true → IsPlaced page_size st_size image s)
      → HasPhdrs image s
      → (is_loaded s ≡ true)
        × (s.p_offset ≤ header.e_phoff)
        × (header.e_phoff + header.e_phnum * phdr_size ≤ s.p_offset + s.p_filesz)
        × (image.phdr_address ≡ s.p_vaddr + (header.e_phoff - s.p_offset))
  unfolding holds_phdrs
  HasPhdrs-bounds image s bound file p (loaded, holds, address) =
      let placed = p loaded in
      let before : s.p_offset ≤ header.e_phoff = ground arith in
      let within : header.e_phoff - s.p_offset ≤ s.p_filesz = ground arith in
      let table : header.e_phnum * phdr_size ≤ s.p_filesz - (header.e_phoff - s.p_offset) =
        ground arith in
      (
        loaded,
        before,
        omega arith,
        omega (arith, before, address, bound, file, placed.last, placed.size, placed.in_file),
      )

  accepted :
      (image : Image) (segments : List Segment)
      → st_size < 2 ^ 63
      → Scanned (no_image pread page_size st_size header) image segments
      → image.entry_mapped ≡ true
      → image.phdr_mapped ≡ true
      → leb image.end_page image.first_page ≡ false
      → IsLoadable page_size st_size header image segments
  accepted image segments file scanned entry phdr order =
      let paged = scanned.paged start-IsPaged in
      record {
        order = ground arith;
        end = paged.end_page;
        first_count = elim paged.first_count [
          | inl fresh ↦ absurd (ground (arith, fresh, paged.end_page))
          | inr n ↦ n
        ];
        end_count = paged.end_count;
        alignment = (paged.alignment, paged.large, paged.bound);
        placed = scanned.placed;
        entry = elim (scanned.entry entry) [
          | inl e ↦ absurd (ground arith)
          | inr some_entry ↦ Any-with segments (HasEntry-bounds image) scanned.placed some_entry
        ];
        phdrs = elim scanned.phdr [
          | inl (e, f) ↦ absurd (ground arith)
          | inr some_phdrs ↦
              Any-with segments (λ s. HasPhdrs-bounds image s paged.end_page file) scanned.placed
                some_phdrs
        ];
      }

  -- Of a program file smaller than 2 ^ 63 that is accepted, where the page size is a power of two
  -- up to 2 ^ 32, the pages are in order, whole and below 2 ^ 63, and the alignment is a power of
  -- two from the page size to 2 ^ 32; each segment that is loaded lies in the file and between the
  -- pages, at the place in its page that it has in the file and aligned as it asks; and one of
  -- them has the entry, and one the program headers at the address that is noted.
  pub open_elf_executable-IsLoadable :
      (image : Image) (segments : List Segment)
      → st_size < 2 ^ 63
      → open_elf_executable pread page_size st_size header segments ≡ some image
      → IsLoadable page_size st_size header image segments
  unfolding open_elf_executable
  open_elf_executable-IsLoadable image segments file h =
      elim (Option-cases (
        scan_segments pread page_size st_size header (no_image pread page_size st_size header)
          segments)) [
            | inl e ↦ absurd (ground arith)
            | inr (final, e) ↦
                let same : final ≡ image = ground arith in
                let scanned =
                  subst (λ i. Scanned (no_image pread page_size st_size header) i segments) same
                    (scan_segments-Scanned (no_image pread page_size st_size header) final segments
                      e) in
                accepted image segments file scanned (ground arith) (ground arith) (ground arith)
          ]
