-- ===== src/Elf/Place/Reserved.antt =====
-- The addresses that `MapExecutable` computes: the base of the image in the reservation, and those of
-- its segments.
use andlify.Common.{
  ℕ, ◌+◌, ◌-◌, ◌*◌, ◌%◌, ◌^◌, ◌≤◌, ◌<◌, ltb, leb, ◌≡◌, ◌⊎◌, inl, inr, sym, arith, Bool-cases,
}
use andlify.Common.Powers.{IsPower, cofactor, word-IsPower, page_down, page_down_lem}
use andlify.Common.Multiples.{Multiple, Multiple-add, Multiple-sub, Multiple-mul, least, most}
use andlify.Elf.{Segment, Image, page_up}
use andlify.Elf.Bounds.{IsPlaced, IsRoundedUp, page_up_lem}
use andlify.Elf.Place.{word_sub, word_add, Place, place_of}

-- A larger power is a multiple of a smaller one.
Multiple-power : (p a : ℕ) → IsPower p → IsPower a → p ≤ a → Multiple p a
Multiple-power p a v w h = let (q, power, times) = cofactor p a v w h in (q + 1, sym times)

-- `PageUp` of a word, where it may wrap around to 0.
page_up-Multiple :
    (a d : ℕ)
    → IsPower a
    → d < 2 ^ 64
    → a ≤ 2 ^ 32
    → Multiple a (page_up d a)
      × ((d ≤ page_up d a) × (page_up d a < d + a) ⊎ (page_up d a ≡ 0) × (2 ^ 64 < d + a))
page_up-Multiple a d w lt small = elim (Bool-cases (leb (d + a) (2 ^ 64))) [
  | inl e ↦
      let up : IsRoundedUp a d (page_up d a) = page_up_lem a d w (ground arith) in
      ((up.count, up.multiple), inl (up.above, up.near))
  | inr e ↦
      let low : (d + a + (2 ^ 64 - 1)) % 2 ^ 64 < a = ground arith in
      let down = page_down_lem a ((d + a + (2 ^ 64 - 1)) % 2 ^ 64) w (omega arith) (omega arith) in
      let same : page_down a ((d + a + (2 ^ 64 - 1)) % 2 ^ 64) ≡ 0 =
        zero_below down.count a _ down.multiple (omega (arith, down.below, low)) in
      unfold page_up in ((down.count, down.multiple), inr (same, ground arith))
]
  where
    zero_below : (n p r : ℕ) → r ≡ n * p → r < p → r ≡ 0
    zero_below n p r e h =
        let fits = most p n 0 0 (omega arith) (omega arith) in omega (arith, fits)

-- The reservation holds the image at `base`.
pub record IsHeld (page_size low high base size : ℕ) : Type 0 where
  pub whole : Multiple page_size base
  pub first : low ≤ base
  pub last : base + size ≤ high
  pub bound : high ≤ 2 ^ 63

-- The base of a program that may lie anywhere.
pub base_of_pie :
    (page_size alignment first size mapping : ℕ)
    → IsPower page_size
    → IsPower alignment
    → page_size ≤ alignment
    → alignment ≤ 2 ^ 32
    → Multiple page_size first
    → first < 2 ^ 63
    → Multiple page_size mapping
    → mapping + (size + alignment) ≤ 2 ^ 63
    → IsHeld page_size mapping
        (mapping + (size + alignment))
        (word_add (page_up (word_sub mapping first) alignment) first)
        size
base_of_pie page_size alignment first size mapping v w large small f lt m fits =
    let (up, near) = page_up-Multiple alignment (word_sub mapping first) w (omega arith) small in
    let wide = Multiple-power page_size (2 ^ 64) v word-IsPower (omega arith) in
    let paged =
      Multiple-mul page_size alignment _ (Multiple-power page_size alignment v w large) up in
    let sum = Multiple-add page_size _ first paged f in
    let u = page_up (word_sub mapping first) alignment in
    elim (Bool-cases (ltb (u + first) (2 ^ 64))) [
      | inl e ↦
          let same : (u + first) % 2 ^ 64 ≡ u + first = ground arith in
          rw same (record {
            whole = sum;
            first = ground (arith, near);
            last = ground (arith, near);
            bound = fits;
          })
      | inr e ↦
          let same : (u + first) % 2 ^ 64 ≡ u + first - 2 ^ 64 = ground (arith, near) in
          rw same (record {
            whole = Multiple-sub page_size (u + first) (2 ^ 64) (ground arith) sum wide;
            first = ground (arith, near);
            last = ground (arith, near);
            bound = fits;
          })
    ]

-- The addresses of a segment of the image that is held at `base`.
pub record IsInside (low high : ℕ) (place : Place) : Type 0 where
  pub first : low ≤ place.start
  pub file_first : place.start ≤ place.file_end
  pub file_pages : place.file_end ≤ place.file_pages_end
  pub file_last : place.file_pages_end ≤ high
  pub last : place.end ≤ high

Multiple-most : (p x r high : ℕ) → IsRoundedUp p x r → Multiple p high → x ≤ high → r ≤ high
Multiple-most p x r high up (k, e) h =
    let fits = most p up.count k x (omega (arith, up.multiple, up.near)) (omega arith) in
    omega (arith, fits, up.multiple)

pub place-IsInside :
    (page_size st_size base low high : ℕ) (image : Image) (segment : Segment)
    → IsPower page_size
    → page_size ≤ 2 ^ 32
    → IsPlaced page_size st_size image segment
    → image.first_page < image.end_page
    → image.end_page ≤ 2 ^ 63 - 1
    → Multiple page_size image.first_page
    → Multiple page_size image.end_page
    → IsHeld page_size low high base (image.end_page - image.first_page)
    → IsInside low high (place_of page_size (word_sub base image.first_page) segment)
unfolding place_of
place-IsInside page_size st_size base low high image segment v small placed order bound f l held =
    let bias = word_sub base image.first_page in
    let address = base + (segment.p_vaddr - image.first_page) in
    let at : word_add bias segment.p_vaddr ≡ address =
      omega (arith, placed.first, placed.last, bound, held.last, held.bound) in
    let file : word_add address segment.p_filesz ≡ address + segment.p_filesz =
      omega (arith, placed.size, placed.first, placed.last, bound, held.last, held.bound) in
    let memory : word_add address segment.p_memsz ≡ address + segment.p_memsz =
      omega (arith, placed.first, placed.last, bound, held.last, held.bound) in
    let end = base + (image.end_page - image.first_page) in
    let whole =
      Multiple-add page_size base _ held.whole
        (Multiple-sub page_size image.end_page image.first_page (omega arith) l f) in
    let down =
      page_down_lem page_size address v (omega arith)
        (omega (arith, placed.first, placed.last, bound, held.last, held.bound)) in
    let up_file =
      page_up_lem page_size (address + segment.p_filesz) v
        (omega (arith, placed.size, placed.first, placed.last, bound, held.last, held.bound)) in
    let up =
      page_up_lem page_size (address + segment.p_memsz) v
        (omega (arith, placed.first, placed.last, bound, held.last, held.bound)) in
    let file_fits =
      Multiple-most page_size _ _ end up_file whole
        (omega (arith, placed.size, placed.first, placed.last)) in
    let fits =
      Multiple-most page_size _ _ end up whole (omega (arith, placed.first, placed.last)) in
    let base_count = held.whole in
    let low_fits = least page_size base_count.0 address _ down (omega (arith, base_count.1)) in
    rw (at, file, memory)
      (record {
        first = omega (arith, low_fits, base_count.1, held.first);
        file_first = omega (arith, down.below);
        file_pages = up_file.above;
        file_last = omega (arith, file_fits, held.last);
        last = omega (arith, fits, held.last);
      })
