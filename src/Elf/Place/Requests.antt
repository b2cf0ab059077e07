-- ===== src/Elf/Place/Requests.antt =====
-- The requests of `MapExecutable`: they change the reservation and no other memory, and the file is
-- closed.
use andlify.Common.{
  ℕ, ◌+◌, ◌-◌, ◌^◌, ◌≤◌, true, false, not, ◌&&◌, List, [], ◌∷◌, if◌then◌else◌, ◌==◌, ◌≡◌, inl, inr,
  refl, arith, Bool-cases,
}
use mathlib.Core.Path.{subst}
use andlify.Common.Components.{All}
use andlify.Common.Powers.{IsPower}
use andlify.Common.Multiples.{Multiple}
use andlify.Elf.{Header, Segment, Image, is_loaded}
use andlify.Elf.Loadable.{IsLoadable}
use andlify.Elf.Place.{
  Request, write_path, openat, reserve, is_error, word_sub, word_add, is_pie, image_size,
  reserve_size, base_of, load_bias, place_of, close_file, map_reserved, reservation, map_executable,
  mapping_of,
}
use andlify.Elf.Place.Reserved.{IsHeld, IsInside, base_of_pie, place-IsInside}
use andlify.Elf.Place.Traces.{Stays, if-All, map_segments-Stays, trim-Stays}

-- `mmap` without MAP_FIXED fails or gives whole pages below 2 ^ 63.
pub record MapsPages (kernel : List Request → Request → ℕ) (page_size : ℕ) : Type 0 where
  pub aligned :
      (trace : List Request) (address size : ℕ)
      → is_error (kernel trace (reserve address size)) ≡ false
      → Multiple page_size (kernel trace (reserve address size))
        × (kernel trace (reserve address size) + size ≤ 2 ^ 63)

All-lift {ℓ} :
    {A : Type ℓ} {P Q : A → Type 0} (xs : List A) → ((x : A) → P x → Q x) → All P xs → All Q xs
All-lift [] f p = p
All-lift (x ∷ xs) f p = (f x p.0, All-lift xs f p.1)

module _ (kernel : List Request → Request → ℕ) (page_size st_size : ℕ) (page : IsPower page_size)
    (small : page_size ≤ 2 ^ 32) (header : Header) (image : Image) (segments : List Segment)
    (fine : IsLoadable page_size st_size header image segments) where
  size_lem : image_size image ≡ image.end_page - image.first_page
  size_lem = omega (arith, fine.order, fine.end)

  base_of-IsHeld :
      (mapping : ℕ)
      → Multiple page_size mapping
      → mapping + reserve_size header image ≤ 2 ^ 63
      → (not (is_pie header) && not (mapping == image.first_page)) ≡ false
      → IsHeld page_size mapping
          (mapping + reserve_size header image)
          (base_of header image mapping)
          (image_size image)
  unfolding base_of reserve_size
  base_of-IsHeld mapping m bound same =
      let (power, large, limit) = fine.alignment in
      elim (Bool-cases (is_pie header)) [
        | inl e ↦
            let total : word_add (image_size image) image.alignment
                ≡ image_size image + image.alignment =
              omega (arith, fine.order, fine.end, limit) in
            rw (e, total)
              (base_of_pie page_size image.alignment image.first_page (image_size image) mapping
                page power large limit fine.first_count (omega (arith, fine.order, fine.end)) m
                (ground (arith, total)))
        | inr e ↦
            let total : word_add (image_size image) 0 ≡ image_size image =
              omega (arith, fine.order, fine.end) in
            rw (e, total)
              (record {
                whole = m;
                first = omega arith;
                last = omega arith;
                bound = ground (arith, total);
              })
      ]

  segments-IsInside :
      (low high base : ℕ)
      → IsHeld page_size low high base (image_size image)
      → All
          (λ s.
            is_loaded s ≡ true
            → IsInside low high (place_of page_size (word_sub base image.first_page) s))
          segments
  segments-IsInside low high base held =
      All-lift segments
        (λ s placed loaded.
          place-IsInside page_size st_size base low high image s page small (placed loaded)
            fine.order fine.end fine.first_count fine.end_count
            (subst (IsHeld page_size low high base) size_lem held))
        fine.placed

  map_reserved-Stays :
      (fd mapping : ℕ) (trace : List Request)
      → (is_error mapping ≡ false
          → Multiple page_size mapping × (mapping + reserve_size header image ≤ 2 ^ 63))
      → All (Stays mapping (mapping + reserve_size header image)) trace
      → All
          (Stays mapping (mapping + reserve_size header image))
          (map_reserved kernel page_size header image segments fd mapping trace).trace
  unfolding map_reserved close_file load_bias
  map_reserved-Stays fd mapping trace m t = elim (Bool-cases (is_error mapping)) [
    | inl e ↦ rw e (tt, t)
    | inr e ↦
        let (whole, bound) = m e in
        elim (Bool-cases (not (is_pie header) && not (mapping == image.first_page))) [
          | inl f ↦ rw (e, f) (tt, ((omega arith, omega arith), t))
          | inr f ↦
              let held = base_of-IsHeld mapping whole bound f in
              rw (e, f)
                (
                  tt,
                  map_segments-Stays kernel page_size mapping (mapping + reserve_size header image)
                      _ fd segments _ bound
                      (segments-IsInside mapping (mapping + reserve_size header image)
                        (base_of header image mapping) held)
                      (trim-Stays kernel page_size mapping (mapping + reserve_size header image)
                        mapping header image trace refl refl held t),
                )
        ]
  ]

  -- For a program file that was accepted, where `mmap` fails or gives whole pages below 2 ^ 63,
  -- each request of `MapExecutable` that maps, unmaps or writes memory of the image reaches the
  -- reservation made for it and nothing else, whatever the calls give.
  pub map_executable-Stays :
      (scratch : ℕ)
      → MapsPages kernel page_size
      → All
          (Stays
            (mapping_of kernel page_size scratch header image)
            (mapping_of kernel page_size scratch header image + reserve_size header image))
          (map_executable kernel page_size scratch header image segments).trace
  unfolding map_executable
  map_executable-Stays scratch maps =
      let opened = openat scratch ∷ write_path scratch ∷ [] in
      if-All kernel page_size _ (kernel [] (write_path scratch) == 0) _ _ (tt, tt)
        (if-All kernel page_size _ (is_error (kernel (write_path scratch ∷ []) (openat scratch))) _
          _ (tt, (tt, tt))
          (map_reserved-Stays (kernel (write_path scratch ∷ []) (openat scratch))
            (mapping_of kernel page_size scratch header image)
            (reservation kernel page_size header image ∷ opened)
            (maps.aligned opened (if is_pie header then 0 else image.first_page)
              (reserve_size header image))
            (tt, (tt, (tt, tt)))))
