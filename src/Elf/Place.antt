-- ===== src/Elf/Place.antt =====
-- elf_exec.cpp: `MapExecutable`, which opens the program file in the tracee and maps its segments there.
-- The calls run in the tracee: the parameter `kernel` gives the result of a request after those before
-- it, the last one first, as a 64-bit word. `WriteTraceeMemory` is such a request too; it gives 0 where
-- it fails.
pub mod Traces
pub mod Reserved
pub mod Requests
use andlify.Common.{
  ℕ, ◌+◌, ◌-◌, ◌*◌, ◌%◌, ◌^◌, Bool, true, false, not, ◌&&◌, ◌||◌, List, [], ◌∷◌, if◌then◌else◌,
  ◌==◌, ltb, leb,
}
use Prim.Native.Nat.{bit_and}
use andlify.Common.Powers.{page_down}
use andlify.Elf.{Header, Segment, Image, page_up, is_loaded}

pub data Request : Type 0 where
  -- The text of `/proc/<pid>/fd/<fd>` to the stack, and the `openat` of it.
  write_path openat : ℕ → Request
  -- `mmap` of PROT_NONE, with the address and the length.
  reserve munmap : ℕ → ℕ → Request
  -- `mmap` with MAP_FIXED: the address, the length, the protection; then the file and the offset.
  map_file : ℕ → ℕ → ℕ → ℕ → ℕ → Request
  map_zeros : ℕ → ℕ → ℕ → Request
  write_zeros : ℕ → ℕ → Request
  close : ℕ → Request

-- An error, 0 where there is none, and the requests that were made, the last one first.
pub record Run : Type 0 where
  pub error : ℕ
  pub trace : List Request

-- A step and, where it did not fail, the next one.
unfoldable pub and_then : Run → (List Request → Run) → Run
and_then run next = if run.error == 0 then next run.trace else run

abbrev pub is_error : ℕ → Bool
is_error result = leb (2 ^ 63) result

-- `a - b` in 64 bits
abbrev pub word_sub : ℕ → ℕ → ℕ
word_sub a b = (a + (2 ^ 64 - b)) % 2 ^ 64

abbrev pub word_add : ℕ → ℕ → ℕ
word_add a b = (a + b) % 2 ^ 64

abbrev pub eexist : ℕ
eexist = 2 ^ 64 - 17

abbrev pub efault : ℕ
efault = 2 ^ 64 - 14

-- `header.e_type == ET_DYN`
abbrev pub is_pie : Header → Bool
is_pie header = header.e_type == 3

abbrev pub image_size : Image → ℕ
image_size image = word_sub image.end_page image.first_page

unfoldable pub reserve_size : Header → Image → ℕ
reserve_size header image =
    word_add (image_size image) (if is_pie header then image.alignment else 0)

unfoldable pub base_of : Header → Image → ℕ → ℕ
base_of header image mapping =
    if is_pie header
    then word_add (page_up (word_sub mapping image.first_page) image.alignment) image.first_page
    else mapping

unfoldable pub load_bias : Header → Image → ℕ → ℕ
load_bias header image mapping = word_sub (base_of header image mapping) image.first_page

unfoldable pub prot_of : Segment → ℕ
prot_of segment =
    (if bit_and segment.p_flags 4 == 0 then 0 else 1)
    + (if bit_and segment.p_flags 2 == 0 then 0 else 2)
    + (if bit_and segment.p_flags 1 == 0 then 0 else 4)

-- The addresses of a segment.
pub record Place : Type 0 where
  pub start : ℕ
  pub file_end : ℕ
  pub file_pages_end : ℕ
  pub end : ℕ

unfoldable pub place_of : ℕ → ℕ → Segment → Place
place_of page_size bias segment = record {
  start = page_down page_size (word_add bias segment.p_vaddr);
  file_end = word_add (word_add bias segment.p_vaddr) segment.p_filesz;
  file_pages_end = page_up (word_add (word_add bias segment.p_vaddr) segment.p_filesz) page_size;
  end = page_up (word_add (word_add bias segment.p_vaddr) segment.p_memsz) page_size;
}

unfoldable pub anonymous_start : Place → Segment → ℕ
anonymous_start place segment = if segment.p_filesz == 0 then place.start else place.file_pages_end

module _ (kernel : List Request → Request → ℕ) (page_size : ℕ) where
  -- A call that stops the mapping where it fails.
  unfoldable pub call_if : Bool → Request → List Request → Run
  call_if needed request trace =
      if needed
      then record {
        error = if is_error (kernel trace request) then kernel trace request else 0;
        trace = request ∷ trace;
      }
      else record { error = 0; trace = trace }

  unfoldable pub write_if : Bool → Request → List Request → Run
  write_if needed request trace =
      if needed
      then record {
        error = if kernel trace request == 0 then efault else 0;
        trace = request ∷ trace;
      }
      else record { error = 0; trace = trace }

  -- The requests of a segment that is loaded.
  abbrev pub file_request : Place → ℕ → Segment → Request
  file_request place fd segment =
      map_file place.start (word_sub place.file_pages_end place.start) (prot_of segment) fd
        (page_down page_size segment.p_offset)

  abbrev pub zeros_request : Place → Segment → Request
  zeros_request place segment =
      map_zeros (anonymous_start place segment) (word_sub place.end (anonymous_start place segment))
        (prot_of segment)

  abbrev pub tail_request : Place → Segment → Request
  tail_request place segment =
      write_zeros place.file_end (word_sub (anonymous_start place segment) place.file_end)

  -- The body of the loop for such a segment; `break` where a step fails.
  unfoldable pub map_segment : Place → ℕ → Segment → List Request → Run
  map_segment place fd segment trace =
      and_then
        (and_then (call_if (not (segment.p_filesz == 0)) (file_request place fd segment) trace)
          (call_if (ltb (anonymous_start place segment) place.end) (zeros_request place segment)))
        (write_if
          (ltb segment.p_filesz segment.p_memsz
            && not (segment.p_filesz == 0)
            && ltb place.file_end (anonymous_start place segment))
          (tail_request place segment))

  unfoldable pub map_segments : ℕ → ℕ → List Segment → List Request → Run
  map_segments bias fd [] trace = record { error = 0; trace = trace }
  map_segments bias fd (segment ∷ segments) trace =
      let without = map_segments bias fd segments trace in
      let with_it =
        and_then (map_segment (place_of page_size bias segment) fd segment trace)
          (map_segments bias fd segments) in
      if is_loaded segment then with_it else without

  -- The ends of the reservation that the image does not take, given back.
  unfoldable pub trim : Header → Image → ℕ → List Request → List Request
  trim header image mapping trace =
      let base = base_of header image mapping in
      let size = image_size image in
      let reserved_end = word_add mapping (reserve_size header image) in
      let head =
        if base == mapping then trace else munmap mapping (word_sub base mapping) ∷ trace in
      if ltb (word_add base size) reserved_end
      then munmap (word_add base size) (word_sub (word_sub reserved_end base) size) ∷ head
      else head

  -- `close`, whose result counts where nothing failed before.
  unfoldable pub close_file : ℕ → Run → Run
  close_file fd run = record {
    error =
        if not (run.error == 0)
        then run.error
        else if is_error (kernel run.trace (close fd))
        then kernel run.trace (close fd)
        else 0;
    trace = close fd ∷ run.trace;
  }

  -- What follows the reservation, which is at `mapping` where it succeeds.
  unfoldable pub map_reserved : Header → Image → List Segment → ℕ → ℕ → List Request → Run
  map_reserved header image segments fd mapping trace =
      if is_error mapping
      then record { error = mapping; trace = close fd ∷ trace }
      else if not (is_pie header) && not (mapping == image.first_page)
      then record {
        error = eexist;
        trace = close fd ∷ munmap mapping (reserve_size header image) ∷ trace;
      }
      else close_file fd (
          map_segments (load_bias header image mapping) fd segments
            (trim header image mapping trace))

  abbrev pub reservation : Header → Image → Request
  reservation header image =
      reserve (if is_pie header then 0 else image.first_page) (reserve_size header image)

  -- Where the reservation is, or the error of it.
  abbrev pub mapping_of : ℕ → Header → Image → ℕ
  mapping_of scratch header image =
      kernel (openat scratch ∷ write_path scratch ∷ []) (reservation header image)

  -- `MapExecutable`, with `remote.sp - 512` as `scratch`.
  unfoldable pub map_executable : ℕ → Header → Image → List Segment → Run
  map_executable scratch header image segments =
      let opening = write_path scratch ∷ [] in
      let fd = kernel opening (openat scratch) in
      let opened = openat scratch ∷ opening in
      let asked = reservation header image ∷ opened in
      if kernel [] (write_path scratch) == 0
      then record { error = efault; trace = opening }
      else if is_error fd
      then record { error = fd; trace = opened }
      else map_reserved header image segments fd (mapping_of scratch header image) asked
