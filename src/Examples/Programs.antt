-- ===== src/Examples/Programs.antt =====
-- The loader of program files (library/src/main/cpp/elf_exec.cpp) on a small file.
use andlify.Common.{
  ℕ, ◌+◌, ◌-◌, ◌*◌, ◌^◌, true, List, [], ◌∷◌, ◌≡◌, refl, arith, Option, some, if◌then◌else◌, leb,
  Bool-cases, inl, inr,
}
use andlify.Common.Bytes.{Bytes}
use andlify.Common.Components.{All}
use andlify.Common.Powers.{IsPower, power}
use andlify.Common.Powers.{page_down}
use andlify.Elf.{
  Header, Segment, Image, page_up, is_elf64, header_ok, align_ok, load_ok, holds_entry, holds_phdrs,
  add_segment, ends_in_nul, interp_ok, is_loaded, read_interpreter, load_segment, scan_segments,
  open_elf_executable,
}
use andlify.Common.Bytes.{is_empty, c_string}
use andlify.Elf.Loadable.{IsLoadable, open_elf_executable-IsLoadable}
use andlify.Elf.Place.{
  Request, write_path, openat, reserve, munmap, map_file, map_zeros, write_zeros, close,
  reserve_size, map_executable, mapping_of,
}
use andlify.Elf.Place.Traces.{Stays}
use andlify.Elf.Place.Requests.{MapsPages, map_executable-Stays}

abbrev file_header : Header
file_header = record {
  e_ident = 0x7f ∷ b'E' ∷ b'L' ∷ b'F' ∷ 2 ∷ 1 ∷ 1 ∷ [];
  e_type = 3;
  e_machine = 183;
  e_version = 1;
  e_entry = 4112;
  e_phoff = 64;
  e_phentsize = 56;
  e_phnum = 2;
}

abbrev file_segments : List Segment
file_segments =
    record {
      p_type = 3;
      p_flags = 4;
      p_offset = 176;
      p_vaddr = 176;
      p_filesz = 3;
      p_memsz = 3;
      p_align = 1;
    }
    ∷ record {
      p_type = 1;
      p_flags = 5;
      p_offset = 0;
      p_vaddr = 0;
      p_filesz = 6000;
      p_memsz = 9000;
      p_align = 65536;
    }
    ∷ []

abbrev file_bytes : ℕ → ℕ → Option Bytes
file_bytes offset size = some (b'/' ∷ b'l' ∷ 0 ∷ [])

abbrev file_image : Image
file_image = record {
  interpreter = b'/' ∷ b'l' ∷ [];
  first_page = 0;
  end_page = 12288;
  alignment = 65536;
  phdr_address = 64;
  entry_mapped = true;
  phdr_mapped = true;
}

opened : open_elf_executable file_bytes 4096 6000 file_header file_segments ≡ some file_image
unfolding open_elf_executable header_ok is_elf64 scan_segments read_interpreter interp_ok is_empty
    ends_in_nul c_string load_segment is_loaded load_ok align_ok add_segment holds_entry holds_phdrs
    page_up page_down
opened = refl

page-IsPower : IsPower 4096
page-IsPower = power 12

open_elf_executable-IsLoadable_example : IsLoadable 4096 6000 file_header file_image file_segments
open_elf_executable-IsLoadable_example =
    open_elf_executable-IsLoadable file_bytes 4096 6000 file_header page-IsPower (omega arith)
      file_image file_segments (omega arith) opened

file-IsLoadable : IsLoadable 4096 6000 file_header file_image file_segments
file-IsLoadable =
    open_elf_executable-IsLoadable file_bytes 4096 6000 file_header page-IsPower (omega arith)
      file_image file_segments (omega arith) opened

-- A kernel that maps where it likes and succeeds otherwise.
abbrev calm : List Request → Request → ℕ
calm trace (reserve address size) = if leb (address + size) (2 ^ 40) then 5 * 4096 else 2 ^ 64 - 12
calm trace (write_path a) = 1
calm trace (openat a) = 3
calm trace (munmap a n) = 0
calm trace (map_file a n prot fd offset) = a
calm trace (map_zeros a n prot) = a
calm trace (write_zeros a n) = 1
calm trace (close fd) = 0

calm-MapsPages : MapsPages calm 4096
calm-MapsPages = record {
  aligned = λ trace address size. elim (Bool-cases (leb (address + size) (2 ^ 40))) [
    | inl e ↦ rw e (λ h. ((5, omega arith), ground arith))
    | inr e ↦ rw e (λ h. absurd (ground arith))
  ];
}

map_executable-Stays_example :
    All
      (Stays
        (mapping_of calm 4096 8192 file_header file_image)
        (mapping_of calm 4096 8192 file_header file_image + reserve_size file_header file_image))
      (map_executable calm 4096 8192 file_header file_image file_segments).trace
map_executable-Stays_example =
    map_executable-Stays calm 4096 6000 page-IsPower (omega arith) file_header file_image
      file_segments file-IsLoadable 8192 calm-MapsPages
