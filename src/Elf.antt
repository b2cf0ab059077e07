-- ===== src/Elf.antt =====
-- library/src/main/cpp/elf_exec.cpp: the checks that a program file passes before it is mapped. The
-- structures of the file are given as they are read; `sysconf(_SC_PAGESIZE)` is `page_size`.
pub mod Bounds
pub mod Loadable
pub mod Place
use andlify.Common.{
  ℕ, ◌+◌, ◌-◌, ◌*◌, ◌/◌, ◌%◌, ◌^◌, Bool, true, false, not, ◌&&◌, ◌||◌, List, [], ◌∷◌, if◌then◌else◌,
  ◌==◌, ltb, leb, length, get_or, Option, none, some,
}
use Prim.Native.Nat.{bit_and, min, max}
use andlify.Common.Bytes.{Bytes, is_empty, c_string}
use andlify.Common.Powers.{page_down}

-- The fields of `Elf64_Ehdr` that are read.
pub record Header : Type 0 where
  pub e_ident : Bytes
  pub e_type : ℕ
  pub e_machine : ℕ
  pub e_version : ℕ
  pub e_entry : ℕ
  pub e_phoff : ℕ
  pub e_phentsize : ℕ
  pub e_phnum : ℕ

-- `Elf64_Phdr`
pub record Segment : Type 0 where
  pub p_type : ℕ
  pub p_flags : ℕ
  pub p_offset : ℕ
  pub p_vaddr : ℕ
  pub p_filesz : ℕ
  pub p_memsz : ℕ
  pub p_align : ℕ

-- `ElfExecutable` but for the descriptor and the header, and the two flags of the loop.
pub record Image : Type 0 where
  pub interpreter : Bytes
  pub first_page : ℕ
  pub end_page : ℕ
  pub alignment : ℕ
  pub phdr_address : ℕ
  pub entry_mapped : Bool
  pub phdr_mapped : Bool

-- `(value + page_size - 1) & ~(page_size - 1)`
unfoldable pub page_up : ℕ → ℕ → ℕ
page_up value page_size = page_down page_size ((value + page_size + (2 ^ 64 - 1)) % 2 ^ 64)

abbrev pub phdr_size : ℕ
phdr_size = 56

abbrev pub pt_load : ℕ
pt_load = 1

abbrev pub pt_interp : ℕ
pt_interp = 3

abbrev pub int64_max : ℕ
int64_max = 2 ^ 63 - 1

-- `e_ident` starts with ELFMAG, ELFCLASS64, ELFDATA2LSB and EV_CURRENT.
unfoldable pub is_elf64 : Bytes → Bool
is_elf64 ident =
    get_or ident 0 0 == 0x7f
    && get_or ident 1 0 == b'E'
    && get_or ident 2 0 == b'L'
    && get_or ident 3 0 == b'F'
    && get_or ident 4 0 == 2
    && get_or ident 5 0 == 1
    && get_or ident 6 0 == 1

-- The header is one that the loader takes, and its table of segments is in the file.
unfoldable pub header_ok : ℕ → Header → Bool
header_ok st_size header =
    is_elf64 header.e_ident
    && header.e_version == 1
    && header.e_machine == 183
    && (header.e_type == 2 || header.e_type == 3)
    && header.e_phentsize == phdr_size
    && not (header.e_phnum == 0)
    && leb header.e_phnum (65536 / phdr_size)
    && leb header.e_phoff st_size
    && leb (header.e_phnum * phdr_size) (st_size - header.e_phoff)

-- The alignment of a segment, where it has one.
unfoldable pub align_ok : Segment → Bool
align_ok segment =
    leb segment.p_align 1
    || bit_and segment.p_align (segment.p_align - 1) == 0
      && leb segment.p_align (2 ^ 32)
      && segment.p_vaddr % segment.p_align == segment.p_offset % segment.p_align

-- The bounds of a segment that is loaded.
unfoldable pub load_ok : ℕ → ℕ → Segment → Bool
load_ok page_size st_size segment =
    leb segment.p_filesz segment.p_memsz
    && leb segment.p_vaddr (int64_max - page_size)
    && leb segment.p_memsz (int64_max - page_size - segment.p_vaddr)
    && leb segment.p_offset st_size
    && leb segment.p_filesz (st_size - segment.p_offset)
    && segment.p_vaddr % page_size == segment.p_offset % page_size
    && align_ok segment

unfoldable pub holds_entry : Header → Segment → Bool
holds_entry header segment =
    not (bit_and segment.p_flags 1 == 0)
    && leb segment.p_vaddr header.e_entry
    && ltb (header.e_entry - segment.p_vaddr) segment.p_memsz

unfoldable pub holds_phdrs : Header → Segment → Bool
holds_phdrs header segment =
    leb segment.p_offset header.e_phoff
    && leb (header.e_phoff - segment.p_offset) segment.p_filesz
    && leb (header.e_phnum * phdr_size) (segment.p_filesz - (header.e_phoff - segment.p_offset))

-- The image with one more segment.
unfoldable pub add_segment : ℕ → Header → Image → Segment → Image
add_segment page_size header image segment = record image {
  first_page = min image.first_page (page_down page_size segment.p_vaddr);
  end_page = max image.end_page (page_up (segment.p_vaddr + segment.p_memsz) page_size);
  alignment = max image.alignment segment.p_align;
  entry_mapped = holds_entry header segment || image.entry_mapped;
  phdr_address =
      if holds_phdrs header segment
      then (segment.p_vaddr + header.e_phoff + (2 ^ 64 - segment.p_offset)) % 2 ^ 64
      else image.phdr_address;
  phdr_mapped = holds_phdrs header segment || image.phdr_mapped;
}

unfoldable pub ends_in_nul : Bytes → Bool
ends_in_nul [] = false
ends_in_nul (c ∷ []) = c == 0
ends_in_nul (c ∷ d ∷ s) = ends_in_nul (d ∷ s)

unfoldable pub interp_ok : ℕ → Image → Segment → Bool
interp_ok st_size image segment =
    is_empty image.interpreter
    && leb 2 segment.p_filesz
    && leb segment.p_filesz 4096
    && leb segment.p_offset st_size
    && leb segment.p_filesz (st_size - segment.p_offset)

-- `segment.p_type != PT_LOAD || segment.p_memsz == 0`
unfoldable pub is_loaded : Segment → Bool
is_loaded segment = segment.p_type == pt_load && not (segment.p_memsz == 0)

-- The parameter `pread` gives the bytes at an offset, `none` where they are not all read.
module _ (pread : ℕ → ℕ → Option Bytes) (page_size st_size : ℕ) (header : Header) where
  -- The name of the interpreter, where the segment holds it.
  unfoldable pub read_interpreter : Image → Segment → Option Image
  read_interpreter image segment =
      if not (segment.p_type == pt_interp)
      then some image
      else if not (interp_ok st_size image segment)
      then none
      else elim (pread segment.p_offset segment.p_filesz) [
        | none ↦ none
        | some path ↦
            if ends_in_nul path then some (record image { interpreter = c_string path }) else none
      ]

  unfoldable pub load_segment : Image → Segment → Option Image
  load_segment image segment =
      if not (is_loaded segment)
      then some image
      else if load_ok page_size st_size segment
      then some (add_segment page_size header image segment)
      else none

  -- The loop; `none` is ENOEXEC.
  unfoldable pub scan_segments : Image → List Segment → Option Image
  scan_segments image [] = some image
  scan_segments image (segment ∷ segments) = elim (read_interpreter image segment) [
    | none ↦ none
    | some named ↦ elim (load_segment named segment) [
      | none ↦ none
      | some loaded ↦ scan_segments loaded segments
    ]
  ]

  abbrev pub no_image : Image
  no_image = record {
    interpreter = [];
    first_page = 2 ^ 64 - 1;
    end_page = 0;
    alignment = page_size;
    phdr_address = 0;
    entry_mapped = false;
    phdr_mapped = false;
  }

  -- `OpenElfExecutable` from the size of the file on, with the segments that `pread` gives.
  unfoldable pub open_elf_executable : List Segment → Option Image
  open_elf_executable segments =
      if not (header_ok st_size header) then none else elim (scan_segments no_image segments) [
        | none ↦ none
        | some image ↦
            if not image.entry_mapped
              || not image.phdr_mapped
              || leb image.end_page image.first_page
            then none
            else some image
      ]
