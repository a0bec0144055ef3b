-- ===== src/Elf.antt =====
-- src/loader/formats/elfloader.c and elf.c: a 32-bit ELF file in memory.
-- The headers are read as the records that they are in the file: `header` and, from `e_phoff` on,
-- `program_header`. Offsets are not negative. A pointer is a 32-bit address.
pub mod Segments
use own_kernel.Prelude.{
  ◌*◌, ℕ, zero, suc, ◌+◌, ◌%◌, ◌^◌, Bool, true, false, ◌&&◌, ◌||◌, not, ◌==◌, leb, ltb,
  if◌then◌else◌,
}
use own_kernel.Prelude.Int.{ℤ, pos, is_err, all_ok, invalid_format_error}

-- `struct elf_header`, the fields that are read
pub record ElfHeader : Type 0 where
  pub e_ident : ℕ → ℕ
  pub e_type : ℕ
  pub e_entry : ℕ
  pub e_phoff : ℕ
  pub e_shoff : ℕ
  pub e_phnum : ℕ
  pub e_shstrndx : ℕ

pub record ProgramHeader : Type 0 where
  pub p_type : ℕ
  pub p_offset : ℕ
  pub p_vaddr : ℕ
  pub p_filesz : ℕ
  pub p_memsz : ℕ
  pub p_flags : ℕ

-- `struct elf_file`, and the headers in its memory
pub record ElfFile : Type 0 where
  pub elf_memory : ℕ
  pub header : ElfHeader
  pub program_header : ℕ → ProgramHeader
  pub virtual_base_address : ℕ
  pub virtual_end_address : ℕ
  pub physical_base_address : ℕ
  pub physical_end_address : ℕ

unfoldable pub elf_valid_signature : ElfHeader → Bool
elf_valid_signature header =
    header.e_ident 0 == 0x7F
    && (header.e_ident 1 == b'E' && (header.e_ident 2 == b'L' && header.e_ident 3 == b'F'))

unfoldable pub elf_valid_class : ElfHeader → Bool
elf_valid_class header = header.e_ident 4 == 0 || header.e_ident 4 == 1

unfoldable pub elf_valid_encoding : ElfHeader → Bool
elf_valid_encoding header = header.e_ident 5 == 0 || header.e_ident 5 == 1

unfoldable pub elf_has_program_header : ElfHeader → Bool
elf_has_program_header header = not (header.e_phoff == 0)

-- `OS_PROGRAM_VIRTUAL_ADDRESS`
abbrev pub program_virtual_address : ℕ
program_virtual_address = 0x400000

unfoldable pub elf_is_executable : ElfHeader → Bool
elf_is_executable header = header.e_type == 2 && leb program_virtual_address header.e_entry

-- The addresses of a file's tables and of their entries; `address` is that of the header, `sh_offset`
-- is the field of the section at an address.
unfoldable pub elf_sheader : (address : ℕ) → ElfHeader → ℕ
elf_sheader address header = (address + header.e_shoff) % 2 ^ 32

unfoldable pub elf_section : (address : ℕ) → ElfHeader → (index : ℕ) → ℕ
elf_section address header index = (elf_sheader address header + 40 * index) % 2 ^ 32

unfoldable pub elf_pheader : (address : ℕ) → ElfHeader → ℕ
elf_pheader address header = if header.e_phoff == 0 then 0 else (address + header.e_phoff) % 2 ^ 32

unfoldable pub elf_program_header : (address : ℕ) → ElfHeader → (index : ℕ) → ℕ
elf_program_header address header index = (elf_pheader address header + 32 * index) % 2 ^ 32

unfoldable pub elf_str_table : (sh_offset : (section : ℕ) → ℕ) → (address : ℕ) → ElfHeader → ℕ
elf_str_table sh_offset address header =
    (address + sh_offset (elf_section address header header.e_shstrndx)) % 2 ^ 32

unfoldable pub elf_validate_loaded : ElfHeader → ℤ
elf_validate_loaded header =
    if elf_valid_signature header
      && (elf_valid_class header && (elf_valid_encoding header && elf_has_program_header header))
    then all_ok
    else invalid_format_error

unfoldable pub elf_get_entry : ElfHeader → ℕ
elf_get_entry header = header.e_entry

unfoldable pub elf_phdr_phys_address : ElfFile → ProgramHeader → ℕ
elf_phdr_phys_address file phdr = (file.elf_memory + phdr.p_offset) % 2 ^ 32

-- The two tests of `elf_process_phdr_pt_load`.
abbrev pub is_lower : ProgramHeader → ElfFile → Bool
is_lower phdr file = leb phdr.p_vaddr file.virtual_base_address || file.virtual_base_address == 0

abbrev pub end_address : ProgramHeader → ℕ
end_address phdr = (phdr.p_vaddr + phdr.p_filesz) % 2 ^ 32

abbrev pub is_higher : ProgramHeader → ElfFile → Bool
is_higher phdr file =
    leb file.virtual_end_address (end_address phdr) || file.virtual_end_address == 0

unfoldable pub elf_process_phdr_pt_load : ElfFile → ProgramHeader → ℤ × ElfFile
elf_process_phdr_pt_load file phdr = (
  all_ok,
  record file {
    virtual_base_address = if is_lower phdr file then phdr.p_vaddr else file.virtual_base_address;
    physical_base_address =
        if is_lower phdr file
        then (file.elf_memory + phdr.p_offset) % 2 ^ 32
        else file.physical_base_address;
    virtual_end_address =
        if is_higher phdr file then end_address phdr else file.virtual_end_address;
    physical_end_address =
        if is_higher phdr file
        then (file.elf_memory + phdr.p_offset + phdr.p_filesz) % 2 ^ 32
        else file.physical_end_address;
  },
)

unfoldable pub elf_process_pheader : ElfFile → ProgramHeader → ℤ × ElfFile
elf_process_pheader file phdr =
    if phdr.p_type == 1 then elf_process_phdr_pt_load file phdr else (all_ok, file)

-- The loop at header `i` with `n` rounds left; `res` is the result of the round before.
unfoldable pub pheaders_loop : (n i : ℕ) → ℤ → ElfFile → ℤ × ElfFile
pheaders_loop zero i res file = (res, file)
pheaders_loop (suc n) i res file =
    let (res', file') = elf_process_pheader file (file.program_header i) in
    let rest = pheaders_loop n (i + 1) res' file' in if is_err res' then (res', file') else rest

unfoldable pub elf_process_pheaders : ElfFile → ℤ × ElfFile
elf_process_pheaders file = pheaders_loop file.header.e_phnum 0 all_ok file

unfoldable pub elf_process_loaded : ElfFile → ℤ × ElfFile
elf_process_loaded file =
    if is_err (elf_validate_loaded file.header)
    then (elf_validate_loaded file.header, file)
    else elf_process_pheaders file
