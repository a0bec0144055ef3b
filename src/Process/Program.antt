-- ===== src/Process/Program.antt =====
-- process.c and elfloader.c: the file of a program, read through file.c. The file system acts on the
-- state of the kernel. `read_mode` is the address of the text "r", `stat` that of the local
-- `struct file_stat`, whose size stands at its byte 4.
use own_kernel.Prelude.{ℕ, ◌+◌, Bool, false, not, ◌==◌, if◌then◌else◌, update}
use own_kernel.Prelude.Int.{ℤ, pos, negsuc, is_err, is_ok, all_ok, io_error, no_memory_error}
use own_kernel.Memory.{Mem, word_at, long_at}
use own_kernel.Files.{Files, below_one, fopen, fread, fstat, fclose}
use own_kernel.Elf.{ElfHeader, ProgramHeader, ElfFile, elf_program_header, elf_process_loaded}
use own_kernel.Process.{Process, Kernel, filetype_elf, filetype_binary, zalloc, set_process}

-- The headers, as they stand in memory.
unfoldable pub elf_header_at : Mem → ℕ → ElfHeader
elf_header_at m a = record {
  e_ident = λ i. m (a + i);
  e_type = word_at m (a + 16);
  e_entry = long_at m (a + 24);
  e_phoff = long_at m (a + 28);
  e_shoff = long_at m (a + 32);
  e_phnum = word_at m (a + 44);
  e_shstrndx = word_at m (a + 50);
}

unfoldable pub program_header_at : Mem → ℕ → ProgramHeader
program_header_at m a = record {
  p_type = long_at m a;
  p_offset = long_at m (a + 4);
  p_vaddr = long_at m (a + 8);
  p_filesz = long_at m (a + 16);
  p_memsz = long_at m (a + 20);
  p_flags = long_at m (a + 24);
}

-- The file that was read to `elf_memory`, before its headers are looked at.
abbrev pub file_at : Mem → (elf_memory : ℕ) → ElfFile
file_at m elf_memory = record {
  elf_memory = elf_memory;
  header = elf_header_at m elf_memory;
  program_header =
      λ i. program_header_at m (elf_program_header elf_memory (elf_header_at m elf_memory) i);
  virtual_base_address = 0;
  virtual_end_address = 0;
  physical_base_address = 0;
  physical_end_address = 0;
}

abbrev pub memory_of : Files Kernel → Mem
memory_of s = s.world.pages.memory

-- `kernel_zalloc`
abbrev pub zalloc_in : ℕ → Files Kernel → ℕ × Files Kernel
zalloc_in size s = let (ptr, k) = zalloc size s.world in (ptr, record s { world = k })

-- `out:`, where the file is closed, whatever its number
abbrev pub close_with : {A : Type 0} → A → ℤ → Files Kernel → A × Files Kernel
close_with result fd s = (result, (fclose fd s).1)

-- The end of `elf_load`, for the file that was read to `elf_memory`: the headers are looked at.
unfoldable pub process_elf : (elf_file elf_memory : ℕ) → Files Kernel → ℤ × Files Kernel
process_elf elf_file elf_memory s =
    let (res, file) = elf_process_loaded (file_at (memory_of s) elf_memory) in
    (
      res,
      record s { world = record s.world { elf_files = update s.world.elf_files elf_file file } },
    )

-- `elf_load` behind a file that is open.
unfoldable pub load_open_elf :
    (stat : ℕ) → (elf_file : ℕ) → (fd : ℤ) → Files Kernel → ℤ × Files Kernel
load_open_elf stat elf_file fd s =
    let (res, s1) = fstat fd stat s in
    let filesize : ℕ = long_at (memory_of s1) (stat + 4) in
    let (elf_memory, s2) = zalloc_in filesize s1 in
    let (res', s3) = fread elf_memory filesize 1 fd s2 in
    if is_err res
    then (res, s1)
    else if is_err res'
    then (res', s3)
    else process_elf elf_file elf_memory s3

-- `sizeof(struct elf_file)`
abbrev pub elf_file_size : ℕ
elf_file_size = 132

-- The result, and the file, which goes out where the result is not an error.
unfoldable pub elf_load : (read_mode stat filename : ℕ) → Files Kernel → (ℤ × ℕ) × Files Kernel
elf_load read_mode stat filename s =
    let (elf_file, s1) = zalloc_in elf_file_size s in
    let (fd, s2) = fopen (memory_of s1) filename read_mode s1 in
    let (res, s3) = load_open_elf stat elf_file fd s2 in
    if below_one fd
    then close_with (io_error, elf_file) (pos 0) s2
    else close_with (res, elf_file) fd s3

-- `process_load_binary` behind a file that is open.
unfoldable pub load_open_binary : (stat process : ℕ) → (fd : ℤ) → Files Kernel → ℤ × Files Kernel
load_open_binary stat process fd s =
    let (res, s1) = fstat fd stat s in
    let filesize : ℕ = long_at (memory_of s1) (stat + 4) in
    let (program_data_ptr, s2) = zalloc_in filesize s1 in
    let (items, s3) = fread program_data_ptr filesize 1 fd s2 in
    let loaded : Process = record (s3.world.process process) {
      filetype = filetype_binary;
      program = program_data_ptr;
      size = filesize;
    } in
    if not (is_ok res)
    then (res, s1)
    else if program_data_ptr == 0
    then (no_memory_error, s2)
    else elim items [
      | negsuc n ↦ (io_error, s3)
      | pos n ↦
          if n == 1
          then (all_ok, record s3 { world = set_process process loaded s3.world })
          else (io_error, s3)
    ]

-- A negative result of `fopen` is taken for a file.
unfoldable pub process_load_binary :
    (read_mode stat filename process : ℕ) → Files Kernel → ℤ × Files Kernel
process_load_binary read_mode stat filename process s =
    let (fd, s1) = fopen (memory_of s) filename read_mode s in
    let (res, s2) = load_open_binary stat process fd s1 in
    if is_ok fd then close_with io_error fd s1 else close_with res fd s2

unfoldable pub process_load_elf :
    (read_mode stat filename process : ℕ) → Files Kernel → ℤ × Files Kernel
process_load_elf read_mode stat filename process s =
    let ((res, elf_file), s1) = elf_load read_mode stat filename s in
    let loaded : Process = record (s1.world.process process) {
      filetype = filetype_elf;
      program = elf_file;
    } in
    if is_err res
    then (res, s1)
    else (res, record s1 { world = set_process process loaded s1.world })

abbrev pub is_format_error : ℤ → Bool
is_format_error (pos n) = false
is_format_error (negsuc n) = n == 8

unfoldable pub process_load_data :
    (read_mode stat filename process : ℕ) → Files Kernel → ℤ × Files Kernel
process_load_data read_mode stat filename process s =
    let (res, s1) = process_load_elf read_mode stat filename process s in
    let binary = process_load_binary read_mode stat filename process s1 in
    if is_format_error res then binary else (res, s1)
