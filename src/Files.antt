-- ===== src/Files.antt =====
-- src/fileSystem/file.c: the table of open files, and the calls that go through it.
-- A file system is the record of functions that `struct filesystem` points at; they act on a state
-- `World` of their own. A descriptor is allocated by `kernel_zalloc`,
-- taken to succeed; its memory is not modelled.
pub mod Table
pub mod Calls
use own_kernel.Prelude.{
  ℕ, zero, suc, ◌+◌, ◌-◌, ◌^◌, Bool, true, false, ◌&&◌, ◌||◌, not, Option, none, some, ◌==◌, ltb,
  leb, if◌then◌else◌, update,
}
use own_kernel.Prelude.Int.{
  is_ok, ℤ, pos, negsuc, is_err, io_error, invalid_argument_error, no_memory_error,
}
use own_kernel.Memory.{Mem}
use own_kernel.Disk.{DiskPointer, disk_get}
use own_kernel.PathParser.{PathRoot, Parts, pathparser_parse}

abbrev pub max_file_descriptors : ℕ
max_file_descriptors = 512

abbrev pub max_filesystems : ℕ
max_filesystems = 20

pub data FileMode : Type 0 where
  read write append invalid : FileMode

-- `struct filesystem`. A pointer is 32 bits wide, and an error is a pointer that is negative as an
-- `int`; a result is a `int`.
pub record Filesystem (World : Type 0) : Type 0 where
  pub resolve : DiskPointer → World → ℤ × World
  pub open_file : DiskPointer → Parts → FileMode → World → ℕ × World
  pub read_file : DiskPointer → (private_data size nmemb out : ℕ) → World → ℤ × World
  pub seek_file : (private_data : ℕ) → (offset : ℤ) → (whence : ℕ) → World → ℤ × World
  pub stat_file : DiskPointer → (private_data stat : ℕ) → World → ℤ × World
  pub close_file : (private_data : ℕ) → World → ℤ × World

pub record FileDescriptor (World : Type 0) : Type 0 where
  pub index : ℕ
  pub filesystem : Filesystem World
  pub private_data : ℕ
  pub disk : DiskPointer

-- `filesystems`, `file_descriptors`, the file system of the disk, and what lies behind it
pub record Files (World : Type 0) : Type 0 where
  pub filesystems : ℕ → Option (Filesystem World)
  pub file_descriptors : ℕ → Option (FileDescriptor World)
  pub disk_filesystem : Option (Filesystem World)
  pub world : World

-- The first null entry from `i` on, of `n` entries.
unfoldable pub free_slot : {A : Type 0} → (n i : ℕ) → (ℕ → Option A) → Option ℕ
free_slot zero i table = none
free_slot (suc n) i table =
    let rest = free_slot n (i + 1) table in elim (table i) [ none ↦ some i | some a ↦ rest ]

unfoldable pub fs_get_free_filesystem : {World : Type 0} → Files World → Option ℕ
fs_get_free_filesystem s = free_slot max_filesystems 0 s.filesystems

-- `none` is the call of `panic`.
unfoldable pub fs_insert_filesystem :
    {World : Type 0} → Filesystem World → Files World → Option (Files World)
fs_insert_filesystem filesystem s = elim (fs_get_free_filesystem s) [
  | none ↦ none
  | some i ↦ some (record s { filesystems = update s.filesystems i (some filesystem) })
]

abbrev pub clear_table : {A : Type 0} → ℕ → (ℕ → Option A) → ℕ → Option A
clear_table n table i = if ltb i n then none else table i

unfoldable pub fs_load :
    {World : Type 0} → (fat16 : Filesystem World) → Files World → Option (Files World)
fs_load fat16 s =
    fs_insert_filesystem fat16
      (record s { filesystems = clear_table max_filesystems s.filesystems })

unfoldable pub fs_init :
    {World : Type 0} → (fat16 : Filesystem World) → Files World → Option (Files World)
fs_init fat16 s =
    fs_load fat16
      (record s { file_descriptors = clear_table max_file_descriptors s.file_descriptors })

unfoldable pub file_free_descriptor :
    {World : Type 0} → FileDescriptor World → Files World → Files World
file_free_descriptor descriptor s = record s {
  file_descriptors = update s.file_descriptors (descriptor.index - 1) none;
}

-- `file_new_descriptor`, with the fields that `fopen` then sets; `none` is `-NO_MEMORY_ERROR`.
unfoldable pub file_new_descriptor :
    {World : Type 0}
    → Filesystem World
    → (private_data : ℕ) → DiskPointer
    → Files World
    → Option (ℕ × Files World)
file_new_descriptor filesystem private_data disk s =
    elim (free_slot max_file_descriptors 0 s.file_descriptors) [
      | none ↦ none
      | some i ↦ some (
        i + 1,
        record s {
          file_descriptors = update s.file_descriptors i (
              some (record {
                index = i + 1;
                filesystem = filesystem;
                private_data = private_data;
                disk = disk;
              }));
        },
      )
    ]

unfoldable pub file_get_descriptor :
    {World : Type 0} → ℤ → Files World → Option (FileDescriptor World)
file_get_descriptor (negsuc n) s = none
file_get_descriptor (pos n) s =
    if n == 0 || leb max_file_descriptors n then none else s.file_descriptors (n - 1)

-- The loop at file system `i` with `n` left; `resolve` may read the disk.
unfoldable pub resolve_loop :
    {World : Type 0}
    → (n i : ℕ) → DiskPointer
    → Files World
    → Option (Filesystem World) × Files World
resolve_loop zero i disk s = (none, s)
resolve_loop (suc n) i disk s = elim (s.filesystems i) [
  | none ↦ resolve_loop n (i + 1) disk s
  | some fs ↦
      let (res, world) = fs.resolve disk s.world in
      let rest = resolve_loop n (i + 1) disk (record s { world = world }) in
      if is_ok res then (some fs, record s { world = world }) else rest
]

unfoldable pub fs_resolve :
    {World : Type 0} → DiskPointer → Files World → Option (Filesystem World) × Files World
fs_resolve disk s = resolve_loop max_filesystems 0 disk s

-- `strncmp(str, "r", 1)` compares one character.
unfoldable pub file_get_mode_by_string : Mem → ℕ → FileMode
file_get_mode_by_string m str =
    if m str == b'r'
    then read
    else if m str == b'w'
    then write
    else if m str == b'a'
    then append
    else invalid

abbrev pub is_invalid : FileMode → Bool
is_invalid read = false
is_invalid write = false
is_invalid append = false
is_invalid invalid = true

-- `fopen` behind the tests on the path, the disk and the mode: a full table is the only error that
-- is not turned into 0.
unfoldable pub open_on :
    {World : Type 0}
    → Filesystem World
    → DiskPointer
    → Parts
    → FileMode
    → Files World
    → ℤ × Files World
open_on {World = World} filesystem disk parts mode s =
    let (private_data, world) = filesystem.open_file disk parts mode s.world in
    let opened : Files World = record s { world = world } in
    let new = file_new_descriptor filesystem private_data disk opened in
    if is_invalid mode
    then (pos 0, s)
    else if leb (2 ^ 31) private_data
    then (pos 0, opened)
    else elim new [ none ↦ (no_memory_error, opened) | some (index, s') ↦ (pos index, s') ]

-- The test of `disk->filesystem`.
unfoldable pub open_in :
    {World : Type 0}
    → Option (Filesystem World)
    → DiskPointer
    → Parts
    → FileMode
    → Files World
    → ℤ × Files World
open_in none disk parts mode s = (pos 0, s)
open_in (some filesystem) disk parts mode s = open_on filesystem disk parts mode s

abbrev pub has_first : PathRoot → Bool
has_first root = elim root.first [ none ↦ false | some p ↦ true ]

unfoldable pub fopen :
    {World : Type 0} → Mem → (filename mode_str : ℕ) → Files World → ℤ × Files World
fopen m filename mode_str s = elim (pathparser_parse m filename) [
  | none ↦ (pos 0, s)
  | some (root, parts) ↦
      if not (has_first root) then (pos 0, s) else elim (disk_get root.drive_number) [
        | none ↦ (pos 0, s)
        | some disk ↦ open_in s.disk_filesystem disk parts (file_get_mode_by_string m mode_str) s
      ]
]

abbrev pub below_one : ℤ → Bool
below_one (pos n) = n == 0
below_one (negsuc n) = true

unfoldable pub fread : {World : Type 0} → (ptr size nmemb : ℕ) → ℤ → Files World → ℤ × Files World
fread ptr size nmemb fd s =
    if size == 0 || (nmemb == 0 || below_one fd)
    then (invalid_argument_error, s)
    else elim (file_get_descriptor fd s) [
      | none ↦ (invalid_argument_error, s)
      | some d ↦
          let (res, world) = d.filesystem.read_file d.disk d.private_data size nmemb ptr s.world in
          (res, record s { world = world })
    ]

unfoldable pub fseek :
    {World : Type 0} → ℤ → (offset : ℤ) → (whence : ℕ) → Files World → ℤ × Files World
fseek fd offset whence s = elim (file_get_descriptor fd s) [
  | none ↦ (invalid_argument_error, s)
  | some d ↦
      let (res, world) = d.filesystem.seek_file d.private_data offset whence s.world in
      (res, record s { world = world })
]

unfoldable pub fstat : {World : Type 0} → ℤ → (stat : ℕ) → Files World → ℤ × Files World
fstat fd stat s = elim (file_get_descriptor fd s) [
  | none ↦ (invalid_argument_error, s)
  | some d ↦
      let (res, world) = d.filesystem.stat_file d.disk d.private_data stat s.world in
      (res, record s { world = world })
]

-- The descriptor is freed if the file system has closed the file.
abbrev pub closed :
    {World : Type 0} → FileDescriptor World → ℤ × World → Files World → ℤ × Files World
closed d (res, world) s =
    if is_ok res
    then (res, file_free_descriptor d (record s { world = world }))
    else (res, record s { world = world })

unfoldable pub fclose : {World : Type 0} → ℤ → Files World → ℤ × Files World
fclose fd s = elim (file_get_descriptor fd s) [
  | none ↦ (invalid_argument_error, s)
  | some d ↦ closed d (d.filesystem.close_file d.private_data s.world) s
]
