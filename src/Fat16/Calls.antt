-- ===== src/Fat16/Calls.antt =====
-- fat16.c from `fat16_open` on: the functions that file.c calls. An error that stands for a pointer is
-- its 32-bit pattern; a size or an offset is not negative as an `int`.
pub mod Positions
pub mod Stat
use own_kernel.Prelude.{
  ℕ, zero, suc, ◌+◌, ◌/◌, ◌%◌, ◌^◌, not, Option, none, some, ◌==◌, leb, if◌then◌else◌, update,
  bit_and,
}
use own_kernel.Prelude.Int.{
  ℤ, pos, negsuc, is_err, all_ok, io_error, invalid_argument_error, no_memory_error,
}
use own_kernel.Memory.{Mem, put_long}
use own_kernel.Disk.{Device}
use own_kernel.PathParser.{Parts}
use own_kernel.Files.{FileMode, read, write, append, invalid}
use own_kernel.Fat16.{attributes_of, filesize_of, to_word, of_word, fat16_get_first_cluster}
use own_kernel.Fat16.Clusters.{fat16_read_internal}
use own_kernel.Fat16.Directory.{FatFs, FatItem, FatFileDescriptor, file_type, zalloc, free}
use own_kernel.Fat16.Items.{fat16_fat_item_free, fat16_get_directory_entry}

abbrev pub read_only_error : ℤ
read_only_error = negsuc 5

abbrev pub unimplemented_error : ℤ
unimplemented_error = negsuc 6

-- `sizeof(struct fat_file_descriptor)`
abbrev pub descriptor_size : ℕ
descriptor_size = 8

abbrev pub with_descriptor : ℕ → FatFileDescriptor → FatFs → FatFs
with_descriptor address descriptor fs = record fs {
  descriptors = update fs.descriptors address descriptor;
}

-- The end of `fat16_open`: the descriptor at `descriptor`, with the item that was found.
unfoldable pub open_item : (descriptor item : ℕ) → FatFs → ℕ × FatFs
open_item descriptor item fs =
    let opened : FatFs = with_descriptor descriptor (record { item = item; position = 0 }) fs in
    if item == 0 then (to_word io_error, opened) else (descriptor, opened)

-- The call for a file that is opened to be read.
unfoldable pub open_to_read : Device → (fuel : ℕ) → Parts → (path : ℕ) → FatFs → Option (ℕ × FatFs)
open_to_read device fuel parts path fs =
    let (descriptor, allocated) = zalloc descriptor_size fs in
    let zeroed : FatFs = with_descriptor descriptor (record { item = 0; position = 0 }) allocated in
    let found : Option (ℕ × FatFs) =
      elim (fat16_get_directory_entry device fuel parts path zeroed) [
        | none ↦ none
        | some (item, fs') ↦ some (open_item descriptor item fs')
      ] in
    if descriptor == 0 then some (to_word no_memory_error, allocated) else found

unfoldable pub fat16_open :
    Device → (fuel : ℕ) → Parts → (path : ℕ) → FileMode → FatFs → Option (ℕ × FatFs)
fat16_open device fuel parts path read fs = open_to_read device fuel parts path fs
fat16_open device fuel parts path write fs = some (to_word read_only_error, fs)
fat16_open device fuel parts path append fs = some (to_word read_only_error, fs)
fat16_open device fuel parts path invalid fs = some (to_word read_only_error, fs)

-- The loop with `n` rounds left.
unfoldable pub read_loop : Device → (n item offset size out_ptr : ℕ) → FatFs → Option (ℤ × FatFs)
read_loop device zero item offset size out_ptr fs = some (all_ok, fs)
read_loop device (suc n) item offset size out_ptr fs =
    elim (fat16_read_internal device (size + 1) fs.private_data
      (fat16_get_first_cluster fs.memory item) offset size out_ptr fs.memory) [
        | none ↦ none
        | some (res, private_data, memory) ↦
            let after : FatFs = record fs { private_data = private_data; memory = memory } in
            let rest =
              read_loop device n item ((offset + size) % 2 ^ 32) size (out_ptr + size) after in
            if is_err res then some (res, after) else rest
      ]

unfoldable pub fat16_read :
    Device → (descriptor size nmemb out_ptr : ℕ) → FatFs → Option (ℤ × FatFs)
fat16_read device descriptor size nmemb out_ptr fs =
    let fat_descriptor = fs.descriptors descriptor in
    let item : ℕ = (fs.items fat_descriptor.item).pointer in
    elim (read_loop device nmemb item fat_descriptor.position size out_ptr fs) [
      | none ↦ none
      | some (res, fs') ↦ some (if is_err res then res else of_word (nmemb % 2 ^ 32), fs')
    ]

-- The `switch` on the mode: SEEK_SET, SEEK_CUR and SEEK_END are 0, 1 and 2.
unfoldable pub seek_to : (descriptor offset seek_mode : ℕ) → FatFs → ℤ × FatFs
seek_to descriptor offset seek_mode fs =
    let d : FatFileDescriptor = fs.descriptors descriptor in
    if seek_mode == 0
    then (all_ok, with_descriptor descriptor (record d { position = offset }) fs)
    else if seek_mode == 2
    then (unimplemented_error, fs)
    else if seek_mode == 1
    then (
      all_ok,
      with_descriptor descriptor (record d { position = (d.position + offset) % 2 ^ 32 }) fs,
    )
    else (invalid_argument_error, fs)

unfoldable pub fat16_seek : (descriptor offset seek_mode : ℕ) → FatFs → ℤ × FatFs
fat16_seek descriptor offset seek_mode fs =
    let item : FatItem = fs.items (fs.descriptors descriptor).item in
    if not (item.item_type == file_type)
    then (invalid_argument_error, fs)
    else if leb (filesize_of fs.memory item.pointer) offset
    then (io_error, fs)
    else seek_to descriptor offset seek_mode fs

-- `stat` is the address of a `struct file_stat`: the flags, and the size behind them.
unfoldable pub fat16_stat : (descriptor stat : ℕ) → FatFs → ℤ × FatFs
fat16_stat descriptor stat fs =
    let item : FatItem = fs.items (fs.descriptors descriptor).item in
    let sized : Mem = put_long (stat + 4) (filesize_of fs.memory item.pointer) fs.memory in
    let cleared : Mem = put_long stat 0x00 sized in
    if not (item.item_type == file_type) then (invalid_argument_error, fs) else (
      all_ok,
      record fs {
        memory =
            if bit_and (attributes_of cleared item.pointer) 0x01 == 0
            then cleared
            else put_long stat 0x01 cleared;
      },
    )

unfoldable pub fat16_free_file_descriptor : (descriptor : ℕ) → FatFs → FatFs
fat16_free_file_descriptor descriptor fs =
    free descriptor (fat16_fat_item_free (fs.descriptors descriptor).item fs)

unfoldable pub fat16_close : (descriptor : ℕ) → FatFs → ℤ × FatFs
fat16_close descriptor fs = (pos 0, fat16_free_file_descriptor descriptor fs)
