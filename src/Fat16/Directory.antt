-- ===== src/Fat16/Directory.antt =====
-- fat16.c, the state of the file system, and the root directory as `fat16_resolve` finds it.
-- The structures that the kernel allocates are kept by their address, apart from memory, which holds
-- the items of directories and the header; the heap gives the addresses. `none` means that fuel ran
-- out: the count of a directory's items ends only at an item whose name starts with 0.
use own_kernel.Prelude.{
  ℕ, zero, suc, ◌+◌, ◌*◌, ◌/◌, ◌%◌, ◌^◌, not, Option, none, some, ◌==◌, if◌then◌else◌,
}
use own_kernel.Prelude.Int.{ℤ, pos, negsuc, is_ok, is_err, io_error, no_memory_error, all_ok}
use own_kernel.Memory.{Mem, memset}
use own_kernel.Heap.{Heap}
use own_kernel.KernelHeap.{kernel_zalloc, kernel_free}
use own_kernel.Disk.{Device, sector_size, the_disk}
use own_kernel.Disk.Streamer.{Stream, disk_stream_seek, disk_stream_read}
use own_kernel.Fat16.{
  FatHeader, FatDirectory, FatPrivate, header_at, header_size, item_size, fat16_sectore_to_absolute,
}

abbrev pub directory_type : ℕ
directory_type = 0

abbrev pub file_type : ℕ
file_type = 1

-- The pointer is to an item or to a directory, by the type.
pub record FatItem : Type 0 where
  pub pointer : ℕ
  pub item_type : ℕ

pub record FatFileDescriptor : Type 0 where
  pub item : ℕ
  pub position : ℕ

-- `fs_private` is the pointer in `struct disk`, `private_data` what stands there.
pub record FatFs : Type 0 where
  pub heap : Heap
  pub memory : Mem
  pub fs_private : ℕ
  pub private_data : FatPrivate
  pub items : ℕ → FatItem
  pub directories : ℕ → FatDirectory
  pub descriptors : ℕ → FatFileDescriptor

abbrev pub with_memory : FatFs → Heap × Mem → FatFs
with_memory fs (heap, memory) = record fs { heap = heap; memory = memory }

unfoldable pub zalloc : ℕ → FatFs → ℕ × FatFs
zalloc size fs =
    let (ptr, heap', memory') = kernel_zalloc size fs.heap fs.memory in
    (ptr, with_memory fs (heap', memory'))

unfoldable pub free : ℕ → FatFs → FatFs
free ptr fs = record fs { heap = kernel_free ptr fs.heap }

-- The loop at the count `i`.
unfoldable pub total_items_loop : Device → (fuel : ℕ) → Stream → (i : ℕ) → Option (ℤ × Stream)
total_items_loop device zero stream i = none
total_items_loop device (suc fuel) stream i =
    elim (disk_stream_read device (item_size + 1) stream 0 item_size (λ _. 0)) [
      | none ↦ none
      | some (res, stream', item) ↦
          let rest = total_items_loop device fuel stream' (if item 0 == 0xE5 then i else i + 1) in
          if not (is_ok res)
          then some (io_error, stream')
          else if item 0 == 0x00
          then some (pos i, stream')
          else rest
    ]

unfoldable pub fat16_get_total_items_for_directory :
    Device → (fuel : ℕ) → FatPrivate → (directory_start_sector : ℕ) → Option (ℤ × FatPrivate)
fat16_get_total_items_for_directory device fuel private_data directory_start_sector =
    let (res, sought) =
      disk_stream_seek private_data.directory_stream
        (directory_start_sector * sector_size % 2 ^ 32) in
    elim (total_items_loop device fuel sought 0) [
      | none ↦ none
      | some (total, stream) ↦ some (total, record private_data { directory_stream = stream })
    ]

abbrev pub root_dir_sector_pos : FatHeader → ℕ
root_dir_sector_pos header = header.fat_copies * header.sectors_per_fat + header.reserved_sectors

abbrev pub root_dir_size : FatHeader → ℕ
root_dir_size header = header.root_dir_entries * item_size

-- The read of the items into `dir`, and the directory that is then described.
unfoldable pub load_root : Device → (dir : ℕ) → (total_items : ℤ) → FatFs → Option (ℤ × FatFs)
load_root device dir total_items fs =
    let header = fs.private_data.header in
    let size : ℕ = root_dir_size header in
    let (res, sought) =
      disk_stream_seek fs.private_data.directory_stream
        (fat16_sectore_to_absolute (root_dir_sector_pos header)) in
    elim (disk_stream_read device (size + 1) sought dir size fs.memory) [
      | none ↦ none
      | some (res', stream, memory') ↦
          let read : FatFs = record fs {
            memory = memory';
            private_data = record fs.private_data { directory_stream = stream };
          } in
          if not (is_ok res')
          then some (io_error, read)
          else some (
            all_ok,
            record read {
              private_data = record read.private_data {
                root_directory = record {
                  item = dir;
                  total = total_items;
                  sector_pos = root_dir_sector_pos header;
                  ending_sector_pos = root_dir_sector_pos header + size / sector_size;
                };
              };
            },
          )
    ]

-- `fat16_get_root_directory`, for the root directory of the private data.
unfoldable pub fat16_get_root_directory : Device → (fuel : ℕ) → FatFs → Option (ℤ × FatFs)
fat16_get_root_directory device fuel fs =
    let header = fs.private_data.header in
    elim (fat16_get_total_items_for_directory device fuel fs.private_data
      (root_dir_sector_pos header)) [
        | none ↦ none
        | some (total_items, private_data) ↦
            let (dir, fs') =
              zalloc (root_dir_size header) (record fs { private_data = private_data }) in
            let loaded = load_root device dir total_items fs' in
            if dir == 0 then some (no_memory_error, fs') else loaded
      ]

abbrev pub no_directory : FatDirectory
no_directory = record { item = 0; total = pos 0; sector_pos = 0; ending_sector_pos = 0 }

abbrev pub no_header : FatHeader
no_header = record {
  sectors_per_cluster = 0;
  reserved_sectors = 0;
  fat_copies = 0;
  root_dir_entries = 0;
  sectors_per_fat = 0;
  signature = 0;
}

abbrev pub new_stream : Stream
new_stream = record { position = 0; disk = the_disk }

-- `sizeof(struct fat_private)`
abbrev pub private_size : ℕ
private_size = 92

unfoldable pub fat16_init_private : (address : ℕ) → FatFs → FatFs
fat16_init_private address fs = record fs {
  memory = memset address 0 private_size fs.memory;
  private_data = record {
    header = no_header;
    root_directory = no_directory;
    cluster_read_stream = new_stream;
    fat_read_stream = new_stream;
    directory_stream = new_stream;
  };
}

-- `-FILE_SYSTEM_NOT_US_ERROR`
abbrev pub not_us_error : ℤ
not_us_error = negsuc 4

-- The tests behind the read of the header, whose result is `res`.
unfoldable pub resolve_header : Device → (fuel : ℕ) → (res : ℤ) → FatFs → Option (ℤ × FatFs)
resolve_header device fuel res fs =
    let root = fat16_get_root_directory device fuel fs in
    if not (is_ok res)
    then some (io_error, fs)
    else if not (fs.private_data.header.signature == 0x29)
    then some (not_us_error, fs)
    else elim root [
      | none ↦ none
      | some (res', fs') ↦ some (if not (is_ok res') then io_error else all_ok, fs')
    ]

-- `out:`
unfoldable pub resolve_out : ℤ × FatFs → ℤ × FatFs
resolve_out (res, fs) =
    if is_err res then (res, record (free fs.fs_private fs) { fs_private = 0 }) else (res, fs)

unfoldable pub fat16_resolve : Device → (fuel : ℕ) → FatFs → Option (ℤ × FatFs)
fat16_resolve device fuel fs =
    let (address, fs1) = zalloc private_size fs in
    let fs2 : FatFs = record (fat16_init_private address fs1) { fs_private = address } in
    elim (disk_stream_read device (header_size + 1) new_stream address header_size fs2.memory) [
      | none ↦ none
      | some (res, stream, memory') ↦
          let read : FatFs = record fs2 {
            memory = memory';
            private_data = record fs2.private_data { header = header_at memory' address };
          } in
          elim (resolve_header device fuel res read) [
            | none ↦ none
            | some result ↦ some (resolve_out result)
          ]
    ]
