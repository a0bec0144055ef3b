-- ===== src/Tests/OfFat16.antt =====
-- A file system with one sector for a cluster, whose file starts with the clusters 2 and 3.
use own_kernel.Prelude.{
  ℕ, zero, suc, ◌+◌, ◌*◌, ◌%◌, ◌/◌, ◌<◌, ◌≤◌, ◌⊎◌, ◌≡◌, refl, arith, ◌==◌, if◌then◌else◌, ltb,
  Option, none, some, [], ◌∷◌,
}
use own_kernel.Prelude.Int.{pos, all_ok}
use own_kernel.Memory.{Mem, memset, memset_loop, memcpy}
use own_kernel.Strings.Text.{CString}
use own_kernel.PathParser.{Parts}
use own_kernel.Disk.{Device, the_disk}
use own_kernel.Disk.Streamer.{Stream}
use own_kernel.Disk.Image.{lba28, Holds}
use own_kernel.Disk.Returns.{Returns}
use own_kernel.Fat16.{fat16_get_first_cluster, FatPrivate}
use own_kernel.Fat16.Clusters.{fat16_get_fat_entry, fat16_read_internal}
use own_kernel.Fat16.Chain.{
  entry_of, entry_place, fat16_place, IsPlain, IsChain, with_streams, fat16_get_fat_entry-misses,
}
use own_kernel.Fat16.Read.{IsRead, fat16_read_internal-IsRead}
use own_kernel.Fat16.Returns.{fat16_read_internal-Returns}
use own_kernel.Fat16.Names.{fat16_to_proper_string, fat16_get_full_relative_filename}
use own_kernel.Fat16.Names.Text.{full_name, fat16_get_full_relative_filename-full_name}
use own_kernel.Fat16.Directory.{zalloc, FatFs, no_directory}
use own_kernel.Fat16.Counting.{IsDirectory}
use own_kernel.Fat16.Items.{
  put_text, fat16_new_fat_item_for_directory_item, fat16_clone_directory_item, new_file_item,
  with_item, new_directory_item, has_name, find_loop, fat16_find_item_in_directory,
  fat16_get_directory_entry,
}
use own_kernel.Fat16.Items.Kinds.{fat16_get_directory_entry_nested}
use own_kernel.Heap.{
  heap_malloc, heap_malloc_blocks, heap_get_start_block, find_start, heap_get_entry_type,
  heap_align_value_to_upper, heap_block_to_address, heap_mark_blocks_taken, mark_taken,
}
use own_kernel.KernelHeap.{kernel_zalloc, kernel_malloc}
use own_kernel.Strings.{istrncmp, tolower}
use own_kernel.Fat16.Calls.{fat16_read, fat16_seek}
use own_kernel.Fat16.Calls.Positions.{IsOpen, Seeks, fat16_seek-Seeks, fat16_read-fat16_seek}

abbrev pub image : ℕ → ℕ
image i = if i == 2048 then 3 else if i == 2049 then 0 else i / 512 % 256

abbrev device : Device
device c j = image (lba28 c * 512 + 2 * j) + 256 * image (lba28 c * 512 + 2 * j + 1)

drive : Holds device image
drive = record { byte = λ i. ground arith; word = λ c j one bound. refl }

abbrev stream : Stream
stream = record { position = 0; disk = the_disk }

abbrev private_data : FatPrivate
private_data = record {
  header = record {
    sectors_per_cluster = 1;
    reserved_sectors = 1;
    fat_copies = 1;
    root_dir_entries = 16;
    sectors_per_fat = 8;
    signature = 0x29;
  };
  root_directory = record {
    item = 0x01000000;
    total = pos 1;
    sector_pos = 9;
    ending_sector_pos = 10;
  };
  cluster_read_stream = stream;
  fat_read_stream = stream;
  directory_stream = stream;
}

abbrev cluster : ℕ → ℕ
cluster k = k + 2

link : (k : ℕ) → suc k < 2 → entry_of image private_data (cluster k) ≡ cluster (suc k)
link zero bound = refl
link (suc k) bound = absurd (omega arith)

plain : (k : ℕ) → k < 2 → IsPlain (cluster k)
plain k bound = (omega arith, omega arith, omega arith, omega arith, omega arith, omega arith)

chain : IsChain image private_data cluster 2
chain = record {
  link = link;
  entry_on_disk = λ k bound. omega arith;
  plain = plain;
  is_data = λ k bound. (omega arith, omega arith);
  on_disk = λ k bound. omega arith;
}

fat16_get_fat_entry-misses_example :
    (f' : Stream) × (fat16_get_fat_entry device (with_streams private_data stream stream) 2
      ≡ some (pos 3, with_streams private_data stream f'))
    × (fat16_place private_data 2 + 1 < entry_place private_data 2)
fat16_get_fat_entry-misses_example =
    fat16_get_fat_entry-misses drive private_data stream stream 2 refl (omega arith) (omega arith)
      (omega arith) (omega arith)

fat16_read_internal-IsRead_example :
    (c' : Stream) × (f' : Stream) × (m' : Mem) × (fat16_read_internal device 600
        (with_streams private_data stream stream)
        2
        0
        600
        0x8000
        (λ _. 0)
      ≡ some (pos 0, with_streams private_data c' f', m'))
    × IsRead image private_data cluster 0 600 0x8000 (λ _. 0) m'
fat16_read_internal-IsRead_example =
    fat16_read_internal-IsRead drive private_data 600 0 600 0x8000 stream stream (λ _. 0) chain refl
      refl (omega arith) (omega arith) (omega arith) (omega arith)

directory : IsDirectory image (255 * 512) 16
directory = record { used = λ j bound e. absurd (ground arith); last = refl; on_disk = omega arith }

-- The item `AB.C`, a file of 4096 bytes from cluster 2 on.
abbrev memory : Mem
memory i =
    if i == 0x01000000
    then b'A'
    else if i == 0x01000001
    then b'B'
    else if i == 0x01000008
    then b'C'
    else if i == 0x0100001A
    then 2
    else if i == 0x0100001D
    then 16
    else if ltb i 0x0100000B
    then 0x20
    else 0

fat16_get_full_relative_filename-full_name_example :
    (text' : Mem) × (fat16_get_full_relative_filename 12 memory 0x01000000 0 108 (λ _. 7)
      ≡ some text')
    × CString text' 0 (full_name (b'A' ∷ b'B' ∷ []) (b'C' ∷ []))
    × ((j : ℕ) → (j < 0) ⊎ (0 + 108 ≤ j) → text' j ≡ 7)
fat16_get_full_relative_filename-full_name_example =
    fat16_get_full_relative_filename-full_name 12 memory 0x01000000 0 108 (λ _. 7)
      (b'A' ∷ b'B' ∷ []) (refl, refl, (refl, refl, refl)) (omega arith) (b'C' ∷ [])
      (refl, refl, refl) (omega arith) (omega arith)

abbrev pub fs : FatFs
fs = record {
  heap = record { table = record { entries = λ _. 0; total = 8 }; start_address = 0x01001000 };
  memory = memory;
  fs_private = 0x01009000;
  private_data = record private_data {
    root_directory = record private_data.root_directory { total = pos 1 };
  };
  items = λ _. record { pointer = 0x01000000; item_type = 1 };
  directories = λ _. no_directory;
  descriptors = λ _. record { item = 0x01002000; position = 0 };
}

file : IsOpen image fs 0x01003000 cluster 2
unfolding fat16_get_first_cluster
file = record {
  is_file = refl;
  first_cluster = refl;
  chain = chain;
  cluster_stream = refl;
  fat_stream = refl;
  some_bytes = omega arith;
}

fat16_read-fat16_seek_example :
    (fs1 : FatFs) × (fs2 : FatFs) × (fat16_seek 0x01003000 (1 * 512) 0 fs ≡ (all_ok, fs1))
    × (fat16_read device 0x01003000 300 1 0x8000 fs1 ≡ some (pos 1, fs2))
    × IsRead image private_data cluster 1 300 0x8000 memory fs2.memory
fat16_read-fat16_seek_example =
    fat16_read-fat16_seek fs 0x01003000 1 300 0x8000 drive file (omega arith) (omega arith)
      (omega arith)

fat16_seek-Seeks_example :
    Seeks fs 0x01003000 512 1 (fat16_seek 0x01003000 512 1 fs).0 (fat16_seek 0x01003000 512 1 fs).1
fat16_seek-Seeks_example = fat16_seek-Seeks fs 0x01003000 512 1

fat16_read_internal-Returns_example :
    Returns (fat16_read_internal (λ c j. 0) 601 private_data 3 5000 600 0x8000 (λ _. 0))
fat16_read_internal-Returns_example =
    fat16_read_internal-Returns (λ c j. 0) 601 private_data 3 5000 600 0x8000 (λ _. 0) (omega arith)
      (omega arith)

-- The path `AB.C/D`.
abbrev parts : Parts
parts = record {
  cells = λ i.
      if i == 0
      then record { part = b'a' ∷ b'b' ∷ b'.' ∷ b'c' ∷ []; next = some 1 }
      else record { part = b'D' ∷ []; next = none };
  count = 2;
}

abbrev found : Option (ℕ × FatFs) → ℕ × FatFs
found none = (0, fs)
found (some r) = r

abbrev search : Option (ℕ × FatFs)
search =
    fat16_find_item_in_directory device 20 fs.private_data.root_directory (parts.cells 0).part fs

finds : search ≡ some (found search)
unfolding fat16_find_item_in_directory find_loop has_name fat16_get_full_relative_filename
    fat16_to_proper_string istrncmp memset memset_loop put_text tolower
    fat16_new_fat_item_for_directory_item zalloc kernel_zalloc kernel_malloc heap_malloc
    heap_malloc_blocks heap_get_start_block find_start heap_get_entry_type heap_align_value_to_upper
    fat16_clone_directory_item new_file_item with_item heap_block_to_address heap_mark_blocks_taken
    mark_taken memcpy new_directory_item
finds = refl

fat16_get_directory_entry_nested_example :
    fat16_get_directory_entry device 20 parts 0 fs ≡ some (0, (found search).1)
fat16_get_directory_entry_nested_example =
    fat16_get_directory_entry_nested device 19 parts 0 1 (found search).0 fs (found search).1 refl
      finds
