-- ===== src/Fat16.antt =====
-- src/fileSystem/fat/fat16.c: the FAT16 file system, on the one disk, of 512-byte sectors.
-- An `int` that may be negative is its 32-bit pattern, or a ℤ where it is a result. Structures on
-- the disk are read from their bytes; those that the kernel allocates are records by address.
pub mod Clusters
pub mod Chain
pub mod Read
pub mod Returns
pub mod Names
pub mod Directory
pub mod Mounting
pub mod Counting
pub mod Items
pub mod Calls
use own_kernel.Prelude.{ℕ, ◌+◌, ◌-◌, ◌*◌, ◌/◌, ◌%◌, ◌^◌, ltb, if◌then◌else◌, bit_or}
use own_kernel.Prelude.Int.{ℤ, pos, negsuc}
use own_kernel.Memory.{Mem, word_at, long_at}
use own_kernel.Disk.{sector_size}
use own_kernel.Disk.Streamer.{Stream}

-- The bit pattern of a result, and back.
abbrev pub to_word : ℤ → ℕ
to_word (pos n) = n % 2 ^ 32
to_word (negsuc n) = (2 ^ 32 - 1 - n) % 2 ^ 32

abbrev pub of_word : ℕ → ℤ
of_word n = if ltb n (2 ^ 31) then pos n else negsuc (2 ^ 32 - 1 - n)

-- `struct fat_h`, the fields that are read
pub record FatHeader : Type 0 where
  pub sectors_per_cluster : ℕ
  pub reserved_sectors : ℕ
  pub fat_copies : ℕ
  pub root_dir_entries : ℕ
  pub sectors_per_fat : ℕ
  pub signature : ℕ

abbrev pub header_size : ℕ
header_size = 62

unfoldable pub header_at : Mem → ℕ → FatHeader
header_at m a = record {
  sectors_per_cluster = m (a + 13);
  reserved_sectors = word_at m (a + 14);
  fat_copies = m (a + 16);
  root_dir_entries = word_at m (a + 17);
  sectors_per_fat = word_at m (a + 22);
  signature = m (a + 38);
}

-- `struct fat_directory_item`: the fields of the item at an address. The name stands at the address
-- itself.
abbrev pub item_size : ℕ
item_size = 32

abbrev pub ext_at : ℕ → ℕ
ext_at item = item + 8

abbrev pub attributes_of : Mem → ℕ → ℕ
attributes_of m item = m (item + 11)

abbrev pub high_16_bits_first_cluster_of : Mem → ℕ → ℕ
high_16_bits_first_cluster_of m item = word_at m (item + 20)

abbrev pub low_16_bits_first_cluster_of : Mem → ℕ → ℕ
low_16_bits_first_cluster_of m item = word_at m (item + 26)

abbrev pub filesize_of : Mem → ℕ → ℕ
filesize_of m item = long_at m (item + 28)

-- `item` is the address of the first one.
pub record FatDirectory : Type 0 where
  pub item : ℕ
  pub total : ℤ
  pub sector_pos : ℕ
  pub ending_sector_pos : ℕ

-- `struct fat_private`; the streams are those of disk 0, so none is null.
pub record FatPrivate : Type 0 where
  pub header : FatHeader
  pub root_directory : FatDirectory
  pub cluster_read_stream : Stream
  pub fat_read_stream : Stream
  pub directory_stream : Stream

unfoldable pub fat16_sectore_to_absolute : ℕ → ℕ
fat16_sectore_to_absolute sector = sector * sector_size % 2 ^ 32

unfoldable pub fat16_get_first_cluster : Mem → ℕ → ℕ
fat16_get_first_cluster m item =
    bit_or (high_16_bits_first_cluster_of m item) (low_16_bits_first_cluster_of m item)

unfoldable pub fat16_cluster_to_sector : FatPrivate → ℕ → ℕ
fat16_cluster_to_sector private_data cluster =
    (private_data.root_directory.ending_sector_pos
      + (cluster + 2 ^ 32 - 2) % 2 ^ 32 * private_data.header.sectors_per_cluster)
    % 2 ^ 32

unfoldable pub fat16_get_first_fat_sector : FatPrivate → ℕ
fat16_get_first_fat_sector private_data = private_data.header.reserved_sectors
