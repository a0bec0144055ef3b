-- ===== src/Start/Volume.antt =====
-- src/fileSystem/fat/fat16.c, `fat16_fs` and `fat16_init`: the functions of Fat16 as the file system
-- that file.c calls, on the state of the kernel.
-- `device` is the drive, `fuel` that of the loops over the disk, `path` the address of a local text.
-- Where the fuel runs out the source does not come back; here the call fails and changes nothing.
use own_kernel.Prelude.{ℕ, Option, none, some}
use own_kernel.Prelude.Int.{io_error}
use own_kernel.Disk.{Device}
use own_kernel.Files.{Filesystem}
use own_kernel.Fat16.{to_word}
use own_kernel.Fat16.Directory.{FatFs, fat16_resolve}
use own_kernel.Fat16.Calls.{fat16_open, fat16_read, fat16_seek, fat16_stat, fat16_close}
use own_kernel.Process.{Kernel}

abbrev pub fat_of : Kernel → FatFs
fat_of k = record k.fat { heap = k.pages.heap; memory = k.pages.memory }

abbrev pub with_fat : FatFs → Kernel → Kernel
with_fat fs k = record k { pages = record k.pages { heap = fs.heap; memory = fs.memory }; fat = fs }

abbrev pub on_fat : {A : Type 0} → A → Option (A × FatFs) → Kernel → A × Kernel
on_fat failed none k = (failed, k)
on_fat failed (some (a, fs)) k = (a, with_fat fs k)

abbrev pub on_kernel : {A : Type 0} → A × FatFs → Kernel → A × Kernel
on_kernel (a, fs) k = (a, with_fat fs k)

unfoldable pub fat16_init : Device → (fuel path : ℕ) → Filesystem Kernel
fat16_init device fuel path = record {
  resolve = λ disk k. on_fat io_error (fat16_resolve device fuel (fat_of k)) k;
  open_file = λ disk parts mode k.
      on_fat (to_word io_error) (fat16_open device fuel parts path mode (fat_of k)) k;
  read_file = λ disk private_data size nmemb out k.
      on_fat io_error (fat16_read device private_data size nmemb out (fat_of k)) k;
  seek_file = λ private_data offset whence k.
      on_kernel (fat16_seek private_data (to_word offset) whence (fat_of k)) k;
  stat_file = λ disk private_data stat k. on_kernel (fat16_stat private_data stat (fat_of k)) k;
  close_file = λ private_data k. on_kernel (fat16_close private_data (fat_of k)) k;
}
