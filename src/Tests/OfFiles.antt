-- ===== src/Tests/OfFiles.antt =====
-- A file system that opens every file as the pointer 7.
use own_kernel.Prelude.{ℕ, ◌+◌, ◌≡◌, refl, arith, none, some, ltb, if◌then◌else◌, get_or, [], ◌∷◌}
use own_kernel.Prelude.Int.{pos}
use own_kernel.Memory.{Mem}
use own_kernel.Disk.{the_disk}
use own_kernel.Files.{Filesystem, Files, file_new_descriptor, fopen, fclose}
use own_kernel.Files.Table.{IsTable, opened}
use own_kernel.Files.Calls.{Opens, fopen-Opens, fclose-file_new_descriptor}

-- `World` is the number of calls.
abbrev counting : Filesystem ℕ
counting = record {
  resolve = λ disk w. (pos 0, w + 1);
  open_file = λ disk path mode w. (7, w + 1);
  read_file = λ disk private_data size nmemb out w. (pos nmemb, w + 1);
  seek_file = λ private_data offset whence w. (pos 0, w + 1);
  stat_file = λ disk private_data stat w. (pos 0, w + 1);
  close_file = λ private_data w. (pos 0, w + 1);
}

abbrev no_files : Files ℕ
no_files = record {
  filesystems = λ _. some counting;
  file_descriptors = λ _. none;
  disk_filesystem = some counting;
  world = 0;
}

no_files-IsTable : IsTable no_files
no_files-IsTable = record { place = λ i d e. cc }

abbrev all_but_last : Files ℕ
all_but_last = record no_files {
  file_descriptors = λ i. if ltb i 511 then some (opened counting 7 the_disk i) else none;
}

fclose-file_new_descriptor_example :
    (fd : ℕ) × (s' : Files ℕ) × (file_new_descriptor counting 7 the_disk no_files ≡ some (fd, s'))
    × (fclose (pos fd) s' ≡ (pos 0, record no_files { world = 1 }))
fclose-file_new_descriptor_example =
    fclose-file_new_descriptor counting 7 0 the_disk no_files 1 (omega arith) refl refl

-- the path `0:/a` at 0, and the mode `r` at 5
abbrev names : Mem
names j = get_or (b'0' ∷ b':' ∷ b'/' ∷ b'a' ∷ 0 ∷ b'r' ∷ []) j 0

fopen-Opens_example : Opens no_files (fopen names 0 5 no_files).0 (fopen names 0 5 no_files).1
fopen-Opens_example = fopen-Opens names 0 5 no_files
