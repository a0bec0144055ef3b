-- ===== src/Fat16/Items.antt =====
-- fat16.c from `fat16_clone_directory_item` to `fat16_get_directory_entry`: items that are allocated,
-- found by their name and freed. An item of a directory is given by its address in memory.
-- The local name buffer is a memory of its own, at address 0, with the part of the path behind it.
pub mod Kinds
use own_kernel.Prelude.{
  ℕ, zero, suc, ◌+◌, ◌-◌, ◌*◌, ◌%◌, ◌^◌, Bool, not, Option, none, some, ◌==◌, ltb, if◌then◌else◌,
  update, List, [], ◌∷◌, bit_and,
}
use own_kernel.Prelude.Int.{ℤ, pos, negsuc, is_ok, no_memory_error, invalid_argument_error}
use own_kernel.Memory.{Mem, memcpy}
use own_kernel.Disk.{Device}
use own_kernel.Strings.{istrncmp}
use own_kernel.PathParser.{Parts, max_path}
use own_kernel.Fat16.{
  FatDirectory, FatPrivate, item_size, attributes_of, to_word, of_word, fat16_get_first_cluster,
  fat16_cluster_to_sector,
}
use own_kernel.Fat16.Clusters.{fat16_read_internal}
use own_kernel.Fat16.Names.{fat16_get_full_relative_filename}
use own_kernel.Fat16.Directory.{
  FatFs, FatItem, directory_type, file_type, no_directory, zalloc, free,
  fat16_get_total_items_for_directory,
}

-- 0 is a null pointer.
unfoldable pub fat16_clone_directory_item : (item size : ℕ) → FatFs → ℕ × FatFs
fat16_clone_directory_item item size fs =
    let (item_copy, fs') = zalloc size fs in
    if ltb size item_size
    then (0, fs)
    else if item_copy == 0
    then (0, fs')
    else (item_copy, record fs' { memory = memcpy item_copy item size fs'.memory })

unfoldable pub fat16_free_directory : (directory : ℕ) → FatFs → FatFs
fat16_free_directory directory fs =
    let items : ℕ = (fs.directories directory).item in
    if directory == 0 then fs else free directory (if items == 0 then fs else free items fs)

unfoldable pub fat16_fat_item_free : (item : ℕ) → FatFs → FatFs
fat16_fat_item_free item fs =
    let pointer : ℕ = (fs.items item).pointer in
    free item (
      if (fs.items item).item_type == directory_type
      then fat16_free_directory pointer fs
      else if (fs.items item).item_type == file_type
      then free pointer fs
      else fs)

-- `sizeof(struct fat_directory)`
abbrev pub directory_struct_size : ℕ
directory_struct_size = 16

-- The directory at `directory` with its items at `items`, read from the clusters.
unfoldable pub load_items :
    Device → (directory items cluster directory_size : ℕ) → FatFs → Option (ℤ × FatFs)
load_items device directory items cluster directory_size fs =
    elim (fat16_read_internal device (directory_size + 1) fs.private_data cluster 0x00
      directory_size items fs.memory) [
        | none ↦ none
        | some (res, private_data, memory) ↦
            some (res, record fs { private_data = private_data; memory = memory })
      ]

-- `out:`
unfoldable pub load_out : (directory : ℕ) → ℤ × FatFs → ℕ × FatFs
load_out directory (res, fs) =
    (directory, if not (is_ok res) then fat16_free_directory directory fs else fs)

-- From the count of the items on, for the directory that was allocated.
unfoldable pub load_counted : Device → (fuel directory item : ℕ) → FatFs → Option (ℤ × FatFs)
load_counted device fuel directory item fs =
    let cluster : ℕ = fat16_get_first_cluster fs.memory item in
    elim (fat16_get_total_items_for_directory device fuel fs.private_data
      (fat16_cluster_to_sector fs.private_data cluster)) [
        | none ↦ none
        | some (total_items, private_data) ↦
            let directory_size : ℕ = to_word total_items * item_size % 2 ^ 32 in
            let (items, fs') = zalloc directory_size (record fs { private_data = private_data }) in
            let described : FatFs = record fs' {
              directories =
                  update fs'.directories directory
                    (record no_directory { item = items; total = total_items });
            } in
            let loaded = load_items device directory items cluster directory_size described in
            if items == 0 then some (no_memory_error, described) else loaded
      ]

unfoldable pub fat16_load_fat_directory : Device → (fuel item : ℕ) → FatFs → Option (ℕ × FatFs)
fat16_load_fat_directory device fuel item fs =
    let (directory, allocated) = zalloc directory_struct_size fs in
    let zeroed : FatFs = record allocated {
      directories = update allocated.directories directory no_directory;
    } in
    let loaded = load_counted device fuel directory item zeroed in
    if bit_and (attributes_of fs.memory item) 0x10 == 0
    then some (load_out 0 (invalid_argument_error, fs))
    else if directory == 0
    then some (load_out 0 (no_memory_error, allocated))
    else elim loaded [ none ↦ none | some result ↦ some (load_out directory result) ]

-- `sizeof(struct fat_item)`
abbrev pub fat_item_size : ℕ
fat_item_size = 8

unfoldable pub with_item : (address pointer item_type : ℕ) → FatFs → FatFs
with_item address pointer item_type fs = record fs {
  items = update fs.items address (record { pointer = pointer; item_type = item_type });
}

-- The branch for a subdirectory, for the item that was allocated at `f_item`.
unfoldable pub new_directory_item : Device → (fuel f_item item : ℕ) → FatFs → Option FatFs
new_directory_item device fuel f_item item fs =
    elim (fat16_load_fat_directory device fuel item fs) [
      | none ↦ none
      | some (directory, fs') ↦ some (with_item f_item directory directory_type fs')
    ]

-- What follows that branch.
unfoldable pub new_file_item : (f_item item : ℕ) → FatFs → ℕ × FatFs
new_file_item f_item item fs =
    let (copy, fs') = fat16_clone_directory_item item item_size fs in
    (f_item, with_item f_item copy file_type fs')

unfoldable pub fat16_new_fat_item_for_directory_item :
    Device → (fuel item : ℕ) → FatFs → Option (ℕ × FatFs)
fat16_new_fat_item_for_directory_item device fuel item fs =
    let (f_item, allocated) = zalloc fat_item_size fs in
    let zeroed : FatFs = with_item f_item 0 0 allocated in
    let directory = new_directory_item device fuel f_item item zeroed in
    if f_item == 0
    then some (0, allocated)
    else if bit_and (attributes_of fs.memory item) 0x10 == 0
    then some (new_file_item f_item item zeroed)
    else elim directory [ none ↦ none | some fs' ↦ some (new_file_item f_item item fs') ]

-- A text and the zeros behind it in its buffer.
unfoldable pub put_text : List ℕ → (address : ℕ) → Mem → Mem
put_text [] address m = update m address 0
put_text (c ∷ cs) address m = put_text cs (address + 1) (update m address c)

-- `istrncmp(tmp_filename, name, sizeof(tmp_filename)) == 0`, for the name of the item
unfoldable pub has_name : (fuel : ℕ) → Mem → (item : ℕ) → List ℕ → Option Bool
has_name fuel m item name =
    elim (fat16_get_full_relative_filename fuel m item 0 max_path
      (put_text name max_path (λ _. 0))) [
        | none ↦ none
        | some text ↦ some (is_ok (istrncmp text 0 max_path max_path))
      ]

-- The loop at item `i` with `n` rounds left.
unfoldable pub find_loop :
    Device → (fuel n i : ℕ) → FatDirectory → List ℕ → (f_item : ℕ) → FatFs → Option (ℕ × FatFs)
find_loop device fuel zero i directory name f_item fs = some (f_item, fs)
find_loop device fuel (suc n) i directory name f_item fs =
    let item : ℕ = directory.item + item_size * i in
    elim (has_name fuel fs.memory item name) [
      | none ↦ none
      | some found ↦
          let new =
            if found
            then fat16_new_fat_item_for_directory_item device fuel item fs
            else some (f_item, fs) in
          elim new [
            | none ↦ none
            | some (f_item', fs') ↦ find_loop device fuel n (i + 1) directory name f_item' fs'
          ]
    ]

abbrev pub rounds_of : ℤ → ℕ
rounds_of (pos n) = n
rounds_of (negsuc n) = 0

unfoldable pub fat16_find_item_in_directory :
    Device → (fuel : ℕ) → FatDirectory → List ℕ → FatFs → Option (ℕ × FatFs)
fat16_find_item_in_directory device fuel directory name fs =
    find_loop device fuel (rounds_of directory.total) 0 directory name 0 fs

-- The loop over the parts behind the first. A null item in it is a fault.
unfoldable pub entry_loop :
    Device
    → (fuel : ℕ) → Parts
    → (next_part : Option ℕ) → (current_item : ℕ) → FatFs
    → Option (ℕ × FatFs)
entry_loop device zero parts next_part current_item fs = none
entry_loop device (suc fuel) parts none current_item fs = some (current_item, fs)
entry_loop device (suc fuel) parts (some part) current_item fs =
    let item : FatItem = fs.items current_item in
    let descended : Option (ℕ × FatFs) =
      elim (fat16_find_item_in_directory device fuel (fs.directories item.pointer)
        (parts.cells part).part fs) [
          | none ↦ none
          | some (tmp_item, fs') ↦
              entry_loop device fuel parts (parts.cells part).next tmp_item
                (fat16_fat_item_free current_item fs')
        ] in
    if not (item.item_type == directory_type) then some (0, fs) else descended

unfoldable pub fat16_get_directory_entry :
    Device → (fuel : ℕ) → Parts → (path : ℕ) → FatFs → Option (ℕ × FatFs)
fat16_get_directory_entry device fuel parts path fs =
    elim (fat16_find_item_in_directory device fuel fs.private_data.root_directory
      (parts.cells path).part fs) [
        | none ↦ none
        | some (root_item, fs') ↦
            let rest = entry_loop device fuel parts (parts.cells path).next root_item fs' in
            if root_item == 0 then some (0, fs') else rest
      ]
