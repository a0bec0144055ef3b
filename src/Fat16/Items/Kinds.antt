-- ===== src/Fat16/Items/Kinds.antt =====
-- The kind of the items that a search gives.
use own_kernel.Prelude.{
  ℕ, zero, suc, ◌+◌, ◌*◌, ◌≡◌, refl, ◌⊎◌, inl, inr, Bool-cases, true, false, Bool, Option, some,
  none, List, arith, ◌==◌, if◌then◌else◌, bit_and,
}
use own_kernel.Disk.{Device}
use own_kernel.PathParser.{Parts}
use own_kernel.Fat16.{FatDirectory, attributes_of, item_size}
use own_kernel.Fat16.Directory.{FatFs, file_type, directory_type, zalloc}
use own_kernel.Fat16.Items.{
  with_item, new_directory_item, new_file_item, fat_item_size,
  fat16_new_fat_item_for_directory_item, has_name, find_loop, rounds_of,
  fat16_find_item_in_directory, entry_loop, fat16_get_directory_entry,
}

-- a null pointer, or an item of the type for files
abbrev pub IsFileOrNull : FatFs → ℕ → Type 0
IsFileOrNull fs item = (item ≡ 0) ⊎ ((fs.items item).item_type ≡ file_type)

-- The same of a result, if there is one.
abbrev pub FindsFile : Option (ℕ × FatFs) → Type 0
FindsFile none = true ≡ true
FindsFile (some (item, fs)) = IsFileOrNull fs item

new_file_item-FindsFile :
    (f_item item : ℕ) (fs : FatFs) → FindsFile (some (new_file_item f_item item fs))
unfolding new_file_item with_item
new_file_item-FindsFile f_item item fs =
    let self : (f_item == f_item) ≡ true = ground arith in inr (rw self refl)

FindsFile-if :
    (b : Bool) (x y : Option (ℕ × FatFs))
    → FindsFile x
    → FindsFile y
    → FindsFile (if b then x else y)
FindsFile-if true x y first second = first
FindsFile-if false x y first second = second

FindsFile-elim :
    {A : Type 0} (x : Option A) (after : A → Option (ℕ × FatFs))
    → ((a : A) → FindsFile (after a))
    → FindsFile (elim x [ none ↦ none | some a ↦ after a ])
FindsFile-elim none after rest = refl
FindsFile-elim (some a) after rest = rest a

FindsFile-then :
    (x : Option (ℕ × FatFs))
    → FindsFile x
    → (after : ℕ × FatFs → Option (ℕ × FatFs))
    → ((item : ℕ) (fs : FatFs) → IsFileOrNull fs item → FindsFile (after (item, fs)))
    → FindsFile (elim x [ none ↦ none | some a ↦ after a ])
FindsFile-then none kind after rest = refl
FindsFile-then (some (item, fs)) kind after rest = rest item fs kind

fat16_new_fat_item_for_directory_item-FindsFile :
    (device : Device) (fuel item : ℕ) (fs : FatFs)
    → FindsFile (fat16_new_fat_item_for_directory_item device fuel item fs)
unfolding fat16_new_fat_item_for_directory_item
fat16_new_fat_item_for_directory_item-FindsFile device fuel item fs =
    let (f_item, allocated) = zalloc fat_item_size fs in
    let zeroed : FatFs = with_item f_item 0 0 allocated in
    elim (Bool-cases (f_item == 0)) [
      | inl null ↦ rw null (inl refl)
      | inr other ↦ rw other (
          FindsFile-if (bit_and (attributes_of fs.memory item) 0x10 == 0) _ _
            (new_file_item-FindsFile f_item item zeroed)
            (FindsFile-elim (new_directory_item device fuel f_item item zeroed) _
              (new_file_item-FindsFile f_item item)))
    ]

find_loop-FindsFile :
    (device : Device) (fuel n i : ℕ) (directory : FatDirectory) (name : List ℕ) (f_item : ℕ)
    (fs : FatFs)
    → IsFileOrNull fs f_item
    → FindsFile (find_loop device fuel n i directory name f_item fs)
unfolding find_loop
find_loop-FindsFile device fuel zero i directory name f_item fs kind = kind
find_loop-FindsFile device fuel (suc n) i directory name f_item fs kind =
    let item : ℕ = directory.item + item_size * i in
    FindsFile-elim (has_name fuel fs.memory item name) _ λ found.
      let new : Option (ℕ × FatFs) =
        if found
        then fat16_new_fat_item_for_directory_item device fuel item fs
        else some (f_item, fs) in
      FindsFile-then new
        (FindsFile-if found _ _
          (fat16_new_fat_item_for_directory_item-FindsFile device fuel item fs) kind)
        _
        λ f_item' fs' kind'.
          find_loop-FindsFile device fuel n (i + 1) directory name f_item' fs' kind'

entry_loop_file :
    (device : Device) (fuel : ℕ) (parts : Parts) (part item : ℕ) (fs : FatFs)
    → (fs.items item).item_type ≡ file_type
    → entry_loop device (suc fuel) parts (some part) item fs ≡ some (0, fs)
unfolding entry_loop
entry_loop_file device fuel parts part item fs kind =
    let other : ((fs.items item).item_type == directory_type) ≡ false = ground arith in
    rw (other) refl

-- The path of more than one part gives a null pointer, whatever the search for its first part gives:
-- an item that is found is of the type for files, also where it is a directory.
pub fat16_get_directory_entry_nested :
    (device : Device) (fuel : ℕ) (parts : Parts) (path next root_item : ℕ) (fs fs' : FatFs)
    → (parts.cells path).next ≡ some next
    → fat16_find_item_in_directory device
        (suc fuel)
        fs.private_data.root_directory
        (parts.cells path).part
        fs
      ≡ some (root_item, fs')
    → fat16_get_directory_entry device (suc fuel) parts path fs ≡ some (0, fs')
unfolding fat16_get_directory_entry fat16_find_item_in_directory
fat16_get_directory_entry_nested device fuel parts path next root_item fs fs' more found =
    let directory = fs.private_data.root_directory in
    let kind : FindsFile (some (root_item, fs')) = rw found at (
      find_loop-FindsFile device (suc fuel) (rounds_of directory.total) 0 directory
        (parts.cells path).part 0 fs (inl refl)) in
    elim (Bool-cases (root_item == 0)) [
      | inl null ↦ rw (found, fat16_get_directory_entry, null) refl
      | inr other ↦ elim kind [
        | inl null ↦ absurd (ground arith)
        | inr is_file ↦
            rw (found, fat16_get_directory_entry, other, more)
              (entry_loop_file device fuel parts next root_item fs' is_file)
      ]
    ]
