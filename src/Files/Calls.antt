-- ===== src/Files/Calls.antt =====
-- What `fopen`, `fclose` and the calls between them do with the table.
use own_kernel.Prelude.{
  ℕ, ◌+◌, ◌-◌, ◌^◌, ◌<◌, ◌≡◌, ◌≢◌, refl, sym, fun_ext, inl, inr, Bool-cases, Option, Option-cases,
  none, some, arith, leb, ◌==◌, update,
}
use own_kernel.Prelude.Int.{ℤ, pos, no_memory_error}
use own_kernel.Memory.{Mem}
use own_kernel.Disk.{DiskPointer, disk_get}
use own_kernel.PathParser.{Parts, pathparser_parse}
use own_kernel.Files.{
  max_file_descriptors, Filesystem, FileDescriptor, Files, FileMode, free_slot,
  file_free_descriptor, file_new_descriptor, file_get_mode_by_string, is_invalid, open_on, open_in,
  has_first, fopen, fclose,
}
use own_kernel.Files.Table.{opened, with_opened, new-at, free_slot_lem, free_slot-some, get-opened}

free-opened :
    {World : Type 0} (fs : Filesystem World) (private_data r : ℕ) (disk : DiskPointer)
    (s : Files World)
    → s.file_descriptors r ≡ none
    → update (with_opened fs private_data disk r s).file_descriptors (r + 1 - 1) none
      ≡ s.file_descriptors
free-opened fs private_data r disk s free =
    let e : r + 1 - 1 ≡ r = omega arith in
    rw e (
      fun_ext λ i. elim (Bool-cases (i == r)) [
        | inl same ↦ let at : i ≡ r = ground arith in rw same (rw at (sym free))
        | inr other ↦ rw other refl
      ])

-- A file that was opened while an entry before the last was null, and that its file system closes,
-- leaves the table of descriptors as it was before it was opened.
pub fclose-file_new_descriptor :
    {World : Type 0} (fs : Filesystem World) (private_data j : ℕ) (disk : DiskPointer)
    (s : Files World) (world : World)
    → j + 1 < max_file_descriptors
    → s.file_descriptors j ≡ none
    → fs.close_file private_data s.world ≡ (pos 0, world)
    → (fd : ℕ) × (s' : Files World) × (file_new_descriptor fs private_data disk s ≡ some (fd, s'))
      × (fclose (pos fd) s' ≡ (pos 0, record s { world = world }))
unfolding fclose file_free_descriptor
fclose-file_new_descriptor fs private_data j disk s world bound free closes =
    let (r, found, is_free, lo, hi) =
      free_slot_lem max_file_descriptors 0 s.file_descriptors j (omega arith) (omega arith) free in
    (
      r + 1,
      with_opened fs private_data disk r s,
      new-at fs private_data r disk s found,
      rw (get-opened fs private_data r disk s (omega arith), fclose)
          (rw (closes, free-opened fs private_data r disk s is_free) refl),
    )

-- What a call of `fopen` may come to.
pub data Opens {World : Type 0} (s : Files World) : ℤ → Files World → Type 0 where
  refused : {s' : Files World} → s'.file_descriptors ≡ s.file_descriptors → Opens s (pos 0) s'
  full :
      {s' : Files World}
      → s'.file_descriptors ≡ s.file_descriptors
      → ((j : ℕ) → j < max_file_descriptors → s.file_descriptors j ≢ none)
      → Opens s no_memory_error s'
  granted :
      {s' : Files World} (r : ℕ) (d : FileDescriptor World)
      → r < max_file_descriptors
      → s.file_descriptors r ≡ none
      → s'.file_descriptors ≡ update s.file_descriptors r (some d)
      → d.index ≡ r + 1
      → Opens s (pos (r + 1)) s'

none_full :
    {A : Type 0} (table : ℕ → Option A)
    → free_slot max_file_descriptors 0 table ≡ none
    → (j : ℕ) → j < max_file_descriptors
    → table j ≢ none
none_full table all j bound free =
    let (r, found, is_free, lo, hi) =
      free_slot_lem max_file_descriptors 0 table j (omega arith) bound free in
    cc

new-none :
    {World : Type 0} (fs : Filesystem World) (private_data : ℕ) (disk : DiskPointer)
    (s : Files World)
    → free_slot max_file_descriptors 0 s.file_descriptors ≡ none
    → file_new_descriptor fs private_data disk s ≡ none
unfolding file_new_descriptor
new-none fs private_data disk s all = rw (all, file_new_descriptor) refl

open_on-Opens :
    {World : Type 0} (fs : Filesystem World) (disk : DiskPointer) (parts : Parts) (mode : FileMode)
    (s : Files World)
    → Opens s (open_on fs disk parts mode s).0 (open_on fs disk parts mode s).1
unfolding open_on
open_on-Opens {World = World} fs disk parts mode s =
    let private_data : ℕ = (fs.open_file disk parts mode s.world).0 in
    let s1 : Files World = record s { world = (fs.open_file disk parts mode s.world).1 } in
    elim (Bool-cases (is_invalid mode)) [
      | inl bad ↦ rw bad (refused refl)
      | inr good ↦ elim (Bool-cases (leb (2 ^ 31) private_data)) [
        | inl failed ↦ rw (good, failed) (refused refl)
        | inr done ↦ elim (Option-cases (free_slot max_file_descriptors 0 s.file_descriptors)) [
          | inl all ↦
              rw (good, done, new-none fs private_data disk s1 all)
                (full refl (none_full s.file_descriptors all))
          | inr (r, found) ↦
              let (free, lo, hi) =
                free_slot-some max_file_descriptors 0 r s.file_descriptors found in
              rw (good, done, new-at fs private_data r disk s1 found)
                (granted r (opened fs private_data disk r) (omega arith) free refl refl)
        ]
      ]
    ]

open_in-Opens :
    {World : Type 0} (found : Option (Filesystem World)) (disk : DiskPointer) (parts : Parts)
    (mode : FileMode) (s : Files World)
    → Opens s (open_in found disk parts mode s).0 (open_in found disk parts mode s).1
unfolding open_in
open_in-Opens none disk parts mode s = refused refl
open_in-Opens (some fs) disk parts mode s = open_on-Opens fs disk parts mode s

-- Every call of `fopen` gives 0 and leaves the table, or gives the error of a full table and leaves
-- it, or gives the number of one entry that was null and now holds the descriptor of that number.
pub fopen-Opens :
    {World : Type 0} (m : Mem) (filename mode_str : ℕ) (s : Files World)
    → Opens s (fopen m filename mode_str s).0 (fopen m filename mode_str s).1
unfolding fopen
fopen-Opens m filename mode_str s = elim (Option-cases (pathparser_parse m filename)) [
  | inl no_path ↦ rw (no_path, fopen) (refused refl)
  | inr ((root, parts), path) ↦ elim (Bool-cases (has_first root)) [
    | inr only_root ↦ rw (path, fopen, only_root) (refused refl)
    | inl below ↦ elim (Option-cases (disk_get root.drive_number)) [
      | inl no_disk ↦ rw (path, fopen, below, no_disk) (refused refl)
      | inr (disk, at) ↦
          rw (path, fopen, below, at)
            (open_in-Opens s.disk_filesystem disk parts (file_get_mode_by_string m mode_str) s)
    ]
  ]
]
