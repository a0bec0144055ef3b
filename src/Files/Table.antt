-- ===== src/Files/Table.antt =====
-- The table of descriptors: what an open takes, and what a close gives back.
use own_kernel.Prelude.{
  ap, ℕ, zero, suc, ◌+◌, ◌-◌, ◌≤◌, ◌<◌, ◌≡◌, ◌≢◌, refl, inl, inr, true, false, Bool-cases, Option,
  Option-cases, none, some, arith, ltb, leb, ◌==◌, update,
}
use own_kernel.Prelude.Int.{pos}
use own_kernel.Disk.{DiskPointer}
use own_kernel.Files.{
  max_file_descriptors, Filesystem, FileDescriptor, Files, free_slot, file_new_descriptor,
  file_get_descriptor,
}

-- The search finds the first null entry, and finds one if there is one.
pub free_slot_lem :
    {A : Type 0} (n i : ℕ) (table : ℕ → Option A) (j : ℕ)
    → i ≤ j
    → j < i + n
    → table j ≡ none
    → (r : ℕ) × (free_slot n i table ≡ some r) × (table r ≡ none) × (i ≤ r) × (r ≤ j)
unfolding free_slot
free_slot_lem zero i table j lo hi free = absurd (omega arith)
free_slot_lem (suc n) i table j lo hi free = elim (Option-cases (table i)) [
  | inl here ↦ (i, rw (here, free_slot) refl, here, omega arith, lo)
  | inr (a, used) ↦
      let past : i ≢ j = λ e. let same : table i ≡ table j = ap table e in cc in
      let (r, found, is_free, lo', hi') =
        free_slot_lem n (i + 1) table j (omega arith) (omega arith) free in
      (r, rw (used, free_slot) found, is_free, omega arith, hi')
]

pub free_slot-none :
    {A : Type 0} (n i : ℕ) (table : ℕ → Option A)
    → ((j : ℕ) → i ≤ j → j < i + n → table j ≢ none)
    → free_slot n i table ≡ none
unfolding free_slot
free_slot-none zero i table full = refl
free_slot-none (suc n) i table full = elim (Option-cases (table i)) [
  | inl here ↦ absurd (full i (omega arith) (omega arith) here)
  | inr (a, used) ↦
      rw (used, free_slot)
        (free_slot-none n (i + 1) table λ j lo hi. full j (omega arith) (omega arith))
]

pub free_slot-some :
    {A : Type 0} (n i r : ℕ) (table : ℕ → Option A)
    → free_slot n i table ≡ some r
    → (table r ≡ none) × (i ≤ r) × (r < i + n)
unfolding free_slot
free_slot-some zero i r table found = cc
free_slot-some (suc n) i r table found = elim (Option-cases (table i)) [
  | inl here ↦
      let e : i ≡ r = ground (arith, rw (here, free_slot) at found) in
      (rw (← e) here, omega arith, omega arith)
  | inr (a, used) ↦
      let (is_free, lo, hi) = free_slot-some n (i + 1) r table (rw (used, free_slot) at found) in
      (is_free, omega arith, omega arith)
]

-- Each descriptor in the table knows its place.
pub record IsTable {World : Type 0} (s : Files World) : Type 0 where
  pub place : (i : ℕ) (d : FileDescriptor World) → s.file_descriptors i ≡ some d → d.index ≡ i + 1

-- the descriptor that an open puts into entry `r`
abbrev pub opened : {World : Type 0} → Filesystem World → ℕ → DiskPointer → ℕ → FileDescriptor World
opened fs private_data disk r = record {
  index = r + 1;
  filesystem = fs;
  private_data = private_data;
  disk = disk;
}

abbrev pub with_opened :
    {World : Type 0} → Filesystem World → ℕ → DiskPointer → ℕ → Files World → Files World
with_opened fs private_data disk r s = record s {
  file_descriptors = update s.file_descriptors r (some (opened fs private_data disk r));
}

pub new-at :
    {World : Type 0} (fs : Filesystem World) (private_data r : ℕ) (disk : DiskPointer)
    (s : Files World)
    → free_slot max_file_descriptors 0 s.file_descriptors ≡ some r
    → file_new_descriptor fs private_data disk s
      ≡ some (r + 1, with_opened fs private_data disk r s)
unfolding file_new_descriptor
new-at fs private_data r disk s found = rw (found, file_new_descriptor) refl

with_opened-IsTable :
    {World : Type 0} (fs : Filesystem World) (private_data r : ℕ) (disk : DiskPointer)
    (s : Files World)
    → IsTable s
    → IsTable (with_opened fs private_data disk r s)
with_opened-IsTable fs private_data r disk s is = record {
  place = λ i d e. elim (Bool-cases (i == r)) [
    | inl same ↦ let at : i ≡ r = ground arith in ground (arith, rw same at e)
    | inr other ↦ is.place i d (rw other at e)
  ];
}

pub get-opened :
    {World : Type 0} (fs : Filesystem World) (private_data r : ℕ) (disk : DiskPointer)
    (s : Files World)
    → r + 1 < max_file_descriptors
    → file_get_descriptor (pos (r + 1)) (with_opened fs private_data disk r s)
      ≡ some (opened fs private_data disk r)
unfolding file_get_descriptor
get-opened fs private_data r disk s bound =
    let e : r + 1 - 1 ≡ r = omega arith in
    let inside : leb max_file_descriptors (r + 1) ≡ false = ground arith in
    let nonzero : (r + 1 == 0) ≡ false = ground arith in
    let here : (r == r) ≡ true = ground arith in rw (inside, nonzero, e, here) refl

-- In a well-formed table, while an entry before the last is null, a new descriptor takes a null
-- entry, is found under the number that is returned, leaves every other entry, and keeps the table
-- well formed.
pub file_new_descriptor-get :
    {World : Type 0} (fs : Filesystem World) (private_data j : ℕ) (disk : DiskPointer)
    (s : Files World)
    → IsTable s
    → j + 1 < max_file_descriptors
    → s.file_descriptors j ≡ none
    → (r : ℕ) × (s' : Files World) × (file_new_descriptor fs private_data disk s ≡ some (r + 1, s'))
      × (s.file_descriptors r ≡ none)
      × (file_get_descriptor (pos (r + 1)) s' ≡ some (opened fs private_data disk r))
      × ((i : ℕ) → i ≢ r → s'.file_descriptors i ≡ s.file_descriptors i)
      × IsTable s'
file_new_descriptor-get fs private_data j disk s is bound free =
    let (r, found, is_free, lo, hi) =
      free_slot_lem max_file_descriptors 0 s.file_descriptors j (omega arith) (omega arith) free in
    (
      r,
      with_opened fs private_data disk r s,
      new-at fs private_data r disk s found,
      is_free,
      get-opened fs private_data r disk s (omega arith),
      λ i other. (let e : (i == r) ≡ false = ground arith in rw e refl),
      with_opened-IsTable fs private_data r disk s is,
    )

-- With every entry but the last in use, the last is given away, but the number that is returned
-- for it, 512, finds no descriptor.
pub file_new_descriptor_last :
    {World : Type 0} (fs : Filesystem World) (private_data : ℕ) (disk : DiskPointer)
    (s : Files World)
    → ((j : ℕ) → j < 511 → s.file_descriptors j ≢ none)
    → s.file_descriptors 511 ≡ none
    → (s' : Files World) × (file_new_descriptor fs private_data disk s ≡ some (512, s'))
      × (s'.file_descriptors 511 ≢ none)
      × (file_get_descriptor (pos 512) s' ≡ none)
file_new_descriptor_last fs private_data disk s full free =
    let (r, found, is_free, lo, hi) =
      free_slot_lem max_file_descriptors 0 s.file_descriptors 511 (omega arith) (omega arith)
        free in
    let last : r ≡ 511 = elim (Bool-cases (ltb r 511)) [
      | inl before ↦ absurd (full r (ground arith) is_free)
      | inr after ↦ ground arith
    ] in
    (
      with_opened fs private_data disk 511 s,
      new-at fs private_data 511 disk s (rw last at found),
      λ e. cc,
      unfold file_get_descriptor in refl,
    )
