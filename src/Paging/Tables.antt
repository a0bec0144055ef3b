-- ===== src/Paging/Tables.antt =====
-- One entry of a well-formed directory: what is written is read, and every other page keeps its entry.
use own_kernel.Prelude.{
  ltb, ap, ℕ, ◌+◌, ◌-◌, ◌*◌, ◌/◌, ◌%◌, ◌^◌, ◌≤◌, ◌<◌, ◌≡◌, ◌≢◌, ◌⊎◌, inl, inr, Bool-cases, arith,
  ◌==◌, if◌then◌else◌, bit_and, update,
}
use own_kernel.Prelude.Int.{all_ok, invalid_argument_error}
use own_kernel.Paging.{
  Words, page_size, entries_per_table, frame_bits, paging_is_aligned, paging_get_indexes,
  paging_align_to_lower_page, paging_align_address, entry_address, paging_set_physical_address,
  paging_get,
}

-- The directory at `dir` names 1024 tables, each a page, and no two of these pages meet.
pub record IsChunk (w : Words) (dir : ℕ) (table : ℕ → ℕ) : Type 0 where
  pub entry : (i : ℕ) → i < entries_per_table → bit_and (w (dir + 4 * i)) frame_bits ≡ table i
  pub apart :
      (i j : ℕ)
      → i < entries_per_table
      → j < entries_per_table
      → i < j
      → (table i + page_size ≤ table j) ⊎ (table j + page_size ≤ table i)
  pub dir_apart :
      (i : ℕ) → i < entries_per_table → (table i + page_size ≤ dir) ⊎ (dir + page_size ≤ table i)

abbrev pub dir_index : ℕ → ℕ
dir_index va = va / (entries_per_table * page_size)

abbrev pub table_index : ℕ → ℕ
table_index va = va % (entries_per_table * page_size) / page_size

-- The indexes of an aligned 32-bit address are in range and determine it; an address that is not
-- aligned is an error.
pub paging_get_indexes_lem :
    (va : ℕ)
    → va < 2 ^ 32
    → ((va % page_size ≡ 0)
        × (paging_get_indexes va ≡ (all_ok, dir_index va, table_index va))
        × (dir_index va < entries_per_table)
        × (table_index va < entries_per_table)
        × (dir_index va * (entries_per_table * page_size) + table_index va * page_size ≡ va))
      ⊎ ((va % page_size ≢ 0) × (paging_get_indexes va ≡ (invalid_argument_error, 0, 0)))
unfolding paging_get_indexes paging_is_aligned
paging_get_indexes_lem va small = elim (Bool-cases (va % page_size == 0)) [
  | inl aligned ↦ inl (ground arith, rw aligned, omega arith, omega arith, ground arith)
  | inr odd ↦ inr (ground arith, rw odd)
]

-- Rounding down and up to a page.
pub align_bounds :
    (p : ℕ)
    → p ≤ 2 ^ 32 - page_size
    → (paging_align_to_lower_page p % page_size ≡ 0)
      × (paging_align_to_lower_page p ≤ p)
      × (p < paging_align_to_lower_page p + page_size)
      × (paging_align_address p % page_size ≡ 0)
      × (p ≤ paging_align_address p)
      × (paging_align_address p < p + page_size)
unfolding paging_align_to_lower_page paging_align_address
align_bounds p small = ground arith

-- the address of the entry of a page
abbrev pub slot : (ℕ → ℕ) → ℕ → ℕ
slot table va = table (dir_index va) + 4 * table_index va

module _ {w : Words} {dir : ℕ} {table : ℕ → ℕ} (is : IsChunk w dir table) where
  pub get-slot :
      (va : ℕ) → va < 2 ^ 32 → va % page_size ≡ 0 → paging_get dir va w ≡ w (slot table va)
  unfolding paging_get paging_get_indexes paging_is_aligned entry_address
  get-slot va small aligned = rw (aligned, is.entry (dir_index va) (omega arith))

  pub set-slot :
      (va val : ℕ)
      → va < 2 ^ 32
      → va % page_size ≡ 0
      → paging_set_physical_address dir va val w ≡ (all_ok, update w (slot table va) val)
  unfolding paging_set_physical_address paging_get_indexes paging_is_aligned entry_address
  set-slot va val small aligned = rw (aligned, is.entry (dir_index va) (omega arith))

  pub slot-ne_dir : (va i : ℕ) → va < 2 ^ 32 → i < entries_per_table → dir + 4 * i ≢ slot table va
  slot-ne_dir va i small bound e = ground (arith, is.dir_apart (dir_index va) (omega arith))

  -- Pages with different addresses have different slots.
  pub slot-injective :
      (va va' : ℕ)
      → va < 2 ^ 32
      → va' < 2 ^ 32
      → va % page_size ≡ 0
      → va' % page_size ≡ 0
      → slot table va ≡ slot table va'
      → va ≡ va'
  slot-injective va va' small small' aligned aligned' e =
      elim (Bool-cases (dir_index va == dir_index va')) [
        | inl same ↦
            let i : dir_index va ≡ dir_index va' = ground arith in omega (arith, ap table i)
        | inr other ↦ elim (Bool-cases (ltb (dir_index va) (dir_index va'))) [
          | inl before ↦
              absurd (
                ground (arith, is.apart (dir_index va) (dir_index va') (omega arith) (omega arith)))
          | inr after ↦
              absurd (
                ground (arith, is.apart (dir_index va') (dir_index va) (omega arith) (omega arith)))
        ]
      ]

  -- A write to a table keeps the directory.
  pub update-IsChunk : (va val : ℕ) → va < 2 ^ 32 → IsChunk (update w (slot table va) val) dir table
  update-IsChunk va val small = record {
    entry = λ i bound. ground (arith, slot-ne_dir va i small bound, is.entry i bound);
    apart = is.apart;
    dir_apart = is.dir_apart;
  }

-- A write is read back, at its page and at no other.
pub paging_get-set :
    {w : Words} {dir : ℕ} {table : ℕ → ℕ} (va va' val : ℕ)
    → IsChunk w dir table
    → va < 2 ^ 32
    → va' < 2 ^ 32
    → va % page_size ≡ 0
    → va' % page_size ≡ 0
    → paging_get dir va' (paging_set_physical_address dir va val w).1
      ≡ (if va' == va then val else paging_get dir va' w)
paging_get-set {w} {dir} {table} va va' val is small small' aligned aligned' =
    rw (set-slot is va val small aligned) (
      ground (
        arith,
        get-slot (update-IsChunk is va val small) va' small' aligned',
        get-slot is va' small' aligned',
        slot-injective is va' va small' small aligned' aligned,
        ap (slot table) {x = va'} {y = va},
      ))

-- An address that is not aligned is refused, and nothing is written.
pub paging_set-unaligned :
    (dir va val : ℕ) (w : Words)
    → va % page_size ≢ 0
    → paging_set_physical_address dir va val w ≡ (invalid_argument_error, w)
unfolding paging_set_physical_address paging_get_indexes paging_is_aligned
paging_set-unaligned dir va val w odd = ground arith
