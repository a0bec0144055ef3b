-- ===== src/Paging.antt =====
-- src/memory/paging/paging.c: page directories in memory, their entries read and written.
-- Memory is taken by 32-bit words: a function from the address of a word to the word. The load of
-- the processor's directory register (paging.asm) is the new `current_directory`.
pub mod Tables
pub mod Mapping
pub mod Chunks
pub mod Success
pub mod Fill
pub mod Identity
use own_kernel.Prelude.{
  ℕ, zero, suc, ◌+◌, ◌-◌, ◌*◌, ◌/◌, ◌%◌, ◌^◌, Bool, true, false, ◌||◌, not, ◌==◌, ltb,
  if◌then◌else◌, bit_and, bit_or, update,
}
use own_kernel.Prelude.Int.{ℤ, pos, is_err, all_ok, invalid_argument_error}

abbrev pub Words : Type 0
Words = ℕ → ℕ

abbrev pub page_size : ℕ
page_size = 4096

abbrev pub entries_per_table : ℕ
entries_per_table = 1024

-- `struct paging_4gb_chunk`: the address of the directory
pub record Chunk : Type 0 where
  pub directory_entry : ℕ

abbrev pub frame_bits : ℕ
frame_bits = 0xFFFFF000

-- Returns `current_directory`, which the processor uses from here on.
unfoldable pub paging_switch : Chunk → ℕ
paging_switch directory = directory.directory_entry

unfoldable pub paging_4gb_chunk_get_directory : Chunk → ℕ
paging_4gb_chunk_get_directory chunk = chunk.directory_entry

unfoldable pub paging_is_aligned : ℕ → Bool
paging_is_aligned address = address % page_size == 0

-- The result and the two numbers that go out, which the callers have set to 0.
unfoldable pub paging_get_indexes : ℕ → ℤ × ℕ × ℕ
paging_get_indexes virtual_address =
    if paging_is_aligned virtual_address
    then (
      all_ok,
      virtual_address / (entries_per_table * page_size),
      virtual_address % (entries_per_table * page_size) / page_size,
    )
    else (invalid_argument_error, 0, 0)

unfoldable pub paging_align_to_lower_page : ℕ → ℕ
paging_align_to_lower_page addr = addr - addr % page_size

unfoldable pub paging_align_address : ℕ → ℕ
paging_align_address ptr =
    if ptr % page_size == 0 then ptr else (ptr + page_size - ptr % page_size) % 2 ^ 32

-- `&table[table_index]`, of the table that the directory's entry names
unfoldable pub entry_address : Words → (directory directory_index table_index : ℕ) → ℕ
entry_address w directory directory_index table_index =
    bit_and (w (directory + 4 * directory_index)) frame_bits + 4 * table_index

unfoldable pub paging_set_physical_address : (directory virtual_address val : ℕ) → Words → ℤ × Words
paging_set_physical_address directory virtual_address val w =
    let (res, directory_index, table_index) = paging_get_indexes virtual_address in
    if not (paging_is_aligned virtual_address)
    then (invalid_argument_error, w)
    else if is_err res
    then (res, w)
    else (all_ok, update w (entry_address w directory directory_index table_index) val)

unfoldable pub paging_map : Chunk → (virtual_address physical_address flags : ℕ) → Words → ℤ × Words
paging_map directory virtual_address physical_address flags w =
    if not (virtual_address % page_size == 0) || not (physical_address % page_size == 0)
    then (invalid_argument_error, w)
    else paging_set_physical_address directory.directory_entry virtual_address
        (bit_or physical_address flags) w

-- The loop with `total_pages` rounds left; `res` is the result of the round before.
unfoldable pub map_range_loop :
    (total_pages : ℕ) → Chunk → (virtual_address physical_address flags : ℕ) → ℤ → Words → ℤ × Words
map_range_loop zero directory virtual_address physical_address flags res w = (res, w)
map_range_loop (suc n) directory virtual_address physical_address flags res w =
    let (res', w') = paging_map directory virtual_address physical_address flags w in
    let rest =
      map_range_loop n directory ((virtual_address + page_size) % 2 ^ 32)
        ((physical_address + page_size) % 2 ^ 32) flags res' w' in
    if is_err res' then (res', w') else rest

unfoldable pub paging_map_range :
    Chunk → (virtual_address physical_address total_pages flags : ℕ) → Words → ℤ × Words
paging_map_range directory virtual_address physical_address total_pages flags w =
    map_range_loop total_pages directory virtual_address physical_address flags all_ok w

-- The addresses are pointers, below 2 ^ 32: an end at 2 ^ 32 is not one of them.
unfoldable pub paging_map_to :
    Chunk → (virtual_address physical_address physical_end_address flags : ℕ) → Words → ℤ × Words
paging_map_to directory virtual_address physical_address physical_end_address flags w =
    if not (virtual_address % page_size == 0)
    then (invalid_argument_error, w)
    else if not (physical_address % page_size == 0)
    then (invalid_argument_error, w)
    else if not (physical_end_address % page_size == 0)
    then (invalid_argument_error, w)
    else if ltb physical_end_address physical_address
    then (invalid_argument_error, w)
    else paging_map_range directory virtual_address physical_address
        ((physical_end_address - physical_address) / page_size) flags w

-- The result of `paging_get_indexes` is not looked at.
unfoldable pub paging_get : (directory virtual_address : ℕ) → Words → ℕ
paging_get directory virtual_address w =
    let (res, directory_index, table_index) = paging_get_indexes virtual_address in
    w (entry_address w directory directory_index table_index)

unfoldable pub paging_get_physical_address : (directory virtual_address : ℕ) → Words → ℕ
paging_get_physical_address directory virtual_address w =
    let page : ℕ = paging_align_to_lower_page virtual_address in
    (bit_and (paging_get directory page w) frame_bits + (virtual_address - page)) % 2 ^ 32
