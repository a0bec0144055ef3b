-- ===== src/Heap.antt =====
-- src/memory/heap/heap.c, heap.h and kernelHeap.c: the block allocator behind `kernel_malloc`.
-- The table lies in memory: an entry past `total` can be read and written like any other.
-- The proofs are in the modules below.
pub mod Search
pub mod Marks
pub mod Alloc
pub mod Grants
pub mod Disjoint
pub mod Single
pub mod Room
use own_kernel.Prelude.{
  ℕ, zero, suc, ◌+◌, ◌-◌, ◌*◌, ◌/◌, ◌%◌, ◌^◌, Bool, true, false, not, ◌||◌, Option, none, some,
  bit_and, bit_or, ◌==◌, ltb, if◌then◌else◌, update,
}
use own_kernel.Prelude.Int.{ℤ, pos, is_err, invalid_argument_error}

abbrev pub heap_block_size : ℕ
heap_block_size = 4096

abbrev pub taken : ℕ
taken = 0x01

abbrev pub is_first : ℕ
is_first = 0b01000000

abbrev pub has_next : ℕ
has_next = 0b10000000

-- `struct heap_table`: what `entries` points at, and `total`
pub record HeapTable : Type 0 where
  pub entries : ℕ → ℕ
  pub total : ℕ

pub record Heap : Type 0 where
  pub table : HeapTable
  pub open table use *
  pub start_address : ℕ

-- A C `bool`: `return -INVALID_ARGUMENT_ERROR` is `true`, a non-zero value.
unfoldable pub heap_validate_table : (ptr end : ℕ) → HeapTable → Bool
heap_validate_table ptr end table =
    if table.total == (end + 2 ^ 32 - ptr) % 2 ^ 32 / heap_block_size then false else true

unfoldable pub heap_validate_alignment : ℕ → Bool
heap_validate_alignment ptr = ptr % heap_block_size == 0

-- `memset(table->entries, FREE, total)`
unfoldable pub clear_entries : ℕ → (ℕ → ℕ) → ℕ → ℕ
clear_entries total entries i = if ltb i total then 0 else entries i

abbrev pub int_of_bool : Bool → ℤ
int_of_bool true = pos 1
int_of_bool false = pos 0

-- The early returns leave the heap as it was, or set but with the table not cleared.
unfoldable pub heap_create : Heap → (ptr end : ℕ) → HeapTable → ℤ × Heap
heap_create heap ptr end table =
    if not (heap_validate_alignment ptr) || not (heap_validate_alignment end)
    then (invalid_argument_error, heap)
    else let res = int_of_bool (heap_validate_table ptr end table) in
      if is_err res then (res, record { table = table; start_address = ptr }) else (
        res,
        record {
          table = record table { entries = clear_entries table.total table.entries };
          start_address = ptr;
        },
      )

-- `uint32_t` addition wraps.
unfoldable pub heap_align_value_to_upper : ℕ → ℕ
heap_align_value_to_upper val =
    if val % heap_block_size == 0
    then val
    else (val - val % heap_block_size + heap_block_size) % 2 ^ 32

unfoldable pub heap_get_entry_type : ℕ → ℕ
heap_get_entry_type entry = bit_and entry 0x0f

-- `block_start` after the test `block_start == -1`
abbrev pub run_start : Option ℕ → ℕ → ℕ
run_start none i = i
run_start (some s) i = s

-- The loop at block `i` with `n` rounds left; `none` is a `block_start` of -1.
unfoldable pub find_start : (entries : ℕ → ℕ) (total_blocks n i : ℕ) → Option ℕ → ℕ → Option ℕ
find_start entries total_blocks zero i start current = start
find_start entries total_blocks (suc n) i start current =
    let restart = find_start entries total_blocks n (i + 1) none 0 in
    let first = run_start start i in
    let longer = find_start entries total_blocks n (i + 1) (some first) (current + 1) in
    if heap_get_entry_type (entries i) == 0
    then (if current + 1 == total_blocks then some first else longer)
    else restart

-- `none` is `-NO_MEMORY_ERROR`.
unfoldable pub heap_get_start_block : Heap → ℕ → Option ℕ
heap_get_start_block heap total_blocks = find_start heap.entries total_blocks heap.total 0 none 0

unfoldable pub heap_block_to_address : Heap → ℕ → ℕ
heap_block_to_address heap block = (heap.start_address + block * heap_block_size) % 2 ^ 32

-- The loop at block `i` with `n` rounds left, and `entry` the value that it writes next.
unfoldable pub mark_taken : (n i end_block entry : ℕ) → (ℕ → ℕ) → ℕ → ℕ
mark_taken zero i end_block entry entries = entries
mark_taken (suc n) i end_block entry entries =
    mark_taken n (i + 1) end_block (if i + 1 == end_block then taken else bit_or taken has_next)
      (update entries i entry)

-- From `start_block` to `start_block + total_blocks - 1` the loop makes `total_blocks` rounds.
unfoldable pub heap_mark_blocks_taken : Heap → (start_block total_blocks : ℕ) → Heap
heap_mark_blocks_taken heap start_block total_blocks = record heap {
  table = record heap.table {
    entries =
        mark_taken total_blocks start_block (start_block + total_blocks - 1)
          (if ltb 1 total_blocks
            then bit_or (bit_or taken is_first) has_next
            else bit_or taken is_first)
          heap.entries;
  };
}

-- A null pointer is the address 0.
unfoldable pub heap_malloc_blocks : Heap → ℕ → ℕ × Heap
heap_malloc_blocks heap total_blocks = elim (heap_get_start_block heap total_blocks) [
  | none ↦ (0, heap)
  | some start_block ↦
      (heap_block_to_address heap start_block, heap_mark_blocks_taken heap start_block total_blocks)
]

-- The difference is a signed `int`, and its quotient rounds towards zero; what is returned is read
-- as a `size_t` by the only caller.
unfoldable pub heap_address_to_block : Heap → ℕ → ℕ
heap_address_to_block heap address =
    let difference : ℕ = (address + 2 ^ 32 - heap.start_address) % 2 ^ 32 in
    if ltb difference (2 ^ 31)
    then difference / heap_block_size
    else (2 ^ 32 - (2 ^ 32 - difference) / heap_block_size) % 2 ^ 32

-- The loop at block `i` with `n` rounds left.
unfoldable pub mark_free : (n i : ℕ) → (ℕ → ℕ) → ℕ → ℕ
mark_free zero i entries = entries
mark_free (suc n) i entries =
    let rest = mark_free n (i + 1) (update entries i 0) in
    if bit_and (entries i) has_next == 0 then update entries i 0 else rest

unfoldable pub heap_mark_blocks_free : Heap → ℕ → Heap
heap_mark_blocks_free heap starting_block = record heap {
  table = record heap.table {
    entries = mark_free (heap.total - starting_block) starting_block heap.entries;
  };
}

unfoldable pub heap_malloc : Heap → ℕ → ℕ × Heap
heap_malloc heap size = heap_malloc_blocks heap (heap_align_value_to_upper size / heap_block_size)

unfoldable pub heap_free : Heap → ℕ → Heap
heap_free heap ptr = heap_mark_blocks_free heap (heap_address_to_block heap ptr)
