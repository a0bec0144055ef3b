-- ===== src/Process/Allocations.antt =====
-- What `process_free` does with the table, and what a free of a new allocation restores.
use own_kernel.Prelude.{
  ℕ, ◌+◌, ◌-◌, ◌*◌, ◌%◌, ◌^◌, ◌≤◌, ◌<◌, ◌≡◌, ◌≢◌, refl, ◌∙◌, sym, ap, inl, inr, Bool-cases, some,
  true, false, arith, ◌==◌, update,
}
use own_kernel.Prelude.Int.{all_ok}
use own_kernel.Memory.{Mem, memset}
use own_kernel.Heap.{Heap, heap_block_size, heap_malloc, heap_get_entry_type}
use own_kernel.Heap.Search.{FreeRun}
use own_kernel.Heap.Alloc.{IsHeap, blocks}
use own_kernel.Heap.Grants.{heap_malloc-IsGrant, heap_free-heap_malloc}
use own_kernel.KernelHeap.{kernel_malloc, kernel_zalloc, kernel_free}
use own_kernel.Paging.{Words, page_size, paging_map_to, paging_align_address}
use own_kernel.Paging.Tables.{align_bounds}
use own_kernel.Paging.Success.{paging_map_to-all_ok}
use own_kernel.Process.{
  Allocation, no_allocation, Process, Kernel, max_program_allocations, zalloc, free, set_process,
  set_allocation, directory_of, map_to, find_allocation, unmark_loop, user_flags, malloc_at,
  process_find_free_allocation_index, process_malloc, process_allocation_unmark,
  process_get_allocation_by_addr, process_free,
}
use own_kernel.Process.Table.{find_allocation-first, unmark_loop-keep, unmark_loop-hit}

abbrev pub table_of : Kernel → (process : ℕ) → ℕ → Allocation
table_of k process = (k.process process).allocations

abbrev pub with_words : Words → Kernel → Kernel
with_words words k = record k { pages = record k.pages { words = words } }

-- It starts at a page, and ends a page below 4 GB.
abbrev pub IsAligned : Allocation → Type 0
IsAligned a = (a.ptr % page_size ≡ 0) × (a.ptr + a.size ≤ 2 ^ 32 - page_size)

-- A mapping of an allocation's pages to themselves succeeds.
map_to-all_ok :
    (process flags : ℕ) (a : Allocation) (k : Kernel)
    → IsAligned a
    → (words : Words) × (map_to process a.ptr a.ptr
          (paging_align_address ((a.ptr + a.size) % 2 ^ 32))
          flags
          k
        ≡ (all_ok, with_words words k))
unfolding map_to
map_to-all_ok process flags a k (aligned, small) =
    let whole : (a.ptr + a.size) % 2 ^ 32 ≡ a.ptr + a.size = omega arith in
    let (lo_aligned, lo, above, end_aligned, end_above, below) =
      align_bounds (a.ptr + a.size) small in
    let w : Words =
      (paging_map_to (directory_of k process) a.ptr a.ptr (paging_align_address (a.ptr + a.size))
        flags k.pages.words).1 in
    let ok =
      paging_map_to-all_ok (directory_of k process) a.ptr a.ptr
        (paging_align_address (a.ptr + a.size)) flags k.pages.words aligned aligned end_aligned
        (omega arith) in
    (w, rw whole (ap (λ r. (r, with_words w k)) ok))

-- A free of an address in the table, whose entry is aligned.
process_free-unmark :
    (process ptr r : ℕ) (k : Kernel)
    → process_get_allocation_by_addr (k.process process) ptr ≡ some r
    → IsAligned (table_of k process r)
    → (words : Words) × (process_free process ptr k
        ≡ free ptr (process_allocation_unmark process ptr (with_words words k)))
unfolding process_free
process_free-unmark process ptr r k found aligned =
    let (words, e) = map_to-all_ok process 0x00 (table_of k process r) k aligned in
    (words, rw (found, process_free, e) refl)

-- The heap holds what the table names: a pointer is the address of a block in use, and an entry
-- without one is clear.
pub record IsOwner (k : Kernel) (process : ℕ) : Type 0 where
  pub clear :
      (q : ℕ)
      → q < max_program_allocations
      → (table_of k process q).ptr ≡ 0
      → table_of k process q ≡ no_allocation
  pub taken :
      (q : ℕ)
      → q < max_program_allocations
      → (table_of k process q).ptr ≢ 0
      → (b : ℕ) × ((table_of k process q).ptr ≡ k.pages.heap.start_address + b * heap_block_size)
        × (heap_get_entry_type (k.pages.heap.entries b) ≡ 1)

abbrev granted : (process index ptr size : ℕ) → Words → Mem → Heap → Kernel → Kernel
granted process index ptr size words memory heap k =
    set_allocation process index (record { ptr = ptr; size = size })
      (record k { pages = record k.pages { heap = heap; memory = memory; words = words } })

abbrev allocated : ℕ → Kernel → Kernel
allocated size k = record k {
  pages = record k.pages {
    heap = (heap_malloc k.pages.heap size).1;
    memory = memset (heap_malloc k.pages.heap size).0 0x00 size k.pages.memory;
  };
}

zalloc-allocated :
    (size : ℕ) (k : Kernel)
    → (heap_malloc k.pages.heap size).0 ≢ 0
    → zalloc size k ≡ ((heap_malloc k.pages.heap size).0, allocated size k)
unfolding zalloc kernel_zalloc kernel_malloc
zalloc-allocated size k nonnull =
    let some_ptr : ((heap_malloc k.pages.heap size).0 == 0) ≡ false = ground (arith, nonnull) in
    rw some_ptr refl

malloc_at-granted :
    (process size ptr index : ℕ) (k : Kernel)
    → IsAligned (record { ptr = ptr; size = size })
    → (words : Words) × (malloc_at process size ptr index k ≡ (
      ptr,
      set_allocation process index (record { ptr = ptr; size = size }) (with_words words k),
    ))
unfolding malloc_at
malloc_at-granted process size ptr index k aligned =
    let (words, e) =
      map_to-all_ok process user_flags (record { ptr = ptr; size = size }) k aligned in
    (words, rw (e, malloc_at) refl)

process_malloc-malloc_at :
    (process size ptr index : ℕ) (k k' : Kernel)
    → zalloc size k ≡ (ptr, k')
    → ptr ≢ 0
    → find_allocation max_program_allocations 0 0 (table_of k' process) ≡ some index
    → process_malloc process size k ≡ malloc_at process size ptr index k'
unfolding process_malloc process_find_free_allocation_index
process_malloc-malloc_at process size ptr index k k' e nonnull found =
    let some_ptr : (ptr == 0) ≡ false = ground (arith, nonnull) in
    rw (e, process_malloc, some_ptr, found) (ap (λ r. malloc_at process size r.0 index r.1) e)

process_malloc-granted :
    (process size index : ℕ) (k : Kernel)
    → (heap_malloc k.pages.heap size).0 ≢ 0
    → find_allocation max_program_allocations 0 0 (table_of k process) ≡ some index
    → IsAligned (record { ptr = (heap_malloc k.pages.heap size).0; size = size })
    → (words : Words) × (memory : Mem) × (process_malloc process size k ≡ (
      (heap_malloc k.pages.heap size).0,
      granted process index
          (heap_malloc k.pages.heap size).0
          size
          words
          memory
          (heap_malloc k.pages.heap size).1
          k,
    ))
process_malloc-granted process size index k nonnull found aligned =
    let ptr = (heap_malloc k.pages.heap size).0 in
    let k' : Kernel = allocated size k in
    let (words, e) = malloc_at-granted process size ptr index k' aligned in
    (
      words,
      k'.pages.memory,
      process_malloc-malloc_at process size ptr index k k' (zalloc-allocated size k nonnull) nonnull
            found
          ∙ e,
    )

set_process-get :
    (address : ℕ) (p : Process) (k : Kernel) → (set_process address p k).process address ≡ p
set_process-get address p k = let self : (address == address) ≡ true = ground arith in rw self refl

-- A free of an address in the table, whose entries with that address are aligned, frees it in the heap
-- and clears them.
pub process_free-unmark_loop :
    (process ptr index : ℕ) (k : Kernel)
    → index < max_program_allocations
    → (table_of k process index).ptr ≡ ptr
    → ((q : ℕ)
        → q < max_program_allocations
        → (table_of k process q).ptr ≡ ptr
        → IsAligned (table_of k process q))
    → ((process_free process ptr k).pages.heap ≡ kernel_free ptr k.pages.heap)
      × (table_of (process_free process ptr k) process
          ≡ unmark_loop max_program_allocations 0 ptr (table_of k process))
unfolding process_get_allocation_by_addr process_allocation_unmark free
process_free-unmark_loop process ptr index k inside at aligned =
    let (r, found, is, lo, hi) =
      find_allocation-first max_program_allocations 0 ptr index (table_of k process) (omega arith)
        (omega arith) at in
    let (words, e) = process_free-unmark process ptr r k found (aligned r (omega arith) is) in
    (
      ap (λ k'. k'.pages.heap) e,
      ap (λ k'. table_of k' process) e
          ∙ ap (λ p. p.allocations)
              (set_process-get process
                (record (k.process process) {
                  allocations = unmark_loop max_program_allocations 0 ptr (table_of k process);
                })
                (with_words words k)),
    )

-- A table with one entry that has the pointer, and none before.
module _ (index : ℕ) (a : Allocation) (t : ℕ → Allocation)
    (fresh : (q : ℕ) → q < max_program_allocations → (t q).ptr ≢ a.ptr) where
  update-here : update t index a index ≡ a
  update-here = let self : (index == index) ≡ true = ground arith in rw self refl

  update-IsAligned :
      (q : ℕ)
      → q < max_program_allocations
      → IsAligned a
      → (update t index a q).ptr ≡ a.ptr
      → IsAligned (update t index a q)
  update-IsAligned q bound aligned = elim (Bool-cases (q == index)) [
    | inl here ↦ rw here (λ same. aligned)
    | inr other ↦ rw other (λ same. absurd (fresh q bound same))
  ]

  unmark_loop-update :
      (q : ℕ)
      → index < max_program_allocations
      → t index ≡ no_allocation
      → q < max_program_allocations
      → unmark_loop max_program_allocations 0 a.ptr (update t index a) q ≡ t q
  unmark_loop-update q inside clear bound = elim (Bool-cases (q == index)) [
    | inl here ↦
        let e : q ≡ index = ground arith in
        let at : (update t index a q).ptr ≡ a.ptr = rw here refl in
        unmark_loop-hit max_program_allocations 0 a.ptr q (update t index a) (omega arith)
          (omega arith) at
        ∙ sym (ap t e ∙ clear)
    | inr other ↦
        let same : update t index a q ≡ t q = rw other refl in
        unmark_loop-keep max_program_allocations 0 a.ptr q (update t index a)
          (inl (λ at. fresh q bound (sym (ap (λ x. x.ptr) same) ∙ at)))
        ∙ same
  ]

free-granted :
    (process index ptr size : ℕ) (words : Words) (memory : Mem) (heap : Heap) (k : Kernel)
    → index < max_program_allocations
    → table_of k process index ≡ no_allocation
    → ((q : ℕ) → q < max_program_allocations → (table_of k process q).ptr ≢ ptr)
    → IsAligned (record { ptr = ptr; size = size })
    → ((process_free process ptr (granted process index ptr size words memory heap k)).pages.heap
        ≡ kernel_free ptr heap)
      × ((q : ℕ)
          → q < max_program_allocations
          → table_of
              (process_free process ptr (granted process index ptr size words memory heap k))
              process
              q
            ≡ table_of k process q)
free-granted process index ptr size words memory heap k inside clear fresh aligned =
    let k1 : Kernel = granted process index ptr size words memory heap k in
    let a : Allocation = record { ptr = ptr; size = size } in
    let table : table_of k1 process ≡ update (table_of k process) index a =
      ap (λ p. p.allocations) (set_process-get process _ k) in
    let here : table_of k1 process index ≡ a =
      ap (λ t. t index) table ∙ update-here index a (table_of k process) fresh in
    let (heap_eq, table_eq) =
      process_free-unmark_loop process ptr index k1 inside (ap (λ x. x.ptr) here) (
        rw table
          (λ q bound. update-IsAligned index a (table_of k process) fresh q bound aligned)) in
    (
      heap_eq,
      λ q bound.
          ap (λ t. t q) table_eq
          ∙ (ap (λ t. unmark_loop max_program_allocations 0 ptr t q) table
              ∙ unmark_loop-update index a (table_of k process) fresh q inside clear bound),
    )

-- Freed right after it was granted, an allocation leaves the heap and the table as they were.
pub process_free-process_malloc :
    (process size i j : ℕ) (k : Kernel)
    → IsHeap k.pages.heap
    → IsOwner k process
    → k.pages.heap.start_address % page_size ≡ 0
    → k.pages.heap.start_address + k.pages.heap.total * heap_block_size ≤ 2 ^ 32 - page_size
    → 0 < size
    → size ≤ 2 ^ 32 - heap_block_size
    → i + blocks size ≤ k.pages.heap.total
    → FreeRun k.pages.heap.entries i (i + blocks size)
    → j < max_program_allocations
    → (table_of k process j).ptr ≡ 0
    → (ptr : ℕ) × (k1 : Kernel) × (process_malloc process size k ≡ (ptr, k1))
      × (ptr ≢ 0)
      × ((process_free process ptr k1).pages.heap ≡ k.pages.heap)
      × ((q : ℕ)
          → q < max_program_allocations
          → table_of (process_free process ptr k1) process q ≡ table_of k process q)
unfolding kernel_free
process_free-process_malloc process size i j k is owner start_aligned room pos_size small fits
      free_run inside at =
    let (b, grant, le) = heap_malloc-IsGrant size i is pos_size small fits free_run in
    let ptr : ℕ = (heap_malloc k.pages.heap size).0 in
    let some_blocks : 0 < blocks size = omega (arith, grant.room) in
    let (index, found, blank, lo, hi) =
      find_allocation-first max_program_allocations 0 0 j (table_of k process) (omega arith)
        (omega arith) at in
    let aligned : IsAligned (record { ptr = ptr; size = size }) =
      (omega (arith, grant.address), omega (arith, grant.address, grant.room, grant.within)) in
    let (words, memory, e) =
      process_malloc-granted process size index k grant.nonnull found aligned in
    let k1 : Kernel =
      granted process index ptr size words memory (heap_malloc k.pages.heap size).1 k in
    let fresh : (q : ℕ) → q < max_program_allocations → (table_of k process q).ptr ≢ ptr =
      λ q bound same.
        let (b', block, in_use) = owner.taken q bound (λ null. grant.nonnull (sym same ∙ null)) in
        let e' : b' ≡ b = omega (arith, block, same, grant.address) in
        absurd (
          ground (
            arith,
            in_use,
            ap (λ u. heap_get_entry_type (k.pages.heap.entries u)) e',
            grant.was_free b (omega arith) (omega arith),
          )) in
    let (heap, table) =
      free-granted process index ptr size words memory (heap_malloc k.pages.heap size).1 k
        (omega arith) (owner.clear index (omega arith) blank) fresh aligned in
    (
      ptr,
      k1,
      e,
      grant.nonnull,
      heap ∙ heap_free-heap_malloc size i is pos_size small fits free_run,
      table,
    )
