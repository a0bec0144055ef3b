-- ===== src/KernelHeap/Start.antt =====
-- The heap after its initialisation, and memory that is cleared.
use own_kernel.Prelude.{
  true, ◌-◌, ℕ, ◌+◌, ◌^◌, ◌≤◌, ◌<◌, ◌≡◌, refl, arith, ltb, leb, ◌&&◌, ◌==◌, if◌then◌else◌, false,
}
use own_kernel.Prelude.Int.{pos}
use own_kernel.Memory.{Mem}
use own_kernel.Memory.Regions.{memset-get}
use own_kernel.Heap.{
  Heap, heap_block_size, heap_validate_table, heap_validate_alignment, clear_entries, heap_create,
  heap_malloc, heap_get_entry_type,
}
use own_kernel.Heap.Search.{FreeRun}
use own_kernel.Heap.Alloc.{IsHeap, blocks}
use own_kernel.Heap.Grants.{IsGrant, heap_malloc-IsGrant}
use own_kernel.KernelHeap.{kernel_heap_init, kernel_malloc, kernel_zalloc}

-- Whatever stood in the table, the initialisation succeeds with a well-formed heap of 25600 blocks,
-- all of them free.
pub kernel_heap_init-IsHeap :
    (entries : ℕ → ℕ) (heap : Heap)
    → (h : Heap) × (kernel_heap_init entries heap ≡ (pos 0, h))
      × IsHeap h
      × (h.total ≡ 25600)
      × FreeRun h.entries 0 25600
unfolding kernel_heap_init heap_create heap_validate_table heap_validate_alignment clear_entries
    heap_get_entry_type
kernel_heap_init-IsHeap entries heap = (
  record {
    table = record { entries = clear_entries 25600 entries; total = 25600 };
    start_address = 0x01000000;
  },
  refl,
  record {
    nonnull = omega arith;
    fits = omega arith;
    small = omega arith;
    clean = λ j bound free. ground arith;
  },
  refl,
  λ j lo hi. (let inside : ltb j 25600 ≡ true = ground arith in rw inside refl),
)

-- On a well-formed heap, a cleared allocation of at least one byte and at most 4 GB less a block, for
-- which some run of blocks is free, is granted; its bytes are 0 and the rest of memory is unchanged.
pub kernel_zalloc-get :
    {heap : Heap} (size j : ℕ) (m : Mem)
    → IsHeap heap
    → 0 < size
    → size ≤ 2 ^ 32 - heap_block_size
    → j + blocks size ≤ heap.total
    → FreeRun heap.entries j (j + blocks size)
    → (r : ℕ) × IsGrant heap (kernel_zalloc size heap m).1 size (kernel_zalloc size heap m).0 r
      × ((i : ℕ)
          → (kernel_zalloc size heap m).2 i ≡ (
              if leb (kernel_zalloc size heap m).0 i && ltb i ((kernel_zalloc size heap m).0 + size)
              then 0
              else m i))
unfolding kernel_zalloc kernel_malloc
kernel_zalloc-get {heap} size j m is some_size small fits free =
    let (r, g, le) = heap_malloc-IsGrant size j is some_size small fits free in
    let granted : ((heap_malloc heap size).0 == 0) ≡ false = ground (arith, g.nonnull) in
    rw granted (r, g, λ i. memset-get (heap_malloc heap size).0 0 size m i)
