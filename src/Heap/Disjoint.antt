-- ===== src/Heap/Disjoint.antt =====
-- Two allocations in a row do not overlap in memory.
use own_kernel.Prelude.{ℕ, ◌+◌, ◌-◌, ◌^◌, ◌≤◌, ◌<◌, ◌⊎◌, inl, inr, arith}
use own_kernel.Heap.{Heap, heap_block_size, heap_malloc}
use own_kernel.Heap.Search.{FreeRun}
use own_kernel.Heap.Alloc.{IsHeap, blocks, blocks_bounds}
use own_kernel.Heap.Grants.{IsGrant, heap_malloc-IsGrant, IsGrant-disjoint, heap_malloc-IsHeap}

grants-disjoint :
    {h h' h'' : Heap} {size size' a a' r r' : ℕ}
    → IsGrant h h' size a r
    → IsGrant h' h'' size' a' r'
    → 0 < blocks size
    → 0 < blocks size'
    → (a + size ≤ a') ⊎ (a' + size' ≤ a)
grants-disjoint g g' some_blocks some_blocks' =
    elim (IsGrant-disjoint g g' some_blocks some_blocks') [
      | inl before ↦ inl (omega (arith, g.address, g'.address, g.room, g.start_address))
      | inr after ↦ inr (omega (arith, g.address, g'.address, g'.room, g.start_address))
    ]

-- From a well-formed heap two requests in a row, each of at least one byte and at most 4 GB less a
-- block and with a run of blocks free for it when it is made, get regions of memory that do not
-- meet.
pub heap_malloc-disjoint :
    {h : Heap} (size size' j j' : ℕ)
    → IsHeap h
    → 0 < size
    → size ≤ 2 ^ 32 - heap_block_size
    → j + blocks size ≤ h.total
    → FreeRun h.entries j (j + blocks size)
    → 0 < size'
    → size' ≤ 2 ^ 32 - heap_block_size
    → j' + blocks size' ≤ (heap_malloc h size).1.total
    → FreeRun (heap_malloc h size).1.entries j' (j' + blocks size')
    → ((heap_malloc h size).0 + size ≤ (heap_malloc (heap_malloc h size).1 size').0)
      ⊎ ((heap_malloc (heap_malloc h size).1 size').0 + size' ≤ (heap_malloc h size).0)
heap_malloc-disjoint size size' j j' is some_size small fits free some_size' small' fits' free' =
    let (r, g, le) = heap_malloc-IsGrant size j is some_size small fits free in
    let (r', g', le') =
      heap_malloc-IsGrant size' j' (heap_malloc-IsHeap size is) some_size' small' fits' free' in
    grants-disjoint g g' (blocks_bounds size some_size small).0
      (blocks_bounds size' some_size' small').0
