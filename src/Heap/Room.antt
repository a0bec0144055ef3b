-- ===== src/Heap/Room.antt =====
-- A heap that is free from a block on, and what allocations leave of it.
use own_kernel.Prelude.{ℕ, ◌+◌, ◌-◌, ◌/◌, ◌%◌, ◌^◌, ◌≤◌, ◌<◌, ◌≡◌, ◌≢◌, ap, ◌∙◌, inr, arith}
use own_kernel.Heap.{Heap, heap_block_size, heap_get_entry_type, heap_malloc}
use own_kernel.Heap.Search.{FreeRun}
use own_kernel.Heap.Alloc.{IsHeap, blocks, heap_align_bounds}
use own_kernel.Heap.Grants.{heap_malloc-IsGrant, heap_malloc-IsHeap}

-- The `n` blocks of a heap at a page are free from block `j` on.
pub record HasFree (h : Heap) (n j : ℕ) : Type 0 where
  pub heap : IsHeap h
  pub aligned : h.start_address % heap_block_size ≡ 0
  pub total : h.total ≡ n
  pub free : FreeRun h.entries j n

pub blocks_le :
    (size : ℕ) → size ≤ 2 ^ 32 - heap_block_size → blocks size ≤ size / heap_block_size + 1
blocks_le size small = omega (arith, heap_align_bounds size small)

pub heap_malloc-HasFree :
    {h : Heap} {n j : ℕ} (size : ℕ)
    → HasFree h n j
    → 0 < size
    → size ≤ 2 ^ 32 - heap_block_size
    → j + blocks size ≤ n
    → ((heap_malloc h size).0 ≢ 0) × HasFree (heap_malloc h size).1 n (j + blocks size)
heap_malloc-HasFree {j = j} size has some_size small room =
    let (r, g, le) =
      heap_malloc-IsGrant size j has.heap some_size small (omega (arith, has.total))
        (λ q lo hi. has.free q lo (omega arith)) in
    (
      g.nonnull,
      record {
        heap = heap_malloc-IsHeap size has.heap;
        aligned = rw g.start_address has.aligned;
        total = g.total ∙ has.total;
        free = λ q lo hi.
            ap heap_get_entry_type (g.frame q (inr (omega arith))) ∙ has.free q (omega arith) hi;
      },
    )
