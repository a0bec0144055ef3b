-- ===== src/Heap/Single.antt =====
-- Allocations of one block each, from a run of free blocks.
use own_kernel.Prelude.{ℕ, suc, ◌+◌, ◌*◌, ◌≤◌, ◌<◌, ◌≡◌, ◌≢◌, ap, ◌∙◌, ◌⊎◌, inr, arith}
use own_kernel.Heap.{Heap, heap_block_size, heap_get_entry_type, heap_malloc}
use own_kernel.Heap.Search.{IsFree, FreeRun}
use own_kernel.Heap.Alloc.{IsHeap, blocks}
use own_kernel.Heap.Grants.{heap_malloc-IsGrant, heap_malloc-IsHeap}

-- The block `r` of `h` has been given away, and `h'` is what is left.
pub record IsBlock (h h' : Heap) (addr r : ℕ) : Type 0 where
  pub address : addr ≡ h.start_address + r * heap_block_size
  pub nonnull : addr ≢ 0
  pub inside : r < h.total
  pub was_free : IsFree h.entries r
  pub now_taken : heap_get_entry_type (h'.entries r) ≡ 1
  pub frame : (q : ℕ) → q ≢ r → h'.entries q ≡ h.entries q
  pub total : h'.total ≡ h.total
  pub start_address : h'.start_address ≡ h.start_address
  pub heap : IsHeap h'

apart_of_ne : {q r : ℕ} → q ≢ r → (q < r) ⊎ (r + 1 ≤ q)
apart_of_ne {q} {r} other = ground (arith, other)

-- A request of one block is granted, and a run of free blocks loses at most its first.
pub heap_malloc-IsBlock :
    {h : Heap} (size j n : ℕ)
    → IsHeap h
    → 0 < size
    → size ≤ heap_block_size
    → blocks size ≡ 1
    → j + suc n ≤ h.total
    → FreeRun h.entries j (j + suc n)
    → (r : ℕ) × IsBlock h (heap_malloc h size).1 (heap_malloc h size).0 r
      × FreeRun (heap_malloc h size).1.entries (suc j) (suc j + n)
heap_malloc-IsBlock {h} size j n is some_size small one fits free =
    let (r, grant, le) =
      heap_malloc-IsGrant size j is some_size (omega arith) (omega arith)
        (λ q lo hi. free q lo (omega arith)) in
    (
      r,
      record {
        address = grant.address;
        nonnull = grant.nonnull;
        inside = omega (arith, grant.within, one);
        was_free = grant.was_free r (omega arith) (omega (arith, one));
        now_taken = grant.now_taken r (omega arith) (omega (arith, one));
        frame = λ q other. grant.frame q (omega (arith, apart_of_ne other, one));
        total = grant.total;
        start_address = grant.start_address;
        heap = heap_malloc-IsHeap size is;
      },
      λ q lo hi.
          ap heap_get_entry_type (grant.frame q (inr (omega (arith, one))))
          ∙ free q (omega arith) (omega arith),
    )
