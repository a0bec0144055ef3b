-- ===== src/Tests/OfHeap.antt =====
-- A heap of eight free blocks at 16 MB.
use own_kernel.Prelude.{ap, ℕ, ◌+◌, ◌≤◌, ◌≡◌, ◌≢◌, refl, ◌∙◌, ◌⊎◌, inr, arith}
use own_kernel.Heap.{Heap, heap_malloc, heap_free, heap_get_entry_type, heap_align_value_to_upper}
use own_kernel.Heap.Search.{FreeRun}
use own_kernel.Heap.Alloc.{IsHeap, blocks}
use own_kernel.Heap.Disjoint.{heap_malloc-disjoint}
use own_kernel.Heap.Grants.{
  IsGrant, heap_malloc-IsGrant, heap_free-heap_malloc, heap_malloc_past_end,
}

abbrev eight_blocks : Heap
eight_blocks = record { table = record { entries = λ _. 0; total = 8 }; start_address = 0x01000000 }

eight_blocks-IsHeap : IsHeap eight_blocks
eight_blocks-IsHeap = record {
  nonnull = omega arith;
  fits = omega arith;
  small = omega arith;
  clean = λ j bound free. refl;
}

all_free : (s m : ℕ) → FreeRun eight_blocks.entries s m
unfolding heap_get_entry_type
all_free s m j lo hi = refl

two_blocks : blocks 5000 ≡ 2
unfolding heap_align_value_to_upper
two_blocks = refl

heap_malloc-IsGrant_example :
    (r : ℕ) × IsGrant eight_blocks
      (heap_malloc eight_blocks 5000).1
      5000
      (heap_malloc eight_blocks 5000).0
      r
    × (r ≤ 0)
heap_malloc-IsGrant_example =
    heap_malloc-IsGrant 5000 0 eight_blocks-IsHeap (omega arith) (omega arith)
      (omega (arith, two_blocks)) (all_free 0 (0 + blocks 5000))

heap_free-heap_malloc_example :
    heap_free (heap_malloc eight_blocks 5000).1 (heap_malloc eight_blocks 5000).0 ≡ eight_blocks
heap_free-heap_malloc_example =
    heap_free-heap_malloc 5000 0 eight_blocks-IsHeap (omega arith) (omega arith)
      (omega (arith, two_blocks)) (all_free 0 (0 + blocks 5000))

heap_malloc_past_end_example :
    ((heap_malloc eight_blocks 40000).0 ≢ 0)
    × (heap_get_entry_type ((heap_malloc eight_blocks 40000).1.entries 8) ≡ 1)
heap_malloc_past_end_example =
    heap_malloc_past_end 40000 7 eight_blocks-IsHeap refl
      (all_free 7 8 7 (omega arith) (omega arith)) (unfold heap_align_value_to_upper in omega arith)

-- A second allocation, from the heap that the first one left.
abbrev grant :
    (r : ℕ) × IsGrant eight_blocks
      (heap_malloc eight_blocks 5000).1
      5000
      (heap_malloc eight_blocks 5000).0
      r
    × (r ≤ 0)
grant =
    heap_malloc-IsGrant 5000 0 eight_blocks-IsHeap (omega arith) (omega arith)
      (omega (arith, two_blocks)) (all_free 0 (0 + blocks 5000))

abbrev one_taken : Heap
one_taken = (heap_malloc eight_blocks 5000).1

still_free : FreeRun one_taken.entries 2 (2 + blocks 5000)
still_free j lo hi =
    ap heap_get_entry_type (grant.1.frame j (inr (omega (arith, two_blocks, grant.2))))
    ∙ all_free 0 8 j (omega arith) (omega (arith, two_blocks))

heap_malloc-disjoint_example :
    ((heap_malloc eight_blocks 5000).0 + 5000 ≤ (heap_malloc one_taken 5000).0)
    ⊎ ((heap_malloc one_taken 5000).0 + 5000 ≤ (heap_malloc eight_blocks 5000).0)
heap_malloc-disjoint_example =
    heap_malloc-disjoint 5000 5000 0 2 eight_blocks-IsHeap (omega arith) (omega arith)
      (omega (arith, two_blocks)) (all_free 0 (0 + blocks 5000)) (omega arith) (omega arith)
      (omega (arith, two_blocks, grant.1.total)) still_free
