-- ===== src/Heap/Grants.antt =====
-- The contract of `heap_malloc` and `heap_free`.
use own_kernel.Prelude.{
  ℕ, zero, suc, ◌+◌, ◌-◌, ◌*◌, ◌^◌, ◌≤◌, ◌<◌, ◌≡◌, ◌≢◌, refl, ap, ◌⊎◌, inl, inr, Bool-cases,
  Option-cases, none, some, arith, leb, update,
}
use own_kernel.Heap.{
  Heap, heap_block_size, heap_get_entry_type, heap_get_start_block, heap_block_to_address,
  heap_mark_blocks_taken, heap_malloc_blocks, heap_address_to_block, mark_free,
  heap_mark_blocks_free, heap_malloc, heap_free, mark_taken,
}
use own_kernel.Heap.Search.{
  IsFree, FreeRun, heap_get_start_block-FreeRun, heap_get_start_block-first_fit,
  heap_get_start_block-some_of_free_last, heap_get_start_block-lt,
}
use own_kernel.Heap.Alloc.{
  IsHeap, blocks, blocks_bounds, mark-frame, mark-taken, mark_free-mark_taken,
  heap_address_to_block-block_to_address,
}

-- The heap `h'` has given the blocks [r, r + blocks size) of `h` away, and nothing else changed.
pub record IsGrant (h h' : Heap) (size addr r : ℕ) : Type 0 where
  pub address : addr ≡ h.start_address + r * heap_block_size
  pub nonnull : addr ≢ 0
  pub within : r + blocks size ≤ h.total
  pub room : size ≤ blocks size * heap_block_size
  pub was_free : FreeRun h.entries r (r + blocks size)
  pub now_taken : (j : ℕ) → r ≤ j → j < r + blocks size → heap_get_entry_type (h'.entries j) ≡ 1
  pub frame : (j : ℕ) → (j < r) ⊎ (r + blocks size ≤ j) → h'.entries j ≡ h.entries j
  pub total : h'.total ≡ h.total
  pub start_address : h'.start_address ≡ h.start_address

heap_malloc-some :
    (h : Heap) (size r : ℕ)
    → heap_get_start_block h (blocks size) ≡ some r
    → heap_malloc h size ≡ (heap_block_to_address h r, heap_mark_blocks_taken h r (blocks size))
unfolding heap_malloc heap_malloc_blocks
heap_malloc-some h size r found = rw (found, heap_malloc_blocks)

heap_malloc-none :
    (h : Heap) (size : ℕ)
    → heap_get_start_block h (blocks size) ≡ none
    → heap_malloc h size ≡ (0, h)
unfolding heap_malloc heap_malloc_blocks
heap_malloc-none h size full = rw (full, heap_malloc_blocks)

heap_block_to_address-eq :
    {h : Heap} (r : ℕ)
    → IsHeap h
    → r < h.total
    → heap_block_to_address h r ≡ h.start_address + r * heap_block_size
unfolding heap_block_to_address
heap_block_to_address-eq {h} r is bound =
    let top : r * 4096 + 4096 ≤ h.total * 4096 = omega arith in omega (arith, is.fits)

-- On a well-formed heap, a request of at least one byte and at most 4 GB less a block, for which
-- some run of blocks is free, is granted at or before that run.
pub heap_malloc-IsGrant :
    {h : Heap} (size j : ℕ)
    → IsHeap h
    → 0 < size
    → size ≤ 2 ^ 32 - heap_block_size
    → j + blocks size ≤ h.total
    → FreeRun h.entries j (j + blocks size)
    → (r : ℕ) × IsGrant h (heap_malloc h size).1 size (heap_malloc h size).0 r × (r ≤ j)
heap_malloc-IsGrant {h} size j is pos small fits free =
    let (some_blocks, room) = blocks_bounds size pos small in
    let (r, found, le, within) =
      heap_get_start_block-first_fit h (blocks size) j some_blocks fits free in
    let at : heap_block_to_address h r ≡ h.start_address + r * heap_block_size =
      heap_block_to_address-eq r is (omega arith) in
    (
      r,
      rw (heap_malloc-some h size r found) (record {
        address = at;
        nonnull = omega (arith, is.nonnull);
        within = within;
        room = room;
        was_free = heap_get_start_block-FreeRun h (blocks size) r some_blocks found within;
        now_taken = λ i lo hi. mark-taken h r (blocks size) i some_blocks lo hi;
        frame = λ i out. mark-frame h r (blocks size) i some_blocks out;
        total = unfold heap_mark_blocks_taken in refl;
        start_address = unfold heap_mark_blocks_taken in refl;
      }),
      le,
    )

-- Two allocations in a row, each of at least one block, own blocks that do not meet.
pub IsGrant-disjoint :
    {h h' h'' : Heap} {size size' a a' r r' : ℕ}
    → IsGrant h h' size a r
    → IsGrant h' h'' size' a' r'
    → 0 < blocks size
    → 0 < blocks size'
    → (r + blocks size ≤ r') ⊎ (r' + blocks size' ≤ r)
IsGrant-disjoint {size} {size'} {r} {r'} g g' pos pos' =
    elim (Bool-cases (leb (r + blocks size) r')) [
      | inl before ↦ inl (ground arith)
      | inr overlap ↦ elim (Bool-cases (leb (r' + blocks size') r)) [
        | inl after ↦ inr (ground arith)
        | inr meet ↦ elim (Bool-cases (leb r r')) [
          | inl le ↦ absurd (ground (arith, g.now_taken r', g'.was_free r'))
          | inr gt ↦ absurd (ground (arith, g.now_taken r, g'.was_free r))
        ]
      ]
    ]

-- On a well-formed heap, a free of what `heap_malloc` has just returned restores the heap, for a
-- request of at least one byte and at most 4 GB less a block for which some run of blocks is free.
pub heap_free-heap_malloc :
    {h : Heap} (size j : ℕ)
    → IsHeap h
    → 0 < size
    → size ≤ 2 ^ 32 - heap_block_size
    → j + blocks size ≤ h.total
    → FreeRun h.entries j (j + blocks size)
    → heap_free (heap_malloc h size).1 (heap_malloc h size).0 ≡ h
heap_free-heap_malloc {h} size j is pos small fits free =
    let (some_blocks, room) = blocks_bounds size pos small in
    let (r, found, le, within) =
      heap_get_start_block-first_fit h (blocks size) j some_blocks fits free in
    let block : heap_address_to_block (heap_mark_blocks_taken h r (blocks size))
          (heap_block_to_address h r)
        ≡ r =
      (unfold heap_address_to_block heap_mark_blocks_taken in
        unfold heap_address_to_block in
        heap_address_to_block-block_to_address r is (omega arith)) in
    rw (heap_malloc-some h size r found) (
      unfold heap_free in
      rw block (
        mark_free-mark_taken h r (blocks size) some_blocks within λ i lo hi.
          is.clean i (omega arith)
            (heap_get_start_block-FreeRun h (blocks size) r some_blocks found within i lo hi)))

-- On a well-formed heap whose last block is free, a request for more blocks than the table has is
-- granted too, and the entry behind the table is marked.
pub heap_malloc_past_end :
    {h : Heap} (size m : ℕ)
    → IsHeap h
    → h.total ≡ suc m
    → IsFree h.entries m
    → h.total < blocks size
    → ((heap_malloc h size).0 ≢ 0)
      × (heap_get_entry_type ((heap_malloc h size).1.entries h.total) ≡ 1)
heap_malloc_past_end {h} size m is total free large =
    let (r, found) = heap_get_start_block-some_of_free_last h (blocks size) m total free in
    let bound : r < h.total = heap_get_start_block-lt h (blocks size) r found in
    rw (heap_malloc-some h size r found) (
      omega (arith, heap_block_to_address-eq r is bound, is.nonnull),
      mark-taken h r (blocks size) h.total (omega arith) (omega arith) (omega arith),
    )

mark_free-cases :
    (n i j : ℕ) (entries : ℕ → ℕ)
    → (mark_free n i entries j ≡ 0) ⊎ (mark_free n i entries j ≡ entries j)
unfolding mark_free
mark_free-cases zero i j entries = inr refl
mark_free-cases (suc n) i j entries =
    ground (arith, mark_free-cases n (i + 1) j (update entries i 0))

-- A free of any address, in range or not, keeps a heap well formed.
pub heap_free-IsHeap : {h : Heap} (ptr : ℕ) → IsHeap h → IsHeap (heap_free h ptr)
unfolding heap_free heap_mark_blocks_free heap_get_entry_type
heap_free-IsHeap {h} ptr is = record {
  nonnull = is.nonnull;
  fits = is.fits;
  small = is.small;
  clean = λ j bound free. ground (
    arith,
    mark_free-cases (h.total - heap_address_to_block h ptr) (heap_address_to_block h ptr) j
        h.entries,
    is.clean j bound,
  );
}

mark-clean :
    (h : Heap) (r k j : ℕ)
    → IsHeap h
    → 0 < k
    → j < h.total
    → IsFree (heap_mark_blocks_taken h r k).entries j
    → (heap_mark_blocks_taken h r k).entries j ≡ 0
mark-clean h r k j is pos bound free = ground (
  arith,
  mark-taken h r k j pos,
  mark-frame h r k j pos,
  is.clean j bound,
  ap heap_get_entry_type {x = (heap_mark_blocks_taken h r k).entries j} {y = h.entries j},
)

mark_blocks-IsHeap : {h : Heap} (r k : ℕ) → IsHeap h → IsHeap (heap_mark_blocks_taken h r k)
unfolding heap_mark_blocks_taken mark_taken
mark_blocks-IsHeap {h} r zero is = record {
  nonnull = is.nonnull;
  fits = is.fits;
  small = is.small;
  clean = is.clean;
}
mark_blocks-IsHeap {h} r (suc k) is = record {
  nonnull = is.nonnull;
  fits = is.fits;
  small = is.small;
  clean = λ j bound free. mark-clean h r (suc k) j is (omega arith) bound free;
}

-- Every request, granted or not, keeps a heap well formed.
pub heap_malloc-IsHeap : {h : Heap} (size : ℕ) → IsHeap h → IsHeap (heap_malloc h size).1
heap_malloc-IsHeap {h} size is = elim (Option-cases (heap_get_start_block h (blocks size))) [
  | inl full ↦ rw (heap_malloc-none h size full) is
  | inr (r, found) ↦ rw (heap_malloc-some h size r found) (mark_blocks-IsHeap r (blocks size) is)
]
