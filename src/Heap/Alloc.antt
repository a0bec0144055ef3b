-- ===== src/Heap/Alloc.antt =====
-- `heap_malloc` and `heap_free` together: what an allocation owns, and what a free gives back.
use own_kernel.Prelude.{
  ℕ, ◌+◌, ◌-◌, ◌*◌, ◌/◌, ◌%◌, ◌^◌, ◌≤◌, ◌<◌, ◌≡◌, ap, fun_ext, ◌⊎◌, inl, inr, Bool-cases, arith,
  ◌==◌, leb, ltb, if◌then◌else◌, bit_and,
}
use own_kernel.Heap.{
  Heap, taken, has_next, heap_block_size, heap_align_value_to_upper, heap_get_entry_type,
  heap_block_to_address, heap_mark_blocks_taken, heap_address_to_block, heap_mark_blocks_free,
}
use own_kernel.Heap.Marks.{mark_taken-get, mark_free-get}
use own_kernel.Heap.Search.{IsFree}

-- The blocks lie in the address space above the null page, and a free entry is 0.
pub record IsHeap (h : Heap) : Type 0 where
  pub nonnull : 0 < h.start_address
  pub fits : h.start_address + h.total * heap_block_size ≤ 2 ^ 32
  pub small : h.total * heap_block_size < 2 ^ 31
  pub clean : (j : ℕ) → j < h.total → IsFree h.entries j → h.entries j ≡ 0

-- the number of blocks that `heap_malloc` asks for
abbrev pub blocks : ℕ → ℕ
blocks size = heap_align_value_to_upper size / heap_block_size

-- Rounding up: a multiple of the block size that holds the request and is less than a block larger.
pub heap_align_bounds :
    (val : ℕ)
    → val ≤ 2 ^ 32 - heap_block_size
    → (heap_align_value_to_upper val % heap_block_size ≡ 0)
      × (val ≤ heap_align_value_to_upper val)
      × (heap_align_value_to_upper val < val + heap_block_size)
unfolding heap_align_value_to_upper
heap_align_bounds val h = ground arith

-- The last request sizes wrap to no block at all.
pub heap_align_wraps :
    (val : ℕ) → 2 ^ 32 - heap_block_size < val → val < 2 ^ 32 → heap_align_value_to_upper val ≡ 0
unfolding heap_align_value_to_upper
heap_align_wraps val lo hi = ground arith

pub blocks_bounds :
    (size : ℕ)
    → 0 < size
    → size ≤ 2 ^ 32 - heap_block_size
    → (0 < blocks size) × (size ≤ blocks size * heap_block_size)
blocks_bounds size pos small = omega (arith, heap_align_bounds size small)

pub heap_address_to_block-block_to_address :
    {h : Heap} (r : ℕ)
    → IsHeap h
    → r < h.total
    → heap_address_to_block h (heap_block_to_address h r) ≡ r
unfolding heap_address_to_block heap_block_to_address
heap_address_to_block-block_to_address {h} r is bound =
    let top : r * 4096 + 4096 ≤ h.total * 4096 = omega arith in
    let inside : (h.start_address + r * 4096) % 2 ^ 32 ≡ h.start_address + r * 4096 =
      omega (arith, is.fits) in
    rw inside (ground (arith, is.small, is.fits))

-- The entry of block `j` after the blocks [r, r + k) were marked.
mark-entries :
    (h : Heap) (r k j : ℕ)
    → 0 < k
    → (heap_mark_blocks_taken h r k).entries j ≡ (
        if ltb j r
        then h.entries j
        else if leb (r + k) j
        then h.entries j
        else if j == r
        then (if ltb 1 k then 0xC1 else 0x41)
        else if j == r + k - 1
        then taken
        else 0x81)
unfolding heap_mark_blocks_taken
mark-entries h r k j pos = elim (Bool-cases (ltb 1 k)) [
  | inl many ↦ rw (many, mark_taken-get k r (r + k - 1) 0xC1 h.entries j)
  | inr one ↦ rw (one, mark_taken-get k r (r + k - 1) 0x41 h.entries j)
]

pub mark-frame :
    (h : Heap) (r k j : ℕ)
    → 0 < k
    → (j < r) ⊎ (r + k ≤ j)
    → (heap_mark_blocks_taken h r k).entries j ≡ h.entries j
mark-frame h r k j pos out = ground (arith, mark-entries h r k j pos)

pub mark-taken :
    (h : Heap) (r k j : ℕ)
    → 0 < k
    → r ≤ j
    → j < r + k
    → heap_get_entry_type ((heap_mark_blocks_taken h r k).entries j) ≡ 1
unfolding heap_get_entry_type
mark-taken h r k j pos lo hi = rw (mark-entries h r k j pos) (ground arith)

-- Only the last block of an allocation has no next one.
mark-chain :
    (h : Heap) (r k j : ℕ)
    → 0 < k
    → r ≤ j
    → j < r + k
    → (bit_and ((heap_mark_blocks_taken h r k).entries j) has_next == 0) ≡ (j == r + k - 1)
mark-chain h r k j pos lo hi = rw (mark-entries h r k j pos) (ground arith)

pub mark_free-mark_taken :
    (h : Heap) (r k : ℕ)
    → 0 < k
    → r + k ≤ h.total
    → ((j : ℕ) → r ≤ j → j < r + k → h.entries j ≡ 0)
    → heap_mark_blocks_free (heap_mark_blocks_taken h r k) r ≡ h
unfolding heap_mark_blocks_free heap_mark_blocks_taken
mark_free-mark_taken h r k pos fits free =
    ap (λ (e : ℕ → ℕ). record h { table = record h.table { entries = e } })
      (fun_ext λ j. ground (
        arith,
        mark_free-get (h.total - r) r (r + k - 1) (heap_mark_blocks_taken h r k).entries
            (omega arith) (omega arith)
            (λ i lo hi. rw (mark-chain h r k i pos lo (omega arith)) (ground arith))
            (rw (mark-chain h r k (r + k - 1) pos (omega arith) (omega arith)) (ground arith)) j,
        mark-frame h r k j pos,
        free j,
      ))
