-- ===== src/Paging/Fill/Rounds.antt =====
-- The loops of `paging_new_4gb`, round by round, on the kernel's heap.
use mathlib.Core.Path.{subst}
use own_kernel.Prelude.{
  ℕ, zero, suc, ◌+◌, ◌*◌, ◌%◌, ◌^◌, ◌≤◌, ◌<◌, ◌≡◌, refl, ◌∙◌, arith, ◌==◌, bit_or, update, false,
}
use own_kernel.Memory.{memset}
use own_kernel.Heap.{Heap, heap_malloc, heap_align_value_to_upper}
use own_kernel.Heap.Search.{FreeRun}
use own_kernel.Heap.Alloc.{blocks}
use own_kernel.Heap.Single.{IsBlock, heap_malloc-IsBlock}
use own_kernel.KernelHeap.{kernel_malloc, kernel_zalloc}
use own_kernel.Paging.{Words, page_size, entries_per_table}
use own_kernel.Paging.Chunks.{Pages, fill_table, fill_directory}
use own_kernel.Paging.Fill.{IsFilled}
use own_kernel.Paging.Fill.Table.{next_words, IsFilled-next}

-- What is left after an allocation of one page or less.
abbrev pub allocated : (size : ℕ) → Pages → Pages
allocated size s = record s {
  heap = (heap_malloc s.heap size).1;
  memory = memset (heap_malloc s.heap size).0 0x00 size s.memory;
}

pub zalloc-granted :
    (size : ℕ) (s : Pages)
    → ((heap_malloc s.heap size).0 == 0) ≡ false
    → kernel_zalloc size s.heap s.memory
      ≡ ((heap_malloc s.heap size).0, (allocated size s).heap, (allocated size s).memory)
unfolding kernel_zalloc kernel_malloc
zalloc-granted size s granted = rw granted refl

-- One round of the outer loop.
filled_words : (entry i directory offset flags : ℕ) → Words → Words
filled_words entry i directory offset flags w =
    update (fill_table entries_per_table 0 entry offset flags w) (directory + 4 * i)
      (bit_or (bit_or entry flags) 2)

fill_directory-suc :
    (n i directory offset flags : ℕ) (s : Pages)
    → ((heap_malloc s.heap (4 * entries_per_table)).0 == 0) ≡ false
    → fill_directory (suc n) i directory offset flags s
      ≡ fill_directory n
          (i + 1)
          directory
          ((offset + entries_per_table * page_size) % 2 ^ 32)
          flags
          (record (allocated (4 * entries_per_table) s) {
            words =
                filled_words
                  (heap_malloc s.heap (4 * entries_per_table)).0
                  i
                  directory
                  offset
                  flags
                  s.words;
          })
unfolding fill_directory filled_words
fill_directory-suc n i directory offset flags s granted =
    rw (zalloc-granted (4 * entries_per_table) s granted) refl

pub one_block : blocks (4 * entries_per_table) ≡ 1
unfolding heap_align_value_to_upper
one_block = refl

pub one_block_small : blocks 4 ≡ 1
unfolding heap_align_value_to_upper
one_block_small = refl

-- The round fills one more table.
filled_words-IsFilled :
    {h h' : Heap} {w : Words} {d i flags entry r : ℕ} {block : ℕ → ℕ} (directory offset : ℕ)
    → IsFilled h w d i flags block
    → IsBlock h h' entry r
    → h.start_address % page_size ≡ 0
    → flags < page_size
    → i < entries_per_table
    → directory ≡ h.start_address + d * page_size
    → offset ≡ i * (entries_per_table * page_size) % 2 ^ 32
    → IsFilled h' (filled_words entry i directory offset flags w) d (i + 1) flags (update block i r)
unfolding filled_words
filled_words-IsFilled {h} {h'} {w} {d} {i} {flags} {entry} {r} {block} directory offset f g aligned
      small room dir_at at =
    let e : suc i ≡ i + 1 = omega arith in
    let at' : offset ≡ i * (entries_per_table * page_size) = omega arith in
    let filled : IsFilled h' (next_words f g aligned small room) d (i + 1) flags
        (update block i r) =
      subst (λ k. IsFilled h' (next_words f g aligned small room) d k flags (update block i r)) e
        (IsFilled-next f g aligned small room) in
    rw (dir_at, at') filled

-- A directory that is filled to table `i`, in pages that keep the heap where it is.
pub record Filled (s s' : Pages) (d i j flags : ℕ) : Type 0 where
  pub block : ℕ → ℕ
  pub is : IsFilled s'.heap s'.words d i flags block
  pub start : s'.heap.start_address ≡ s.heap.start_address
  pub total : s'.heap.total ≡ s.heap.total
  pub chunks : s'.chunks ≡ s.chunks
  pub free : FreeRun s'.heap.entries j (suc j)

pub fill_directory-Filled :
    (n i d directory offset flags j : ℕ) (s : Pages) (block : ℕ → ℕ)
    → i + n ≡ entries_per_table
    → directory ≡ s.heap.start_address + d * page_size
    → offset ≡ i * (entries_per_table * page_size) % 2 ^ 32
    → IsFilled s.heap s.words d i flags block
    → s.heap.start_address % page_size ≡ 0
    → flags < page_size
    → j + suc n ≤ s.heap.total
    → FreeRun s.heap.entries j (j + suc n)
    → Filled s (fill_directory n i directory offset flags s) d entries_per_table (j + n) flags
fill_directory-Filled zero i d directory offset flags j s block all dir_at at is aligned small fits
      free =
    let e : i ≡ entries_per_table = omega arith in
    let same : j + 0 ≡ j = omega arith in
    unfold fill_directory in
    record {
      block = block;
      is = subst (λ k. IsFilled s.heap s.words d k flags block) e is;
      start = refl;
      total = refl;
      chunks = refl;
      free = λ q lo hi. free q (omega arith) (omega arith);
    }
fill_directory-Filled (suc n) i d directory offset flags j s block all dir_at at is aligned small
      fits free =
    let (r, g, free') =
      heap_malloc-IsBlock (4 * entries_per_table) j (suc n) is.heap (omega arith) (omega arith)
        one_block fits free in
    let entry : ℕ = (heap_malloc s.heap (4 * entries_per_table)).0 in
    let granted : (entry == 0) ≡ false = ground (arith, g.nonnull) in
    let next : Pages = record (allocated (4 * entries_per_table) s) {
      words = filled_words entry i directory offset flags s.words;
    } in
    let filled : IsFilled next.heap next.words d (i + 1) flags (update block i r) =
      filled_words-IsFilled directory offset is g aligned small (omega arith) dir_at at in
    let ih =
      fill_directory-Filled n (i + 1) d directory
        ((offset + entries_per_table * page_size) % 2 ^ 32) flags (suc j) next (update block i r)
        (omega arith) (rw g.start_address dir_at) (omega arith) filled (rw g.start_address aligned)
        small (rw g.total (omega arith)) free' in
    let same : suc j + n ≡ j + suc n = omega arith in
    rw (fill_directory-suc n i directory offset flags s granted, ← same)
      (record {
        block = ih.block;
        is = ih.is;
        start = ih.start ∙ g.start_address;
        total = ih.total ∙ g.total;
        chunks = ih.chunks;
        free = ih.free;
      })
