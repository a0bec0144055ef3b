-- ===== src/Paging/Identity.antt =====
-- `paging_new_4gb` on the kernel's heap: the directory that maps every page to itself.
use own_kernel.Paging.Fill.Rounds.{
  allocated, zalloc-granted, one_block, one_block_small, fill_directory-Filled,
}
use mathlib.Core.Path.{subst}
use own_kernel.Prelude.{
  ℕ, suc, ◌+◌, ◌-◌, ◌*◌, ◌%◌, ◌^◌, ◌≤◌, ◌<◌, ◌≡◌, ◌≢◌, ◌∙◌, sym, inl, inr, Bool-cases, arith, ◌==◌,
  ltb, bit_or, bit_and, true, false,
}
use own_kernel.Prelude.Bits.{bit_or-fields, bit_or-odd, frame_mask}
use own_kernel.Heap.{Heap, heap_malloc}
use own_kernel.Heap.Search.{FreeRun}
use own_kernel.Heap.Alloc.{IsHeap}
use own_kernel.Heap.Single.{heap_malloc-IsBlock}
use own_kernel.Paging.{
  Words, page_size, entries_per_table, frame_bits, paging_get, paging_get_physical_address,
  paging_align_to_lower_page,
}
use own_kernel.Paging.Chunks.{Pages, fill_directory, paging_new_4gb}
use own_kernel.Paging.Tables.{table_index, dir_index, IsChunk, get-slot}
use own_kernel.Paging.Fill.{IsFilled}

-- Every page is mapped to itself with the flags, by tables that are all present.
pub record IsIdentity (w : Words) (directory flags : ℕ) : Type 0 where
  pub table : ℕ → ℕ
  pub chunk : IsChunk w directory table
  pub present : (i : ℕ) → i < entries_per_table → w (directory + 4 * i) % 2 ≡ 1
  pub entries :
      (page : ℕ) → page < 2 ^ 32 → page % page_size ≡ 0 → paging_get directory page w ≡ page + flags

module _ {h : Heap} {w : Words} {d flags : ℕ} {block : ℕ → ℕ}
    (f : IsFilled h w d entries_per_table flags block) (aligned : h.start_address % page_size ≡ 0)
    (small : flags < page_size) (odd : flags % 2 ≡ 1) where
  abbrev table_of : ℕ → ℕ
  table_of q = h.start_address + block q * page_size

  filled-entry :
      (i : ℕ)
      → i < entries_per_table
      → bit_and (w (h.start_address + d * page_size + 4 * i)) frame_bits ≡ table_of i
  filled-entry i bound =
      let (same, low) = bit_or-fields 12 0 flags 2 small (omega arith) in
      let below : table_of i + page_size ≤ 2 ^ 32 = omega (arith, f.heap.fits, f.inside i bound) in
      rw (f.directory i bound) (
        frame_mask (table_of i + bit_or flags 2) (omega (arith, low)) ∙ omega (arith, low, aligned))

  filled-chunk : IsChunk w (h.start_address + d * page_size) table_of
  filled-chunk = record {
    entry = filled-entry;
    apart = λ p q bound bound' lt. elim (Bool-cases (ltb (block p) (block q))) [
      | inl below ↦ let le : block p < block q = ground arith in inl (omega arith)
      | inr above ↦
          let gt : block q < block p = ground (arith, f.distinct p q lt bound') in inr (omega arith)
    ];
    dir_apart = λ q bound. elim (Bool-cases (ltb (block q) d)) [
      | inl below ↦ let le : block q < d = ground arith in inl (omega arith)
      | inr above ↦ let gt : d < block q = ground (arith, f.not_dir q bound) in inr (omega arith)
    ];
  }

  filled-IsIdentity : IsIdentity w (h.start_address + d * page_size) flags
  filled-IsIdentity = record {
    table = table_of;
    chunk = filled-chunk;
    present = λ i bound. rw (f.directory i bound) (omega (arith, bit_or-odd flags 2 odd, aligned));
    entries = λ page bound at.
        get-slot filled-chunk page bound at
        ∙ f.entries (dir_index page) (table_index page) (omega arith) (omega arith)
        ∙ omega (arith, at);
  }

-- An address translates to itself.
pub identity-translates :
    {w : Words} {directory flags : ℕ} (a : ℕ)
    → IsIdentity w directory flags
    → flags < page_size
    → a < 2 ^ 32
    → paging_get_physical_address directory a w ≡ a
unfolding paging_get_physical_address paging_align_to_lower_page
identity-translates {w} {directory} {flags} a is small bound =
    let page : ℕ = a - a % page_size in
    let entry = is.entries page (omega arith) (omega arith) in
    rw (entry, frame_mask (page + flags) (omega arith)) (omega arith)

-- On a well-formed heap at a page that has a run of 1026 free blocks, a new directory with flags below
-- a page that have the bit for present is made: its chunk is not null, it is well formed and maps
-- every page to itself with the flags, every address translates to itself, and the heap stays well
-- formed.
pub paging_new_4gb-IsIdentity :
    (flags j : ℕ) (s : Pages)
    → IsHeap s.heap
    → s.heap.start_address % page_size ≡ 0
    → flags < page_size
    → flags % 2 ≡ 1
    → j + 1026 ≤ s.heap.total
    → FreeRun s.heap.entries j (j + 1026)
    → ((paging_new_4gb flags s).0 ≢ 0)
      × IsIdentity
          (paging_new_4gb flags s).1.words
          ((paging_new_4gb flags s).1.chunks (paging_new_4gb flags s).0).directory_entry
          flags
      × ((a : ℕ)
          → a < 2 ^ 32
          → paging_get_physical_address
              ((paging_new_4gb flags s).1.chunks (paging_new_4gb flags s).0).directory_entry
              a
              (paging_new_4gb flags s).1.words
            ≡ a)
      × IsHeap (paging_new_4gb flags s).1.heap
unfolding paging_new_4gb
paging_new_4gb-IsIdentity flags j s is aligned small odd fits free =
    let (d, g, free1) =
      heap_malloc-IsBlock (4 * entries_per_table) j 1025 is (omega arith) (omega arith) one_block
        (omega arith) (λ q lo hi. free q lo (omega arith)) in
    let directory : ℕ = (heap_malloc s.heap (4 * entries_per_table)).0 in
    let granted : (directory == 0) ≡ false = ground (arith, g.nonnull) in
    let s1 : Pages = allocated (4 * entries_per_table) s in
    let aligned1 : s1.heap.start_address % page_size ≡ 0 = rw g.start_address aligned in
    let start : IsFilled s1.heap s1.words d 0 flags (λ _. 0) = record {
      heap = g.heap;
      dir_inside = rw g.total g.inside;
      dir_taken = g.now_taken;
      inside = λ q bound. absurd (omega arith);
      is_taken = λ q bound. absurd (omega arith);
      not_dir = λ q bound. absurd (omega arith);
      distinct = λ p q lt bound. absurd (omega arith);
      directory = λ q bound. absurd (omega arith);
      entries = λ q t bound small_t. absurd (omega arith);
    } in
    let filled =
      fill_directory-Filled entries_per_table 0 d directory 0 flags (suc j) s1 (λ _. 0)
        (omega arith) (rw g.start_address g.address) (omega arith) start aligned1 small
        (rw g.total (omega arith)) (λ q lo hi. free1 q lo (omega arith)) in
    let s2 : Pages = fill_directory entries_per_table 0 directory 0 flags s1 in
    let (c, g2, free2) =
      heap_malloc-IsBlock {h = s2.heap} 4 (suc j + entries_per_table) 0 filled.is.heap (omega arith)
        (omega arith) one_block_small (rw (filled.total, g.total) (omega arith))
        (λ q lo hi. filled.free q lo (omega arith)) in
    let granted2 : ((heap_malloc s2.heap 4).0 == 0) ≡ false = ground (arith, g2.nonnull) in
    let here : ((heap_malloc s2.heap 4).0 == (heap_malloc s2.heap 4).0) ≡ true = ground arith in
    let place : s2.heap.start_address + d * page_size ≡ directory =
      rw (filled.start, g.start_address) (sym g.address) in
    let identity : IsIdentity s2.words directory flags =
      subst (λ a. IsIdentity s2.words a flags) place
        (filled-IsIdentity filled.is (rw filled.start aligned1) small odd) in
    rw (zalloc-granted (4 * entries_per_table) s granted, zalloc-granted 4 s2 granted2, here)
      (g2.nonnull, identity, λ a bound. identity-translates a identity small bound, g2.heap)
