-- ===== src/Paging/Chunks.antt =====
-- paging.c, `paging_new_4gb` and `paging_free_4gb`: directories that the kernel's heap holds. The
-- words of directories and tables are kept apart from the bytes of memory.
use own_kernel.Prelude.{ℕ, zero, suc, ◌+◌, ◌*◌, ◌%◌, ◌^◌, bit_and, bit_or, update}
use own_kernel.Memory.{Mem}
use own_kernel.Heap.{Heap}
use own_kernel.KernelHeap.{kernel_zalloc, kernel_free}
use own_kernel.Paging.{Words, Chunk, page_size, entries_per_table, frame_bits}

-- the heap, the bytes of memory, the words of the tables, and the chunks by their address
pub record Pages : Type 0 where
  pub heap : Heap
  pub memory : Mem
  pub words : Words
  pub chunks : ℕ → Chunk

-- The inner loop at entry `j` with `n` rounds left.
unfoldable pub fill_table : (n j entry offset flags : ℕ) → Words → Words
fill_table zero j entry offset flags w = w
fill_table (suc n) j entry offset flags w =
    fill_table n (j + 1) entry offset flags
      (update w (entry + 4 * j) (bit_or ((offset + j * page_size) % 2 ^ 32) flags))

-- `PAGING_IS_WRITEABLE`
abbrev pub writeable : ℕ
writeable = 2

-- The outer loop at table `i` with `n` rounds left.
unfoldable pub fill_directory : (n i directory offset flags : ℕ) → Pages → Pages
fill_directory zero i directory offset flags s = s
fill_directory (suc n) i directory offset flags s =
    let (entry, heap, memory) = kernel_zalloc (4 * entries_per_table) s.heap s.memory in
    let filled : Words = fill_table entries_per_table 0 entry offset flags s.words in
    fill_directory n (i + 1) directory ((offset + entries_per_table * page_size) % 2 ^ 32) flags
      (record s {
        heap = heap;
        memory = memory;
        words = update filled (directory + 4 * i) (bit_or (bit_or entry flags) writeable);
      })

-- The chunk's address.
unfoldable pub paging_new_4gb : (flags : ℕ) → Pages → ℕ × Pages
paging_new_4gb flags s =
    let (directory, heap, memory) = kernel_zalloc (4 * entries_per_table) s.heap s.memory in
    let filled : Pages =
      fill_directory entries_per_table 0 directory 0 flags
        (record s { heap = heap; memory = memory }) in
    let (chunk_4gb, heap', memory') = kernel_zalloc 4 filled.heap filled.memory in
    (
      chunk_4gb,
      record filled {
        heap = heap';
        memory = memory';
        chunks = update filled.chunks chunk_4gb (record { directory_entry = directory });
      },
    )

-- The loop at table `i` with `n` rounds left.
unfoldable pub free_tables : (n i directory : ℕ) → Words → Heap → Heap
free_tables zero i directory w heap = heap
free_tables (suc n) i directory w heap =
    free_tables n (i + 1) directory w
      (kernel_free (bit_and (w (directory + 4 * i)) frame_bits) heap)

unfoldable pub paging_free_4gb : (chunk : ℕ) → Pages → Pages
paging_free_4gb chunk s =
    let directory : ℕ = (s.chunks chunk).directory_entry in
    record s {
      heap =
          kernel_free chunk
            (kernel_free directory (free_tables entries_per_table 0 directory s.words s.heap));
    }
