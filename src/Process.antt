-- ===== src/Process.antt =====
-- src/task/process.c: processes, their slots, and the memory that a process has allocated.
-- A process lies at an address, apart from the bytes of memory; 0 is a null pointer. Addresses and
-- sizes are 32 bits wide.
pub mod Table
pub mod Allocations
pub mod Life
pub mod Ending
pub mod Program
pub mod Load
use own_kernel.Prelude.{
  ℕ, zero, suc, ◌+◌, ◌%◌, ◌^◌, Bool, true, false, ◌||◌, Option, none, some, ◌==◌, leb,
  if◌then◌else◌, update,
}
use own_kernel.Prelude.Int.{ℤ, pos, negsuc, is_err, all_ok, no_memory_error}
use own_kernel.Heap.{Heap}
use own_kernel.KernelHeap.{kernel_zalloc, kernel_free}
use own_kernel.Paging.{Chunk, paging_map_to, paging_align_address}
use own_kernel.Paging.Chunks.{Pages}
use own_kernel.Fat16.Directory.{FatFs}
use own_kernel.Elf.{ElfFile}
use own_kernel.Task.{Tasks}

abbrev pub max_program_allocations : ℕ
max_program_allocations = 1024

abbrev pub max_processes : ℕ
max_processes = 12

-- `struct process_allocation`
pub record Allocation : Type 0 where
  pub ptr : ℕ
  pub size : ℕ

abbrev pub no_allocation : Allocation
no_allocation = record { ptr = 0; size = 0 }

-- `PROCESS_FILETYPE_ELF`, `PROCESS_FILETYPE_BINARY`
abbrev pub filetype_elf : ℕ
filetype_elf = 0

abbrev pub filetype_binary : ℕ
filetype_binary = 1

-- `program` is the union of `ptr` and `elf_file`. The file name is bytes of memory, at the process's
-- address + 2; the key buffer is in Keyboard.
pub record Process : Type 0 where
  pub id : ℕ
  pub task : ℕ
  pub allocations : ℕ → Allocation
  pub filetype : ℕ
  pub program : ℕ
  pub stack : ℕ
  pub size : ℕ
  pub argc : ℕ
  pub argv : ℕ

-- `fat` is the state of fat16.c, whose heap and memory are those of `pages`.
pub record Kernel : Type 0 where
  pub pages : Pages
  pub tasks : Tasks
  pub process : ℕ → Process
  pub elf_files : ℕ → ElfFile
  pub processes : ℕ → ℕ
  pub fat : FatFs
  pub current_process : ℕ

unfoldable pub zalloc : ℕ → Kernel → ℕ × Kernel
zalloc size k =
    let (ptr, heap, memory) = kernel_zalloc size k.pages.heap k.pages.memory in
    (ptr, record k { pages = record k.pages { heap = heap; memory = memory } })

unfoldable pub free : ℕ → Kernel → Kernel
free ptr k = record k { pages = record k.pages { heap = kernel_free ptr k.pages.heap } }

abbrev pub set_process : ℕ → Process → Kernel → Kernel
set_process address process k = record k { process = update k.process address process }

-- the page directory of a process's task
abbrev pub directory_of : Kernel → (process : ℕ) → Chunk
directory_of k process = k.pages.chunks (k.tasks.task (k.process process).task).page_directory

-- `paging_map_to` on that directory
unfoldable pub map_to :
    (process virtual_address physical_address physical_end_address flags : ℕ) → Kernel → ℤ × Kernel
map_to process virtual_address physical_address physical_end_address flags k =
    let (res, words) =
      paging_map_to (directory_of k process) virtual_address physical_address physical_end_address
        flags k.pages.words in
    (res, record k { pages = record k.pages { words = words } })

unfoldable pub process_get : ℤ → Kernel → ℕ
process_get (negsuc n) k = 0
process_get (pos n) k = if leb max_processes n then 0 else k.processes n

unfoldable pub process_switch : ℕ → Kernel → ℤ × Kernel
process_switch process k = (pos 0, record k { current_process = process })

-- The loop at slot `i` with `n` rounds left; the error is `-INITIALIZE_SLOT_TAKEN`.
unfoldable pub free_slot_loop : (n i : ℕ) → (ℕ → ℕ) → ℤ
free_slot_loop zero i processes = negsuc 7
free_slot_loop (suc n) i processes =
    let rest = free_slot_loop n (i + 1) processes in if processes i == 0 then pos i else rest

unfoldable pub process_get_free_slot : Kernel → ℤ
process_get_free_slot k = free_slot_loop max_processes 0 k.processes

-- The first entry from `i` on, of `n`, whose pointer is `addr`.
unfoldable pub find_allocation : (n i addr : ℕ) → (ℕ → Allocation) → Option ℕ
find_allocation zero i addr allocations = none
find_allocation (suc n) i addr allocations =
    let rest = find_allocation n (i + 1) addr allocations in
    if (allocations i).ptr == addr then some i else rest

unfoldable pub process_find_free_allocation_index : Process → ℤ
process_find_free_allocation_index process =
    elim (find_allocation max_program_allocations 0 0 process.allocations) [
      | none ↦ no_memory_error
      | some index ↦ pos index
    ]

-- `PAGING_IS_WRITEABLE | PAGING_IS_PRESENT | PAGING_ACCESS_FROM_ALL`
abbrev pub user_flags : ℕ
user_flags = 7

abbrev pub set_allocation : (process index : ℕ) → Allocation → Kernel → Kernel
set_allocation process index allocation k =
    set_process process
      (record (k.process process) {
        allocations = update (k.process process).allocations index allocation;
      })
      k

-- `process_malloc` for the entry that was found, with the memory at `ptr`.
unfoldable pub malloc_at : (process size ptr index : ℕ) → Kernel → ℕ × Kernel
malloc_at process size ptr index k =
    let (res, mapped) =
      map_to process ptr ptr (paging_align_address ((ptr + size) % 2 ^ 32)) user_flags k in
    if is_err res
    then (0, free ptr mapped)
    else (ptr, set_allocation process index (record { ptr = ptr; size = size }) mapped)

unfoldable pub process_malloc : (process size : ℕ) → Kernel → ℕ × Kernel
process_malloc process size k =
    let (ptr, k') = zalloc size k in
    if ptr == 0 then (0, k') else elim (process_find_free_allocation_index (k'.process process)) [
      | negsuc n ↦ (0, free ptr k')
      | pos index ↦ malloc_at process size ptr index k'
    ]

unfoldable pub process_is_process_pointer : Process → ℕ → Bool
process_is_process_pointer process ptr =
    elim (find_allocation max_program_allocations 0 ptr process.allocations) [
      | none ↦ false
      | some index ↦ true
    ]

-- The loop at entry `i` with `n` rounds left.
unfoldable pub unmark_loop : (n i ptr : ℕ) → (ℕ → Allocation) → ℕ → Allocation
unmark_loop zero i ptr allocations = allocations
unmark_loop (suc n) i ptr allocations =
    unmark_loop n (i + 1) ptr
      (if (allocations i).ptr == ptr then update allocations i no_allocation else allocations)

unfoldable pub process_allocation_unmark : (process ptr : ℕ) → Kernel → Kernel
process_allocation_unmark process ptr k =
    set_process process
      (record (k.process process) {
        allocations = unmark_loop max_program_allocations 0 ptr (k.process process).allocations;
      })
      k

-- The entry's index; `none` is a null pointer.
unfoldable pub process_get_allocation_by_addr : Process → ℕ → Option ℕ
process_get_allocation_by_addr process addr =
    find_allocation max_program_allocations 0 addr process.allocations

unfoldable pub process_free : (process ptr : ℕ) → Kernel → Kernel
process_free process ptr k = elim (process_get_allocation_by_addr (k.process process) ptr) [
  | none ↦ k
  | some index ↦
      let allocation : Allocation = (k.process process).allocations index in
      let (res, unmapped) =
        map_to process allocation.ptr allocation.ptr
          (paging_align_address ((allocation.ptr + allocation.size) % 2 ^ 32)) 0x00 k in
      if is_err res then unmapped else free ptr (process_allocation_unmark process ptr unmapped)
]
