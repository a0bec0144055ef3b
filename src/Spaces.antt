-- ===== src/Spaces.antt =====
-- src/task/task.c: the memory of a task, as the kernel reads it through the task's page directory.
-- How the processor translates an address is a parameter; `IsTranslation` states what its manual
-- says of a page that is present. The page directories are those of Paging.
pub mod Translated
pub mod Copy
use own_kernel.Prelude.{
  ℕ, zero, suc, ◌+◌, ◌-◌, ◌*◌, ◌/◌, ◌%◌, ◌^◌, ◌<◌, ◌≡◌, ◌==◌, leb, if◌then◌else◌, bit_and, update,
}
use own_kernel.Prelude.Int.{ℤ, is_err, io_error, no_memory_error, invalid_argument_error}
use own_kernel.Memory.{Mem, long_at}
use own_kernel.Strings.{strncpy}
use own_kernel.Paging.{
  Words, Chunk, page_size, entries_per_table, frame_bits, paging_get, paging_map,
  paging_set_physical_address, paging_get_physical_address,
}
use own_kernel.Process.{Kernel, user_flags, zalloc, free}

-- The tables, the page directory in use and a virtual address, to a physical address.
abbrev pub Translation : Type 0
Translation = Words → (directory address : ℕ) → ℕ

-- The entry of the directory, and the entry of the table that it names, for an address.
abbrev pub directory_entry : Words → (directory address : ℕ) → ℕ
directory_entry w directory address =
    w (directory + 4 * (address / (entries_per_table * page_size)))

abbrev pub table_entry : Words → (directory address : ℕ) → ℕ
table_entry w directory address = w (
    bit_and (directory_entry w directory address) frame_bits
    + 4 * (address % (entries_per_table * page_size) / page_size))

-- Where both entries have the bit for present, the address lies in the frame of the table's entry.
pub record IsTranslation (translate : Translation) : Type 0 where
  pub present :
      (w : Words) (directory address : ℕ)
      → address < 2 ^ 32
      → directory_entry w directory address % 2 ≡ 1
      → table_entry w directory address % 2 ≡ 1
      → translate w directory address
        ≡ bit_and (table_entry w directory address) frame_bits + address % page_size

-- `task->page_directory`
abbrev pub chunk_of : Kernel → (task : ℕ) → Chunk
chunk_of k task = k.pages.chunks (k.tasks.task task).page_directory

-- Memory as the task sees it.
abbrev pub view : Translation → (task : ℕ) → Kernel → Mem
view translate task k a =
    k.pages.memory (translate k.pages.words (chunk_of k task).directory_entry a)

-- `kernel_page`
abbrev pub to_kernel_page : (kernel_chunk : ℕ) → Kernel → Kernel
to_kernel_page kernel_chunk k = record k { tasks = record k.tasks { directory = kernel_chunk } }

-- The item is read between the two switches of the page directory.
unfoldable pub task_get_stack_item :
    Translation → (kernel_chunk task index : ℕ) → Kernel → ℕ × Kernel
task_get_stack_item translate kernel_chunk task index k = (
  long_at (view translate task k) ((k.tasks.task task).registers.esp + 4 * index),
  to_kernel_page kernel_chunk k,
)

unfoldable pub task_virtual_address_to_physical : (task virtual_address : ℕ) → Kernel → ℕ
task_virtual_address_to_physical task virtual_address k =
    paging_get_physical_address (chunk_of k task).directory_entry virtual_address k.pages.words

-- The loop of `strncpy` with `n` rounds left, where each address is translated.
unfoldable pub translated_strncpy : (n i dest src : ℕ) → (translate : ℕ → ℕ) → Mem → Mem
translated_strncpy zero i dest src translate m = update m (translate (dest + i)) 0
translated_strncpy (suc n) i dest src translate m =
    let rest =
      translated_strncpy n (i + 1) dest src translate
        (update m (translate (dest + i)) (m (translate (src + i)))) in
    if m (translate (src + i)) == 0 then update m (translate (dest + i)) 0 else rest

-- `copy_string_from_task` behind the allocation of `tmp`. The result of the mapping is not looked at.
unfoldable pub copy_through :
    Translation
    → (kernel_chunk task virtual_address physical_address max tmp : ℕ) → Kernel
    → ℤ × Kernel
copy_through translate kernel_chunk task virtual_address physical_address max tmp k =
    let chunk : Chunk = chunk_of k task in
    let old_entry : ℕ = paging_get chunk.directory_entry tmp k.pages.words in
    let mapped : Words = (paging_map chunk tmp tmp user_flags k.pages.words).1 in
    let copied : Mem =
      translated_strncpy (max - 1) 0 tmp virtual_address (translate mapped chunk.directory_entry)
        k.pages.memory in
    let (res, words) = paging_set_physical_address chunk.directory_entry tmp old_entry mapped in
    let back : Kernel =
      to_kernel_page kernel_chunk
        (record k { pages = record k.pages { memory = copied; words = words } }) in
    if is_err res then (io_error, free tmp back) else (
      res,
      free tmp (record back {
        pages = record back.pages { memory = strncpy physical_address tmp max copied };
      }),
    )

unfoldable pub copy_string_from_task :
    Translation → (kernel_chunk task virtual_address physical_address max : ℕ) → Kernel → ℤ × Kernel
copy_string_from_task translate kernel_chunk task virtual_address physical_address max k =
    let (tmp, k') = zalloc max k in
    if leb page_size max
    then (invalid_argument_error, k)
    else if tmp == 0
    then (no_memory_error, k')
    else copy_through translate kernel_chunk task virtual_address physical_address max tmp k'
