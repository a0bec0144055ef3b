-- ===== src/Isr80h/Printing.antt =====
-- The system call that prints a text of the current task.
use own_kernel.Prelude.{ℕ, ◌+◌, ◌*◌, ◌%◌, ◌≤◌, ◌≡◌, refl, ◌⊎◌, List, [], ◌∷◌, ◌++◌, take, arith}
use own_kernel.Memory.{long_at}
use own_kernel.Heap.Search.{FreeRun}
use own_kernel.Heap.Alloc.{IsHeap, blocks}
use own_kernel.KernelHeap.{kernel_malloc}
use own_kernel.Paging.{page_size}
use own_kernel.Terminal.{print}
use own_kernel.Terminal.Printing.{write_all, print-write_all}
use own_kernel.Process.{Kernel}
use own_kernel.Spaces.{
  IsTranslation, view, to_kernel_page, task_get_stack_item, copy_string_from_task,
}
use own_kernel.Spaces.Copy.{IsSpace, IsText, length-take}
use own_kernel.Spaces.Copy.Whole.{copy_string_from_task-IsCopied}
use own_kernel.Isr80h.{
  print_buffer, some, Terminal, System, Surroundings, back, kernel_of, with_kernel, current_task,
  isr80h_command1_print,
}

-- The first item on the stack of the current task.
abbrev pub argument_of : Surroundings → System → ℕ
argument_of env s =
    long_at (view env.translate (current_task s) (kernel_of s))
      (((kernel_of s).tasks.task (current_task s)).registers.esp + 4 * 0)

-- The block that the copy is made in.
abbrev pub tmp_of : (max : ℕ) → System → ℕ
tmp_of max s = (kernel_malloc max (kernel_of s).pages.heap).0

print_buffer-some :
    (env : Surroundings) (s : System) {t : Terminal}
    → print env.fuel (kernel_of s).pages.memory env.buffer s.terminal ≡ some t
    → print_buffer env s ≡ back 0 (record s { terminal = t })
print_buffer-some env s printed = rw (printed, print_buffer) refl

-- With fuel for its buffer, the call on a text of the current task at its first argument, on present
-- pages of a well-formed directory, with a block free on a well-formed heap at a page for the copy,
-- comes back with 0: the first 1023 characters of the text and one more for its zero have been
-- written to the terminal, the heap and the page tables are as before, and the kernel's pages are in
-- use.
pub isr80h_command1_print-write_all :
    {table : ℕ → ℕ} (env : Surroundings) (s : System) (j : ℕ) (text : List ℕ)
    → IsTranslation env.translate
    → IsHeap (kernel_of s).pages.heap
    → (kernel_of s).pages.heap.start_address % page_size ≡ 0
    → j + blocks 1024 ≤ (kernel_of s).pages.heap.total
    → FreeRun (kernel_of s).pages.heap.entries j (j + blocks 1024)
    → IsSpace (kernel_of s) (current_task s) table
    → IsText env.translate
        (kernel_of s)
        (current_task s)
        (argument_of env s)
        text
        (tmp_of 1024 s)
        1024
    → (env.buffer + 1024 ≤ tmp_of 1024 s) ⊎ (tmp_of 1024 s + 1024 ≤ env.buffer)
    → 1024 ≤ env.fuel
    → (s' : System) × (isr80h_command1_print env s ≡ back 0 s')
      × (s'.terminal ≡ write_all (take 1023 text ++ 0 ∷ []) s.terminal)
      × ((kernel_of s').pages.heap ≡ (kernel_of s).pages.heap)
      × ((kernel_of s').pages.words ≡ (kernel_of s).pages.words)
      × ((kernel_of s').tasks.directory ≡ env.kernel_chunk)
unfolding isr80h_command1_print task_get_stack_item
isr80h_command1_print-write_all {table} env s j text law heap aligned fits run space shown apart
      enough =
    let k : Kernel = to_kernel_page env.kernel_chunk (kernel_of s) in
    let space' : IsSpace k (current_task s) table = record {
      chunk = space.chunk;
      present = space.present;
    } in
    let shown' : IsText env.translate k (current_task s) (argument_of env s) text (tmp_of 1024 s)
        1024 =
      record {
        bytes = shown.bytes;
        fits = shown.fits;
        present = shown.present;
        other_page = shown.other_page;
        apart = shown.apart;
      } in
    let (done, copied, restored) =
      copy_string_from_task-IsCopied {k = k} {translate = env.translate} {table = table}
        env.kernel_chunk (current_task s) (argument_of env s) env.buffer 1024 j text law heap
        aligned (omega arith) (omega arith) fits run space' shown' apart in
    let copy : Kernel =
      (copy_string_from_task env.translate env.kernel_chunk (current_task s) (argument_of env s)
        env.buffer 1024 k).1 in
    let printed =
      print-write_all env.fuel copy.pages.memory env.buffer (take 1023 text) s.terminal copied.text
        (omega (arith, length-take 1023 text)) in
    (
      record (with_kernel s copy) { terminal = write_all (take 1023 text ++ 0 ∷ []) s.terminal },
      print_buffer-some env (with_kernel s copy) printed,
      refl,
      restored,
      copied.words,
      copied.directory,
    )
