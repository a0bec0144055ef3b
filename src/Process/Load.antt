-- ===== src/Process/Load.antt =====
-- process.c and task.c: a process that is made for a program. `none` is the call of `panic` for a
-- file type that is not known.
use own_kernel.Prelude.{ℕ, ◌+◌, Option, none, some, ◌==◌, if◌then◌else◌, update}
use own_kernel.Prelude.Int.{ℤ, pos, negsuc, is_err, is_ok, all_ok, io_error, no_memory_error}
use own_kernel.Strings.{strncpy}
use own_kernel.PathParser.{max_path}
use own_kernel.Fat16.{to_word}
use own_kernel.Files.{Files}
use own_kernel.Paging.Chunks.{paging_new_4gb}
use own_kernel.Task.{Task, task_init, task_list_add, no_registers}
use own_kernel.Process.{
  Process, Kernel, no_allocation, filetype_elf, zalloc, set_process, process_get, process_switch,
  process_get_free_slot,
}
use own_kernel.Process.Life.{task_free, process_map_memory, stack_size}
use own_kernel.Process.Program.{process_load_data}

-- `sizeof(struct task)`
abbrev pub task_size : ℕ
task_size = 64

abbrev pub set_task : ℕ → Task → Kernel → Kernel
set_task address task k = record k {
  tasks = record k.tasks { task = update k.tasks.task address task };
}

-- The entry of an ELF file, if the process has one.
abbrev pub entry_of : ℕ → Kernel → Option ℕ
entry_of process k =
    if (k.process process).filetype == filetype_elf
    then some (k.elf_files (k.process process).program).header.e_entry
    else none

-- `task_init` in memory: the pages are made first, and a task without them is only cleared.
unfoldable pub init_task : (task process : ℕ) → Kernel → ℤ × Kernel
init_task task process k =
    let (page_directory, pages) = paging_new_4gb 5 k.pages in
    let mapped : Kernel = record k { pages = pages } in
    let cleared : Task = record {
      page_directory = 0;
      registers = no_registers;
      process = 0;
      next = 0;
      prev = 0;
    } in
    if page_directory == 0
    then (io_error, set_task task cleared mapped)
    else (all_ok, set_task task (task_init page_directory process (entry_of process mapped)) mapped)

-- `out:` in `task_new`: a pointer, or the pattern of a code.
abbrev pub task_or_error : (task : ℕ) → ℤ × Kernel → ℕ × Kernel
task_or_error task (res, k) =
    if is_err res
    then (to_word res, task_free task k)
    else (task, record k { tasks = task_list_add task k.tasks })

unfoldable pub task_new : (process : ℕ) → Kernel → ℕ × Kernel
task_new process k =
    let (task, k1) = zalloc task_size k in
    if task == 0
    then task_or_error task (no_memory_error, k1)
    else task_or_error task (init_task task process k1)

-- `sizeof(struct process)`
abbrev pub process_size : ℕ
process_size = 9364

abbrev pub no_process : Process
no_process = record {
  id = 0;
  task = 0;
  allocations = λ _. no_allocation;
  filetype = 0;
  program = 0;
  stack = 0;
  size = 0;
  argc = 0;
  argv = 0;
}

-- The name, the stack and the slot of the process.
abbrev pub describe : (process filename stack slot : ℕ) → Kernel → Kernel
describe process filename stack slot k =
    set_process process (record (k.process process) { stack = stack; id = slot })
      (record k {
        pages = record k.pages { memory = strncpy (process + 2) filename max_path k.pages.memory };
      })

-- The result and the process that goes out, 0 for none. From the mapping on.
unfoldable pub finish_load : (process task slot : ℕ) → Kernel → Option ((ℤ × ℕ) × Kernel)
finish_load process task slot k =
    let with_task : Kernel = set_process process (record (k.process process) { task = task }) k in
    elim (process_map_memory process with_task) [
      | none ↦ none
      | some (res, mapped) ↦ some (
          if is_err res
          then ((res, 0), task_free task mapped)
          else ((res, process), record mapped { processes = update mapped.processes slot process }))
    ]

-- From the stack on, for the program that was loaded with the result `res`. The test of the task is
-- for 0, and an error that `task_new` gives is taken for a task.
unfoldable pub load_stack :
    (process filename slot : ℕ) → (res : ℤ) → Kernel → Option ((ℤ × ℕ) × Kernel)
load_stack process filename slot res k =
    let (stack, k1) = zalloc stack_size k in
    let (task, k2) = task_new process (describe process filename stack slot k1) in
    let finished = finish_load process task slot k2 in
    if is_err res
    then some ((res, 0), k)
    else if stack == 0
    then some ((no_memory_error, 0), k1)
    else if task == 0
    then some ((all_ok, 0), k2)
    else finished

-- `-INITIALIZE_SLOT_TAKEN`; the process that is not set behind it is taken for null.
unfoldable pub process_load_for_slot :
    (read_mode stat filename slot : ℕ) → Files Kernel → Option ((ℤ × ℕ) × Files Kernel)
process_load_for_slot read_mode stat filename slot s =
    let (process, k1) = zalloc process_size s.world in
    let cleared : Files Kernel = record s { world = set_process process no_process k1 } in
    let (res, s2) = process_load_data read_mode stat filename process cleared in
    let loaded =
      elim (load_stack process filename slot res s2.world)
        as (λ _. Option ((ℤ × ℕ) × Files Kernel)) [
          | none ↦ none
          | some (result, k) ↦ some (result, record s2 { world = k })
        ] in
    if process_get (pos slot) s.world == 0
    then if process == 0 then some ((no_memory_error, 0), record s { world = k1 }) else loaded
    else some ((negsuc 7, 0), s)

unfoldable pub process_load :
    (read_mode stat filename : ℕ) → Files Kernel → Option ((ℤ × ℕ) × Files Kernel)
process_load read_mode stat filename s = elim (process_get_free_slot s.world) [
  | negsuc n ↦ some ((no_memory_error, 0), s)
  | pos slot ↦ process_load_for_slot read_mode stat filename slot s
]

-- The process is switched to where the result is 0, also if it is null.
unfoldable pub process_load_switch :
    (read_mode stat filename : ℕ) → Files Kernel → Option ((ℤ × ℕ) × Files Kernel)
process_load_switch read_mode stat filename s = elim (process_load read_mode stat filename s) [
  | none ↦ none
  | some ((res, process), s') ↦ some (
    (res, process),
    if is_ok res then record s' { world = (process_switch process s'.world).1 } else s',
  )
]
