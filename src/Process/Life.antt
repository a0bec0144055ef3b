-- ===== src/Process/Life.antt =====
-- process.c: the arguments of a process, the mapping of its program, and its end. An argument is
-- 512 bytes in memory, with the pointer to the next behind them. `none` means that fuel ran out, or
-- the call of `panic`.
use own_kernel.Prelude.{
  ◌-◌, ℕ, zero, suc, ◌+◌, ◌*◌, ◌%◌, ◌^◌, Option, none, some, ◌==◌, if◌then◌else◌, update, bit_and,
}
use own_kernel.Prelude.Int.{ℤ, is_err, all_ok, io_error, no_memory_error, invalid_argument_error}
use own_kernel.Memory.{Mem, put_long, long_at}
use own_kernel.Strings.{strncpy}
use own_kernel.Paging.{paging_align_address, paging_align_to_lower_page}
use own_kernel.Paging.Chunks.{paging_free_4gb}
use own_kernel.Elf.{ElfFile, ProgramHeader, elf_phdr_phys_address}
use own_kernel.Task.{task_list_remove}
use own_kernel.Process.{
  Process, Kernel, max_program_allocations, max_processes, filetype_elf, filetype_binary,
  user_flags, free, set_process, map_to, process_malloc, process_free, process_switch,
}

abbrev pub program_virtual_address : ℕ
program_virtual_address = 0x400000

-- `OS_USER_PROGRAM_VIRTUAL_STACK_SIZE`, and the address of the stack's last page but its size
abbrev pub stack_size : ℕ
stack_size = 1024 * 16

abbrev pub stack_address_end : ℕ
stack_address_end = 0x3FF000 - stack_size

-- The result of the mapping is not looked at.
unfoldable pub process_map_binary : (process : ℕ) → Kernel → ℤ × Kernel
process_map_binary process k =
    let p : Process = k.process process in
    let (res, mapped) =
      map_to process program_virtual_address p.program
        (paging_align_address ((p.program + p.size) % 2 ^ 32)) user_flags k in
    (all_ok, mapped)

-- `PF_W`; the flags without `PAGING_IS_WRITEABLE`
abbrev pub elf_flags : ProgramHeader → ℕ
elf_flags phdr = if bit_and phdr.p_flags 0x02 == 0 then 5 else user_flags

-- The loop at header `i` with `n` rounds left; `res` is the result of the round before.
unfoldable pub map_elf_loop : (n i : ℕ) → (process : ℕ) → ElfFile → ℤ → Kernel → ℤ × Kernel
map_elf_loop zero i process file res k = (res, k)
map_elf_loop (suc n) i process file res k =
    let phdr : ProgramHeader = file.program_header i in
    let physical : ℕ = elf_phdr_phys_address file phdr in
    let (res', k') =
      map_to process (paging_align_to_lower_page phdr.p_vaddr) (paging_align_to_lower_page physical)
        (paging_align_address ((physical + phdr.p_memsz) % 2 ^ 32)) (elf_flags phdr) k in
    let rest = map_elf_loop n (i + 1) process file res' k' in
    if is_err res' then (res', k') else rest

unfoldable pub process_map_elf : (process : ℕ) → Kernel → ℤ × Kernel
process_map_elf process k =
    let file : ElfFile = k.elf_files (k.process process).program in
    map_elf_loop file.header.e_phnum 0 process file all_ok k

-- The stack's pages, behind a program that was mapped with `res`.
unfoldable pub map_stack : (process : ℕ) → ℤ × Kernel → ℤ × Kernel
map_stack process (res, k) =
    let stack : ℕ = (k.process process).stack in
    let (ignored, mapped) =
      map_to process stack_address_end stack (paging_align_address ((stack + stack_size) % 2 ^ 32))
        user_flags k in
    if is_err res then (res, k) else (res, mapped)

unfoldable pub process_map_memory : (process : ℕ) → Kernel → Option (ℤ × Kernel)
process_map_memory process k =
    let filetype : ℕ = (k.process process).filetype in
    if filetype == filetype_elf
    then some (map_stack process (process_map_elf process k))
    else if filetype == filetype_binary
    then some (map_stack process (process_map_binary process k))
    else none

-- `argc` and `argv`
unfoldable pub process_get_arguments : (process : ℕ) → Kernel → ℕ × ℕ
process_get_arguments process k = ((k.process process).argc, (k.process process).argv)

abbrev pub argument_size : ℕ
argument_size = 512

-- `current->next`
abbrev pub next_argument : Mem → ℕ → ℕ
next_argument m current = long_at m (current + argument_size)

-- The loop at the count `i`.
unfoldable pub count_loop : (fuel : ℕ) → Mem → (current i : ℕ) → Option ℕ
count_loop zero m current i = none
count_loop (suc fuel) m current i =
    let rest = count_loop fuel m (next_argument m current) (i + 1) in
    if current == 0 then some i else rest

unfoldable pub process_count_command_arguments : (fuel : ℕ) → Mem → (root_argument : ℕ) → Option ℕ
process_count_command_arguments fuel m root_argument = count_loop fuel m root_argument 0

-- `strncpy` to the new string, and its address in `argv[i]`.
abbrev pub put_argument : (argv i argument_str current : ℕ) → Kernel → Kernel
put_argument argv i argument_str current k = record k {
  pages = record k.pages {
    memory =
        put_long (argv + 4 * i) argument_str
          (strncpy argument_str current argument_size k.pages.memory);
  };
}

-- The loop at argument `i`.
unfoldable pub inject_loop : (fuel process argv current i : ℕ) → Kernel → Option (ℤ × Kernel)
inject_loop zero process argv current i k = none
inject_loop (suc fuel) process argv current i k =
    let (argument_str, k1) = process_malloc process argument_size k in
    let k2 : Kernel = put_argument argv i argument_str current k1 in
    let rest = inject_loop fuel process argv (next_argument k2.pages.memory current) (i + 1) k2 in
    if current == 0
    then some (all_ok, k)
    else if argument_str == 0
    then some (no_memory_error, k1)
    else rest

-- The end of `process_inject_arguments`.
abbrev pub with_arguments : (process argc argv : ℕ) → ℤ × Kernel → ℤ × Kernel
with_arguments process argc argv (res, k) =
    if is_err res
    then (res, k)
    else (res, set_process process (record (k.process process) { argc = argc; argv = argv }) k)

unfoldable pub process_inject_arguments :
    (fuel process root_argument : ℕ) → Kernel → Option (ℤ × Kernel)
process_inject_arguments fuel process root_argument k =
    elim (process_count_command_arguments fuel k.pages.memory root_argument) [
      | none ↦ none
      | some argc ↦
          let (argv, k1) = process_malloc process (4 * argc) k in
          let injected = inject_loop fuel process argv root_argument 0 k1 in
          if argc == 0
          then some (io_error, k)
          else if argv == 0
          then some (no_memory_error, k1)
          else elim injected [
            | none ↦ none
            | some result ↦ some (with_arguments process argc argv result)
          ]
    ]

-- The loop at entry `i` with `n` rounds left.
unfoldable pub terminate_loop : (n i process : ℕ) → Kernel → Kernel
terminate_loop zero i process k = k
terminate_loop (suc n) i process k =
    terminate_loop n (i + 1) process
      (process_free process ((k.process process).allocations i).ptr k)

unfoldable pub process_terminate_allocations : (process : ℕ) → Kernel → ℤ × Kernel
process_terminate_allocations process k =
    (all_ok, terminate_loop max_program_allocations 0 process k)

unfoldable pub process_free_binary_data : (process : ℕ) → Kernel → ℤ × Kernel
process_free_binary_data process k = (all_ok, free (k.process process).program k)

-- elfloader.c
unfoldable pub elf_close : (file : ℕ) → Kernel → Kernel
elf_close file k = if file == 0 then k else free file (free (k.elf_files file).elf_memory k)

unfoldable pub process_free_elf_data : (process : ℕ) → Kernel → ℤ × Kernel
process_free_elf_data process k = (all_ok, elf_close (k.process process).program k)

unfoldable pub process_free_program_data : (process : ℕ) → Kernel → ℤ × Kernel
process_free_program_data process k =
    let filetype : ℕ = (k.process process).filetype in
    if filetype == filetype_binary
    then process_free_binary_data process k
    else if filetype == filetype_elf
    then process_free_elf_data process k
    else (invalid_argument_error, k)

-- task.c
unfoldable pub task_free : (task : ℕ) → Kernel → Kernel
task_free task k = free task (record k {
  pages = paging_free_4gb (k.tasks.task task).page_directory k.pages;
  tasks = task_list_remove task k.tasks;
})

-- The loop at slot `i` with `n` rounds left.
unfoldable pub switch_to_any_loop : (n i : ℕ) → Kernel → Option Kernel
switch_to_any_loop zero i k = none
switch_to_any_loop (suc n) i k =
    let rest = switch_to_any_loop n (i + 1) k in
    if k.processes i == 0 then rest else some (process_switch (k.processes i) k).1

unfoldable pub process_switch_to_any : Kernel → Option Kernel
process_switch_to_any k = switch_to_any_loop max_processes 0 k

unfoldable pub process_unlink : (process : ℕ) → Kernel → Option Kernel
process_unlink process k =
    let unlinked : Kernel = record k {
      processes = update k.processes (k.process process).id 0x00;
    } in
    if k.current_process == process then process_switch_to_any unlinked else some unlinked

unfoldable pub process_terminate : (process : ℕ) → Kernel → Option (ℤ × Kernel)
process_terminate process k =
    let (res1, k1) = process_terminate_allocations process k in
    let (res2, k2) = process_free_program_data process k1 in
    let k3 : Kernel = free (k2.process process).stack k2 in
    let k4 : Kernel = task_free (k3.process process).task k3 in
    if is_err res1
    then some (res1, k1)
    else if is_err res2
    then some (res2, k2)
    else elim (process_unlink process k4) [ none ↦ none | some k5 ↦ some (res2, k5) ]
