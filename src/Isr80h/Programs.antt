-- ===== src/Isr80h/Programs.antt =====
-- src/isr80h/process.c: programs that are started, their arguments, and their end.
use own_kernel.Prelude.{ℕ, ◌+◌, none, some, ◌==◌, if◌then◌else◌, update}
use own_kernel.Prelude.Int.{is_err, invalid_argument_error}
use own_kernel.Memory.{Mem, put_long}
use own_kernel.Strings.{strlen, strcpy, strncpy}
use own_kernel.Fat16.{to_word}
use own_kernel.PathParser.{max_path}
use own_kernel.Task.{task_switch, task_next}
use own_kernel.Process.{Kernel}
use own_kernel.Process.Life.{process_get_arguments, process_inject_arguments, process_terminate}
use own_kernel.Process.Load.{process_load_switch}
use own_kernel.Spaces.{copy_string_from_task, task_virtual_address_to_physical}
use own_kernel.Isr80h.{
  System, Surroundings, Outcome, back, resumes, stuck, kernel_of, with_kernel, current_task,
  process_of, stack_item,
}

abbrev pub with_memory : System → Mem → System
with_memory s m =
    with_kernel s (record (kernel_of s) { pages = record (kernel_of s).pages { memory = m } })

-- `strcpy(path, "0:/")`
abbrev pub put_drive : (path : ℕ) → Mem → Mem
put_drive path m =
    update (update (update (update m path b'0') (path + 1) b':') (path + 2) b'/') (path + 3) 0

-- `task_switch` to the task of a process, and `task_return` with its registers.
abbrev pub enter : (process : ℕ) → System → Outcome
enter process s =
    let k : Kernel = kernel_of s in
    let task : ℕ = (k.process process).task in
    resumes (k.tasks.task task).registers
      (with_kernel s (record k { tasks = task_switch task k.tasks }))

-- From the path on.
unfoldable pub start_path : Surroundings → System → Outcome
start_path env s = elim (process_load_switch env.read_mode env.stat env.path s.files) [
  | none ↦ stuck
  | some ((res, process), files) ↦
      let s1 : System = record s { files = files } in
      if is_err res then back 0 s1 else enter process s1
]

unfoldable pub isr80h_command6_process_load_start : Surroundings → System → Outcome
isr80h_command6_process_load_start env s =
    let (filename, s1) = stack_item env 0 s in
    let (res, k) =
      copy_string_from_task env.translate env.kernel_chunk (current_task s1) filename env.buffer
        max_path (kernel_of s1) in
    let s2 : System = with_kernel s1 k in
    let started =
      elim (strcpy env.fuel (env.path + 3) env.buffer (put_drive env.path k.pages.memory))
        as (λ _. Outcome) [ none ↦ stuck | some m ↦ start_path env (with_memory s2 m) ] in
    if is_err res then back 0 s2 else started

-- The program that has been loaded: its arguments.
unfoldable pub inject : Surroundings → (root_argument process : ℕ) → System → Outcome
inject env root_argument process s =
    elim (process_inject_arguments env.fuel process root_argument (kernel_of s)) [
      | none ↦ stuck
      | some (res, k) ↦
          if is_err res
          then back (to_word res) (with_kernel s k)
          else enter process (with_kernel s k)
    ]

-- From the path on.
unfoldable pub invoke_path : Surroundings → (root_argument : ℕ) → System → Outcome
invoke_path env root_argument s =
    elim (process_load_switch env.read_mode env.stat env.path s.files) [
      | none ↦ stuck
      | some ((res, process), files) ↦
          let s1 : System = record s { files = files } in
          if is_err res then back (to_word res) s1 else inject env root_argument process s1
    ]

-- The copy of the name has the size of the whole path, from the path's byte 3 on.
unfoldable pub isr80h_command7_invoke_system_command : Surroundings → System → Outcome
isr80h_command7_invoke_system_command env s =
    let (item, s1) = stack_item env 0 s in
    let arguments : ℕ = task_virtual_address_to_physical (current_task s1) item (kernel_of s1) in
    let m : Mem = (kernel_of s1).pages.memory in
    let named : System =
      with_memory s1 (strncpy (env.path + 3) arguments max_path (put_drive env.path m)) in
    let invoked = elim (strlen env.fuel m arguments) as (λ _. Outcome) [
      | none ↦ stuck
      | some len ↦
          if len == 0
          then back (to_word invalid_argument_error) s1
          else invoke_path env arguments named
    ] in
    if arguments == 0 then back (to_word invalid_argument_error) s1 else invoked

unfoldable pub isr80h_command8_get_program_arguments : Surroundings → System → Outcome
isr80h_command8_get_program_arguments env s =
    let (item, s1) = stack_item env 0 s in
    let k : Kernel = kernel_of s1 in
    let arguments : ℕ = task_virtual_address_to_physical (current_task s1) item k in
    let (argc, argv) = process_get_arguments (process_of k) k in
    back 0 (with_memory s1 (put_long (arguments + 4) argv (put_long arguments argc k.pages.memory)))

-- The next task goes on; `stuck` is also the panic that there is none.
unfoldable pub isr80h_command0_exit : System → Outcome
isr80h_command0_exit s = elim (process_terminate (process_of (kernel_of s)) (kernel_of s)) [
  | none ↦ stuck
  | some (res, k) ↦ elim (task_next k.tasks) [
    | none ↦ stuck
    | some (tasks, registers) ↦ resumes registers (with_kernel s (record k { tasks = tasks }))
  ]
]
