-- ===== src/Task.antt =====
-- src/task/task.c: the tasks as a doubly linked list on a heap, the task that runs, and the
-- registers that are saved in a task.
-- A pointer is an address, 0 is null. The page directory of a task is the address of its chunk.
pub mod Ring
pub mod Rounds
pub mod Removal
use own_kernel.Prelude.{ℕ, Bool, true, false, Option, none, some, ◌==◌, if◌then◌else◌, update}

abbrev pub Ptr : Type 0
Ptr = ℕ

abbrev pub null : Ptr
null = 0

pub record Registers : Type 0 where
  pub edi : ℕ
  pub esi : ℕ
  pub ebp : ℕ
  pub ebx : ℕ
  pub edx : ℕ
  pub ecx : ℕ
  pub eax : ℕ
  pub ip : ℕ
  pub cs : ℕ
  pub flags : ℕ
  pub esp : ℕ
  pub ss : ℕ

-- idt.h
pub record InterruptFrame : Type 0 where
  pub edi : ℕ
  pub esi : ℕ
  pub ebp : ℕ
  pub reserved : ℕ
  pub ebx : ℕ
  pub edx : ℕ
  pub ecx : ℕ
  pub eax : ℕ
  pub ip : ℕ
  pub cs : ℕ
  pub flags : ℕ
  pub esp : ℕ
  pub ss : ℕ

pub record Task : Type 0 where
  pub page_directory : Ptr
  pub registers : Registers
  pub process : Ptr
  pub next : Ptr
  pub prev : Ptr

-- `task_head`, `task_tail`, `current_task`, the tasks in memory, and the page directory in use
pub record Tasks : Type 0 where
  pub task : Ptr → Task
  pub head : Ptr
  pub tail : Ptr
  pub current : Ptr
  pub directory : Ptr

abbrev pub no_registers : Registers
no_registers = record {
  edi = 0;
  esi = 0;
  ebp = 0;
  ebx = 0;
  edx = 0;
  ecx = 0;
  eax = 0;
  ip = 0;
  cs = 0;
  flags = 0;
  esp = 0;
  ss = 0;
}

-- A new task, for a process with page directory `page_directory`, whose program is entered at
-- `elf_entry` if it is an ELF file (`none` for a flat binary).
unfoldable pub task_init : (page_directory process : Ptr) → (elf_entry : Option ℕ) → Task
task_init page_directory process elf_entry = record {
  page_directory = page_directory;
  registers = record no_registers {
    ip = elim elf_entry [ none ↦ 0x400000 | some entry ↦ entry ];
    cs = 0x1b;
    esp = 0x3FF000;
    ss = 0x23;
  };
  process = process;
  next = null;
  prev = null;
}

-- The end of `task_new`, for the task that was allocated at `t` and initialised.
unfoldable pub task_list_add : Ptr → Tasks → Tasks
task_list_add t s =
    let linked : Ptr → Task = update s.task s.tail (record (s.task s.tail) { next = t }) in
    if s.head == null
    then record s { head = t; tail = t; current = t }
    else record s { task = update linked t (record (linked t) { prev = s.tail }); tail = t }

-- A null current task is a fault.
unfoldable pub task_get_next : Tasks → Ptr
task_get_next s = if (s.task s.current).next == null then s.head else (s.task s.current).next

-- `task->prev->next = task->next`
abbrev pub unlink_prev : Ptr → Tasks → Tasks
unlink_prev t s = if (s.task t).prev == null then s else record s {
  task = update s.task (s.task t).prev (record (s.task (s.task t).prev) { next = (s.task t).next });
}

abbrev pub unlink_head : Ptr → Tasks → Tasks
unlink_head t s = if t == s.head then record s { head = (s.task t).next } else s

abbrev pub unlink_tail : Ptr → Tasks → Tasks
unlink_tail t s = if t == s.tail then record s { tail = (s.task t).prev } else s

unfoldable pub unlink_current : Ptr → Tasks → Tasks
unlink_current t s = if t == s.current then record s { current = task_get_next s } else s

unfoldable pub task_list_remove : Ptr → Tasks → Tasks
task_list_remove t s = unlink_current t (unlink_tail t (unlink_head t (unlink_prev t s)))

unfoldable pub task_switch : Ptr → Tasks → Tasks
task_switch t s = record s { current = t; directory = (s.task t).page_directory }

-- `none` is the call of `panic`; otherwise `task_return` goes on with the registers of the task.
unfoldable pub task_next : Tasks → Option (Tasks × Registers)
task_next s =
    if task_get_next s == null
    then none
    else some (task_switch (task_get_next s) s, (s.task (task_get_next s)).registers)

unfoldable pub task_run_first_ever_task : Tasks → Option (Tasks × Registers)
task_run_first_ever_task s =
    if s.current == null then none else some (task_switch s.head s, (s.task s.head).registers)

unfoldable pub saved_registers : InterruptFrame → Registers
saved_registers frame = record {
  edi = frame.edi;
  esi = frame.esi;
  ebp = frame.ebp;
  ebx = frame.ebx;
  edx = frame.edx;
  ecx = frame.ecx;
  eax = frame.eax;
  ip = frame.ip;
  cs = frame.cs;
  flags = frame.flags;
  esp = frame.esp;
  ss = frame.ss;
}

unfoldable pub task_save_state : Ptr → InterruptFrame → Tasks → Tasks
task_save_state t frame s = record s {
  task = update s.task t (record (s.task t) { registers = saved_registers frame });
}

unfoldable pub task_current_save_state : InterruptFrame → Tasks → Option Tasks
task_current_save_state frame s =
    if s.current == null then none else some (task_save_state s.current frame s)
