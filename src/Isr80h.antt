-- ===== src/Isr80h.antt =====
-- src/isr80h: the bodies of the system calls. They join the processes, the files, the terminal and
-- the keyboards, and read their arguments from the stack of the current task through Spaces.
pub mod Programs
pub mod Commands
pub mod Dispatch
pub mod Printing
use own_kernel.Prelude.{
  Bool, ℕ, zero, suc, ◌+◌, ◌-◌, ◌*◌, ◌%◌, ◌^◌, Option, none, some, ◌==◌, ltb, if◌then◌else◌, update,
}
use own_kernel.Prelude.Int.{ℤ}
use own_kernel.Memory.{Mem}
use own_kernel.Files.{Files}
use own_kernel.Terminal.{Terminal, terminal_writechar, print}
use own_kernel.Keyboard.{KeyboardBuffer, keyboard_pop}
use own_kernel.Task.{Registers, InterruptFrame}
use own_kernel.Process.{Kernel, process_malloc, process_free}
use own_kernel.Spaces.{Translation, task_get_stack_item, copy_string_from_task}

-- What the calls act on; the key buffers are found by the address of their process. `caps_lock` is
-- that of the keyboard.
pub record System : Type 0 where
  pub files : Files Kernel
  pub terminal : Terminal
  pub keyboards : ℕ → KeyboardBuffer
  pub caps_lock : Bool

-- What surrounds a call: the processor's translation, the kernel's page directory, the addresses of
-- the local arrays, of the text "r" and of the local `struct file_stat`, and the fuel of its loops.
pub record Surroundings : Type 0 where
  pub translate : Translation
  pub kernel_chunk : ℕ
  pub buffer : ℕ
  pub path : ℕ
  pub read_mode : ℕ
  pub stat : ℕ
  pub fuel : ℕ

-- A call comes back with a result, or `task_return` goes on with a task's registers, or it panics or
-- has used up its fuel.
pub data Outcome : Type 0 where
  back : (result : ℕ) → System → Outcome
  resumes : Registers → System → Outcome
  stuck : Outcome

abbrev pub kernel_of : System → Kernel
kernel_of s = s.files.world

abbrev pub with_kernel : System → Kernel → System
with_kernel s k = record s { files = record s.files { world = k } }

-- `task_current()` and `task_current()->process`
abbrev pub current_task : System → ℕ
current_task s = (kernel_of s).tasks.current

abbrev pub process_of : Kernel → ℕ
process_of k = (k.tasks.task k.tasks.current).process

-- `task_get_stack_item(task_current(), index)`
abbrev pub stack_item : Surroundings → (index : ℕ) → System → ℕ × System
stack_item env index s =
    let (item, k) =
      task_get_stack_item env.translate env.kernel_chunk (current_task s) index (kernel_of s) in
    (item, with_kernel s k)

-- misc.c, which no number calls
unfoldable pub isr80h_command0_sum : Surroundings → System → Outcome
isr80h_command0_sum env s =
    let (v2, s1) = stack_item env 1 s in
    let (v1, s2) = stack_item env 0 s1 in back ((v1 + v2) % 2 ^ 32) s2

-- The end of the call: what stands in the buffer is printed, also where the copy has failed.
abbrev pub print_buffer : Surroundings → System → Outcome
print_buffer env s = elim (print env.fuel (kernel_of s).pages.memory env.buffer s.terminal) [
  | none ↦ stuck
  | some terminal ↦ back 0 (record s { terminal = terminal })
]

unfoldable pub isr80h_command1_print : Surroundings → System → Outcome
isr80h_command1_print env s =
    let (message, s1) = stack_item env 0 s in
    let (res, k) =
      copy_string_from_task env.translate env.kernel_chunk (current_task s1) message env.buffer 1024
        (kernel_of s1) in
    print_buffer env (with_kernel s1 k)

-- `(int) c`, of a `char`, as a pointer
abbrev pub char_pointer : ℕ → ℕ
char_pointer c = if ltb c 128 then c else 2 ^ 32 - 256 + c

-- `keyboard_pop`, with no current task and with one
unfoldable pub isr80h_command2_getkey : System → Outcome
isr80h_command2_getkey s =
    let process : ℕ = process_of (kernel_of s) in
    let (c, keyboard) = keyboard_pop (s.keyboards process) in
    if current_task s == 0
    then back 0 s
    else back (char_pointer c) (record s { keyboards = update s.keyboards process keyboard })

unfoldable pub isr80h_command3_putchar : Surroundings → System → Outcome
isr80h_command3_putchar env s =
    let (c, s1) = stack_item env 0 s in
    back 0 (record s1 { terminal = terminal_writechar (c % 256) 15 s1.terminal })

unfoldable pub isr80h_command4_malloc : Surroundings → System → Outcome
isr80h_command4_malloc env s =
    let (size, s1) = stack_item env 0 s in
    let (ptr, k) = process_malloc (process_of (kernel_of s1)) size (kernel_of s1) in
    back ptr (with_kernel s1 k)

unfoldable pub isr80h_command5_free : Surroundings → System → Outcome
isr80h_command5_free env s =
    let (ptr_to_free, s1) = stack_item env 0 s in
    back 0 (with_kernel s1 (process_free (process_of (kernel_of s1)) ptr_to_free (kernel_of s1)))
