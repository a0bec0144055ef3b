-- ===== src/Interrupts.antt =====
-- src/idt/idt.c: the interrupt descriptor table, and the tables of callbacks and of system calls.
-- A callback and a system call act on the tasks and on a state `World` of their own. A system call
-- that gives `none` does not come back. The acknowledgement to the interrupt controller and the load
-- of the table register are left out.
pub mod Dispatch
use own_kernel.Prelude.{
  ℕ, zero, suc, ◌+◌, ◌*◌, ◌/◌, ◌%◌, ◌^◌, Option, none, some, ◌==◌, leb, ltb, if◌then◌else◌, bit_and,
  update,
}
use own_kernel.Prelude.Int.{ℤ, pos, negsuc, invalid_argument_error}
use own_kernel.Task.{Registers, Ptr, InterruptFrame, Tasks, task_switch, task_current_save_state}

abbrev pub total_interrupts : ℕ
total_interrupts = 512

abbrev pub max_isr80h_commands : ℕ
max_isr80h_commands = 1024

-- `struct idt_desc`
pub record IdtDesc : Type 0 where
  pub offset_1 : ℕ
  pub selector : ℕ
  pub zero_byte : ℕ
  pub type_attr : ℕ
  pub offset_2 : ℕ

-- The tasks and what else the callbacks change.
pub record Machine (World : Type 0) : Type 0 where
  pub tasks : Tasks
  pub world : World

-- A callback comes back, or `task_return` goes on with a task's registers, or it panics, or fuel ran
-- out in it.
pub data Ending (World : Type 0) : Type 0 where
  comes_back : Machine World → Ending World
  goes_on : Registers → Machine World → Ending World
  is_stuck : Ending World

abbrev pub Callback : Type 0 → Type 0
Callback World = InterruptFrame → Machine World → Ending World

-- A system call returns a pointer.
abbrev pub Command : Type 0 → Type 0
Command World = InterruptFrame → Machine World → Option (ℕ × Machine World)

-- `idt_descriptors`, `interrupt_callbacks`, `isr80h_commands`
pub record Idt (World : Type 0) : Type 0 where
  pub idt_descriptors : ℕ → IdtDesc
  pub interrupt_callbacks : ℕ → Option (Callback World)
  pub isr80h_commands : ℕ → Option (Command World)

unfoldable pub idt_set : (interrupt_number address : ℕ) → (ℕ → IdtDesc) → ℕ → IdtDesc
idt_set interrupt_number address descriptors = update descriptors interrupt_number (record {
  offset_1 = bit_and address 0x0000FFFF;
  selector = 0x08;
  zero_byte = 0x00;
  type_attr = 0xEE;
  offset_2 = address / 2 ^ 16;
})

-- The first loop of `idt_init` with `n` rounds left.
unfoldable pub set_all : (n index : ℕ) → (pointer_table : ℕ → ℕ) → (ℕ → IdtDesc) → ℕ → IdtDesc
set_all zero index pointer_table descriptors = descriptors
set_all (suc n) index pointer_table descriptors =
    set_all n (index + 1) pointer_table (idt_set index (pointer_table index) descriptors)

unfoldable pub idt_register_interrupt_callback :
    {World : Type 0} → ℤ → Callback World → Idt World → ℤ × Idt World
idt_register_interrupt_callback (negsuc n) callback idt = (invalid_argument_error, idt)
idt_register_interrupt_callback (pos interrupt) callback idt =
    if leb total_interrupts interrupt then (invalid_argument_error, idt) else (
      pos 0,
      record idt { interrupt_callbacks = update idt.interrupt_callbacks interrupt (some callback) },
    )

-- The second loop of `idt_init`, from interrupt `i` with `n` rounds left.
unfoldable pub register_exceptions :
    {World : Type 0} → (n i : ℕ) → Callback World → Idt World → Idt World
register_exceptions zero i callback idt = idt
register_exceptions (suc n) i callback idt =
    register_exceptions n (i + 1) callback (idt_register_interrupt_callback (pos i) callback idt).1

-- `memset(idt_descriptors, 0, sizeof(idt_descriptors))`
abbrev pub clear_descriptors : (ℕ → IdtDesc) → ℕ → IdtDesc
clear_descriptors descriptors i =
    if ltb i total_interrupts
    then (record { offset_1 = 0; selector = 0; zero_byte = 0; type_attr = 0; offset_2 = 0 })
    else descriptors i

abbrev pub describe_all : {World : Type 0} → (ℕ → ℕ) → ℕ → Idt World → Idt World
describe_all pointer_table isr80h_wrapper idt = record idt {
  idt_descriptors =
      idt_set 0x80 isr80h_wrapper
        (set_all total_interrupts 0 pointer_table (clear_descriptors idt.idt_descriptors));
}

-- The addresses of the entry points, of idt.asm, are parameters, as are the two callbacks.
unfoldable pub idt_init :
    {World : Type 0}
    → (pointer_table : ℕ → ℕ) → (isr80h_wrapper : ℕ) → (exception clock : Callback World)
    → Idt World
    → Idt World
idt_init pointer_table isr80h_wrapper exception clock idt =
    (idt_register_interrupt_callback (pos 0x20) clock
      (register_exceptions 0x20 0 exception (describe_all pointer_table isr80h_wrapper idt))).1

-- `kernel_page` and `task_page`
abbrev pub kernel_page : {World : Type 0} → (kernel_chunk : Ptr) → Machine World → Machine World
kernel_page kernel_chunk s = record s { tasks = record s.tasks { directory = kernel_chunk } }

abbrev pub task_page : {World : Type 0} → Machine World → Machine World
task_page s = record s { tasks = task_switch s.tasks.current s.tasks }

-- The frame is saved, and the callback runs on the kernel's pages.
unfoldable pub save_state :
    {World : Type 0} → InterruptFrame → Machine World → Option (Machine World)
save_state frame s = elim (task_current_save_state frame s.tasks) [
  | none ↦ none
  | some tasks ↦ some (record s { tasks = tasks })
]

abbrev pub then_task_page : {World : Type 0} → Ending World → Ending World
then_task_page (comes_back s) = comes_back (task_page s)
then_task_page (goes_on registers s) = goes_on registers s
then_task_page is_stuck = is_stuck

abbrev pub call_back :
    {World : Type 0} → Callback World → InterruptFrame → Option (Machine World) → Ending World
call_back callback frame none = is_stuck
call_back callback frame (some s) = then_task_page (callback frame s)

-- The interrupt number comes from the entry point, and is one of the table's.
unfoldable pub interrupt_handler :
    {World : Type 0}
    → (kernel_chunk : Ptr) → Idt World
    → (interrupt : ℕ) → InterruptFrame
    → Machine World
    → Ending World
interrupt_handler kernel_chunk idt interrupt frame s = elim (idt.interrupt_callbacks interrupt) [
  | none ↦ comes_back (task_page (kernel_page kernel_chunk s))
  | some callback ↦ call_back callback frame (save_state frame (kernel_page kernel_chunk s))
]

-- `none` is a panic: the number is out of bounds or in use.
unfoldable pub isr80h_register_command :
    {World : Type 0} → ℤ → Command World → Idt World → Option (Idt World)
isr80h_register_command (negsuc n) command_func idt = none
isr80h_register_command (pos command) command_func idt =
    if leb max_isr80h_commands command then none else elim (idt.isr80h_commands command) [
      | some other ↦ none
      | none ↦
          some (record idt {
            isr80h_commands = update idt.isr80h_commands command (some command_func);
          })
    ]

unfoldable pub isr80h_handle_command :
    {World : Type 0} → Idt World → ℤ → InterruptFrame → Machine World → Option (ℕ × Machine World)
isr80h_handle_command idt (negsuc n) frame s = some (0, s)
isr80h_handle_command idt (pos command) frame s =
    if leb max_isr80h_commands command then some (0, s) else elim (idt.isr80h_commands command) [
      | none ↦ some (0, s)
      | some command_func ↦ command_func frame s
    ]

abbrev pub returned : {World : Type 0} → Option (ℕ × Machine World) → Option (ℕ × Machine World)
returned none = none
returned (some (res, s)) = some (res, task_page s)

abbrev pub handled :
    {World : Type 0}
    → Idt World
    → ℤ
    → InterruptFrame
    → Option (Machine World)
    → Option (ℕ × Machine World)
handled idt command frame none = none
handled idt command frame (some s) = returned (isr80h_handle_command idt command frame s)

unfoldable pub isr80h_handler :
    {World : Type 0}
    → (kernel_chunk : Ptr) → Idt World
    → (command : ℤ) → InterruptFrame
    → Machine World
    → Option (ℕ × Machine World)
isr80h_handler kernel_chunk idt command frame s =
    handled idt command frame (save_state frame (kernel_page kernel_chunk s))
