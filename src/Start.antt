-- ===== src/Start.antt =====
-- What src/kernel.c puts together: the state of the whole kernel, the callbacks of the interrupts
-- (src/idt/idt.c, src/keyboard/classic.c), the keyboards of src/keyboard/keyboard.c, and the disk.
pub mod Volume
pub mod Main
pub mod Ready
pub mod Keys
use own_kernel.Prelude.{
  ℕ, Bool, false, Option, none, some, List, ◌==◌, if◌then◌else◌, update, bit_and,
}
use own_kernel.Prelude.Int.{ℤ, pos, invalid_argument_error}
use own_kernel.Disk.{the_disk}
use own_kernel.Files.{Files, fs_resolve}
use own_kernel.Gdt.{Gdt}
use own_kernel.Keyboard.Classic.{key_released, classic_keyboard_handle_interrupt}
use own_kernel.Task.{Tasks, task_next}
use own_kernel.Interrupts.{
  Ending, comes_back, goes_on, is_stuck, Machine, Callback, Idt, idt_register_interrupt_callback,
  kernel_page, task_page,
}
use own_kernel.Process.{Kernel}
use own_kernel.Process.Life.{process_terminate}
use own_kernel.Isr80h.{System, kernel_of, with_kernel, process_of}
use own_kernel.Isr80h.Commands.{with_tasks}

-- A `do` block stops at the first `none`.
infixl 5 ◌>>=◌
abbrev pub ◌>>=◌ : {A B : Type 0} → Option A → (A → Option B) → Option B
none >>= f = none
some a >>= f = f a

-- `keyboard_list_head`, `keyboard_list_last`, and the `next` of each keyboard
pub record Keyboards : Type 0 where
  pub keyboard_list_head : ℕ
  pub keyboard_list_last : ℕ
  pub next : ℕ → ℕ

-- `struct tss`, but the words that stay 0
pub record Tss : Type 0 where
  pub esp0 : ℕ
  pub ss0 : ℕ

-- The state of the kernel: what the system calls act on, and the tables.
pub record Boot : Type 0 where
  pub system : System
  pub gdt_real : List Gdt
  pub idt : Idt System
  pub tss : Tss
  pub kernel_chunk : ℕ
  pub keyboards : Keyboards

unfoldable pub process_current : Kernel → ℕ
process_current k = k.current_process

-- `task_next`, for the world that is left.
unfoldable pub next_task : Tasks → System → Ending System
next_task tasks world = elim (task_next tasks) [
  | none ↦ is_stuck
  | some (tasks', registers) ↦ goes_on registers (record { tasks = tasks'; world = world })
]

-- The clock: the next task goes on with its registers.
unfoldable pub idt_clock : Callback System
idt_clock frame s = next_task s.tasks s.world

-- A fault of the processor ends the process of the current task, and the next task goes on.
unfoldable pub idt_handle_exception : Callback System
idt_handle_exception frame s =
    let k : Kernel = kernel_of (with_tasks s) in
    elim (process_terminate (process_of k) k) [
      | none ↦ is_stuck
      | some (res, k') ↦ next_task k'.tasks (with_kernel s.world k')
    ]

unfoldable pub keyboard_get_capslock : System → Bool
keyboard_get_capslock s = s.caps_lock

unfoldable pub keyboard_set_capslock : Bool → System → System
keyboard_set_capslock state s = record s { caps_lock = state }

-- The handler of the keyboard, for the scan code that the port gives. A key that is released leaves
-- the pages of the kernel in use.
unfoldable pub keyboard_callback :
    (kernel_chunk beyond : ℕ) → (scancode : Machine System → ℕ) → Callback System
keyboard_callback kernel_chunk beyond scancode frame s =
    let entered : Machine System = kernel_page kernel_chunk s in
    let process : ℕ = process_current (kernel_of s.world) in
    let typing = classic_keyboard_handle_interrupt beyond (scancode s) (record {
      caps_lock = keyboard_get_capslock s.world;
      keyboard = s.world.keyboards process;
    }) in
    let keyboards =
      if process == 0
      then s.world.keyboards
      else update s.world.keyboards process typing.keyboard in
    let typed : System = record s.world { caps_lock = typing.caps_lock; keyboards = keyboards } in
    comes_back (
      if bit_and (scancode s) key_released == 0
      then task_page (record entered { world = typed })
      else entered)

-- `ISR_KEYBOARD_INTERRUPT`
abbrev pub keyboard_interrupt : ℕ
keyboard_interrupt = 0x21

unfoldable pub classic_keyboard_init : (handler : Callback System) → Boot → ℤ × Boot
classic_keyboard_init handler b = (
  pos 0,
  record b {
    idt = (idt_register_interrupt_callback (pos keyboard_interrupt) handler b.idt).1;
    system = keyboard_set_capslock false b.system;
  },
)

-- The keyboard at an address goes behind the last one.
unfoldable pub link_keyboard : (keyboard : ℕ) → Keyboards → Keyboards
link_keyboard keyboard l =
    if l.keyboard_list_last == 0
    then record l { keyboard_list_head = keyboard; keyboard_list_last = keyboard }
    else record l {
      next = update l.next l.keyboard_list_last keyboard;
      keyboard_list_last = keyboard;
    }

-- `init` is a function pointer, `none` if it is null.
unfoldable pub keyboard_insert : (keyboard : ℕ) → Option (Boot → ℤ × Boot) → Boot → ℤ × Boot
keyboard_insert keyboard none b = (invalid_argument_error, b)
keyboard_insert keyboard (some init) b =
    init (record b { keyboards = link_keyboard keyboard b.keyboards })

-- `classic_keyboard` is the address of the one keyboard.
unfoldable pub keyboard_init : (classic_keyboard : ℕ) → (handler : Callback System) → Boot → Boot
keyboard_init classic_keyboard handler b =
    (keyboard_insert classic_keyboard (some (classic_keyboard_init handler)) b).1

-- disk.c: the one disk is cleared, and gets the file system that accepts it.
unfoldable pub disk_search_and_init : {World : Type 0} → Files World → Files World
disk_search_and_init s =
    let (filesystem, resolved) = fs_resolve the_disk (record s { disk_filesystem = none }) in
    record resolved { disk_filesystem = filesystem }
