-- ===== src/Tests/OfStart.antt =====
-- The start of a kernel with a FAT16 volume, and a key that is pressed.
use own_kernel.Prelude.{◌==◌, if◌then◌else◌, ℕ, ◌*◌, ◌+◌, ◌≡◌, refl, arith, none, some, []}
use own_kernel.Disk.{Device}
use own_kernel.Disk.Image.{lba28}
use own_kernel.Tests.OfTasks.{frame}
use own_kernel.Isr80h.{System}
use own_kernel.Interrupts.{comes_back, Idt, Machine, interrupt_handler}
use own_kernel.Start.{Boot, keyboard_callback, keyboard_interrupt, process_current}
use own_kernel.Start.Keys.{IsTyped, interrupt_handler-IsTyped}
use own_kernel.Tests.OfConsole.{no_keys-IsQueue}
use own_kernel.Start.Main.{Setting}
use own_kernel.Tests.OfSpaces.{space, system, surroundings}

-- A volume whose root directory has an item and a deleted one.
abbrev volume : ℕ → ℕ
volume i =
    if i == 13
    then 1
    else if i == 14
    then 1
    else if i == 16
    then 1
    else if i == 17
    then 16
    else if i == 22
    then 8
    else if i == 38
    then 0x29
    else if i == 4608
    then b'A'
    else if i == 4640
    then 0xE5
    else 0

abbrev device : Device
device c j = volume (lba28 c * 512 + 2 * j) + 256 * volume (lba28 c * 512 + 2 * j + 1)

abbrev boot : Boot
boot = record {
  system = system;
  gdt_real = [];
  idt = record {
    idt_descriptors =
        λ _. record { offset_1 = 0; selector = 0; zero_byte = 0; type_attr = 0; offset_2 = 0 };
    interrupt_callbacks = λ _. none;
    isr80h_commands = λ _. none;
  };
  tss = record { esp0 = 0; ss0 = 0 };
  kernel_chunk = 0;
  keyboards = record { keyboard_list_head = 0; keyboard_list_last = 0; next = λ _. 0 };
}

abbrev setting : Setting
setting = record {
  device = device;
  fat_fuel = 20;
  fat_path = 0x114000;
  heap_table = λ _. 7;
  tss = 0x110000;
  pointer_table = λ i. 0x100000 + i;
  isr80h_wrapper = 0x108000;
  classic_keyboard = 0x112000;
  beyond = 0;
  scancode = λ s. 0x1E;
  env = surroundings;
  blank_path = 0x113000;
  first_text = 0x113010;
  second_text = 0x113020;
  argument = 0x7000;
}

-- A process at 0x9000 is the current one, and the keyboard has its handler.
abbrev typing : System
typing = record system {
  files = record system.files { world = record space { current_process = 0x9000 } };
}

abbrev tables : Idt System
tables = record boot.idt { interrupt_callbacks = λ _. some (keyboard_callback 9 0 (λ m. 0x1E)) }

interrupt_handler-IsTyped_example :
    (s' : Machine System) × (interrupt_handler 9 tables keyboard_interrupt frame
        (record { tasks = space.tasks; world = typing })
      ≡ comes_back s')
    × IsTyped 0x9000 0x1E 0 [] typing s'.world
    × (s'.tasks.current ≡ space.tasks.current)
    × (s'.tasks.directory ≡ (s'.tasks.task s'.tasks.current).page_directory)
unfolding process_current
interrupt_handler-IsTyped_example =
    interrupt_handler-IsTyped 9 0 0x1E tables frame (record { tasks = space.tasks; world = typing })
      [] refl (omega arith) (omega arith) no_keys-IsQueue (omega arith)
