-- ===== src/Start/Main.antt =====
-- src/kernel.c: `kernel_main`. `none` is a panic, or fuel that ran out. The loads of the tables into
-- the processor are left out.
use own_kernel.Prelude.{ℕ, ◌+◌, Option, none, some, if◌then◌else◌}
use own_kernel.Prelude.Int.{is_ok}
use own_kernel.Memory.{Mem, put_long}
use own_kernel.Strings.{strcpy}
use own_kernel.KernelHeap.{kernel_heap_init}
use own_kernel.Paging.Chunks.{paging_new_4gb}
use own_kernel.Gdt.{gdt_structured_to_gdt, kernel_segments}
use own_kernel.Disk.{Device}
use own_kernel.Start.Volume.{fat16_init}
use own_kernel.Files.{Filesystem, fs_init}
use own_kernel.Terminal.{terminal_initalize}
use own_kernel.Task.{Registers, task_run_first_ever_task}
use own_kernel.Interrupts.{Machine, idt_init}
use own_kernel.Process.{Kernel, user_flags}
use own_kernel.Process.Life.{argument_size, process_inject_arguments}
use own_kernel.Process.Load.{process_load_switch}
use own_kernel.Isr80h.{System, Surroundings, kernel_of, with_kernel}
use own_kernel.Isr80h.Commands.{isr80h_register_commands}
use own_kernel.Isr80h.Programs.{with_memory}
use own_kernel.Start.{
  ◌>>=◌, Boot, idt_clock, idt_handle_exception, keyboard_callback, keyboard_init,
  disk_search_and_init,
}

-- The drive, the fuel for its loops and the address of the text of `fat16_find_item_in_directory`;
-- what stands in the heap's table, the addresses of the task
-- state segment, of the entry points of idt.asm and of the keyboard, the byte behind the table of
-- scan codes and the port; what surrounds the system calls; the addresses of the texts
-- "0:/blank.elf", "Testing!" and "Abc!", and of the local `struct command_argument`.
pub record Setting : Type 0 where
  pub device : Device
  pub fat_fuel : ℕ
  pub fat_path : ℕ
  pub heap_table : ℕ → ℕ
  pub tss : ℕ
  pub pointer_table : ℕ → ℕ
  pub isr80h_wrapper : ℕ
  pub classic_keyboard : ℕ
  pub beyond : ℕ
  pub scancode : Machine System → ℕ
  pub env : Surroundings
  pub blank_path : ℕ
  pub first_text : ℕ
  pub second_text : ℕ
  pub argument : ℕ

abbrev pub with_system : Boot → Kernel → Boot
with_system b k = record b { system = with_kernel b.system k }

unfoldable pub start_segments : Setting → Boot → Option Boot
start_segments at b = do
  gdt ← gdt_structured_to_gdt (kernel_segments at.tss)
  some (record b {
    gdt_real = gdt;
    system = record b.system { terminal = terminal_initalize b.system.terminal };
  })

unfoldable pub start_heap : Setting → Boot → Boot
start_heap at b =
    let k : Kernel = kernel_of b.system in
    with_system b (record k {
      pages = record k.pages { heap = (kernel_heap_init at.heap_table k.pages.heap).1 };
    })

abbrev pub filesystem_of : Setting → Filesystem Kernel
filesystem_of at = fat16_init at.device at.fat_fuel at.fat_path

unfoldable pub start_files : Setting → Boot → Option Boot
start_files at b = do
  files ← fs_init (filesystem_of at) b.system.files
  some (record b { system = record b.system { files = disk_search_and_init files } })

unfoldable pub start_interrupts : Setting → Boot → Boot
start_interrupts at b = record b {
  idt = idt_init at.pointer_table at.isr80h_wrapper idt_handle_exception idt_clock b.idt;
  tss = record { esp0 = 0x600000; ss0 = 0x10 };
}

-- `PAGING_IS_WRITEABLE | PAGING_IS_PRESENT | PAGING_ACCESS_FROM_ALL` are the flags.
unfoldable pub start_paging : Boot → Boot
start_paging b =
    let k : Kernel = kernel_of b.system in
    let (chunk, pages) = paging_new_4gb user_flags k.pages in
    record (with_system b
      (record k { pages = pages; tasks = record k.tasks { directory = chunk } })) {
        kernel_chunk = chunk;
      }

unfoldable pub start_commands : Setting → Boot → Option Boot
start_commands at b = do
  idt ← isr80h_register_commands (record at.env { kernel_chunk = b.kernel_chunk }) b.idt
  some (
      keyboard_init at.classic_keyboard (keyboard_callback b.kernel_chunk at.beyond at.scancode)
        (record b { idt = idt }))

-- `kernel_main` up to `keyboard_init`
unfoldable pub kernel_start : Setting → Boot → Option Boot
kernel_start at b = do
  segments ← start_segments at b
  files ← start_files at (start_heap at segments)
  start_commands at (start_paging (start_interrupts at files))

-- The argument with a text, and nothing behind it.
abbrev pub put_text : Setting → (text : ℕ) → Mem → Option Mem
put_text at text m = do
  copied ← strcpy at.env.fuel at.argument text m
  some (put_long (at.argument + argument_size) 0 copied)

-- blank.elf is loaded with an argument. The result of the arguments is not looked at. A process that
-- the load does not set is taken for null, as in Process.Load.
unfoldable pub start_blank : Setting → (text : ℕ) → Boot → Option Boot
start_blank at text b = do
  loaded ← process_load_switch at.env.read_mode at.env.stat at.blank_path b.system.files
  let s : System = record b.system { files = loaded.1 }
  m ← if is_ok loaded.0.0 then put_text at text (kernel_of s).pages.memory else none
  injected ←
      process_inject_arguments at.env.fuel loaded.0.1 at.argument (kernel_of (with_memory s m))
  some (record b { system = with_kernel s injected.1 })

-- The kernel goes over to the first task.
unfoldable pub kernel_main : Setting → Boot → Option (Boot × Registers)
kernel_main at b = do
  started ← kernel_start at b
  first ← start_blank at at.first_text started
  second ← start_blank at at.second_text first
  run ← task_run_first_ever_task (kernel_of second.system).tasks
  some (with_system second (record (kernel_of second.system) { tasks = run.0 }), run.1)
