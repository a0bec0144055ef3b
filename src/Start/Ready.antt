-- ===== src/Start/Ready.antt =====
-- What `kernel_main` has set up before it loads a program.
use own_kernel.Prelude.{
  ltb, ℕ, ◌+◌, ◌*◌, ◌/◌, ◌^◌, ◌<◌, ◌≡◌, ◌≢◌, some, get_elem?, ◌==◌, if◌then◌else◌,
}
use own_kernel.Prelude.Int.{pos}
use own_kernel.Heap.{Heap}
use own_kernel.Heap.Alloc.{IsHeap}
use own_kernel.Fat16.Counting.{live}
use own_kernel.Fat16.Mounting.{root_sector, root_places}
use own_kernel.Paging.{paging_get_physical_address}
use own_kernel.Gdt.{Gdt, gdt_structured_to_gdt, kernel_segments}
use own_kernel.Files.{Files}
use own_kernel.Task.{InterruptFrame}
use own_kernel.Interrupts.{total_interrupts, Machine, isr80h_handle_command}
use own_kernel.Interrupts.Dispatch.{target}
use own_kernel.Isr80h.{System, kernel_of}
use own_kernel.Isr80h.Dispatch.{bodies, runs, upto}
use own_kernel.Start.{
  Boot, idt_clock, idt_handle_exception, keyboard_interrupt, keyboard_callback, keyboard_init,
}
use own_kernel.Start.Main.{Setting, filesystem_of}

-- What stands when the tables, the heap, the pages and the system calls are set up.
pub record IsReady (image : ℕ → ℕ) (n : ℕ) (at : Setting) (before b : Boot) : Type 0 where
  pub segments : gdt_structured_to_gdt (kernel_segments at.tss) ≡ some b.gdt_real
  pub filesystem : b.system.files.disk_filesystem ≡ some (filesystem_of at)
  pub items :
      (kernel_of b.system).fat.private_data.root_directory.total
      ≡ pos (live image (root_sector image * 512) n)
  pub data_sector :
      (kernel_of b.system).fat.private_data.root_directory.ending_sector_pos
      ≡ root_sector image + root_places image * 32 / 512
  pub heap : IsHeap (kernel_of b.system).pages.heap
  pub chunk_nonnull : b.kernel_chunk ≢ 0
  pub in_use : (kernel_of b.system).tasks.directory ≡ b.kernel_chunk
  pub identity :
      (a : ℕ)
      → a < 2 ^ 32
      → paging_get_physical_address
          ((kernel_of b.system).pages.chunks b.kernel_chunk).directory_entry
          a
          (kernel_of b.system).pages.words
        ≡ a
  pub gates :
      (j : ℕ)
      → j < total_interrupts
      → target (b.idt.idt_descriptors j)
        ≡ (if j == 0x80 then at.isr80h_wrapper else at.pointer_table j)
  pub callbacks :
      (j : ℕ)
      → j < total_interrupts
      → b.idt.interrupt_callbacks j ≡ (
          if j == keyboard_interrupt
          then some (keyboard_callback b.kernel_chunk at.beyond at.scancode)
          else if ltb j 0x20
          then some idt_handle_exception
          else if j == 0x20
          then some idt_clock
          else before.idt.interrupt_callbacks j)
  pub calls :
      (n : ℕ) (frame : InterruptFrame) (s : Machine System)
      → isr80h_handle_command b.idt (pos n) frame s
        ≡ runs
            (get_elem? (bodies (record at.env { kernel_chunk = b.kernel_chunk })) n)
            frame
            s
            (isr80h_handle_command before.idt (pos n) frame s)

-- A directory that maps every address to itself is in use.
record IsPaged (b : Boot) : Type 0 where
  heap : IsHeap (kernel_of b.system).pages.heap
  chunk_nonnull : b.kernel_chunk ≢ 0
  in_use : (kernel_of b.system).tasks.directory ≡ b.kernel_chunk
  identity :
      (a : ℕ)
      → a < 2 ^ 32
      → paging_get_physical_address
          ((kernel_of b.system).pages.chunks b.kernel_chunk).directory_entry
          a
          (kernel_of b.system).pages.words
        ≡ a

-- The state behind the registration of the system calls and of the keyboard.
abbrev commanded : Setting → Boot → Boot
commanded at b =
    keyboard_init at.classic_keyboard (keyboard_callback b.kernel_chunk at.beyond at.scancode)
      (record b { idt = upto (record at.env { kernel_chunk = b.kernel_chunk }) 9 b.idt })
