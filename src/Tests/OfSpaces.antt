-- ===== src/Tests/OfSpaces.antt =====
-- A task whose pages are mapped to themselves: its directory at 0x200000, its tables from 0x400000
-- on, a text at 0x5000 and its stack at 0x6000. Eight blocks of the heap are free.
use own_kernel.Prelude.{
  false, ℕ, ◌+◌, ◌-◌, ◌*◌, ◌/◌, ◌%◌, ◌^◌, ◌≤◌, ◌<◌, ◌≡◌, refl, ◌∙◌, arith, inl, inr, none, some, [],
  ◌∷◌, ◌++◌, take, get_elem?, ◌==◌, leb, ltb, ◌&&◌, if◌then◌else◌, bit_and,
}
use own_kernel.Prelude.Bits.{frame_mask}
use own_kernel.Prelude.Int.{all_ok, pos}
use own_kernel.Memory.{Mem}
use own_kernel.Heap.{
  Heap, heap_get_entry_type, heap_malloc, heap_malloc_blocks, heap_get_start_block, find_start,
  run_start, heap_block_to_address, heap_align_value_to_upper,
}
use own_kernel.Heap.Alloc.{IsHeap, blocks}
use own_kernel.KernelHeap.{kernel_malloc}
use own_kernel.Paging.{Words, frame_bits, page_size, entries_per_table}
use own_kernel.Paging.Tables.{IsChunk, dir_index}
use own_kernel.Task.{task_init}
use own_kernel.Process.{Kernel}
use own_kernel.Spaces.{Translation, IsTranslation, table_entry, copy_string_from_task}
use own_kernel.Spaces.Copy.{IsSpace, IsText, IsCopied}
use own_kernel.Spaces.Copy.Whole.{copy_string_from_task-IsCopied}
use own_kernel.Terminal.Printing.{write_all}
use own_kernel.Task.{InterruptFrame}
use own_kernel.Interrupts.{Machine, Idt, isr80h_handle_command}
use own_kernel.Isr80h.{System, Surroundings, back, kernel_of, isr80h_command1_print}
use own_kernel.Isr80h.Printing.{isr80h_command1_print-write_all}
use own_kernel.Isr80h.Commands.{isr80h_register_commands}
use own_kernel.Isr80h.Dispatch.{bodies, runs, isr80h_register_commands-runs}
use own_kernel.Tests.OfProcess.{kernel}

abbrev free_heap : Heap
free_heap = record { table = record { entries = λ _. 0; total = 8 }; start_address = 0x01000000 }

free_heap-IsHeap : IsHeap free_heap
free_heap-IsHeap = record {
  nonnull = omega arith;
  fits = omega arith;
  small = omega arith;
  clean = λ j bound free. refl;
}

all_free : (j : ℕ) → 0 ≤ j → j < 0 + blocks 1024 → heap_get_entry_type (free_heap.entries j) ≡ 0
unfolding heap_get_entry_type
all_free j lo hi = refl

one_block : blocks 1024 ≡ 1
unfolding heap_align_value_to_upper
one_block = refl

first_block : (kernel_malloc 1024 free_heap).0 ≡ 0x01000000
unfolding kernel_malloc heap_malloc heap_malloc_blocks heap_get_start_block find_start run_start
    heap_get_entry_type heap_block_to_address heap_align_value_to_upper
first_block = refl

abbrev words : Words
words a =
    if leb 0x200000 a && ltb a 0x201000
    then 0x400000 + (a - 0x200000) / 4 * 4096 + 7
    else if leb 0x400000 a && ltb a 0x800000
    then (a - 0x400000) / 4 * 4096 + 7
    else 0

-- The walk of the tables.
abbrev walk : Translation
walk w directory address =
    bit_and (table_entry w directory address) frame_bits + address % page_size

walk-IsTranslation : IsTranslation walk
walk-IsTranslation = record { present = λ w directory address bound there there'. refl }

abbrev table : ℕ → ℕ
table i = 0x400000 + i * 4096

directory_word : (i : ℕ) → i < entries_per_table → words (0x200000 + 4 * i) ≡ table i + 7
directory_word i bound = ground arith

words-IsChunk : IsChunk words 0x200000 table
words-IsChunk = record {
  entry =
      λ i bound. rw (directory_word i bound) (frame_mask (table i + 7) (omega arith) ∙ omega arith);
  apart = λ i j bound bound' lt. inl (omega arith);
  dir_apart = λ i bound. inr (omega arith);
}

-- Each page is mapped to itself.
entry_word : (a : ℕ) → a < 2 ^ 32 → table_entry words 0x200000 a ≡ a / page_size * page_size + 7
entry_word a bound = rw (words-IsChunk.entry (dir_index a) (omega arith)) (ground arith)

walk_self : (a : ℕ) → a < 2 ^ 32 → walk words 0x200000 a ≡ a
walk_self a bound =
    rw (entry_word a bound, frame_mask (a / page_size * page_size + 7) (omega arith)) (omega arith)

-- `hi` at 0x5000, and the pointer to it on the stack at 0x6000.
abbrev memory : Mem
memory a =
    if a == 0x5000 then b'h' else if a == 0x5001 then b'i' else if a == 0x6001 then 0x50 else 0

abbrev pub space : Kernel
space = record kernel {
  pages = record {
    heap = free_heap;
    memory = memory;
    words = words;
    chunks = λ _. record { directory_entry = 0x200000 };
  };
  tasks = record kernel.tasks {
    task = λ t. record (task_init 0x100000 t none) {
      registers = record (task_init 0x100000 t none).registers { esp = 0x6000 };
    };
    current = 1;
  };
}

space-IsSpace : IsSpace space 1 table
space-IsSpace = record {
  chunk = words-IsChunk;
  present = λ i bound. rw (directory_word i bound) (omega arith);
}

hi-IsText : (tmp : ℕ) → tmp ≡ 0x01000000 → IsText walk space 1 0x5000 (b'h' ∷ b'i' ∷ []) tmp 1024
hi-IsText tmp at = record {
  bytes = (refl, omega arith, (refl, omega arith, refl));
  fits = omega arith;
  present = λ q le. rw (entry_word (0x5000 + q) (omega arith)) (omega arith);
  other_page = λ q le e. omega (arith, e);
  apart = λ q le. inl (rw (walk_self (0x5000 + q) (omega arith)) (omega arith));
}

copy_string_from_task-IsCopied_example :
    ((copy_string_from_task walk 9 1 0x5000 0x9000 1024 space).0 ≡ all_ok)
    × IsCopied space
        (copy_string_from_task walk 9 1 0x5000 0x9000 1024 space).1
        9
        0x9000
        1024
        (kernel_malloc 1024 free_heap).0
        (b'h' ∷ b'i' ∷ [])
    × ((copy_string_from_task walk 9 1 0x5000 0x9000 1024 space).1.pages.heap ≡ free_heap)
copy_string_from_task-IsCopied_example =
    copy_string_from_task-IsCopied 9 1 0x5000 0x9000 1024 0 (b'h' ∷ b'i' ∷ []) walk-IsTranslation
      free_heap-IsHeap refl (omega arith) (omega arith) (omega (arith, one_block)) all_free
      space-IsSpace (hi-IsText (kernel_malloc 1024 free_heap).0 first_block)
      (inl (omega (arith, first_block)))

abbrev pub system : System
system = record {
  files = record {
    filesystems = λ _. none;
    file_descriptors = λ _. none;
    disk_filesystem = none;
    world = space;
  };
  terminal = record { video_memory = λ _. 0; row = 0; col = 0 };
  keyboards = λ _. record { buffer = λ _. 0; tail = 0; head = 0 };
  caps_lock = false;
}

abbrev pub surroundings : Surroundings
surroundings = record {
  translate = walk;
  kernel_chunk = 9;
  buffer = 0x9000;
  path = 0xA000;
  read_mode = 0xB000;
  stat = 0xC000;
  fuel = 2000;
}

isr80h_command1_print-write_all_example :
    (s' : System) × (isr80h_command1_print surroundings system ≡ back 0 s')
    × (s'.terminal ≡ write_all (take 1023 (b'h' ∷ b'i' ∷ []) ++ 0 ∷ []) system.terminal)
    × ((kernel_of s').pages.heap ≡ free_heap)
    × ((kernel_of s').pages.words ≡ words)
    × ((kernel_of s').tasks.directory ≡ 9)
isr80h_command1_print-write_all_example =
    isr80h_command1_print-write_all surroundings system 0 (b'h' ∷ b'i' ∷ []) walk-IsTranslation
      free_heap-IsHeap refl (omega (arith, one_block)) all_free space-IsSpace
      (hi-IsText (kernel_malloc 1024 free_heap).0 first_block) (inl (omega (arith, first_block)))
      (omega arith)

abbrev no_commands : Idt System
no_commands = record {
  idt_descriptors =
      λ _. record { offset_1 = 0; selector = 0; zero_byte = 0; type_attr = 0; offset_2 = 0 };
  interrupt_callbacks = λ _. none;
  isr80h_commands = λ _. none;
}

isr80h_register_commands-runs_example :
    (idt' : Idt System) × (isr80h_register_commands surroundings no_commands ≡ some idt')
    × ((n : ℕ) (frame : InterruptFrame) (s : Machine System)
        → isr80h_handle_command idt' (pos n) frame s
          ≡ runs
              (get_elem? (bodies surroundings) n)
              frame
              s
              (isr80h_handle_command no_commands (pos n) frame s))
isr80h_register_commands-runs_example =
    isr80h_register_commands-runs surroundings no_commands (λ n bound. refl)
