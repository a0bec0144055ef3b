-- ===== src/Tests/OfProcess.antt =====
-- A process at address 5 with one allocation, in slot 3, beside one in slot 7.
use own_kernel.Prelude.{
  false, ℕ, ◌+◌, ◌*◌, ◌<◌, ◌≤◌, ◌≡◌, ◌≢◌, refl, arith, inl, inr, Bool-cases, ◌==◌, if◌then◌else◌,
  none, some, update,
}
use own_kernel.Heap.{Heap, heap_get_entry_type, heap_align_value_to_upper}
use own_kernel.Heap.Alloc.{IsHeap, blocks}
use own_kernel.Task.{null, task_init}
use own_kernel.Tests.OfFat16.{fs}
use own_kernel.Process.{
  Allocation, no_allocation, Kernel, max_program_allocations, process_malloc, process_free,
}
use own_kernel.Process.Allocations.{table_of, IsOwner, process_free-process_malloc}
use own_kernel.Process.Life.{process_unlink}
use own_kernel.Process.Ending.{process_unlink-current}

abbrev pub heap : Heap
heap = record {
  table = record { entries = λ j. if j == 0 then 65 else 0; total = 8 };
  start_address = 0x01000000;
}

abbrev pub allocations : ℕ → Allocation
allocations q = if q == 3 then record { ptr = 0x01000000; size = 100 } else no_allocation

abbrev pub kernel : Kernel
kernel = record {
  pages = record {
    heap = heap;
    memory = λ _. 0;
    words = λ _. 0;
    chunks = λ _. record { directory_entry = 0 };
  };
  tasks = record {
    task = λ t. task_init (t * 4096) t none;
    head = null;
    tail = null;
    current = null;
    directory = null;
  };
  process = λ p. record {
    id = 3;
    task = 1;
    allocations = allocations;
    filetype = 1;
    program = 0;
    stack = 0;
    size = 0;
    argc = 0;
    argv = 0;
  };
  elf_files = λ _. record {
    elf_memory = 0;
    header = record {
      e_ident = λ _. 0;
      e_type = 2;
      e_entry = 0;
      e_phoff = 0;
      e_shoff = 0;
      e_phnum = 0;
      e_shstrndx = 0;
    };
    program_header = λ _. record {
      p_type = 0;
      p_offset = 0;
      p_vaddr = 0;
      p_filesz = 0;
      p_memsz = 0;
      p_flags = 0;
    };
    virtual_base_address = 0;
    virtual_end_address = 0;
    physical_base_address = 0;
    physical_end_address = 0;
  };
  fat = fs;
  processes = λ i. if i == 3 then 5 else if i == 7 then 6 else 0;
  current_process = 5;
}

heap-IsHeap : IsHeap heap
unfolding heap_get_entry_type
heap-IsHeap = record {
  nonnull = omega arith;
  fits = omega arith;
  small = omega arith;
  clean = λ j bound. elim (Bool-cases (j == 0)) [
    | inl here ↦ rw here (λ free. absurd (omega (arith, free)))
    | inr other ↦ rw other (λ free. refl)
  ];
}

rest_free : (j : ℕ) → 1 ≤ j → j < 1 + blocks 5000 → heap_get_entry_type (heap.entries j) ≡ 0
unfolding heap_get_entry_type
rest_free j lo hi = let other : (j == 0) ≡ false = ground arith in rw other refl

owner : IsOwner kernel 5
unfolding heap_get_entry_type
owner = record {
  clear = λ q bound. elim (Bool-cases (q == 3)) [
    | inl here ↦ rw here (λ at. absurd (omega (arith, at)))
    | inr other ↦ rw other (λ at. refl)
  ];
  taken = λ q bound. elim (Bool-cases (q == 3)) [
    | inl here ↦ rw here (λ some_ptr. (0, refl, refl))
    | inr other ↦ rw other (λ some_ptr. absurd (some_ptr refl))
  ];
}

two_blocks : blocks 5000 ≡ 2
unfolding heap_align_value_to_upper
two_blocks = refl

process_free-process_malloc_example :
    (ptr : ℕ) × (k1 : Kernel) × (process_malloc 5 5000 kernel ≡ (ptr, k1))
    × (ptr ≢ 0)
    × ((process_free 5 ptr k1).pages.heap ≡ heap)
    × ((q : ℕ) → q < max_program_allocations → table_of (process_free 5 ptr k1) 5 q ≡ allocations q)
process_free-process_malloc_example =
    process_free-process_malloc 5 5000 1 0 kernel heap-IsHeap owner refl (omega arith) (omega arith)
      (omega arith) (omega (arith, two_blocks)) rest_free (omega arith) refl

process_unlink-current_example :
    (k' : Kernel) × (r : ℕ) × (process_unlink 5 kernel ≡ some k')
    × (k'.processes ≡ update kernel.processes 3 0)
    × (k'.current_process ≡ k'.processes r)
    × (k'.processes r ≢ 0)
    × (r ≤ 7)
process_unlink-current_example =
    process_unlink-current 5 7 kernel refl (omega arith) (omega arith) (omega arith)
