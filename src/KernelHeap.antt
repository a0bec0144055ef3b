-- ===== src/KernelHeap.antt =====
-- src/memory/heap/kernelHeap.c: the heap of 100 MB that the kernel allocates from.
-- The heap's table lies at its own address, apart from the blocks; memory is what the blocks hold.
pub mod Start
use own_kernel.Prelude.{ℕ, ◌+◌, ◌/◌, ◌==◌, if◌then◌else◌}
use own_kernel.Prelude.Int.{ℤ}
use own_kernel.Memory.{Mem, memset}
use own_kernel.Heap.{Heap, heap_block_size, heap_create, heap_malloc, heap_free}

abbrev pub heap_address : ℕ
heap_address = 0x01000000

abbrev pub heap_size_bytes : ℕ
heap_size_bytes = 104857600

-- `entries` is what stands at the address of the table. The message of a failure is left out.
unfoldable pub kernel_heap_init : (entries : ℕ → ℕ) → Heap → ℤ × Heap
kernel_heap_init entries heap =
    heap_create heap heap_address (heap_address + heap_size_bytes)
      (record { entries = entries; total = heap_size_bytes / heap_block_size })

unfoldable pub kernel_malloc : ℕ → Heap → ℕ × Heap
kernel_malloc size heap = heap_malloc heap size

unfoldable pub kernel_zalloc : ℕ → Heap → Mem → ℕ × Heap × Mem
kernel_zalloc size heap m =
    let (ptr, heap') = kernel_malloc size heap in
    if ptr == 0 then (ptr, heap', m) else (ptr, heap', memset ptr 0x00 size m)

unfoldable pub kernel_free : ℕ → Heap → Heap
kernel_free ptr heap = heap_free heap ptr
