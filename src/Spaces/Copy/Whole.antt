-- ===== src/Spaces/Copy/Whole.antt =====
-- The copy as a whole, with the block that it allocates and frees.
use own_kernel.Prelude.{
  ℕ, ◌+◌, ◌-◌, ◌%◌, ◌^◌, ◌≤◌, ◌<◌, ◌≡◌, refl, ◌∙◌, ap, ◌⊎◌, arith, ◌==◌, leb, List, false,
}
use own_kernel.Prelude.Int.{all_ok}
use own_kernel.Memory.{memset}
use own_kernel.Memory.Regions.{memset-get}
use own_kernel.Heap.{Heap}
use own_kernel.Heap.Search.{FreeRun}
use own_kernel.Heap.Alloc.{IsHeap, blocks}
use own_kernel.Heap.Grants.{IsGrant, heap_malloc-IsGrant, heap_free-heap_malloc}
use own_kernel.KernelHeap.{kernel_malloc, kernel_zalloc, kernel_free}
use own_kernel.Strings.Text.{CString-frame}
use own_kernel.Paging.{page_size}
use own_kernel.Process.{Kernel, zalloc, free}
use own_kernel.Spaces.{
  Translation, IsTranslation, chunk_of, view, copy_through, copy_string_from_task,
}
use own_kernel.Spaces.Copy.{IsSpace, IsText, IsCopied, through-IsCopied, through-eq}

zalloc-some :
    (size : ℕ) (k : Kernel)
    → ((kernel_malloc size k.pages.heap).0 == 0) ≡ false
    → zalloc size k ≡ (
      (kernel_malloc size k.pages.heap).0,
      record k {
        pages = record k.pages {
          heap = (kernel_malloc size k.pages.heap).1;
          memory = memset (kernel_malloc size k.pages.heap).0 0x00 size k.pages.memory;
        };
      },
    )
unfolding zalloc kernel_zalloc
zalloc-some size k granted = rw granted refl

IsText-memset :
    {translate : Translation} {k : Kernel} {task address : ℕ} {s : List ℕ} (tmp max : ℕ)
    (heap : Heap)
    → IsText translate k task address s tmp max
    → IsText translate
        (record k {
          pages = record k.pages { heap = heap; memory = memset tmp 0x00 max k.pages.memory };
        })
        task
        address
        s
        tmp
        max
IsText-memset {translate} {k} {task} {address} {s} tmp max heap text = record {
  bytes =
      CString-frame (view translate task k)
        (λ a.
          memset tmp 0x00 max k.pages.memory
            (translate k.pages.words (chunk_of k task).directory_entry a))
        address s text.bytes
        λ j lo hi.
          (let q : address + (j - address) ≡ j = omega arith in
            let far = rw q at (text.apart (j - address) (omega arith)) in
            ground (
              arith,
              far,
              memset-get tmp 0x00 max k.pages.memory
                  (translate k.pages.words (chunk_of k task).directory_entry j),
            ));
  fits = text.fits;
  present = text.present;
  other_page = text.other_page;
  apart = text.apart;
}

-- The grant of the block, and its return.
tmp-IsGrant :
    {heap : Heap} (max j : ℕ)
    → IsHeap heap
    → 0 < max
    → max < page_size
    → j + blocks max ≤ heap.total
    → FreeRun heap.entries j (j + blocks max)
    → ((r : ℕ) × IsGrant heap (kernel_malloc max heap).1 max (kernel_malloc max heap).0 r)
      × (kernel_free (kernel_malloc max heap).0 (kernel_malloc max heap).1 ≡ heap)
unfolding kernel_malloc kernel_free
tmp-IsGrant max j is some_room small fits run =
    let (r, grant, le) = heap_malloc-IsGrant max j is some_room (omega arith) fits run in
    ((r, grant), heap_free-heap_malloc max j is some_room (omega arith) fits run)

-- From a task with a well-formed directory that has the text on present pages, a copy below the
-- size of a page, for which a run of blocks is free on a well-formed heap at a page, succeeds: the
-- text, cut to `max - 1` characters, is at the physical address; no byte outside that region and
-- the block of the copy has changed, and the page tables and the heap are as before.
pub copy_string_from_task-IsCopied :
    {k : Kernel} {translate : Translation} {table : ℕ → ℕ}
    (kernel_chunk task address physical_address max j : ℕ) (s : List ℕ)
    → IsTranslation translate
    → IsHeap k.pages.heap
    → k.pages.heap.start_address % page_size ≡ 0
    → 0 < max
    → max < page_size
    → j + blocks max ≤ k.pages.heap.total
    → FreeRun k.pages.heap.entries j (j + blocks max)
    → IsSpace k task table
    → IsText translate k task address s (kernel_malloc max k.pages.heap).0 max
    → (physical_address + max ≤ (kernel_malloc max k.pages.heap).0)
      ⊎ ((kernel_malloc max k.pages.heap).0 + max ≤ physical_address)
    → ((copy_string_from_task translate kernel_chunk task address physical_address max k).0
        ≡ all_ok)
      × IsCopied k
          (copy_string_from_task translate kernel_chunk task address physical_address max k).1
          kernel_chunk
          physical_address
          max
          (kernel_malloc max k.pages.heap).0
          s
      × ((copy_string_from_task translate kernel_chunk task address physical_address max
            k).1.pages.heap
          ≡ k.pages.heap)
unfolding copy_string_from_task free kernel_free
copy_string_from_task-IsCopied {k} {translate} {table} kernel_chunk task address physical_address
      max j s law heap aligned some_room small fits run space text apart =
    let tmp : ℕ = (kernel_malloc max k.pages.heap).0 in
    let ((r, grant), restored) = tmp-IsGrant max j heap some_room small fits run in
    let granted : (tmp == 0) ≡ false = ground (arith, grant.nonnull) in
    let in_bounds : leb page_size max ≡ false = ground arith in
    let at_page : tmp % page_size ≡ 0 = omega (arith, grant.address) in
    let below : tmp + page_size ≤ 2 ^ 32 =
      omega (arith, grant.address, heap.fits, grant.within, grant.room) in
    let k1 : Kernel = record k {
      pages = record k.pages {
        heap = (kernel_malloc max k.pages.heap).1;
        memory = memset tmp 0x00 max k.pages.memory;
      };
    } in
    let space1 : IsSpace k1 task table = record { chunk = space.chunk; present = space.present } in
    let text1 : IsText translate k1 task address s tmp max =
      IsText-memset tmp max (kernel_malloc max k.pages.heap).1 text in
    let copy : IsCopied k1
        (copy_through translate kernel_chunk task address physical_address max tmp k1).1
        kernel_chunk physical_address max tmp s =
      through-IsCopied law kernel_chunk task address physical_address max tmp space1 some_room small
        at_page below s text1 apart in
    let eq =
      through-eq law kernel_chunk task address physical_address max tmp space1 some_room small
        at_page below in
    rw (zalloc-some max k granted, in_bounds, granted)
      (
        ap (λ r. r.0) eq,
        record {
          text = copy.text;
          frame = λ i far far'.
              copy.frame i far far' ∙ ground (arith, memset-get tmp 0x00 max k.pages.memory i);
          words = copy.words;
          directory = copy.directory;
        },
        ap (λ r. r.1.pages.heap) eq ∙ restored,
      )
