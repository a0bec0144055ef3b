-- ===== src/Spaces/Copy.antt =====
-- What `copy_string_from_task` copies, and what it leaves as it was.
pub mod Whole
use mathlib.Core.Path.{subst}
use own_kernel.Prelude.{
  ℕ, zero, suc, ◌+◌, ◌-◌, ◌*◌, ◌/◌, ◌%◌, ◌^◌, ◌≤◌, ◌<◌, ◌≡◌, ◌≢◌, refl, sym, ◌∙◌, ap, fun_ext, ◌⊎◌,
  arith, ◌==◌, leb, ltb, ◌&&◌, if◌then◌else◌, update, List, [], ◌∷◌, length, take, false,
}
use own_kernel.Prelude.Int.{ℤ, all_ok}
use own_kernel.Memory.{Mem, memset}
use own_kernel.Memory.Regions.{memset-get}
use own_kernel.Heap.{Heap, heap_malloc, heap_free}
use own_kernel.Heap.Search.{FreeRun}
use own_kernel.Heap.Alloc.{IsHeap, blocks}
use own_kernel.Heap.Grants.{IsGrant, heap_malloc-IsGrant, heap_free-heap_malloc}
use own_kernel.KernelHeap.{kernel_malloc, kernel_zalloc, kernel_free}
use own_kernel.Strings.{strncpy}
use own_kernel.Strings.Text.{CString, CString-frame, strncpy-take}
use own_kernel.Paging.{
  Words, Chunk, page_size, entries_per_table, paging_get, paging_map, paging_set_physical_address,
}
use own_kernel.Paging.Tables.{IsChunk, slot, set-slot, get-slot, update-IsChunk}
use own_kernel.Paging.Mapping.{paging_map-set}
use own_kernel.Process.{Kernel, user_flags, zalloc, free}
use own_kernel.Spaces.{
  Translation, IsTranslation, table_entry, chunk_of, view, translated_strncpy, copy_through,
  copy_string_from_task,
}
use own_kernel.Spaces.Translated.{
  mapped_words, translate-page, translate-other, translated_strncpy-frame, translated_strncpy-take,
}

pub length-take : (n : ℕ) (s : List ℕ) → length (take n s) ≤ n
length-take zero s = omega arith
length-take (suc n) [] = omega arith
length-take (suc n) (c ∷ s) = omega (arith, length-take n s)

take-take : (n : ℕ) (s : List ℕ) → take n (take n s) ≡ take n s
take-take zero s = refl
take-take (suc n) [] = refl
take-take (suc n) (c ∷ s) = ap (λ t. c ∷ t) (take-take n s)

-- The directory of the task is well formed, with all its entries present.
pub record IsSpace (k : Kernel) (task : ℕ) (table : ℕ → ℕ) : Type 0 where
  pub chunk : IsChunk k.pages.words (chunk_of k task).directory_entry table
  pub present :
      (i : ℕ)
      → i < entries_per_table
      → k.pages.words ((chunk_of k task).directory_entry + 4 * i) % 2 ≡ 1

-- The task has the text at `address`, on pages that are present, apart from the block at `tmp`.
pub record IsText (translate : Translation) (k : Kernel) (task address : ℕ) (s : List ℕ)
    (tmp max : ℕ) : Type 0 where
  pub bytes : CString (view translate task k) address s
  pub fits : address + length s < 2 ^ 32
  pub present :
      (q : ℕ)
      → q ≤ length s
      → table_entry k.pages.words (chunk_of k task).directory_entry (address + q) % 2 ≡ 1
  pub other_page : (q : ℕ) → q ≤ length s → (address + q) / page_size ≢ tmp / page_size
  pub apart :
      (q : ℕ)
      → q ≤ length s
      → (translate k.pages.words (chunk_of k task).directory_entry (address + q) < tmp)
        ⊎ (tmp + max ≤ translate k.pages.words (chunk_of k task).directory_entry (address + q))

-- The text is at `physical_address`, cut to `max - 1` characters; of the rest only the block at `tmp`
-- has changed, and the page tables have not.
pub record IsCopied (k k' : Kernel) (kernel_chunk physical_address max tmp : ℕ) (s : List ℕ)
    : Type 0 where
  pub text : CString k'.pages.memory physical_address (take (max - 1) s)
  pub frame :
      (j : ℕ)
      → (j < physical_address) ⊎ (physical_address + max ≤ j)
      → (j < tmp) ⊎ (tmp + max ≤ j)
      → k'.pages.memory j ≡ k.pages.memory j
  pub words : k'.pages.words ≡ k.pages.words
  pub directory : k'.tasks.directory ≡ kernel_chunk

update-update : (f : ℕ → ℕ) (i v : ℕ) → update (update f i v) i (f i) ≡ f
update-update f i v = fun_ext λ j. ground (arith, ap f {x = j} {y = i})

module _ {k : Kernel} {translate : Translation} {table : ℕ → ℕ} (law : IsTranslation translate)
    (kernel_chunk task address physical_address max tmp : ℕ) (space : IsSpace k task table)
    (some_room : 0 < max) (small : max < page_size) (aligned : tmp % page_size ≡ 0)
    (fits : tmp + page_size ≤ 2 ^ 32) where
  abbrev dir : ℕ
  dir = (chunk_of k task).directory_entry

  abbrev inside : Words
  inside = mapped_words k.pages.words table tmp

  abbrev copied : Mem
  copied = translated_strncpy (max - 1) 0 tmp address (translate inside dir) k.pages.memory

  copied-take :
      (s : List ℕ)
      → IsText translate k task address s tmp max
      → CString copied tmp (take (max - 1) s)
        × ((j : ℕ) → (j < tmp) ⊎ (tmp + max ≤ j) → copied j ≡ k.pages.memory j)
  copied-take s text =
      let same : (q : ℕ) → 0 ≤ q → q ≤ 0 + (max - 1) → translate inside dir (tmp + q) ≡ tmp + q =
        λ q lo hi. translate-page space.chunk law space.present tmp aligned fits q (omega arith) in
      let seen : (q : ℕ)
          → q ≤ length s
          → translate inside dir (address + q) ≡ translate k.pages.words dir (address + q) =
        λ q le.
          translate-other space.chunk law space.present tmp aligned fits (address + q)
            (omega (arith, text.fits)) (text.other_page q le) (text.present q le) in
      let e : address + 0 ≡ address = omega arith in
      let f : tmp + 0 ≡ tmp = omega arith in
      let bytes : CString (λ a. k.pages.memory (translate inside dir a)) (address + 0) s = rw e (
        CString-frame (view translate task k) (λ a. k.pages.memory (translate inside dir a)) address
          s text.bytes
          λ j lo hi.
            (let q : address + (j - address) ≡ j = omega arith in
              ap k.pages.memory (rw q at (seen (j - address) (omega arith))))) in
      let taken =
        translated_strncpy-take (max - 1) 0 tmp address (translate inside dir) k.pages.memory s same
          (λ q lo hi. rw (seen q (omega arith)) (omega (arith, text.apart q (omega arith))))
          bytes in
      (
        rw f at taken,
        λ j out.
            translated_strncpy-frame (max - 1) 0 tmp address (translate inside dir) k.pages.memory j
              same (omega arith),
      )

  through-eq : (copy_through translate kernel_chunk task address physical_address max tmp k) ≡ (
    all_ok,
    free tmp (record k {
      pages = record k.pages {
        memory = strncpy physical_address tmp max copied;
        words = k.pages.words;
      };
      tasks = record k.tasks { directory = kernel_chunk };
    }),
  )
  unfolding copy_through
  through-eq =
      let bound : tmp < 2 ^ 32 = omega arith in
      let got = get-slot space.chunk tmp bound aligned in
      let mapped =
        paging_map-set (chunk_of k task) tmp tmp user_flags k.pages.words aligned aligned
          (omega arith)
        ∙ set-slot space.chunk tmp (tmp + 7) bound aligned in
      let restored =
        set-slot (update-IsChunk space.chunk tmp (tmp + 7) bound) tmp
          (k.pages.words (slot table tmp)) bound aligned in
      let back = update-update k.pages.words (slot table tmp) (tmp + 7) in
      rw (got, mapped, restored, back) refl

  through-IsCopied :
      (s : List ℕ)
      → IsText translate k task address s tmp max
      → (physical_address + max ≤ tmp) ⊎ (tmp + max ≤ physical_address)
      → IsCopied k
          (copy_through translate kernel_chunk task address physical_address max tmp k).1
          kernel_chunk
          physical_address
          max
          tmp
          s
  unfolding free
  through-IsCopied s text apart =
      let (taken, frame) = copied-take s text in
      let out =
        strncpy-take physical_address tmp max copied (take (max - 1) s) some_room taken
          (omega (arith, length-take (max - 1) s)) in
      rw through-eq (record {
        text = rw (take-take (max - 1) s) at (out.0);
        frame = λ j far far'. out.1 j far ∙ frame j far';
        words = refl;
        directory = refl;
      })
