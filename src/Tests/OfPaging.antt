-- ===== src/Tests/OfPaging.antt =====
-- A directory at address 0 whose tables are the pages behind it.
use own_kernel.Heap.{heap_get_entry_type}
use own_kernel.Heap.Search.{FreeRun}
use own_kernel.Heap.Alloc.{IsHeap}
use own_kernel.Paging.Chunks.{Pages, paging_new_4gb}
use own_kernel.Paging.Identity.{IsIdentity, paging_new_4gb-IsIdentity}
use own_kernel.Prelude.{◌^◌, ◌<◌, ◌≢◌, ℕ, ◌+◌, ◌-◌, ◌*◌, ◌/◌, ◌≡◌, refl, inl, inr, arith}
use own_kernel.Prelude.Int.{all_ok}
use own_kernel.Prelude.Bits.{frame_mask}
use own_kernel.Paging.{Words, Chunk, page_size, paging_map_to, paging_get_physical_address}
use own_kernel.Paging.Tables.{IsChunk}
use own_kernel.Paging.Mapping.{
  IsRange, IsMapped, paging_map_to-IsMapped, paging_get_physical_address-mapped,
}

abbrev directory : Chunk
directory = record { directory_entry = 0 }

abbrev tables : ℕ → ℕ
tables i = (i + 1) * 4096

abbrev words : Words
words a = (a / 4 + 1) * 4096

words-IsChunk : IsChunk words 0 tables
words-IsChunk = record {
  entry = λ i bound. omega (arith, frame_mask (words (0 + 4 * i)) (omega arith));
  apart = λ i j bound bound' before. inl (omega arith);
  dir_apart = λ i bound. inr (omega arith);
}

two_pages : IsRange 0x400000 0x1000000 (2 * page_size) 7
two_pages = record {
  va_aligned = refl;
  pa_aligned = refl;
  va_fits = omega arith;
  pa_fits = omega arith;
  flags_fit = omega arith;
}

abbrev mapping :
    (w' : Words) × (paging_map_to directory 0x400000 0x1000000 (0x1000000 + 2 * page_size) 7 words
      ≡ (all_ok, w'))
    × IsChunk w' 0 tables
    × IsMapped words w' 0 0x400000 0x1000000 (2 * page_size) 7
mapping = paging_map_to-IsMapped directory tables 0x400000 0x1000000 2 7 words-IsChunk two_pages

paging_map_to-IsMapped_example :
    (w' : Words) × (paging_map_to directory 0x400000 0x1000000 (0x1000000 + 2 * page_size) 7 words
      ≡ (all_ok, w'))
    × IsChunk w' 0 tables
    × IsMapped words w' 0 0x400000 0x1000000 (2 * page_size) 7
paging_map_to-IsMapped_example =
    paging_map_to-IsMapped directory tables 0x400000 0x1000000 2 7 words-IsChunk two_pages

paging_get_physical_address-mapped_example :
    paging_get_physical_address 0 0x401234 mapping.0 ≡ 0x1000000 + (0x401234 - 0x400000)
paging_get_physical_address-mapped_example =
    paging_get_physical_address-mapped 0x401234 mapping.3 two_pages refl (omega arith) (omega arith)

-- A heap with two thousand free blocks.
abbrev free_pages : Pages
free_pages = record {
  heap = record { table = record { entries = λ _. 0; total = 2000 }; start_address = 0x01000000 };
  memory = λ _. 0;
  words = λ _. 0;
  chunks = λ _. record { directory_entry = 0 };
}

free_pages-IsHeap : IsHeap free_pages.heap
free_pages-IsHeap = record {
  nonnull = omega arith;
  fits = omega arith;
  small = omega arith;
  clean = λ j bound free. refl;
}

all_free : FreeRun free_pages.heap.entries 3 (3 + 1026)
unfolding heap_get_entry_type
all_free j lo hi = refl

paging_new_4gb-IsIdentity_example :
    ((paging_new_4gb 7 free_pages).0 ≢ 0)
    × IsIdentity
        (paging_new_4gb 7 free_pages).1.words
        ((paging_new_4gb 7 free_pages).1.chunks (paging_new_4gb 7 free_pages).0).directory_entry
        7
    × ((a : ℕ)
        → a < 2 ^ 32
        → paging_get_physical_address
            ((paging_new_4gb 7 free_pages).1.chunks (paging_new_4gb 7 free_pages).0).directory_entry
            a
            (paging_new_4gb 7 free_pages).1.words
          ≡ a)
    × IsHeap (paging_new_4gb 7 free_pages).1.heap
paging_new_4gb-IsIdentity_example =
    paging_new_4gb-IsIdentity 7 3 free_pages free_pages-IsHeap refl (omega arith) refl (omega arith)
      all_free
