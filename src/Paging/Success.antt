-- ===== src/Paging/Success.antt =====
-- When a mapping succeeds: it looks at the alignment of the addresses only.
use own_kernel.Prelude.{ℕ, zero, suc, ◌+◌, ◌-◌, ◌/◌, ◌%◌, ◌^◌, ◌≤◌, ◌≡◌, refl, false, ltb, arith}
use own_kernel.Prelude.Int.{all_ok}
use own_kernel.Paging.{
  Words, Chunk, page_size, paging_is_aligned, paging_get_indexes, paging_set_physical_address,
  paging_map, map_range_loop, paging_map_range, paging_map_to,
}

paging_map-all_ok :
    (directory : Chunk) (v p flags : ℕ) (w : Words)
    → v % page_size ≡ 0
    → p % page_size ≡ 0
    → (paging_map directory v p flags w).0 ≡ all_ok
unfolding paging_map paging_set_physical_address paging_get_indexes paging_is_aligned
paging_map-all_ok directory v p flags w v_aligned p_aligned = rw (v_aligned, p_aligned) refl

map_range_loop-all_ok :
    (n : ℕ) (directory : Chunk) (v p flags : ℕ) (w : Words)
    → v % page_size ≡ 0
    → p % page_size ≡ 0
    → (map_range_loop n directory v p flags all_ok w).0 ≡ all_ok
unfolding map_range_loop
map_range_loop-all_ok zero directory v p flags w v_aligned p_aligned = refl
map_range_loop-all_ok (suc n) directory v p flags w v_aligned p_aligned =
    let w' : Words = (paging_map directory v p flags w).1 in
    rw (paging_map-all_ok directory v p flags w v_aligned p_aligned) (
      map_range_loop-all_ok n directory ((v + page_size) % 2 ^ 32) ((p + page_size) % 2 ^ 32) flags
        w' (omega arith) (omega arith))

-- A range of whole pages is mapped without an error, whatever stands in the tables.
pub paging_map_to-all_ok :
    (directory : Chunk) (v p end flags : ℕ) (w : Words)
    → v % page_size ≡ 0
    → p % page_size ≡ 0
    → end % page_size ≡ 0
    → p ≤ end
    → (paging_map_to directory v p end flags w).0 ≡ all_ok
unfolding paging_map_to paging_map_range
paging_map_to-all_ok directory v p end flags w v_aligned p_aligned end_aligned le =
    let forward : ltb end p ≡ false = ground arith in
    rw (v_aligned, p_aligned, end_aligned, forward)
      (map_range_loop-all_ok ((end - p) / page_size) directory v p flags w v_aligned p_aligned)
