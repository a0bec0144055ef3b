-- ===== src/Paging/Mapping.antt =====
-- `paging_map`, `paging_map_range` and `paging_map_to`: the translation that they set up.
use own_kernel.Prelude.{
  ap, ℕ, zero, suc, ◌+◌, ◌-◌, ◌*◌, ◌/◌, ◌%◌, ◌^◌, ◌≤◌, ◌<◌, ◌≡◌, ◌≢◌, refl, ◌∙◌, ◌⊎◌, false, arith,
  ◌==◌, ltb, leb, ◌&&◌, if◌then◌else◌, bit_and, bit_or, update,
}
use own_kernel.Prelude.Bits.{bit_or-low_field, frame_mask}
use own_kernel.Prelude.Int.{ℤ, all_ok, invalid_argument_error}
use own_kernel.Paging.{
  Words, Chunk, page_size, frame_bits, paging_align_to_lower_page, paging_set_physical_address,
  paging_get, paging_map, map_range_loop, paging_map_range, paging_map_to,
  paging_get_physical_address,
}
use own_kernel.Paging.Tables.{IsChunk, slot, set-slot, update-IsChunk, paging_get-set}

-- The flags take the low twelve bits of an entry.
or-flags : (pa flags : ℕ) → pa % page_size ≡ 0 → flags < page_size → bit_or pa flags ≡ pa + flags
or-flags pa flags aligned small =
    let whole : pa / page_size * page_size ≡ pa = omega arith in
    rw whole at (bit_or-low_field 12 (pa / page_size) flags small)

pub paging_map-set :
    (c : Chunk) (va pa flags : ℕ) (w : Words)
    → va % page_size ≡ 0
    → pa % page_size ≡ 0
    → flags < page_size
    → paging_map c va pa flags w ≡ paging_set_physical_address c.directory_entry va (pa + flags) w
unfolding paging_map
paging_map-set c va pa flags w aligned aligned' small =
    rw (aligned, aligned', or-flags pa flags aligned' small)

-- An aligned range below 4 GB, at both ends.
pub record IsRange (va pa size flags : ℕ) : Type 0 where
  pub va_aligned : va % page_size ≡ 0
  pub pa_aligned : pa % page_size ≡ 0
  pub va_fits : va + size ≤ 2 ^ 32
  pub pa_fits : pa + size ≤ 2 ^ 32
  pub flags_fit : flags < page_size

-- The directory after a mapping: the pages of the range have the new entries, and no other changed.
pub record IsMapped (w w' : Words) (dir va pa size flags : ℕ) : Type 0 where
  pub entries :
      (p : ℕ)
      → p < 2 ^ 32
      → p % page_size ≡ 0
      → paging_get dir p w'
        ≡ (if leb va p && ltb p (va + size) then pa + (p - va) + flags else paging_get dir p w)

-- What the loop does from a page on.
abbrev Maps : (table : ℕ → ℕ) → Chunk → (va pa n flags : ℕ) → ℤ → Words → Type 0
Maps table c va pa n flags res w =
    (w' : Words) × (map_range_loop n c va pa flags res w ≡ (all_ok, w'))
    × IsChunk w' c.directory_entry table
    × IsMapped w w' c.directory_entry va pa (n * page_size) flags

map_range-step :
    (n : ℕ) (c : Chunk) (va pa flags : ℕ) (res : ℤ) (w w1 : Words)
    → paging_map c va pa flags w ≡ (all_ok, w1)
    → map_range_loop (suc n) c va pa flags res w
      ≡ map_range_loop n c ((va + page_size) % 2 ^ 32) ((pa + page_size) % 2 ^ 32) flags all_ok w1
unfolding map_range_loop
map_range-step n c va pa flags res w w1 e = rw (e, map_range_loop)

get-update :
    {w : Words} {dir : ℕ} {table : ℕ → ℕ} (va p val : ℕ)
    → IsChunk w dir table
    → va < 2 ^ 32
    → p < 2 ^ 32
    → va % page_size ≡ 0
    → p % page_size ≡ 0
    → paging_get dir p (update w (slot table va) val)
      ≡ (if p == va then val else paging_get dir p w)
get-update va p val is small small' aligned aligned' =
    rw (set-slot is va val small aligned) at
      (paging_get-set va p val is small small' aligned aligned')

-- The pages of the rounds that follow, and the page of this one.
entries-step :
    (n va pa flags p new old then_ : ℕ)
    → va % page_size ≡ 0
    → p % page_size ≡ 0
    → va + suc n * page_size ≤ 2 ^ 32
    → pa + suc n * page_size ≤ 2 ^ 32
    → new ≡ (if p == va then pa + flags else old)
    → then_ ≡ (
        if leb ((va + page_size) % 2 ^ 32) p && ltb p ((va + page_size) % 2 ^ 32 + n * page_size)
        then (pa + page_size) % 2 ^ 32 + (p - (va + page_size) % 2 ^ 32) + flags
        else new)
    → then_ ≡ (if leb va p && ltb p (va + suc n * page_size) then pa + (p - va) + flags else old)
entries-step zero va pa flags p new old then_ aligned aligned' fits fits' here later = ground arith
entries-step (suc n) va pa flags p new old then_ aligned aligned' fits fits' here later =
    let e : (va + page_size) % 2 ^ 32 ≡ va + page_size = omega arith in
    let e' : (pa + page_size) % 2 ^ 32 ≡ pa + page_size = omega arith in
    let later' = rw (e, e') at later in ground arith

loop-Maps :
    (n : ℕ) (table : ℕ → ℕ) (c : Chunk) (va pa flags : ℕ) (w : Words)
    → IsChunk w c.directory_entry table
    → IsRange va pa (n * page_size) flags
    → Maps table c va pa n flags all_ok w
loop-Maps zero table c va pa flags w is range =
    (w, unfold map_range_loop in refl, is, record { entries = λ p small aligned. ground arith })
loop-Maps (suc n) table c va pa flags w is range =
    let small : va < 2 ^ 32 = omega (arith, range.va_fits) in
    let w1 : Words = update w (slot table va) (pa + flags) in
    let mapped : paging_map c va pa flags w ≡ (all_ok, w1) =
      paging_map-set c va pa flags w range.va_aligned range.pa_aligned range.flags_fit
      ∙ set-slot is va (pa + flags) small range.va_aligned in
    let (w', e, is', rest) =
      loop-Maps n table c ((va + page_size) % 2 ^ 32) ((pa + page_size) % 2 ^ 32) flags w1
        (update-IsChunk is va (pa + flags) small)
        (record {
          va_aligned = omega (arith, range.va_aligned);
          pa_aligned = omega (arith, range.pa_aligned);
          va_fits = omega (arith, range.va_fits, range.va_aligned);
          pa_fits = omega (arith, range.pa_fits, range.pa_aligned);
          flags_fit = range.flags_fit;
        }) in
    (
      w',
      map_range-step n c va pa flags all_ok w w1 mapped ∙ e,
      is',
      record {
        entries = λ p fits aligned.
            entries-step n va pa flags p (paging_get c.directory_entry p w1)
              (paging_get c.directory_entry p w) (paging_get c.directory_entry p w')
              range.va_aligned aligned range.va_fits range.pa_fits
              (get-update va p (pa + flags) is small fits range.va_aligned aligned)
              (rest.entries p fits aligned);
      },
    )

-- On a well-formed directory, mapping an aligned range below 4 GB with flags below a page
-- succeeds, maps each of its pages and only those, and keeps the directory well formed.
pub paging_map_to-IsMapped :
    {w : Words} (c : Chunk) (table : ℕ → ℕ) (va pa n flags : ℕ)
    → IsChunk w c.directory_entry table
    → IsRange va pa (n * page_size) flags
    → (w' : Words) × (paging_map_to c va pa (pa + n * page_size) flags w ≡ (all_ok, w'))
      × IsChunk w' c.directory_entry table
      × IsMapped w w' c.directory_entry va pa (n * page_size) flags
unfolding paging_map_to paging_map_range
paging_map_to-IsMapped {w} c table va pa n flags is range =
    let (w', e, is', mapped) = loop-Maps n table c va pa flags w is range in
    let pages : (pa + n * page_size - pa) / page_size ≡ n = omega arith in
    let end : (pa + n * page_size) % page_size ≡ 0 = omega (arith, range.pa_aligned) in
    let order : ltb (pa + n * page_size) pa ≡ false = ground arith in
    (w', rw (range.va_aligned, range.pa_aligned, end, order, pages) e, is', mapped)

-- Where an aligned range of whole pages is mapped, an address of the range translates to the one
-- at the same distance.
pub paging_get_physical_address-mapped :
    {w w' : Words} {dir va pa size flags : ℕ} (a : ℕ)
    → IsMapped w w' dir va pa size flags
    → IsRange va pa size flags
    → size % page_size ≡ 0
    → va ≤ a
    → a < va + size
    → paging_get_physical_address dir a w' ≡ pa + (a - va)
unfolding paging_get_physical_address paging_align_to_lower_page
paging_get_physical_address-mapped {w' = w'} {dir} {va} {pa} {flags} a mapped range whole lo hi =
    let page : ℕ = a - a % page_size in
    let entry = mapped.entries page (omega (arith, range.va_fits)) (omega arith) in
    let value : ℕ = pa + (page - va) + flags in
    let small : value < 2 ^ 32 =
      omega (
        arith, range.va_fits, range.pa_fits, range.va_aligned, range.pa_aligned, range.flags_fit,
      ) in
    ground (
      arith,
      entry,
      frame_mask value small,
      range.va_aligned,
      range.pa_aligned,
      range.pa_fits,
      range.flags_fit,
      ap (λ (e : ℕ). bit_and e frame_bits) {x = paging_get dir page w'} {y = value},
    )

-- A range with an end that is not aligned, or that ends before it starts, is refused whole.
pub paging_map_to-invalid :
    (c : Chunk) (va pa end flags : ℕ) (w : Words)
    → (va % page_size ≢ 0) ⊎ (pa % page_size ≢ 0) ⊎ (end % page_size ≢ 0) ⊎ (end < pa)
    → paging_map_to c va pa end flags w ≡ (invalid_argument_error, w)
unfolding paging_map_to
paging_map_to-invalid c va pa end flags w bad = ground arith
