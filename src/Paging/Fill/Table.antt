-- ===== src/Paging/Fill/Table.antt =====
-- One more table of a directory under construction, in a block that was free.
use own_kernel.Prelude.{
  ltb, ℕ, suc, ◌+◌, ◌*◌, ◌/◌, ◌%◌, ◌^◌, ◌≤◌, ◌<◌, ◌≡◌, ◌≢◌, ap, ◌∙◌, sym, ◌⊎◌, inl, inr, Bool-cases,
  arith, ◌==◌, bit_or, update, true, false,
}
use own_kernel.Prelude.Bits.{bit_or-low_field, bit_or-fields}
use own_kernel.Heap.{Heap, heap_get_entry_type}
use own_kernel.Heap.Single.{IsBlock}
use own_kernel.Paging.{Words, page_size, entries_per_table}
use own_kernel.Paging.Chunks.{fill_table}
use own_kernel.Paging.Fill.{IsFilled, fill_table-frame, fill_table-get}

-- Different blocks are different pages.
pages_apart :
    (s p q a b : ℕ)
    → p ≢ q
    → a < page_size
    → b < page_size
    → s + p * page_size + a ≢ s + q * page_size + b
pages_apart s p q a b other lo hi e = other (omega (arith, e))

module _ {h h' : Heap} {w : Words} {d i flags entry r : ℕ} {block : ℕ → ℕ}
    (f : IsFilled h w d i flags block) (g : IsBlock h h' entry r)
    (aligned : h.start_address % page_size ≡ 0) (small : flags < page_size)
    (room : i < entries_per_table) where
  abbrev pub next_words : Words
  next_words =
      update (fill_table entries_per_table 0 entry (i * (entries_per_table * page_size)) flags w)
        (h.start_address + d * page_size + 4 * i) (bit_or (bit_or entry flags) 2)

  was_taken : (b : ℕ) → heap_get_entry_type (h.entries b) ≡ 1 → b ≢ r
  was_taken b one e = ground (arith, g.was_free, ap (λ t. heap_get_entry_type (h.entries t)) e)

  still_taken :
      (b : ℕ) → heap_get_entry_type (h.entries b) ≡ 1 → heap_get_entry_type (h'.entries b) ≡ 1
  still_taken b one = ap heap_get_entry_type (g.frame b (was_taken b one)) ∙ one

  directory_value : bit_or (bit_or entry flags) 2 ≡ h.start_address + r * page_size + bit_or flags 2
  directory_value =
      let k : ℕ = entry / page_size in
      let whole : k * page_size ≡ entry = omega (arith, g.address, aligned) in
      ap (λ (t : ℕ). bit_or (bit_or t flags) 2) (sym whole)
      ∙ ap (λ (t : ℕ). bit_or t 2) (bit_or-low_field 12 k flags small)
      ∙ (bit_or-fields 12 k flags 2 small (omega arith)).0
      ∙ omega (arith, whole, g.address)

  outside :
      (b a : ℕ)
      → b ≢ r
      → a < page_size
      → (h.start_address + b * page_size + a < entry + 4 * 0)
        ⊎ (entry + 4 * (0 + entries_per_table) ≤ h.start_address + b * page_size + a)
  outside b a other lo = elim (Bool-cases (ltb b r)) [
    | inl below ↦ let lt : b < r = ground arith in inl (omega (arith, g.address))
    | inr above ↦ let gt : r < b = ground (arith, other) in inr (omega (arith, g.address))
  ]

  -- A word of another block is as it was, but for the new entry of the directory.
  other_word :
      (b a : ℕ)
      → b ≢ r
      → a < page_size
      → (b ≡ d → a ≢ 4 * i)
      → next_words (h.start_address + b * page_size + a) ≡ w (h.start_address + b * page_size + a)
  other_word b a other lo new =
      let not_entry : (h.start_address + b * page_size + a
            == h.start_address + d * page_size + 4 * i)
          ≡ false =
        elim (Bool-cases (b == d)) [
          | inl same ↦
              let e : b ≡ d = ground arith in
              let p = ap (λ (t : ℕ). t * page_size) e in ground (arith, new e)
          | inr differs ↦
              let p : b ≢ d = ground arith in
              ground (arith, pages_apart h.start_address b d a (4 * i) p lo (omega arith))
        ] in
      rw not_entry (
        fill_table-frame entries_per_table 0 entry (i * (entries_per_table * page_size)) flags w
          (h.start_address + b * page_size + a) (outside b a other lo))

  -- What stands in the new table.
  new_word :
      (t : ℕ)
      → t < entries_per_table
      → next_words (h.start_address + r * page_size + 4 * t)
        ≡ (i * entries_per_table + t) * page_size + flags
  new_word t bound =
      let apart =
        pages_apart h.start_address r d (4 * t) (4 * i) (λ e. was_taken d f.dir_taken (sym e))
          (omega arith) (omega arith) in
      let not_entry : (h.start_address + r * page_size + 4 * t
            == h.start_address + d * page_size + 4 * i)
          ≡ false =
        ground (arith, apart) in
      let place : entry + 4 * t ≡ h.start_address + r * page_size + 4 * t =
        omega (arith, g.address) in
      let value : (i * (entries_per_table * page_size) + t * page_size) % 2 ^ 32
          ≡ (i * entries_per_table + t) * page_size =
        omega arith in
      rw not_entry (
        ap
          (λ a.
            fill_table entries_per_table 0 entry (i * (entries_per_table * page_size)) flags w a)
          (sym place)
        ∙ fill_table-get entries_per_table 0 entry (i * (entries_per_table * page_size)) flags w t
            (omega arith) (omega arith)
        ∙ ap (λ (v : ℕ). bit_or v flags) value
        ∙ bit_or-low_field 12 (i * entries_per_table + t) flags small)

  abbrev pub next_block : ℕ → ℕ
  next_block = update block i r

  old_block : (q : ℕ) → q < i → next_block q ≡ block q
  old_block q bound = ground arith

  new_block : next_block i ≡ r
  new_block = ground arith

  next_directory :
      next_words (h.start_address + d * page_size + 4 * i)
      ≡ h.start_address + r * page_size + bit_or flags 2
  next_directory =
      let here : (h.start_address + d * page_size + 4 * i
            == h.start_address + d * page_size + 4 * i)
          ≡ true =
        ground arith in
      rw here directory_value

  directory_next :
      (q : ℕ)
      → q < suc i
      → next_words (h'.start_address + d * page_size + 4 * q)
        ≡ h'.start_address + next_block q * page_size + bit_or flags 2
  directory_next q bound = elim (Bool-cases (q == i)) [
    | inl last ↦
        let e : q ≡ i = ground arith in
        rw (g.start_address, last)
          (ap (λ (t : ℕ). next_words (h.start_address + d * page_size + 4 * t)) e ∙ next_directory)
    | inr other ↦
        rw (g.start_address, other)
          (other_word d (4 * q) (was_taken d f.dir_taken) (omega arith)
              (λ e n. absurd (ground arith))
            ∙ f.directory q (ground arith))
  ]

  entries_next :
      (q t : ℕ)
      → q < suc i
      → t < entries_per_table
      → next_words (h'.start_address + next_block q * page_size + 4 * t)
        ≡ (q * entries_per_table + t) * page_size + flags
  entries_next q t bound small_t = elim (Bool-cases (q == i)) [
    | inl last ↦
        let e : q ≡ i = ground arith in
        rw (g.start_address, last)
          (new_word t small_t
            ∙ ap (λ (u : ℕ). (u * entries_per_table + t) * page_size + flags) (sym e))
    | inr other ↦
        let lt : q < i = ground arith in
        rw (g.start_address, other)
          (other_word (block q) (4 * t) (was_taken (block q) (f.is_taken q lt)) (omega arith)
              (λ e. absurd (f.not_dir q lt e))
            ∙ f.entries q t lt small_t)
  ]

  -- One more table.
  pub IsFilled-next : IsFilled h' next_words d (suc i) flags next_block
  IsFilled-next = record {
    heap = g.heap;
    dir_inside = rw g.total f.dir_inside;
    dir_taken = still_taken d f.dir_taken;
    inside = λ q bound. elim (Bool-cases (q == i)) [
      | inl last ↦ rw (last, g.total) g.inside
      | inr other ↦ rw (other, g.total) (f.inside q (ground arith))
    ];
    is_taken = λ q bound. elim (Bool-cases (q == i)) [
      | inl last ↦ rw last g.now_taken
      | inr other ↦ rw other (still_taken (block q) (f.is_taken q (ground arith)))
    ];
    not_dir = λ q bound. elim (Bool-cases (q == i)) [
      | inl last ↦ rw last (λ e. was_taken d f.dir_taken (sym e))
      | inr other ↦ rw other (f.not_dir q (ground arith))
    ];
    distinct = λ p q lt bound.
        let early : (p == i) ≡ false = ground arith in
        elim (Bool-cases (q == i)) [
          | inl last ↦ rw (early, last) (was_taken (block p) (f.is_taken p (omega arith)))
          | inr other ↦ rw (early, other) (f.distinct p q lt (ground arith))
        ];
    directory = directory_next;
    entries = entries_next;
  }
