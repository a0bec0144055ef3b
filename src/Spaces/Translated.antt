-- ===== src/Spaces/Translated.antt =====
-- A page that is mapped to itself for a while, and `strncpy` over translated addresses.
use mathlib.Core.Path.{subst}
use own_kernel.Prelude.{
  ℕ, zero, suc, ◌+◌, ◌-◌, ◌*◌, ◌/◌, ◌%◌, ◌^◌, ◌≤◌, ◌<◌, ◌≡◌, ◌≢◌, refl, sym, ◌∙◌, ap, ◌⊎◌, arith,
  bit_and, update, List, [], ◌∷◌, length, take,
}
use own_kernel.Prelude.Bits.{frame_mask}
use own_kernel.Memory.{Mem}
use own_kernel.Strings.Text.{CString-frame, CString}
use own_kernel.Paging.{Words, page_size, entries_per_table, frame_bits}
use own_kernel.Paging.Tables.{
  slot-injective, table_index, slot-ne_dir, IsChunk, slot, update-IsChunk, dir_index,
}
use own_kernel.Spaces.{Translation, IsTranslation, directory_entry, table_entry, translated_strncpy}

-- What the copy needs of the translation of the addresses from `i` on: those of the destination
-- stay, and those of the source are not theirs.
pub translated_strncpy-frame :
    (n i dest src : ℕ) (translate : ℕ → ℕ) (m : Mem) (j : ℕ)
    → ((q : ℕ) → i ≤ q → q ≤ i + n → translate (dest + q) ≡ dest + q)
    → (j < dest + i) ⊎ (dest + i + n < j)
    → translated_strncpy n i dest src translate m j ≡ m j
unfolding translated_strncpy
translated_strncpy-frame zero i dest src translate m j same out =
    rw (same i (omega arith) (omega arith)) (ground arith)
translated_strncpy-frame (suc n) i dest src translate m j same out =
    let here = same i (omega arith) (omega arith) in
    let m1 : Mem = update m (translate (dest + i)) (m (translate (src + i))) in
    let ih =
      translated_strncpy-frame n (i + 1) dest src translate m1 j
        (λ q lo hi. same q (omega arith) (omega arith)) (omega arith) in
    ground (arith, here, ih)

translated_strncpy-suc :
    (n i dest src : ℕ) (translate : ℕ → ℕ) (m : Mem)
    → m (translate (src + i)) ≢ 0
    → translated_strncpy (suc n) i dest src translate m
      ≡ translated_strncpy n
          (i + 1)
          dest
          src
          translate
          (update m (translate (dest + i)) (m (translate (src + i))))
unfolding translated_strncpy
translated_strncpy-suc n i dest src translate m more = ground arith

translated_strncpy-zero :
    (i dest src : ℕ) (translate : ℕ → ℕ) (m : Mem)
    → translated_strncpy zero i dest src translate m ≡ update m (translate (dest + i)) 0
unfolding translated_strncpy
translated_strncpy-zero i dest src translate m = refl

translated_strncpy-nul :
    (n i dest src : ℕ) (translate : ℕ → ℕ) (m : Mem)
    → m (translate (src + i)) ≡ 0
    → translated_strncpy n i dest src translate m ≡ update m (translate (dest + i)) 0
unfolding translated_strncpy
translated_strncpy-nul zero i dest src translate m end = refl
translated_strncpy-nul (suc n) i dest src translate m end = rw end

-- The text of the source is copied, cut to `n` characters.
pub translated_strncpy-take :
    (n i dest src : ℕ) (translate : ℕ → ℕ) (m : Mem) (s : List ℕ)
    → ((q : ℕ) → i ≤ q → q ≤ i + n → translate (dest + q) ≡ dest + q)
    → ((q : ℕ)
        → i ≤ q
        → q ≤ i + length s
        → (translate (src + q) < dest) ⊎ (dest + i + n < translate (src + q)))
    → CString (λ a. m (translate a)) (src + i) s
    → CString (translated_strncpy n i dest src translate m) (dest + i) (take n s)
translated_strncpy-take zero i dest src translate m s same apart h =
    let here = same i (omega arith) (omega arith) in
    rw (translated_strncpy-zero i dest src translate m, here) (ground arith)
translated_strncpy-take (suc n) i dest src translate m [] same apart h =
    rw (translated_strncpy-nul (suc n) i dest src translate m h, same i (omega arith) (omega arith))
      (ground arith)
translated_strncpy-take (suc n) i dest src translate m (c ∷ s) same apart h =
    let here = same i (omega arith) (omega arith) in
    let m1 : Mem = update m (translate (dest + i)) (m (translate (src + i))) in
    let e : src + (i + 1) ≡ src + i + 1 = omega arith in
    let f : dest + (i + 1) ≡ dest + i + 1 = omega arith in
    let next : CString (λ a. m1 (translate a)) (src + (i + 1)) s = rw e (
      CString-frame (λ a. m (translate a)) (λ a. m1 (translate a)) (src + i + 1) s h.2
        λ j lo hi.
          (let q : src + (j - src) ≡ j = omega arith in
            let far = rw q at (apart (j - src) (omega arith) (omega arith)) in
            ground (arith, far))) in
    let ih : CString (translated_strncpy n (i + 1) dest src translate m1) (dest + (i + 1))
        (take n s) =
      translated_strncpy-take n (i + 1) dest src translate m1 s
        (λ q lo hi. same q (omega arith) (omega arith))
        (λ q lo hi. omega (arith, apart q (omega arith) (omega arith))) next in
    subst (λ r. CString r (dest + i) (c ∷ take n s))
      (sym (translated_strncpy-suc n i dest src translate m (ground arith)))
      (
        ground (
          arith,
          here,
          translated_strncpy-frame n (i + 1) dest src translate m1 (dest + i)
              λ q lo hi. same q (omega arith) (omega arith),
        ),
        h.1,
        rw f at ih,
      )

-- The tables with the page mapped to itself, for all.
abbrev pub mapped_words : Words → (table : ℕ → ℕ) → (page : ℕ) → Words
mapped_words w table page = update w (slot table page) (page + 7)

-- A directory whose entries are all present, and a page that is to be mapped to itself.
module _ {w : Words} {dir : ℕ} {table : ℕ → ℕ} (is : IsChunk w dir table) {translate : Translation}
    (law : IsTranslation translate)
    (present : (i : ℕ) → i < entries_per_table → w (dir + 4 * i) % 2 ≡ 1) (page : ℕ)
    (aligned : page % page_size ≡ 0) (fits : page + page_size ≤ 2 ^ 32) where
  table_entry-slot :
      (v : Words) (a : ℕ)
      → IsChunk v dir table
      → a < 2 ^ 32
      → table_entry v dir a ≡ v (slot table a)
  table_entry-slot v a is' small = rw (is'.entry (dir_index a) (omega arith))

  dir-mapped : (a : ℕ) → a < 2 ^ 32 → directory_entry (mapped_words w table page) dir a % 2 ≡ 1
  dir-mapped a small = ground (
    arith,
    slot-ne_dir is page (dir_index a) (omega arith) (omega arith),
    present (dir_index a) (omega arith),
  )

  pub translate-page :
      (j : ℕ) → j < page_size → translate (mapped_words w table page) dir (page + j) ≡ page + j
  translate-page j inside =
      let bound : page + j < 2 ^ 32 = omega arith in
      let at : table_entry (mapped_words w table page) dir (page + j) ≡ page + 7 =
        table_entry-slot (mapped_words w table page) (page + j)
          (update-IsChunk is page (page + 7) (omega arith)) bound
        ∙ (let d : dir_index (page + j) ≡ dir_index page = omega arith in
            let t : table_index (page + j) ≡ table_index page = omega arith in
            ground (arith, ap table d)) in
      let frame : bit_and (page + 7) frame_bits ≡ (page + 7) / 4096 * 4096 =
        frame_mask (page + 7) (omega arith) in
      law.present (mapped_words w table page) dir (page + j) bound (dir-mapped (page + j) bound)
        (rw at (omega arith))
      ∙ rw (at, frame) (omega arith)

  slots-page :
      {a : ℕ} → a < 2 ^ 32 → slot table a ≡ slot table page → a / page_size ≡ page / page_size
  slots-page {a} small e =
      let p : ℕ = a / page_size * page_size in
      let d : dir_index p ≡ dir_index a = omega arith in
      let t : table_index p ≡ table_index a = omega arith in
      let same : p ≡ page =
        slot-injective is p page (omega arith) (omega arith) (omega arith) aligned (rw (d, t) e) in
      omega arith

  pub translate-other :
      (a : ℕ)
      → a < 2 ^ 32
      → a / page_size ≢ page / page_size
      → table_entry w dir a % 2 ≡ 1
      → translate (mapped_words w table page) dir a ≡ translate w dir a
  translate-other a small other there =
      let is' = update-IsChunk is page (page + 7) (omega arith) in
      let differs : slot table a ≢ slot table page = λ e. absurd (other (slots-page small e)) in
      let same : table_entry (mapped_words w table page) dir a ≡ table_entry w dir a =
        table_entry-slot (mapped_words w table page) a is' small
        ∙ (ground (arith, differs))
        ∙ sym (table_entry-slot w a is small) in
      law.present (mapped_words w table page) dir a small (dir-mapped a small) (rw same there)
      ∙ ap (λ (t : ℕ). bit_and t frame_bits + a % page_size) same
      ∙ sym (law.present w dir a small (present (dir_index a) (omega arith)) there)
