-- ===== src/Paging/Fill.antt =====
-- The entries of a table that is filled, and a directory under construction.
pub mod Table
pub mod Rounds
use own_kernel.Prelude.{
  ltb, ℕ, zero, suc, ◌+◌, ◌-◌, ◌*◌, ◌/◌, ◌%◌, ◌^◌, ◌≤◌, ◌<◌, ◌≡◌, ◌≢◌, refl, ap, ◌∙◌, sym, ◌⊎◌, inl,
  inr, Bool-cases, arith, ◌==◌, if◌then◌else◌, bit_or, update, true, false,
}
use own_kernel.Prelude.Bits.{bit_or-low_field, bit_or-fields}
use own_kernel.Heap.{Heap, heap_get_entry_type}
use own_kernel.Heap.Alloc.{IsHeap}
use own_kernel.Heap.Single.{IsBlock}
use own_kernel.Paging.{Words, page_size, entries_per_table}
use own_kernel.Paging.Chunks.{fill_table}

pub fill_table-frame :
    (n j entry offset flags : ℕ) (w : Words) (a : ℕ)
    → (a < entry + 4 * j) ⊎ (entry + 4 * (j + n) ≤ a)
    → fill_table n j entry offset flags w a ≡ w a
unfolding fill_table
fill_table-frame zero j entry offset flags w a out = refl
fill_table-frame (suc n) j entry offset flags w a out = ground (
  arith,
  fill_table-frame n (j + 1) entry offset flags
      (update w (entry + 4 * j) (bit_or ((offset + j * page_size) % 2 ^ 32) flags)) a,
)

pub fill_table-get :
    (n j entry offset flags : ℕ) (w : Words) (q : ℕ)
    → j ≤ q
    → q < j + n
    → fill_table n j entry offset flags w (entry + 4 * q)
      ≡ bit_or ((offset + q * page_size) % 2 ^ 32) flags
unfolding fill_table
fill_table-get zero j entry offset flags w q lo hi = absurd (omega arith)
fill_table-get (suc n) j entry offset flags w q lo hi =
    let w1 : Words = update w (entry + 4 * j) (bit_or ((offset + j * page_size) % 2 ^ 32) flags) in
    elim (Bool-cases (q == j)) [
      | inl here ↦
          let e : q ≡ j = ground arith in
          fill_table-frame n (j + 1) entry offset flags w1 (entry + 4 * q) (inl (omega arith))
          ∙ ground (arith, ap (λ (t : ℕ). bit_or ((offset + t * page_size) % 2 ^ 32) flags) e)
      | inr later ↦ fill_table-get n (j + 1) entry offset flags w1 q (ground arith) (omega arith)
    ]

-- The tables 0 to `i - 1` of the directory in block `d`: table `q` is in block `block q`, and its
-- entries map its 4 MB to themselves.
pub record IsFilled (h : Heap) (w : Words) (d i flags : ℕ) (block : ℕ → ℕ) : Type 0 where
  pub heap : IsHeap h
  pub dir_inside : d < h.total
  pub dir_taken : heap_get_entry_type (h.entries d) ≡ 1
  pub inside : (q : ℕ) → q < i → block q < h.total
  pub is_taken : (q : ℕ) → q < i → heap_get_entry_type (h.entries (block q)) ≡ 1
  pub not_dir : (q : ℕ) → q < i → block q ≢ d
  pub distinct : (p q : ℕ) → p < q → q < i → block p ≢ block q
  pub directory :
      (q : ℕ)
      → q < i
      → w (h.start_address + d * page_size + 4 * q)
        ≡ h.start_address + block q * page_size + bit_or flags 2
  pub entries :
      (q t : ℕ)
      → q < i
      → t < entries_per_table
      → w (h.start_address + block q * page_size + 4 * t)
        ≡ (q * entries_per_table + t) * page_size + flags
