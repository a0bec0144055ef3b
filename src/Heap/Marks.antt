-- ===== src/Heap/Marks.antt =====
-- What the two marking loops leave in the table.
use own_kernel.Prelude.{
  ℕ, zero, suc, ◌+◌, ◌≤◌, ◌<◌, ◌≡◌, Bool-cases, inl, inr, true, false, arith, ◌==◌, bit_and, leb,
  ltb, ◌&&◌, if◌then◌else◌, update,
}
use own_kernel.Heap.{taken, has_next, mark_taken, mark_free}

pub mark_taken-get :
    (n i end entry : ℕ) (entries : ℕ → ℕ) (j : ℕ)
    → mark_taken n i end entry entries j ≡ (
        if ltb j i
        then entries j
        else if leb (i + n) j
        then entries j
        else if j == i
        then entry
        else if j == end
        then taken
        else 0x81)
unfolding mark_taken
mark_taken-get zero i end entry entries j = ground arith
mark_taken-get (suc n) i end entry entries j = ground (
  arith,
  mark_taken-get n (i + 1) end (if i + 1 == end then taken else 0x81) (update entries i entry) j,
)

-- A chain of blocks from `i` to `last`: each has a next one, but for the last.
pub mark_free-get :
    (n i last : ℕ) (entries : ℕ → ℕ)
    → i ≤ last
    → last < i + n
    → ((j : ℕ) → i ≤ j → j < last → (bit_and (entries j) has_next == 0) ≡ false)
    → (bit_and (entries last) has_next == 0) ≡ true
    → (j : ℕ) → mark_free n i entries j ≡ (if leb i j && leb j last then 0 else entries j)
unfolding mark_free
mark_free-get zero i last entries lo hi chain stop j = absurd (omega arith)
mark_free-get (suc n) i last entries lo hi chain stop j = elim (Bool-cases (i == last)) [
  | inl end ↦ let e : last ≡ i = ground arith in rw (rw e at stop) (ground arith)
  | inr more ↦ rw (chain i (omega arith) (ground arith)) (
      ground (
        arith,
        mark_free-get n (i + 1) last (update entries i 0) (ground arith) (omega arith)
            (λ k a b. ground (arith, chain k (omega arith) b)) (ground arith) j,
      ))
]
