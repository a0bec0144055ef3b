-- ===== src/Process/Table.antt =====
-- The table of a process's allocations: searches in it, and what is marked and unmarked.
use own_kernel.Prelude.{
  ℕ, zero, suc, ◌+◌, ◌≤◌, ◌<◌, ◌≡◌, ◌≢◌, ◌⊎◌, refl, ◌∙◌, sym, ap, inl, inr, Bool-cases, some, none,
  true, false, arith, ◌==◌, if◌then◌else◌, update,
}
use own_kernel.Process.{Allocation, no_allocation, find_allocation, unmark_loop}

-- A search that finds an entry gives the first.
pub find_allocation-first :
    (n i addr j : ℕ) (allocations : ℕ → Allocation)
    → i ≤ j
    → j < i + n
    → (allocations j).ptr ≡ addr
    → (r : ℕ) × (find_allocation n i addr allocations ≡ some r)
      × ((allocations r).ptr ≡ addr)
      × (i ≤ r)
      × (r ≤ j)
unfolding find_allocation
find_allocation-first zero i addr j allocations lo hi at = absurd (omega arith)
find_allocation-first (suc n) i addr j allocations lo hi at =
    elim (Bool-cases ((allocations i).ptr == addr)) [
      | inl here ↦ (i, rw here refl, ground arith, omega arith, lo)
      | inr other ↦
          let past : i ≢ j = λ e. absurd (ground (arith, ap (λ q. (allocations q).ptr) e)) in
          let (r, found, is, lo', le) =
            find_allocation-first n (i + 1) addr j allocations (ground (arith, past)) (omega arith)
              at in
          (r, rw other found, is, omega arith, le)
    ]

-- A search that finds nothing has looked at every entry.
pub find_allocation-none :
    (n i addr j : ℕ) (allocations : ℕ → Allocation)
    → find_allocation n i addr allocations ≡ none
    → i ≤ j
    → j < i + n
    → (allocations j).ptr ≢ addr
find_allocation-none n i addr j allocations nothing lo hi at =
    let (r, found, is, lo', le) = find_allocation-first n i addr j allocations lo hi at in cc

-- One round of the loop.
abbrev unmarked : (i ptr : ℕ) → (ℕ → Allocation) → ℕ → Allocation
unmarked i ptr allocations =
    if (allocations i).ptr == ptr then update allocations i no_allocation else allocations

unmarked-here :
    (i ptr j : ℕ) (allocations : ℕ → Allocation)
    → (j == i) ≡ true
    → (allocations j).ptr ≡ ptr
    → unmarked i ptr allocations j ≡ no_allocation
unmarked-here i ptr j allocations here at =
    let e : j ≡ i = ground arith in
    let same : (allocations j).ptr ≡ (allocations i).ptr = ap (λ q. (allocations q).ptr) e in
    let hit : ((allocations i).ptr == ptr) ≡ true = ground arith in rw (hit, here) refl

unmarked-other :
    (i ptr j : ℕ) (allocations : ℕ → Allocation)
    → (j == i) ≡ false
    → unmarked i ptr allocations j ≡ allocations j
unmarked-other i ptr j allocations other = elim (Bool-cases ((allocations i).ptr == ptr)) [
  | inl hit ↦ rw (hit, other) refl
  | inr miss ↦ rw miss refl
]

-- An entry with another pointer, or one that is clear, stays.
unmarked-keep :
    (i ptr j : ℕ) (allocations : ℕ → Allocation)
    → ((allocations j).ptr ≢ ptr) ⊎ (allocations j ≡ no_allocation)
    → unmarked i ptr allocations j ≡ allocations j
unmarked-keep i ptr j allocations keeps = elim (Bool-cases (j == i)) [
  | inr other ↦ unmarked-other i ptr j allocations other
  | inl here ↦ elim (Bool-cases ((allocations i).ptr == ptr)) [
    | inr miss ↦ rw miss refl
    | inl hit ↦ elim keeps [
      | inl differs ↦
          let e : j ≡ i = ground arith in
          let same : (allocations j).ptr ≡ (allocations i).ptr = ap (λ q. (allocations q).ptr) e in
          absurd (differs (ground arith))
      | inr clear ↦ rw (hit, here) (sym clear)
    ]
  ]
]

pub unmark_loop-keep :
    (n i ptr j : ℕ) (allocations : ℕ → Allocation)
    → ((allocations j).ptr ≢ ptr) ⊎ (allocations j ≡ no_allocation)
    → unmark_loop n i ptr allocations j ≡ allocations j
unfolding unmark_loop
unmark_loop-keep zero i ptr j allocations keeps = refl
unmark_loop-keep (suc n) i ptr j allocations keeps =
    let same = unmarked-keep i ptr j allocations keeps in
    unmark_loop-keep n (i + 1) ptr j (unmarked i ptr allocations) (rw same keeps) ∙ same

-- An entry with the pointer is cleared.
pub unmark_loop-hit :
    (n i ptr j : ℕ) (allocations : ℕ → Allocation)
    → i ≤ j
    → j < i + n
    → (allocations j).ptr ≡ ptr
    → unmark_loop n i ptr allocations j ≡ no_allocation
unfolding unmark_loop
unmark_loop-hit zero i ptr j allocations lo hi at = absurd (omega arith)
unmark_loop-hit (suc n) i ptr j allocations lo hi at = elim (Bool-cases (j == i)) [
  | inl here ↦
      let clear = unmarked-here i ptr j allocations here at in
      unmark_loop-keep n (i + 1) ptr j (unmarked i ptr allocations) (inr clear) ∙ clear
  | inr other ↦
      let same = unmarked-other i ptr j allocations other in
      unmark_loop-hit n (i + 1) ptr j (unmarked i ptr allocations) (ground arith) (omega arith)
        (ap (λ a. a.ptr) same ∙ at)
]
