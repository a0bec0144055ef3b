-- ===== src/Heap/Search.antt =====
-- The search for a run of free blocks (`heap_get_start_block`).
use own_kernel.Prelude.{
  ℕ, zero, suc, ◌+◌, ◌≤◌, ◌<◌, ◌≡◌, refl, Bool-cases, inl, inr, Option, none, some, arith, ◌==◌,
}
use own_kernel.Heap.{Heap, heap_get_entry_type, run_start, find_start, heap_get_start_block}

abbrev pub IsFree : (ℕ → ℕ) → ℕ → Type 0
IsFree entries j = heap_get_entry_type (entries j) ≡ 0

-- the blocks of [s, m)
abbrev pub FreeRun : (ℕ → ℕ) → ℕ → ℕ → Type 0
FreeRun entries s m = (j : ℕ) → s ≤ j → j < m → IsFree entries j

-- What the loop knows at block `i` of its two variables.
abbrev RunAt : (ℕ → ℕ) → ℕ → Option ℕ → ℕ → Type 0
RunAt entries i none current = current ≡ 0
RunAt entries i (some s) current = (s + current ≡ i) × FreeRun entries s i

module _ (entries : ℕ → ℕ) where
  run_start-add :
      (i : ℕ) (start : Option ℕ) (c : ℕ) → RunAt entries i start c → run_start start i + c ≡ i
  run_start-add i none c h = omega arith
  run_start-add i (some s) c h = h.0

  IsFree-or_last :
      (i j s : ℕ) → FreeRun entries s i → IsFree entries i → s ≤ j → j < i + 1 → IsFree entries j
  IsFree-or_last i j s run free lo hi = elim (Bool-cases (j == i)) [
    | inl same ↦ let e : j ≡ i = ground arith in rw e free
    | inr other ↦ run j lo (ground arith)
  ]

  RunAt-suc :
      (i : ℕ) (start : Option ℕ) (c : ℕ)
      → RunAt entries i start c
      → IsFree entries i
      → RunAt entries (i + 1) (some (run_start start i)) (c + 1)
  RunAt-suc i none c h free = (omega arith, λ j lo hi. let e : j ≡ i = omega arith in rw e free)
  RunAt-suc i (some s) c h free = (omega arith, λ j lo hi. IsFree-or_last i j s h.1 free lo hi)

module _ (entries : ℕ → ℕ) (k : ℕ) where
  find_start-IsFree :
      (n i : ℕ) (start : Option ℕ) (c r : ℕ)
      → RunAt entries i start c
      → c < k
      → find_start entries k n i start c ≡ some r
      → (j : ℕ) → r ≤ j
      → j < r + k
      → j < i + n
      → IsFree entries j
  unfolding find_start
  find_start-IsFree zero i none c r run fits found j lo hi bound = cc
  find_start-IsFree zero i (some s) c r run fits found j lo hi bound =
      run.1 j (ground arith) (omega arith)
  find_start-IsFree (suc n) i start c r run fits found j lo hi bound =
      elim (Bool-cases (heap_get_entry_type (entries i) == 0)) [
        | inr used ↦
            find_start-IsFree n (i + 1) none 0 r refl (omega arith) (rw used at found) j lo hi
              (omega arith)
        | inl free ↦ elim (Bool-cases (c + 1 == k)) [
          | inl full ↦
              let e : some (run_start start i) ≡ some r = rw (free, full) at found in
              (RunAt-suc entries i start c run (ground arith)).1 j (ground arith)
                (ground (arith, run_start-add entries i start c run))
          | inr more ↦
              find_start-IsFree n (i + 1) (some (run_start start i)) (c + 1) r
                (RunAt-suc entries i start c run (ground arith)) (ground arith)
                (rw (free, more) at found) j lo hi (omega arith)
        ]
      ]

  find_start-first_fit :
      (n i : ℕ) (start : Option ℕ) (c j : ℕ)
      → RunAt entries i start c
      → c < k
      → run_start start i ≤ j
      → j + k ≤ i + n
      → FreeRun entries j (j + k)
      → (r : ℕ) × (find_start entries k n i start c ≡ some r) × (r ≤ j) × (r + k ≤ i + n)
  unfolding find_start
  find_start-first_fit zero i start c j run fits after bound free =
      absurd (omega (arith, run_start-add entries i start c run))
  find_start-first_fit (suc n) i start c j run fits after bound free =
      elim (Bool-cases (heap_get_entry_type (entries i) == 0)) [
        | inr used ↦ rw used (
            let past : i < j = ground (arith, free i, run_start-add entries i start c run) in
            let (r, e, le, within) =
              find_start-first_fit n (i + 1) none 0 j refl (omega arith) (omega arith) (omega arith)
                free in
            (r, e, le, omega arith))
        | inl here ↦ elim (Bool-cases (c + 1 == k)) [
          | inl full ↦
              rw (here, full)
                (
                  run_start start i,
                  refl,
                  after,
                  ground (arith, run_start-add entries i start c run),
                )
          | inr more ↦
              rw (here, more)
                (let (r, e, le, within) =
                    find_start-first_fit n (i + 1) (some (run_start start i)) (c + 1) j
                      (RunAt-suc entries i start c run (ground arith)) (ground arith) after
                      (omega arith) free in
                  (r, e, le, omega arith))
        ]
      ]

  -- Whatever the number of blocks asked for, a free last block is enough for an answer.
  find_start-some_of_free_last :
      (n i : ℕ) (start : Option ℕ) (c : ℕ)
      → IsFree entries (i + n)
      → (r : ℕ) × (find_start entries k (suc n) i start c ≡ some r)
  unfolding find_start
  find_start-some_of_free_last zero i start c free =
      let here : IsFree entries i = (let e : i + 0 ≡ i = omega arith in rw e at free) in
      rw here (elim (Bool-cases (c + 1 == k)) [
        | inl full ↦ (run_start start i, rw full)
        | inr more ↦ (run_start start i, rw more)
      ])
  find_start-some_of_free_last (suc n) i start c free =
      let later : IsFree entries (i + 1 + n) =
        (let e : i + suc n ≡ i + 1 + n = omega arith in rw e at free) in
      elim (Bool-cases (heap_get_entry_type (entries i) == 0)) [
        | inr used ↦ rw used (find_start-some_of_free_last n (i + 1) none 0 later)
        | inl here ↦ elim (Bool-cases (c + 1 == k)) [
          | inl full ↦ (run_start start i, rw (here, full))
          | inr more ↦
              rw (here, more)
                (find_start-some_of_free_last n (i + 1) (some (run_start start i)) (c + 1) later)
        ]
      ]

abbrev Before : Option ℕ → ℕ → Type 0
Before none i = Unit
Before (some s) i = s < i

find_start-lt :
    (entries : ℕ → ℕ) (k n i : ℕ) (start : Option ℕ) (c r : ℕ)
    → Before start i
    → find_start entries k n i start c ≡ some r
    → r < i + n
unfolding find_start
find_start-lt entries k zero i none c r before found = cc
find_start-lt entries k zero i (some s) c r before found = ground arith
find_start-lt entries k (suc n) i none c r before found = ground (
  arith,
  find_start-lt entries k n (i + 1) none 0 r,
  find_start-lt entries k n (i + 1) (some i) (c + 1) r,
)
find_start-lt entries k (suc n) i (some s) c r before found = ground (
  arith,
  find_start-lt entries k n (i + 1) none 0 r,
  find_start-lt entries k n (i + 1) (some s) (c + 1) r,
)

-- What `heap_get_start_block` says of the table.
module _ (heap : Heap) (k : ℕ) where
  pub heap_get_start_block-FreeRun :
      (r : ℕ)
      → 0 < k
      → heap_get_start_block heap k ≡ some r
      → r + k ≤ heap.total
      → FreeRun heap.entries r (r + k)
  unfolding heap_get_start_block
  heap_get_start_block-FreeRun r some_blocks found fits j lo hi =
      find_start-IsFree heap.entries k heap.total 0 none 0 r refl some_blocks found j lo hi
        (omega arith)

  pub heap_get_start_block-first_fit :
      (j : ℕ)
      → 0 < k
      → j + k ≤ heap.total
      → FreeRun heap.entries j (j + k)
      → (r : ℕ) × (heap_get_start_block heap k ≡ some r) × (r ≤ j) × (r + k ≤ heap.total)
  unfolding heap_get_start_block
  heap_get_start_block-first_fit j some_blocks fits free =
      let (r, e, le, within) =
        find_start-first_fit heap.entries k heap.total 0 none 0 j refl some_blocks (omega arith)
          (omega arith) free in
      (r, e, le, omega arith)

  pub heap_get_start_block-some_of_free_last :
      (m : ℕ)
      → heap.total ≡ suc m
      → IsFree heap.entries m
      → (r : ℕ) × (heap_get_start_block heap k ≡ some r)
  unfolding heap_get_start_block
  heap_get_start_block-some_of_free_last m size free = rw size (
      find_start-some_of_free_last heap.entries k m 0 none 0
        (let e : 0 + m ≡ m = omega arith in rw e free))

  pub heap_get_start_block-lt : (r : ℕ) → heap_get_start_block heap k ≡ some r → r < heap.total
  unfolding heap_get_start_block
  heap_get_start_block-lt r found =
      omega (arith, find_start-lt heap.entries k heap.total 0 none 0 r tt found)
