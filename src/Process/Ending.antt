-- ===== src/Process/Ending.antt =====
-- What the end of a process leaves, and the count of its arguments.
use own_kernel.Prelude.{
  ℕ, zero, suc, ◌+◌, ◌≤◌, ◌<◌, ◌≡◌, ◌≢◌, refl, ◌∙◌, sym, ap, inl, inr, ◌⊎◌, Bool-cases, some, true,
  false, List, [], ◌∷◌, length, arith, ◌==◌, update,
}
use own_kernel.Memory.{Mem}
use own_kernel.Process.{
  Allocation, no_allocation, Kernel, max_program_allocations, max_processes, unmark_loop,
  process_free, process_switch,
}
use own_kernel.Process.Table.{unmark_loop-keep, unmark_loop-hit}
use own_kernel.Process.Allocations.{table_of, IsAligned, process_free-unmark_loop}
use own_kernel.Process.Life.{
  terminate_loop, process_terminate_allocations, next_argument, count_loop,
  process_count_command_arguments, switch_to_any_loop, process_switch_to_any, process_unlink,
}

-- An entry of the table behind a free: clear, or as it was.
unmarked_entry :
    (ptr q : ℕ) (t : ℕ → Allocation)
    → q < max_program_allocations
    → (unmark_loop max_program_allocations 0 ptr t q ≡ no_allocation)
      ⊎ (unmark_loop max_program_allocations 0 ptr t q ≡ t q)
unmarked_entry ptr q t bound = elim (Bool-cases ((t q).ptr == ptr)) [
  | inl hit ↦
      inl (
        unmark_loop-hit max_program_allocations 0 ptr q t (omega arith) (omega arith)
          (ground arith))
  | inr miss ↦
      inr (unmark_loop-keep max_program_allocations 0 ptr q t (inl (λ at. absurd (ground arith))))
]

abbrev pub AllAligned : (ℕ → Allocation) → Type 0
AllAligned t = (q : ℕ) → q < max_program_allocations → IsAligned (t q)

unmark_loop-AllAligned :
    (ptr : ℕ) (t : ℕ → Allocation)
    → AllAligned t
    → AllAligned (unmark_loop max_program_allocations 0 ptr t)
unmark_loop-AllAligned ptr t aligned q bound = elim (unmarked_entry ptr q t bound) [
  | inl clear ↦ rw clear (refl, omega arith)
  | inr same ↦ rw same (aligned q bound)
]

clear_before :
    (i ptr : ℕ) (t : ℕ → Allocation)
    → i < max_program_allocations
    → (t i).ptr ≡ ptr
    → ((q : ℕ) → q < i → t q ≡ no_allocation)
    → (q : ℕ) → q < i + 1
    → unmark_loop max_program_allocations 0 ptr t q ≡ no_allocation
clear_before i ptr t inside at before q below = elim (Bool-cases (q == i)) [
  | inl here ↦
      let e : q ≡ i = ground arith in
      unmark_loop-hit max_program_allocations 0 ptr q t (omega arith) (omega arith)
        (ap (λ j. (t j).ptr) e ∙ at)
  | inr other ↦
      let clear = before q (ground arith) in
      unmark_loop-keep max_program_allocations 0 ptr q t (inr clear) ∙ clear
]

terminate_loop-clear :
    (n i process : ℕ) (k : Kernel)
    → i + n ≡ max_program_allocations
    → AllAligned (table_of k process)
    → ((q : ℕ) → q < i → table_of k process q ≡ no_allocation)
    → (q : ℕ) → q < max_program_allocations
    → table_of (terminate_loop n i process k) process q ≡ no_allocation
unfolding terminate_loop
terminate_loop-clear zero i process k all aligned before q bound = before q (omega arith)
terminate_loop-clear (suc n) i process k all aligned before q bound =
    let t = table_of k process in
    let ptr : ℕ = (t i).ptr in
    let (heap, table) =
      process_free-unmark_loop process ptr i k (omega arith) refl
        (λ j inside same. aligned j inside) in
    terminate_loop-clear n (i + 1) process (process_free process ptr k) (omega arith)
      (rw table (unmark_loop-AllAligned ptr t aligned))
      (rw table (clear_before i ptr t (omega arith) refl before)) q bound

-- The end of a process leaves no entry in its table, if each starts at a page and ends a page below
-- 4 GB.
pub process_terminate_allocations-clear :
    (process : ℕ) (k : Kernel)
    → AllAligned (table_of k process)
    → (q : ℕ) → q < max_program_allocations
    → table_of (process_terminate_allocations process k).1 process q ≡ no_allocation
unfolding process_terminate_allocations
process_terminate_allocations-clear process k aligned =
    terminate_loop-clear max_program_allocations 0 process k refl aligned
      (λ q below. absurd (omega arith))

-- Slot `r` is the first that is taken, from `i` on.
switch_to_any_loop-first :
    (n i j : ℕ) (k : Kernel)
    → i ≤ j
    → j < i + n
    → k.processes j ≢ 0
    → (r : ℕ) × (switch_to_any_loop n i k ≡ some (record k { current_process = k.processes r }))
      × (k.processes r ≢ 0)
      × (r ≤ j)
unfolding switch_to_any_loop process_switch
switch_to_any_loop-first zero i j k lo hi taken = absurd (omega arith)
switch_to_any_loop-first (suc n) i j k lo hi taken = elim (Bool-cases (k.processes i == 0)) [
  | inr here ↦ (i, rw here refl, λ null. absurd (ground arith), lo)
  | inl null ↦
      let past : i ≢ j = λ e. taken (ap k.processes (sym e) ∙ ground arith) in
      let (r, e, is, le) =
        switch_to_any_loop-first n (i + 1) j k (ground (arith, past)) (omega arith) taken in
      (r, rw null e, is, le)
]

-- With another process in a slot, the end of the current one clears its slot and makes the process of
-- a slot that is still taken the current one.
pub process_unlink-current :
    (process j : ℕ) (k : Kernel)
    → k.current_process ≡ process
    → j < max_processes
    → j ≢ (k.process process).id
    → k.processes j ≢ 0
    → (k' : Kernel) × (r : ℕ) × (process_unlink process k ≡ some k')
      × (k'.processes ≡ update k.processes (k.process process).id 0)
      × (k'.current_process ≡ k'.processes r)
      × (k'.processes r ≢ 0)
      × (r ≤ j)
unfolding process_unlink process_switch_to_any
process_unlink-current process j k current inside other taken =
    let is_current : (k.current_process == process) ≡ true = ground arith in
    let unlinked : Kernel = record k {
      processes = update k.processes (k.process process).id 0x00;
    } in
    let apart : (j == (k.process process).id) ≡ false = ground (arith, other) in
    let (r, e, is, le) =
      switch_to_any_loop-first max_processes 0 j unlinked (omega arith) (omega arith)
        (rw apart taken) in
    (
      record unlinked { current_process = unlinked.processes r },
      r,
      rw is_current e,
      refl,
      refl,
      is,
      le,
    )

-- From `current` the pointers lead through the arguments at these addresses to null.
abbrev pub IsArguments : Mem → ℕ → List ℕ → Type 0
IsArguments m current [] = current ≡ 0
IsArguments m current (a ∷ rest) = (current ≡ a) × (a ≢ 0) × IsArguments m (next_argument m a) rest

count_loop-length :
    (fuel : ℕ) (m : Mem) (current i : ℕ) (arguments : List ℕ)
    → IsArguments m current arguments
    → length arguments < fuel
    → count_loop fuel m current i ≡ some (i + length arguments)
unfolding count_loop
count_loop-length zero m current i arguments is enough = absurd (omega arith)
count_loop-length (suc fuel) m current i [] is enough =
    let e : i ≡ i + 0 = omega arith in rw is (ap some e)
count_loop-length (suc fuel) m current i (a ∷ rest) (at, nonnull, is) enough =
    let more : (a == 0) ≡ false = ground (arith, nonnull) in
    let e : i + 1 + length rest ≡ i + suc (length rest) = omega arith in
    rw (at, more)
      (count_loop-length fuel m (next_argument m a) (i + 1) rest is (omega arith) ∙ ap some e)

pub process_count_command_arguments-length :
    (fuel : ℕ) (m : Mem) (root_argument : ℕ) (arguments : List ℕ)
    → IsArguments m root_argument arguments
    → length arguments < fuel
    → process_count_command_arguments fuel m root_argument ≡ some (length arguments)
unfolding process_count_command_arguments
process_count_command_arguments-length fuel m root_argument arguments is enough =
    count_loop-length fuel m root_argument 0 arguments is enough ∙ ap some (omega arith)
