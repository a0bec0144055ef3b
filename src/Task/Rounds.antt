-- ===== src/Task/Rounds.antt =====
-- The rounds of the scheduler: each task of a list has its turn.
use mathlib.Core.Path.{subst}
use own_kernel.Prelude.{
  Option-cases, ℕ, zero, suc, ◌+◌, ◌-◌, ◌<◌, ◌≡◌, refl, sym, ap, ◌∙◌, inl, inr, Bool-cases, true,
  false, Option, none, some, List, [], ◌∷◌, ◌++◌, length, length-append, get_or, arith, ◌==◌, ltb,
  if◌then◌else◌,
}
use own_kernel.Task.{Ptr, null, Registers, Tasks, task_next}
use own_kernel.Task.Ring.{IsTasks, has, successor, first_of_list, task_next-successor}

-- `n` calls of `task_next` in a row.
unfoldable pub rounds : (n : ℕ) → Tasks → Option Tasks
rounds zero s = some s
rounds (suc n) s = elim (task_next s) [ none ↦ none | some (s', registers) ↦ rounds n s' ]

rounds-suc :
    (n : ℕ) (s s' : Tasks) (registers : Registers)
    → task_next s ≡ some (s', registers)
    → rounds (suc n) s ≡ rounds n s'
unfolding rounds
rounds-suc n s s' registers e = rw (e, rounds) refl

-- The list around its element `k`.
record Split (xs : List Ptr) (k : ℕ) : Type 0 where
  before : List Ptr
  behind : List Ptr
  whole : xs ≡ before ++ get_or xs k null ∷ behind
  place : length before ≡ k

split : (xs : List Ptr) (k : ℕ) → k < length xs → Split xs k
split [] k bound = absurd (omega arith)
split (x ∷ xs) zero bound = record { before = []; behind = xs; whole = refl; place = refl }
split (x ∷ xs) (suc k) bound =
    let rest = split xs k (omega arith) in
    record {
      before = x ∷ rest.before;
      behind = rest.behind;
      whole = ap (λ l. x ∷ l) rest.whole;
      place = ap suc rest.place;
    }

first-get : (xs : List Ptr) → first_of_list xs ≡ get_or xs 0 null
first-get [] = refl
first-get (x ∷ xs) = refl

get-behind :
    (ys : List Ptr) (x z : Ptr) (zs : List Ptr)
    → get_or (ys ++ x ∷ z ∷ zs) (suc (length ys)) null ≡ z
get-behind [] x z zs = refl
get-behind (y ∷ ys) x z zs = get-behind ys x z zs

-- The place of the task whose turn is next.
abbrev next_place : (xs : List Ptr) (k : ℕ) → Ptr
next_place xs k = if suc k == length xs then get_or xs 0 null else get_or xs (suc k) null

successor-next_place :
    (ys : List Ptr) (x : Ptr) (zs : List Ptr)
    → successor ys x zs ≡ next_place (ys ++ x ∷ zs) (length ys)
successor-next_place ys x [] =
    let last : (suc (length ys) == length (ys ++ x ∷ [])) ≡ true =
      ground (arith, length-append ys (x ∷ [])) in
    rw last (first-get (ys ++ x ∷ []))
successor-next_place ys x (z ∷ zs) =
    let more : (suc (length ys) == length (ys ++ x ∷ z ∷ zs)) ≡ false =
      ground (arith, length-append ys (x ∷ z ∷ zs)) in
    rw more (sym (get-behind ys x z zs))

-- One call, from place `k`.
abbrev Steps : Tasks → List Ptr → Ptr → Type 0
Steps s xs t =
    (s' : Tasks) × (registers : Registers) × (task_next s ≡ some (s', registers))
    × IsTasks s' xs
    × (s'.current ≡ t)

step_split :
    {s : Tasks} (ys : List Ptr) (x : Ptr) (zs : List Ptr)
    → IsTasks s (ys ++ x ∷ zs)
    → s.current ≡ x
    → Steps s (ys ++ x ∷ zs) (next_place (ys ++ x ∷ zs) (length ys))
step_split {s} ys x zs is running =
    let (s', e, is', now, directory) = task_next-successor ys x zs is running in
    (s', (s.task (successor ys x zs)).registers, e, is', now ∙ successor-next_place ys x zs)

step :
    {s : Tasks} (xs : List Ptr) (k : ℕ)
    → IsTasks s xs
    → k < length xs
    → s.current ≡ get_or xs k null
    → Steps s xs (next_place xs k)
step {s} xs k is bound running =
    let at = split xs k bound in
    subst (λ l. Steps s l (next_place l k)) (sym at.whole)
      (subst
        (λ n.
          Steps s (at.before ++ get_or xs k null ∷ at.behind)
            (next_place (at.before ++ get_or xs k null ∷ at.behind) n))
        at.place
        (step_split at.before (get_or xs k null) at.behind (subst (IsTasks s) at.whole is) running))

-- `n` calls in a row that come to `t`.
abbrev pub Comes : (n : ℕ) → Tasks → List Ptr → Ptr → Type 0
Comes n s xs t = (s' : Tasks) × (rounds n s ≡ some s') × IsTasks s' xs × (s'.current ≡ t)

-- Forward in the list.
forward :
    {s : Tasks} (n : ℕ) (xs : List Ptr) (k : ℕ)
    → IsTasks s xs
    → k + n < length xs
    → s.current ≡ get_or xs k null
    → Comes n s xs (get_or xs (k + n) null)
forward {s} zero xs k is bound running =
    let e : k + 0 ≡ k = omega arith in (s, unfold rounds in refl, is, rw e running)
forward {s} (suc n) xs k is bound running =
    let (s', registers, e, is', now) = step xs k is (omega arith) running in
    let more : (suc k == length xs) ≡ false = ground arith in
    let (s'', e', is'', now') = forward {s = s'} n xs (suc k) is' (omega arith) (rw more at now) in
    let place : suc k + n ≡ k + suc n = omega arith in
    (
      s'',
      rounds-suc n s s' registers e ∙ e',
      is'',
      subst (λ p. s''.current ≡ get_or xs p null) place now',
    )

-- From the last task to the first.
wrap :
    {s : Tasks} (xs : List Ptr) (k n : ℕ)
    → IsTasks s xs
    → suc k ≡ length xs
    → s.current ≡ get_or xs k null
    → n < length xs
    → Comes (suc n) s xs (get_or xs n null)
wrap {s} xs k n is last running bound =
    let (s', registers, e, is', now) = step xs k is (omega arith) running in
    let done : (suc k == length xs) ≡ true = ground arith in
    let (s'', e', is'', now') = forward {s = s'} n xs 0 is' (omega arith) (rw done at now) in
    let place : 0 + n ≡ n = omega arith in
    (
      s'',
      rounds-suc n s s' registers e ∙ e',
      is'',
      subst (λ p. s''.current ≡ get_or xs p null) place now',
    )

rounds-add : (m n : ℕ) (s s' : Tasks) → rounds m s ≡ some s' → rounds (m + n) s ≡ rounds n s'
unfolding rounds
rounds-add zero n s s' e =
    let z : 0 + n ≡ n = omega arith in let same : s ≡ s' = cc in rw (z, same) refl
rounds-add (suc m) n s s' e = elim (Option-cases (task_next s)) [
  | inl fault ↦ absurd (let bad = rw (fault, rounds) at e in cc)
  | inr ((s1, registers), next) ↦
      let shift : suc m + n ≡ suc (m + n) = omega arith in
      rw shift (
        rounds-suc (m + n) s s1 registers next
        ∙ rounds-add m n s1 s' (sym (rounds-suc m s s1 registers next) ∙ e))
]

place_of :
    (t : Ptr) (xs : List Ptr) → has t xs ≡ true → (k : ℕ) × (k < length xs) × (get_or xs k null ≡ t)
place_of t [] found = absurd (ground arith)
place_of t (x ∷ xs) found = elim (Bool-cases (t == x)) [
  | inl here ↦ (0, omega arith, ground arith)
  | inr other ↦ let (k, bound, at) = place_of t xs (ground arith) in (suc k, omega arith, at)
]

-- From a current task of a well-formed list, each task of the list is the current one within fewer
-- calls of the scheduler than there are tasks, and none of these calls panics.
pub task_next-visits :
    {s : Tasks} {xs : List Ptr} (t : Ptr)
    → IsTasks s xs
    → has s.current xs ≡ true
    → has t xs ≡ true
    → (n : ℕ) × (n < length xs) × Comes n s xs t
task_next-visits {s} {xs} t is current found =
    let (k, bound, running) = place_of s.current xs current in
    let (i, bound', at) = place_of t xs found in
    elim (Bool-cases (ltb i k)) [
      | inr ahead ↦
          let (s', e, is', now) = forward {s = s} (i - k) xs k is (ground arith) (sym running) in
          let place : k + (i - k) ≡ i = ground arith in
          (
            i - k,
            omega arith,
            (s', e, is', subst (λ p. s'.current ≡ get_or xs p null) place now ∙ at),
          )
      | inl passed ↦
          let last : ℕ = length xs - 1 - k in
          let (s1, e1, is1, now1) = forward {s = s} last xs k is (omega arith) (sym running) in
          let (s2, e2, is2, now2) = wrap {s = s1} xs (k + last) i is1 (omega arith) now1 bound' in
          (last + suc i, ground arith, (s2, rounds-add last (suc i) s s1 e1 ∙ e2, is2, now2 ∙ at))
    ]
