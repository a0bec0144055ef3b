-- ===== src/Task/Ring.antt =====
-- The list of tasks in order, and the round of the scheduler.
use mathlib.Core.Path.{subst}
use own_kernel.Prelude.{
  ◌≡◌, ◌≢◌, refl, sym, ◌∙◌, Bool, true, false, ◌||◌, some, List, [], ◌∷◌, ◌++◌, arith, ◌==◌,
  if◌then◌else◌, update,
}
use own_kernel.Task.{
  Ptr, null, InterruptFrame, Task, Tasks, task_list_add, task_get_next, task_switch, task_next,
  task_save_state, task_current_save_state, saved_registers,
}

abbrev pub has : Ptr → List Ptr → Bool
has t [] = false
has t (x ∷ xs) = (t == x) || has t xs

-- From `p` the `next` pointers lead through the list to null.
abbrev pub Chain : (Ptr → Task) → Ptr → List Ptr → Type 0
Chain task p [] = p ≡ null
Chain task p (x ∷ xs) = (p ≡ x) × (x ≢ null) × (has x xs ≡ false) × Chain task (task x).next xs

-- Each `prev` pointer is the task before, and the first one is `b`.
abbrev pub Back : (Ptr → Task) → Ptr → List Ptr → Type 0
Back task b [] = Unit
Back task b (x ∷ xs) = ((task x).prev ≡ b) × Back task x xs

abbrev pub last_of : Ptr → List Ptr → Ptr
last_of b [] = b
last_of b (x ∷ xs) = last_of x xs

pub record IsTasks (s : Tasks) (xs : List Ptr) : Type 0 where
  pub chain : Chain s.task s.head xs
  pub back : Back s.task null xs
  pub last : s.tail ≡ last_of null xs

pub Chain-frame :
    (f g : Ptr → Task) (p : Ptr) (xs : List Ptr)
    → Chain f p xs
    → ((x : Ptr) → has x xs ≡ true → (g x).next ≡ (f x).next)
    → Chain g p xs
Chain-frame f g p [] c same = c
Chain-frame f g p (x ∷ xs) c same =
    let e : (g x).next ≡ (f x).next = same x (ground arith) in
    (c.0, c.1, c.2, rw e (Chain-frame f g (f x).next xs c.3 λ y i. same y (ground arith)))

Back-frame :
    (f g : Ptr → Task) (b : Ptr) (xs : List Ptr)
    → Back f b xs
    → ((x : Ptr) → has x xs ≡ true → (g x).prev ≡ (f x).prev)
    → Back g b xs
Back-frame f g b [] h same = tt
Back-frame f g b (x ∷ xs) h same =
    (same x (ground arith) ∙ h.0, Back-frame f g x xs h.1 λ y i. same y (ground arith))

Chain-head :
    (task : Ptr → Task) (p : Ptr) (x : Ptr) (xs : List Ptr) → Chain task p (x ∷ xs) → p ≢ null
Chain-head task p x xs c = rw c.0 c.1

pub has-last : (b : Ptr) (xs : List Ptr) → xs ≢ [] → has (last_of b xs) xs ≡ true
has-last b [] some_task = absurd (some_task refl)
has-last b (x ∷ []) some_task = ground arith
has-last b (x ∷ y ∷ xs) some_task = ground (arith, has-last x (y ∷ xs))

pub has-append : (t : Ptr) (xs ys : List Ptr) → has t (xs ++ ys) ≡ (has t xs || has t ys)
has-append t [] ys = refl
has-append t (x ∷ xs) ys = ground (arith, has-append t xs ys)

pub last_of-append : (b t : Ptr) (xs : List Ptr) → last_of b (xs ++ t ∷ []) ≡ t
last_of-append b t [] = refl
last_of-append b t (x ∷ xs) = last_of-append x t xs

-- After the new task is linked behind the last one.
Chain-append :
    (f g : Ptr → Task) (p b t : Ptr) (xs : List Ptr)
    → Chain f p xs
    → has t xs ≡ false
    → t ≢ null
    → xs ≢ []
    → (g t).next ≡ null
    → (g (last_of b xs)).next ≡ t
    → ((x : Ptr) → has x xs ≡ true → (x == last_of b xs) ≡ false → (g x).next ≡ (f x).next)
    → Chain g p (xs ++ t ∷ [])
Chain-append f g p b t [] c new nonnull some_task end link same = absurd (some_task refl)
Chain-append f g p b t (x ∷ []) c new nonnull some_task end link same =
    (c.0, c.1, ground arith, (link, nonnull, refl, end))
Chain-append f g p b t (x ∷ y ∷ xs) c new nonnull some_task end link same =
    let old : (x == last_of b (x ∷ y ∷ xs)) ≡ false = ground (arith, has-last x (y ∷ xs)) in
    let e : (g x).next ≡ (f x).next = same x (ground arith) old in
    (
      c.0,
      c.1,
      ground (arith, has-append x (y ∷ xs) (t ∷ [])),
      rw e (
          Chain-append f g (f x).next x t (y ∷ xs) c.3 (ground arith) nonnull (λ n. cc) end link
            λ z i n. same z (ground arith) n),
    )

Back-append :
    (f g : Ptr → Task) (b t : Ptr) (xs : List Ptr)
    → Back f b xs
    → (g t).prev ≡ last_of b xs
    → ((x : Ptr) → has x xs ≡ true → (g x).prev ≡ (f x).prev)
    → Back g b (xs ++ t ∷ [])
Back-append f g b t [] h link same = (link, tt)
Back-append f g b t (x ∷ xs) h link same =
    (same x (ground arith) ∙ h.0, Back-append f g x t xs h.1 link λ y i. same y (ground arith))

-- A new task, not null, not in the list and with null links, is put behind the last one of a
-- well-formed list.
pub task_list_add-IsTasks :
    {s : Tasks} {xs : List Ptr} (t : Ptr)
    → IsTasks s xs
    → t ≢ null
    → has t xs ≡ false
    → (s.task t).next ≡ null
    → (s.task t).prev ≡ null
    → IsTasks (task_list_add t s) (xs ++ t ∷ [])
unfolding task_list_add
task_list_add-IsTasks {s} {xs = []} t is nonnull new next prev =
    rw is.chain (record { chain = (refl, nonnull, refl, next); back = (prev, tt); last = refl })
task_list_add-IsTasks {s} {xs = x ∷ xs} t is nonnull new next prev =
    let found : has s.tail (x ∷ xs) ≡ true =
      subst (λ l. has l (x ∷ xs) ≡ true) (sym is.last) (has-last null (x ∷ xs) (λ n. cc)) in
    let apart : (t == s.tail) ≡ false = ground arith in
    let nonempty : (s.head == null) ≡ false =
      ground (arith, Chain-head s.task s.head x xs is.chain) in
    let linked : Ptr → Task = update s.task s.tail (record (s.task s.tail) { next = t }) in
    let g : Ptr → Task = update linked t (record (linked t) { prev = s.tail }) in
    rw nonempty (record {
      chain =
          Chain-append s.task g s.head null t (x ∷ xs) is.chain new nonnull (λ n. cc) (ground arith)
            (ground (arith, is.last)) (λ y i n. ground (arith, is.last));
      back =
          Back-append s.task g null t (x ∷ xs) is.back (ground (arith, is.last))
            (λ y i. ground arith);
      last = sym (last_of-append null t (x ∷ xs));
    })

abbrev pub first_of_list : List Ptr → Ptr
first_of_list [] = null
first_of_list (x ∷ xs) = x

Chain-first : (task : Ptr → Task) (p : Ptr) (xs : List Ptr) → Chain task p xs → p ≡ first_of_list xs
Chain-first task p [] c = c
Chain-first task p (x ∷ xs) c = c.0

Chain-behind :
    (task : Ptr → Task) (p x : Ptr) (ys zs : List Ptr)
    → Chain task p (ys ++ x ∷ zs)
    → Chain task (task x).next zs
Chain-behind task p x [] zs c = c.3
Chain-behind task p x (y ∷ ys) zs c = Chain-behind task (task y).next x ys zs c.3

-- Whose turn it is after `x`: the task behind it, or the first one.
abbrev pub successor : (ys : List Ptr) → (x : Ptr) → List Ptr → Ptr
successor ys x [] = first_of_list (ys ++ x ∷ [])
successor ys x (z ∷ zs) = z

pub task_get_next-successor :
    {s : Tasks} (ys : List Ptr) (x : Ptr) (zs : List Ptr)
    → IsTasks s (ys ++ x ∷ zs)
    → s.current ≡ x
    → (task_get_next s ≡ successor ys x zs) × (successor ys x zs ≢ null)
unfolding task_get_next
task_get_next-successor {s} [] x [] is running = rw (running, is.chain.3) (is.chain.0, is.chain.1)
task_get_next-successor {s} (y ∷ ys) x [] is running =
    rw (running, Chain-behind s.task s.head x (y ∷ ys) [] is.chain) (is.chain.0, is.chain.1)
task_get_next-successor {s} ys x (z ∷ zs) is running =
    let c = Chain-behind s.task s.head x ys (z ∷ zs) is.chain in
    let more : (z == null) ≡ false = ground (arith, c.1) in rw (running, c.0, more) (refl, c.1)

-- With a current task of a well-formed list the scheduler goes round the list: the task behind the
-- current one runs next, the first one after the last, with the registers that were saved for it
-- and on its own page directory.
pub task_next-successor :
    {s : Tasks} (ys : List Ptr) (x : Ptr) (zs : List Ptr)
    → IsTasks s (ys ++ x ∷ zs)
    → s.current ≡ x
    → (s' : Tasks) × (task_next s ≡ some (s', (s.task (successor ys x zs)).registers))
      × IsTasks s' (ys ++ x ∷ zs)
      × (s'.current ≡ successor ys x zs)
      × (s'.directory ≡ (s.task (successor ys x zs)).page_directory)
unfolding task_next task_switch
task_next-successor {s} ys x zs is running =
    let (next, nonnull) = task_get_next-successor ys x zs is running in
    let more : (successor ys x zs == null) ≡ false = ground arith in
    (
      task_switch (successor ys x zs) s,
      rw (next, more) refl,
      record { chain = is.chain; back = is.back; last = is.last },
      refl,
      refl,
    )

-- With a current task, what the interrupt saved becomes the registers of that task; no other task
-- has its registers changed, and no next pointer and not the current task change.
pub task_current_save_state_lem :
    (s : Tasks) (frame : InterruptFrame) (t : Ptr)
    → s.current ≢ null
    → (s' : Tasks) × (task_current_save_state frame s ≡ some s')
      × ((s'.task t).registers
          ≡ (if t == s.current then saved_registers frame else (s.task t).registers))
      × ((s'.task t).next ≡ (s.task t).next)
      × (s'.current ≡ s.current)
unfolding task_current_save_state task_save_state
task_current_save_state_lem s frame t some_task =
    let running : (s.current == null) ≡ false = ground arith in
    (task_save_state s.current frame s, rw running, ground arith, ground arith, refl)
