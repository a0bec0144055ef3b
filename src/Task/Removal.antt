-- ===== src/Task/Removal.antt =====
-- `task_list_remove`: the list without the task, and the back pointer that is left behind.
use own_kernel.Prelude.{
  ap, ◌≡◌, ◌≢◌, refl, sym, ◌∙◌, inl, inr, true, false, Bool-cases, List, [], ◌∷◌, ◌++◌, arith, ◌==◌,
  if◌then◌else◌,
}
use own_kernel.Task.{
  unlink_prev, unlink_head, unlink_tail, Ptr, null, Task, Tasks, task_list_remove, unlink_current,
}
use own_kernel.Task.Ring.{
  has, Chain, Back, last_of, IsTasks, Chain-frame, has-last, has-append, last_of-append,
}

module _ (t : Ptr) (s : Tasks) where
  current-frame :
      ((unlink_current t s).task ≡ s.task)
      × ((unlink_current t s).head ≡ s.head)
      × ((unlink_current t s).tail ≡ s.tail)
  unfolding unlink_current
  current-frame = elim (Bool-cases (t == s.current)) [
    | inl now ↦ rw now (refl, refl, refl)
    | inr other ↦ rw other (refl, refl, refl)
  ]

  linked-next :
      (x : Ptr)
      → ((unlink_tail t (unlink_head t (unlink_prev t s))).task x).next ≡ (
          if (s.task t).prev == null
          then (s.task x).next
          else if x == (s.task t).prev
          then (s.task t).next
          else (s.task x).next)
  linked-next x = ground arith

  linked-prev :
      (x : Ptr) → ((unlink_tail t (unlink_head t (unlink_prev t s))).task x).prev ≡ (s.task x).prev
  linked-prev x = ground arith

  linked-head :
      (unlink_tail t (unlink_head t (unlink_prev t s))).head
      ≡ (if t == s.head then ((unlink_prev t s).task t).next else s.head)
  linked-head = ground arith

  linked-tail :
      (unlink_tail t (unlink_head t (unlink_prev t s))).tail
      ≡ (if t == s.tail then (s.task t).prev else s.tail)
  linked-tail = ground arith

module _ (t : Ptr) (s : Tasks) where
  -- A removal writes the `next` pointer of the task before, and no `prev` pointer.
  pub remove-next :
      (x : Ptr)
      → ((task_list_remove t s).task x).next ≡ (
          if (s.task t).prev == null
          then (s.task x).next
          else if x == (s.task t).prev
          then (s.task t).next
          else (s.task x).next)
  unfolding task_list_remove
  remove-next x =
      rw (current-frame t (unlink_tail t (unlink_head t (unlink_prev t s)))).0 (linked-next t s x)

  pub remove-prev : (x : Ptr) → ((task_list_remove t s).task x).prev ≡ (s.task x).prev
  unfolding task_list_remove
  remove-prev x =
      rw (current-frame t (unlink_tail t (unlink_head t (unlink_prev t s)))).0 (linked-prev t s x)

  pub remove-head :
      (s.task t).prev ≢ t
      → (task_list_remove t s).head ≡ (if t == s.head then (s.task t).next else s.head)
  unfolding task_list_remove
  remove-head apart =
      (current-frame t (unlink_tail t (unlink_head t (unlink_prev t s)))).1
      ∙ linked-head t s
      ∙ ground arith

  pub remove-tail : (task_list_remove t s).tail ≡ (if t == s.tail then (s.task t).prev else s.tail)
  unfolding task_list_remove
  remove-tail =
      (current-frame t (unlink_tail t (unlink_head t (unlink_prev t s)))).2 ∙ linked-tail t s

-- Three tasks are in the list, and the second ends and then the third: the second is unlinked, but
-- the back pointer of the third still names it. So the end of the third is not noted in the first:
-- the list that the scheduler walks still holds the third, and the tail is the second.
pub task_list_remove_stale :
    {s : Tasks} (a b c : Ptr)
    → IsTasks s (a ∷ b ∷ c ∷ [])
    → (((task_list_remove c (task_list_remove b s)).task a).next ≡ c)
      × ((task_list_remove c (task_list_remove b s)).tail ≡ b)
      × ((task_list_remove c (task_list_remove b s)).head ≡ a)
task_list_remove_stale {s} a b c is =
    let s1 : Tasks = task_list_remove b s in
    let next_a : (s1.task a).next ≡ c = ground (arith, is.chain, is.back, remove-next b s a) in
    let prev_c : (s1.task c).prev ≡ b = remove-prev b s c ∙ ground (arith, is.back) in
    let tail : s1.tail ≡ c = ground (arith, is.chain, is.last, remove-tail b s) in
    let head : s1.head ≡ a = ground (arith, is.chain, is.back, remove-head b s) in
    (
      ground (arith, is.chain, remove-next c s1 a),
      ground (arith, remove-tail c s1),
      ground (arith, is.chain, remove-head c s1),
    )

has-split : (x t : Ptr) (ys zs : List Ptr) → has x (ys ++ t ∷ zs) ≡ false → has x (ys ++ zs) ≡ false
has-split x t [] zs out = ground arith
has-split x t (y ∷ ys) zs out = ground (arith, has-split x t ys zs)

-- The chain with the task taken out behind `y ∷ ys`.
Chain-remove :
    (f g : Ptr → Task) (p y t : Ptr) (ys zs : List Ptr)
    → Chain f p (y ∷ ys ++ t ∷ zs)
    → ((x : Ptr) → (g x).next ≡ (if x == last_of y ys then (f t).next else (f x).next))
    → Chain g p (y ∷ ys ++ zs)
Chain-remove f g p y t [] zs c same =
    let rest : Chain g (f t).next zs =
      Chain-frame f g (f t).next zs c.3.3 λ x i. ground (arith, same x, c.2) in
    let link : (g y).next ≡ (f t).next = ground (arith, same y) in
    (c.0, c.1, ground (arith, c.2), rw link rest)
Chain-remove f g p y t (z ∷ ys) zs c same =
    let split = has-append y (z ∷ ys) (t ∷ zs) in
    let found = has-last y (z ∷ ys) (λ n. cc) in
    let apart : (y == last_of z ys) ≡ false = ground arith in
    let link : (g y).next ≡ (f y).next = ground (arith, same y) in
    (
      c.0,
      c.1,
      ground (arith, c.2, has-split y t (z ∷ ys) zs),
      rw link (Chain-remove f g (f y).next z t ys zs c.3 same),
    )

Back-at :
    (f : Ptr → Task) (b t : Ptr) (ys zs : List Ptr)
    → Back f b (ys ++ t ∷ zs)
    → (f t).prev ≡ last_of b ys
Back-at f b t [] zs h = h.0
Back-at f b t (y ∷ ys) zs h = Back-at f y t ys zs h.1

Chain-nonnull :
    (f : Ptr → Task) (p x : Ptr) (xs : List Ptr) → Chain f p xs → has x xs ≡ true → x ≢ null
Chain-nonnull f p x [] c found = cc
Chain-nonnull f p x (y ∷ ys) c found = ground (arith, c.1, Chain-nonnull f (f y).next x ys c.3)

Chain-apart :
    (f : Ptr → Task) (p t : Ptr) (ys zs : List Ptr)
    → Chain f p (ys ++ t ∷ zs)
    → (has t ys ≡ false) × (has t zs ≡ false)
Chain-apart f p t [] zs c = (refl, c.2)
Chain-apart f p t (y ∷ ys) zs c =
    let split = has-append y ys (t ∷ zs) in
    let (before, behind) = Chain-apart f (f y).next t ys zs c.3 in (ground (arith, c.2), behind)

append-nil : (xs : List Ptr) → xs ++ [] ≡ xs
append-nil [] = refl
append-nil (x ∷ xs) = ap (λ (l : List Ptr). x ∷ l) (append-nil xs)

last_of-behind :
    (b t : Ptr) (ys : List Ptr) (z : Ptr) (zs : List Ptr)
    → last_of b (ys ++ t ∷ z ∷ zs) ≡ last_of b (ys ++ z ∷ zs)
last_of-behind b t [] z zs = refl
last_of-behind b t (y ∷ ys) z zs = last_of-behind y t ys z zs

has-last_of-append : (b t : Ptr) (ys zs : List Ptr) → zs ≢ [] → has (last_of b (ys ++ zs)) zs ≡ true
has-last_of-append b t [] zs some_task = has-last b zs some_task
has-last_of-append b t (y ∷ ys) zs some_task = has-last_of-append y t ys zs some_task

has-ne : (t x : Ptr) (xs : List Ptr) → has t xs ≡ false → has x xs ≡ true → x ≢ t
has-ne t x xs out found e = let same : has x xs ≡ has t xs = ap (λ (v : Ptr). has v xs) e in cc

remove-Chain :
    {s : Tasks} (ys : List Ptr) (t : Ptr) (zs : List Ptr)
    → IsTasks s (ys ++ t ∷ zs)
    → Chain (task_list_remove t s).task (task_list_remove t s).head (ys ++ zs)
remove-Chain {s} [] t zs is =
    let head : (task_list_remove t s).head ≡ (s.task t).next =
      ground (arith, is.back, is.chain, remove-head t s) in
    rw head (
      Chain-frame s.task (task_list_remove t s).task (s.task t).next zs is.chain.3
        λ x i. ground (arith, remove-next t s x, is.back))
remove-Chain {s} (y ∷ ys) t zs is =
    let prev : (s.task t).prev ≡ last_of y ys = Back-at s.task null t (y ∷ ys) zs is.back in
    let (before, behind) = Chain-apart s.task s.head t (y ∷ ys) zs is.chain in
    let found = has-last null (y ∷ ys) (λ n. cc) in
    let inside : has (last_of y ys) (y ∷ ys ++ t ∷ zs) ≡ true =
      ground (arith, has-append (last_of y ys) (y ∷ ys) (t ∷ zs)) in
    let nonnull : last_of y ys ≢ null =
      Chain-nonnull s.task s.head (last_of y ys) (y ∷ ys ++ t ∷ zs) is.chain inside in
    let apart : (s.task t).prev ≢ t =
      λ e. has-ne t (last_of y ys) (y ∷ ys) before found (sym prev ∙ e) in
    let head : (task_list_remove t s).head ≡ s.head =
      ground (arith, remove-head t s apart, is.chain) in
    rw head (
      Chain-remove s.task (task_list_remove t s).task s.head y t ys zs is.chain
        λ x. ground (arith, remove-next t s x))

remove-last :
    {s : Tasks} (ys : List Ptr) (t : Ptr) (zs : List Ptr)
    → IsTasks s (ys ++ t ∷ zs)
    → (task_list_remove t s).tail ≡ last_of null (ys ++ zs)
remove-last {s} ys t [] is =
    let prev : (s.task t).prev ≡ last_of null ys = Back-at s.task null t ys [] is.back in
    let tail : s.tail ≡ t = is.last ∙ last_of-append null t ys in
    rw (append-nil ys) (ground (arith, remove-tail t s))
remove-last {s} ys t (z ∷ zs) is =
    let tail : s.tail ≡ last_of null (ys ++ z ∷ zs) = is.last ∙ last_of-behind null t ys z zs in
    let (before, behind) = Chain-apart s.task s.head t ys (z ∷ zs) is.chain in
    let found = has-last_of-append null t ys (z ∷ zs) (λ n. cc) in
    let apart : s.tail ≢ t =
      λ e. has-ne t (last_of null (ys ++ z ∷ zs)) (z ∷ zs) behind found (sym tail ∙ e) in
    ground (arith, remove-tail t s)

-- A task is removed from anywhere in a well-formed list: the `next` pointers then lead through the
-- other tasks in order, and the tail is the last of them.
pub task_list_remove-Chain :
    {s : Tasks} (ys : List Ptr) (t : Ptr) (zs : List Ptr)
    → IsTasks s (ys ++ t ∷ zs)
    → Chain (task_list_remove t s).task (task_list_remove t s).head (ys ++ zs)
      × ((task_list_remove t s).tail ≡ last_of null (ys ++ zs))
task_list_remove-Chain ys t zs is = (remove-Chain ys t zs is, remove-last ys t zs is)
