-- ===== src/Tests/OfTasks.antt =====
-- Three tasks at the addresses 1, 2 and 3.
use own_kernel.Prelude.{ℕ, ◌<◌, length, ◌*◌, ◌≡◌, refl, arith, [], ◌∷◌, ◌++◌, none, some}
use own_kernel.Task.{
  Ptr, null, InterruptFrame, Tasks, task_init, task_list_add, task_list_remove, task_next,
}
use own_kernel.Task.Ring.{
  Chain, IsTasks, last_of, successor, task_list_add-IsTasks, task_next-successor,
}
use own_kernel.Task.Rounds.{Comes, task_next-visits}
use own_kernel.Task.Removal.{task_list_remove-Chain}

abbrev no_tasks : Tasks
no_tasks = record {
  task = λ t. task_init (t * 4096) t none;
  head = null;
  tail = null;
  current = null;
  directory = null;
}

no_tasks-IsTasks : IsTasks no_tasks []
no_tasks-IsTasks = record { chain = refl; back = tt; last = refl }

abbrev one_task : Tasks
one_task = task_list_add 1 no_tasks

abbrev two_tasks : Tasks
two_tasks = task_list_add 2 one_task

abbrev three_tasks : Tasks
three_tasks = task_list_add 3 two_tasks

one_task-IsTasks : IsTasks one_task (1 ∷ [])
unfolding task_init
one_task-IsTasks = task_list_add-IsTasks 1 no_tasks-IsTasks (omega arith) refl refl refl

two_tasks-IsTasks : IsTasks two_tasks (1 ∷ 2 ∷ [])
unfolding task_init task_list_add
two_tasks-IsTasks = task_list_add-IsTasks 2 one_task-IsTasks (omega arith) refl refl refl

three_tasks-IsTasks : IsTasks three_tasks (1 ∷ 2 ∷ 3 ∷ [])
unfolding task_init task_list_add
three_tasks-IsTasks = task_list_add-IsTasks 3 two_tasks-IsTasks (omega arith) refl refl refl

task_list_add-IsTasks_example : IsTasks two_tasks ((1 ∷ []) ++ 2 ∷ [])
unfolding task_init task_list_add
task_list_add-IsTasks_example =
    task_list_add-IsTasks 2 one_task-IsTasks (omega arith) refl refl refl

running : three_tasks.current ≡ 1
unfolding task_list_add
running = refl

task_next-successor_example :
    (s' : Tasks) × (task_next three_tasks
      ≡ some (s', (three_tasks.task (successor [] 1 (2 ∷ 3 ∷ []))).registers))
    × IsTasks s' ([] ++ 1 ∷ 2 ∷ 3 ∷ [])
    × (s'.current ≡ successor [] 1 (2 ∷ 3 ∷ []))
    × (s'.directory ≡ (three_tasks.task (successor [] 1 (2 ∷ 3 ∷ []))).page_directory)
task_next-successor_example = task_next-successor [] 1 (2 ∷ 3 ∷ []) three_tasks-IsTasks running

task_next-visits_example :
    (n : ℕ) × (n < length {A = Ptr} (1 ∷ 2 ∷ 3 ∷ [])) × Comes n three_tasks (1 ∷ 2 ∷ 3 ∷ []) 3
unfolding task_list_add
task_next-visits_example = task_next-visits 3 three_tasks-IsTasks refl refl

abbrev pub frame : InterruptFrame
frame = record {
  edi = 1;
  esi = 2;
  ebp = 3;
  reserved = 4;
  ebx = 5;
  edx = 6;
  ecx = 7;
  eax = 8;
  ip = 9;
  cs = 10;
  flags = 11;
  esp = 12;
  ss = 13;
}

task_list_remove-Chain_example :
    Chain
      (task_list_remove 2 three_tasks).task
      (task_list_remove 2 three_tasks).head
      ((1 ∷ []) ++ 3 ∷ [])
    × ((task_list_remove 2 three_tasks).tail ≡ last_of null ((1 ∷ []) ++ 3 ∷ []))
task_list_remove-Chain_example = task_list_remove-Chain (1 ∷ []) 2 (3 ∷ []) three_tasks-IsTasks
