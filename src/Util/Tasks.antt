-- ===== src/Util/Tasks.antt =====
-- src/logid/util/task.cpp: tasks that are due at a time, and the threads that run them. The clock is a
-- number that only grows. The priority queue is a list in the order of the times. A thread is one
-- of: about to wait for tasks, waiting for the time of the task that was on top, running a task, or
-- ended; the parts of it that hold the mutex are steps.
pub mod Early
pub mod Tests
use logiops.Prelude.{
  ℕ, suc, ◌+◌, ◌≡◌, Bool, true, false, not, ◌||◌, Option, none, some, List, [], ◌∷◌, ◌++◌, ltb, leb,
  if◌then◌else◌,
}

-- A task by its number and the time that it is due.
pub record Task : Type 0 where
  pub function : ℕ
  pub time : ℕ

pub data Worker : Type 0 where
  ready : Worker
  -- In `wait_for`, which ends at this time at the latest.
  waiting : ℕ → Worker
  executing : Task → Worker
  ended : Worker

-- `ran` is a history: the tasks that were started, with the time of each.
pub record System : Type 0 where
  pub now : ℕ
  pub tasks : List Task
  pub workers_run : Bool
  pub workers : List Worker
  pub ran : List (Task × ℕ)

-- `tasks.emplace`.
unfoldable pub emplace : Task → List Task → List Task
emplace t [] = t ∷ []
emplace t (u ∷ us) = let rest = emplace t us in if ltb t.time u.time then t ∷ u ∷ us else u ∷ rest

-- `run_task(task)`, once the workers are there.
unfoldable pub run_task : Task → System → System
unfolding emplace
run_task t s = record s { tasks = emplace t s.tasks }

-- `run_task_after`.
unfoldable pub run_task_after : ℕ → ℕ → System → System
unfolding run_task
run_task_after function delay s = run_task (record { function = function; time = s.now + delay }) s

-- `tasks.top()` is taken and its function called.
abbrev pub take_top : System → Worker × System
take_top s = elim s.tasks [
  | [] ↦ (ready, s)
  | t ∷ rest ↦ (executing t, record s { tasks = rest; ran = (t, s.now) ∷ s.ran })
]

-- `!tasks.empty() && tasks.top().time < now`.
abbrev pub top_due : System → Bool
top_due s = elim s.tasks [ [] ↦ false | t ∷ rest ↦ ltb t.time s.now ]

-- From one wait of `worker` to the next; `none` if the wait goes on.
unfoldable pub turn : Worker → System → Option (Worker × System)
turn ready s = if not s.workers_run then some (ended, s) else elim s.tasks [
  | [] ↦ none
  | t ∷ rest ↦ if leb s.now t.time then some (waiting t.time, s) else some (take_top s)
]
turn (waiting end) s =
    if not s.workers_run
    then some (ended, s)
    else (if leb end s.now || top_due s then some (take_top s) else none)
turn (executing t) s = some (if s.workers_run then ready else ended, s)
turn ended s = none

-- Steps of the clock, of any code that adds a task, of `stop_workers` and of any thread.
pub data Step : System → System → Type 0 where
  tick : {s s' : System} → s' ≡ record s { now = suc s.now } → Step s s'
  submit : {s s' : System} (t : Task) → s' ≡ run_task t s → Step s s'
  stop : {s s' : System} → s' ≡ record s { workers_run = false } → Step s s'
  work :
      {s s' s1 : System} (before : List Worker) (w w1 : Worker) (after : List Worker)
      → s.workers ≡ before ++ w ∷ after
      → turn w s ≡ some (w1, s1)
      → s' ≡ record s1 { workers = before ++ w1 ∷ after }
      → Step s s'

-- `init_workers`, at some time.
abbrev pub init_workers : ℕ → List Worker → System
init_workers now workers = record {
  now = now;
  tasks = [];
  workers_run = true;
  workers = workers;
  ran = [];
}

-- What a system that began with these threads can come to.
pub data Reaches (now : ℕ) (workers : List Worker) : System → Type 0 where
  start : Reaches now workers (init_workers now workers)
  next : {s s' : System} → Reaches now workers s → Step s s' → Reaches now workers s'
