-- ===== src/Util/CommandQueue.antt =====
-- src/logid/util/CommandQueue.cpp: commands that run in order, one at a time. A thread is between two
-- jobs, or it runs one; the parts of it that hold the mutex, and `run`, are steps.
pub mod Order
pub mod Tests
use logiops.Prelude.{ℕ, ◌≡◌, Bool, true, false, not, List, [], ◌∷◌, ◌++◌, if◌then◌else◌}

-- `State::Job`, with the texts by their characters.
pub record Job : Type 0 where
  pub command : List (List ℕ)
  pub context : List ℕ

-- A thread that `run` made: it is about to lock the mutex, or its job runs.
pub data Worker : Type 0 where
  between : Worker
  busy : Job → Worker

-- `State`, and the threads that hold it. `started` is a history: the jobs that a thread took.
pub record Queue : Type 0 where
  pub jobs : List Job
  pub running : Bool
  pub workers : List Worker
  pub started : List Job

abbrev pub new_queue : Queue
new_queue = record { jobs = []; running = false; workers = []; started = [] }

-- `!(command.empty() || command.front().empty())`.
unfoldable pub is_runnable : Job → Bool
is_runnable job = elim job.command [
  | [] ↦ false
  | word ∷ rest ↦ elim word [ [] ↦ false | c ∷ cs ↦ true ]
]

abbrev pub push : Job → Queue → Queue
push job s = record s { jobs = s.jobs ++ job ∷ [] }

-- `CommandQueue::run`; `starts` says whether `std::thread` is made or throws.
unfoldable pub run : Job → Bool → Queue → Queue
unfolding is_runnable
run job starts s =
    if not (is_runnable job)
    then s
    else (if s.running
        then push job s
        else (if starts
            then record (push job s) { running = true; workers = between ∷ s.workers }
            else record (push job s) { running = false }))

-- A turn of the loop of the thread between `before` and `after`.
unfoldable pub turn : List Worker → Worker → List Worker → Queue → Queue
turn before between after s = elim s.jobs [
  | [] ↦ record s { running = false; workers = before ++ after }
  | job ∷ jobs ↦ record s {
    jobs = jobs;
    workers = before ++ busy job ∷ after;
    started = s.started ++ job ∷ [];
  }
]
turn before (busy job) after s = record s { workers = before ++ between ∷ after }

-- The states that the queue can come to, with the commands that `run` was called with, in their order.
pub data Reaches : List Job → Queue → Type 0 where
  start : Reaches [] new_queue
  submit :
      {submitted : List Job} {s : Queue} (job : Job) (starts : Bool)
      → Reaches submitted s
      → Reaches (submitted ++ job ∷ []) (run job starts s)
  work :
      {submitted : List Job} {s : Queue} (before : List Worker) (w : Worker) (after : List Worker)
      → s.workers ≡ before ++ w ∷ after
      → Reaches submitted s
      → Reaches submitted (turn before w after s)

-- The one thread, when no job is added: it starts and ends each job, and then ends itself.
unfoldable pub drain : List Job → Queue → Queue
unfolding turn
drain [] s = turn [] between [] s
drain (job ∷ jobs) s = drain jobs (turn [] (busy job) [] (turn [] between [] s))
