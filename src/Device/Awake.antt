-- ===== src/Device/Awake.antt =====
-- src/logid/Device.cpp: a device that falls asleep and wakes up, and the commands of the user that this
-- queues. What `sleep` and `wakeup` do under `_state_lock` is a step; the threads of the command
-- queue take theirs in between. `hooks` is a history, the latest first.
pub mod Hooks
pub mod Tests
use logiops.Prelude.{
  ℕ, ◌≡◌, Bool, true, false, Option, none, some, List, [], ◌∷◌, ◌++◌, if◌then◌else◌,
}
use logiops.Device.Config.{ConnectionCommand}
use logiops.Util.CommandQueue.{Job, Queue, new_queue, run, Worker, turn}

pub data Hook : Type 0 where
  connect disconnect : Hook

-- `on_connect` and `on_disconnect` of the configuration.
pub record Commands : Type 0 where
  pub on_connect : Option ConnectionCommand
  pub on_disconnect : Option ConnectionCommand

pub record State : Type 0 where
  pub awake : Bool
  pub queue : Queue
  pub hooks : List Hook

abbrev pub command_of : Commands → Hook → Option ConnectionCommand
command_of c connect = c.on_connect
command_of c disconnect = c.on_disconnect

abbrev pub args_or_none : Option (List (List ℕ)) → List (List ℕ)
args_or_none none = []
args_or_none (some args) = args

-- The job of a hook, if it is there and its command is not empty; the context is left out.
unfoldable pub job_of : Option ConnectionCommand → Option Job
job_of none = none
job_of (some c) = elim c.command [
  | [] ↦ none
  | x ∷ xs ↦ some (record { command = (x ∷ xs) ∷ args_or_none c.args; context = [] })
]

abbrev pub run_if : Option Job → Bool → Queue → Queue
run_if none starts q = q
run_if (some job) starts q = run job starts q

-- `_runConnectionHook`; `starts` says whether a thread can be made for it.
unfoldable pub run_connection_hook : Commands → Hook → Bool → State → State
unfolding job_of
run_connection_hook c hook starts s = record s {
  queue = run_if (job_of (command_of c hook)) starts s.queue;
  hooks = hook ∷ s.hooks;
}

-- `Device::make` after the construction.
unfoldable pub make : Commands → Bool → State
unfolding run_connection_hook
make c starts =
    run_connection_hook c connect starts (record { awake = true; queue = new_queue; hooks = [] })

-- `sleep` and `wakeup`, under the lock.
unfoldable pub sleep : Commands → Bool → State → State
unfolding run_connection_hook
sleep c starts s =
    if s.awake then run_connection_hook c disconnect starts (record s { awake = false }) else s

unfoldable pub wakeup : Commands → Bool → State → State
unfolding run_connection_hook
wakeup c starts s =
    if s.awake then s else run_connection_hook c connect starts (record s { awake = true })

pub data Step (c : Commands) : State → State → Type 0 where
  sleeps : {s s' : State} (starts : Bool) → s' ≡ sleep c starts s → Step c s s'
  wakes : {s s' : State} (starts : Bool) → s' ≡ wakeup c starts s → Step c s s'
  works :
      {s s' : State} (before : List Worker) (w : Worker) (after : List Worker)
      → s.queue.workers ≡ before ++ w ∷ after
      → s' ≡ record s { queue = turn before w after s.queue }
      → Step c s s'

pub data Reaches (c : Commands) : State → Type 0 where
  start : (starts : Bool) → Reaches c (make c starts)
  next : {s s' : State} → Reaches c s → Step c s s' → Reaches c s'
