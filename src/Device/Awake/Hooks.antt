-- ===== src/Device/Awake/Hooks.antt =====
-- The commands that run when a device comes and goes: they alternate, and the last says how it is.
use logiops.Prelude.{
  ◌≡◌, Bool, true, false, Option, none, some, List, [], ◌∷◌, ◌++◌, Bool-cases, Option-cases, arith,
  refl, ◌∙◌, inl, inr, subst, sym, if◌then◌else◌,
}
use logiops.Device.Config.{ConnectionCommand}
use logiops.Util.CommandQueue.{Job, Queue, new_queue, run, is_runnable}
use logiops.Util.CommandQueue.Order.{
  IsOrdered, run-IsOrdered, turn-IsOrdered, with_program, is_runnable_lem,
}
use logiops.Device.Awake.{
  Hook, connect, disconnect, Commands, State, command_of, job_of, run_if, run_connection_hook, make,
  sleep, wakeup, Step, sleeps, wakes, works, Reaches, start, next,
}

-- The hooks of a device, the latest first: they alternate from a connection on, and the latest is a
-- connection exactly if the device is awake.
abbrev pub Alternate : Bool → List Hook → Type 0
Alternate true (connect ∷ []) = Unit {0}
Alternate true (connect ∷ (h ∷ rest)) = Alternate false (h ∷ rest)
Alternate false (disconnect ∷ rest) = Alternate true rest
Alternate _ _ = ⊥

-- The jobs of the hooks, the first first.
abbrev pub jobs_of : Commands → List Hook → List Job
jobs_of c [] = []
jobs_of c (h ∷ rest) = elim (job_of (command_of c h)) [
  | none ↦ jobs_of c rest
  | some job ↦ jobs_of c rest ++ job ∷ []
]

record IsValid (c : Commands) (s : State) : Type 0 where
  pub ordered : IsOrdered (jobs_of c s.hooks) s.queue
  pub alternate : Alternate s.awake s.hooks

job_of-is_runnable :
    (c : Option ConnectionCommand) (job : Job) → job_of c ≡ some job → is_runnable job ≡ true
unfolding job_of is_runnable
job_of-is_runnable none job e = cc
job_of-is_runnable (some c) job e = ground arith

run_job-IsOrdered :
    (due : List Job) (job : Job) (starts : Bool) (q : Queue)
    → is_runnable job ≡ true
    → IsOrdered due q
    → IsOrdered (due ++ job ∷ []) (run job starts q)
unfolding with_program
run_job-IsOrdered due job starts q h v =
    subst (λ (b : Bool). IsOrdered (due ++ (if b then job ∷ [] else [])) (run job starts q))
      (sym (is_runnable_lem job) ∙ h) (run-IsOrdered due job starts q v)

hook-IsOrdered :
    (c : Commands) (hook : Hook) (starts : Bool) (s : State)
    → IsOrdered (jobs_of c s.hooks) s.queue
    → IsOrdered (jobs_of c (hook ∷ s.hooks)) (run_connection_hook c hook starts s).queue
unfolding run_connection_hook
hook-IsOrdered c hook starts s v = elim (Option-cases (job_of (command_of c hook))) [
  | inl no_job ↦ rw (no_job, run_if, jobs_of) v
  | inr (job, some_job) ↦
      rw (some_job, run_if, jobs_of)
        (run_job-IsOrdered (jobs_of c s.hooks) job starts s.queue
          (job_of-is_runnable (command_of c hook) job some_job) v)
]

hook-IsValid :
    (c : Commands) (hook : Hook) (starts : Bool) (s : State)
    → IsOrdered (jobs_of c s.hooks) s.queue
    → Alternate s.awake (hook ∷ s.hooks)
    → IsValid c (run_connection_hook c hook starts s)
unfolding run_connection_hook
hook-IsValid c hook starts s v h = record {
  ordered = hook-IsOrdered c hook starts s v;
  alternate = h;
}

slept : (hooks : List Hook) → Alternate true hooks → Alternate false (disconnect ∷ hooks)
slept hooks h = h

woken : (hooks : List Hook) → Alternate false hooks → Alternate true (connect ∷ hooks)
woken [] h = absurd h
woken (h ∷ rest) a = a

Step-IsValid : {c : Commands} {s s' : State} → Step c s s' → IsValid c s → IsValid c s'
unfolding sleep wakeup
Step-IsValid {c} {s} (sleeps starts e) v = rw e (elim (Bool-cases s.awake) [
  | inl on ↦
      rw (on, sleep)
        (hook-IsValid c disconnect starts (record s { awake = false }) v.ordered
          (slept s.hooks (subst (λ b. Alternate b s.hooks) on v.alternate)))
  | inr off ↦ simp off v
])
Step-IsValid {c} {s} (wakes starts e) v = rw e (elim (Bool-cases s.awake) [
  | inl on ↦ simp on v
  | inr off ↦
      rw (off, wakeup)
        (hook-IsValid c connect starts (record s { awake = true }) v.ordered
          (woken s.hooks (subst (λ b. Alternate b s.hooks) off v.alternate)))
])
Step-IsValid {c} {s} (works before w after there e) v = rw e (record {
  ordered = turn-IsOrdered (jobs_of c s.hooks) before w after s.queue there v.ordered;
  alternate = v.alternate;
})

Reaches-IsValid : {c : Commands} {s : State} → Reaches c s → IsValid c s
unfolding make
Reaches-IsValid {c} (start starts) =
    hook-IsValid c connect starts (record { awake = true; queue = new_queue; hooks = [] })
      (record { one_worker = refl; in_order = refl }) tt
Reaches-IsValid (next r step) = Step-IsValid step (Reaches-IsValid r)

-- However a device falls asleep and wakes up, and however the threads go on: the hooks alternate from
-- a connection on, the latest is a connection exactly if the device is awake, and the commands that
-- were started, and behind them those that wait, are those of the hooks in their order.
pub Reaches-alternate :
    {c : Commands} {s : State}
    → Reaches c s
    → Alternate s.awake s.hooks × (s.queue.started ++ s.queue.jobs ≡ jobs_of c s.hooks)
Reaches-alternate r = let v = Reaches-IsValid r in (v.alternate, v.ordered.in_order)
