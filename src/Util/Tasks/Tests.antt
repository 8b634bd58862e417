-- ===== src/Util/Tasks/Tests.antt =====
-- Tasks at concrete times.
use logiops.Prelude.{◌≡◌, [], ◌∷◌, All, arith, refl}
use logiops.Util.Tasks.{
  Task, ready, waiting, executing, System, emplace, run_task, turn, tick, submit, work,
  init_workers, Reaches, start, next,
}
use logiops.Util.Tasks.Early.{InTime, one_worker-InTime, two_workers-early}

abbrev soon : Task
soon = record { function = 7; time = 1 }

abbrev queued : System
queued = record (init_workers 0 (ready ∷ [])) { tasks = soon ∷ [] }

-- The thread waits, the clock goes on, and the task starts.
abbrev after : System
after = record queued { now = 1; tasks = []; workers = executing soon ∷ []; ran = (soon, 1) ∷ [] }

after-Reaches : Reaches 0 (ready ∷ []) after
unfolding turn run_task emplace
after-Reaches =
    let s2 : System = record queued { workers = waiting 1 ∷ [] } in
    let s3 : System = record s2 { now = 1 } in
    let r1 : Reaches 0 (ready ∷ []) queued = next start (submit soon refl) in
    let r2 : Reaches 0 (ready ∷ []) s2 =
      next r1 (work {s1 = queued} [] ready (waiting 1) [] refl refl refl) in
    let r3 : Reaches 0 (ready ∷ []) s3 = next r2 (tick refl) in
    next r3 (
      work {s1 = record s3 { tasks = []; ran = (soon, 1) ∷ [] }} [] (waiting 1) (executing soon) []
        refl refl refl)

one_worker-InTime_example : All InTime after.ran
one_worker-InTime_example = one_worker-InTime after-Reaches

two_workers-early_example :
    (s : System) × Reaches 250 (ready ∷ ready ∷ []) s
    × (s.ran
        ≡ (record { function = 2; time = 4000 }, 250)
          ∷ (record { function = 1; time = 250 }, 250)
          ∷ [])
two_workers-early_example = two_workers-early 250 4000 1 2 (omega arith)
