-- ===== src/Util/Tasks/Early.antt =====
-- When tasks start: never before their time with one thread, but with two a task may.
use logiops.Prelude.{
  ℕ, ◌≤◌, ◌<◌, ◌≡◌, true, false, ◌||◌, Option, none, some, List, [], ◌∷◌, ◌++◌, ltb, leb, All,
  List-cases, Bool-cases, length, length-append, arith, refl, sym, ap, ◌∙◌, inl, inr, subst,
}
use logiops.Util.Tasks.{
  Task, Worker, ready, waiting, executing, ended, System, emplace, run_task, take_top, turn, Step,
  tick, submit, stop, work, init_workers, Reaches, start, next,
}

-- A task started at its time or later.
abbrev pub InTime : (Task × ℕ) → Type 0
InTime (t, at) = t.time ≤ at

-- A thread that waits has a task on top that is due at the end of its wait.
abbrev Awaits : Worker → List Task → Type 0
Awaits (waiting end) [] = ⊥
Awaits (waiting end) (t ∷ rest) = t.time ≤ end
Awaits _ tasks = Unit {0}

record IsPunctual (s : System) : Type 0 where
  pub worker : Worker
  pub alone : s.workers ≡ worker ∷ []
  pub awaits : Awaits worker s.tasks
  pub in_time : All InTime s.ran

emplace-Awaits :
    (w : Worker) (t : Task) (tasks : List Task) → Awaits w tasks → Awaits w (emplace t tasks)
unfolding emplace
emplace-Awaits ready t tasks h = tt
emplace-Awaits (executing u) t tasks h = tt
emplace-Awaits ended t tasks h = tt
emplace-Awaits (waiting end) t [] h = absurd h
emplace-Awaits (waiting end) t (u ∷ us) h = ground arith

-- What a turn of a thread leaves.
abbrev Kept : Option (Worker × System) → Type 0
Kept none = Unit {0}
Kept (some (w, s)) = Awaits w s.tasks × All InTime s.ran

taken :
    (s : System) (t : Task) (rest : List Task)
    → s.tasks ≡ t ∷ rest
    → take_top s ≡ (executing t, record s { tasks = rest; ran = (t, s.now) ∷ s.ran })
taken s t rest e = rw (e, take_top)

take-Kept :
    (s : System) (t : Task) (rest : List Task)
    → s.tasks ≡ t ∷ rest
    → t.time ≤ s.now
    → All InTime s.ran
    → Kept (some (take_top s))
take-Kept s t rest e h p = subst (λ x. Kept (some x)) (sym (taken s t rest e)) (tt, (h, p))

ended-Kept : (w : Worker) (s : System) → s.workers_run ≡ false → All InTime s.ran → Kept (turn w s)
unfolding turn
ended-Kept ready s off p = rw (off, turn) (tt, p)
ended-Kept (waiting end) s off p = rw (off, turn) (tt, p)
ended-Kept (executing t) s off p = rw (off, turn) (tt, p)
ended-Kept ended s off p = tt

ready-Kept :
    (s : System) (t : Task) (rest : List Task)
    → s.workers_run ≡ true
    → s.tasks ≡ t ∷ rest
    → All InTime s.ran
    → Kept (turn ready s)
unfolding turn
ready-Kept s t rest on e p = elim (Bool-cases (leb s.now t.time)) [
  | inl later ↦
      let to : turn ready s ≡ some (waiting t.time, s) = ground arith in
      subst Kept (sym to) (subst (Awaits (waiting t.time)) (sym e) (omega arith), p)
  | inr due ↦
      let to : turn ready s ≡ some (take_top s) = ground arith in
      subst Kept (sym to) (take-Kept s t rest e (ground arith) p)
]

waiting-Kept :
    (end : ℕ) (s : System) (t : Task) (rest : List Task)
    → s.workers_run ≡ true
    → s.tasks ≡ t ∷ rest
    → t.time ≤ end
    → All InTime s.ran
    → Kept (turn (waiting end) s)
unfolding turn
waiting-Kept end s t rest on e h p = elim (Bool-cases (leb end s.now || ltb t.time s.now)) [
  | inl over ↦
      let to : turn (waiting end) s ≡ some (take_top s) = ground arith in
      subst Kept (sym to) (take-Kept s t rest e (ground arith) p)
  | inr still ↦ let to : turn (waiting end) s ≡ none = ground arith in subst Kept (sym to) (tt)
]

running-Kept :
    (w : Worker) (s : System)
    → s.workers_run ≡ true
    → Awaits w s.tasks
    → All InTime s.ran
    → Kept (turn w s)
unfolding turn
running-Kept ended s on a p = tt
running-Kept (executing t) s on a p = simp on (tt, p)
running-Kept ready s on a p = elim (List-cases s.tasks) [
  | inl none_there ↦ let to : turn ready s ≡ none = ground arith in subst Kept (sym to) (tt)
  | inr (t, rest, e) ↦ ready-Kept s t rest on e p
]
running-Kept (waiting end) s on a p = elim (List-cases s.tasks) [
  | inl none_there ↦ absurd (subst (Awaits (waiting end)) none_there a)
  | inr (t, rest, e) ↦ waiting-Kept end s t rest on e (subst (Awaits (waiting end)) e a) p
]

turn-Kept : (w : Worker) (s : System) → Awaits w s.tasks → All InTime s.ran → Kept (turn w s)
unfolding turn
turn-Kept w s a p = elim (Bool-cases s.workers_run) [
  | inr off ↦ ended-Kept w s off p
  | inl on ↦ running-Kept w s on a p
]

-- The thread that takes a turn is the one there is.
only :
    (before : List Worker) (w0 w : Worker) (after : List Worker)
    → before ++ w0 ∷ after ≡ w ∷ []
    → (before ≡ []) × (w0 ≡ w) × (after ≡ [])
only [] w0 w after e = ground arith
only (x ∷ before) w0 w after e =
    absurd (omega (arith, ap length e, length-append before (w0 ∷ after)))

work-IsPunctual :
    (before : List Worker) (w w1 : Worker) (after : List Worker) (s s1 : System)
    → s.workers ≡ before ++ w ∷ after
    → turn w s ≡ some (w1, s1)
    → IsPunctual s
    → IsPunctual (record s1 { workers = before ++ w1 ∷ after })
work-IsPunctual before w w1 after s s1 there e v =
    let (b, same, a) = only before w v.worker after (sym there ∙ v.alone) in
    let awaits = subst (λ x. Awaits x s.tasks) (sym same) v.awaits in
    let kept = subst Kept e (turn-Kept w s awaits v.in_time) in
    record { worker = w1; alone = rw (b, a) (refl); awaits = kept.0; in_time = kept.1 }

Step-IsPunctual : {s s' : System} → Step s s' → IsPunctual s → IsPunctual s'
unfolding run_task
Step-IsPunctual {s} (tick e) v =
    rw e (record { worker = v.worker; alone = v.alone; awaits = v.awaits; in_time = v.in_time })
Step-IsPunctual {s} (submit t e) v = rw e (record {
  worker = v.worker;
  alone = v.alone;
  awaits = emplace-Awaits v.worker t s.tasks v.awaits;
  in_time = v.in_time;
})
Step-IsPunctual {s} (stop e) v =
    rw e (record { worker = v.worker; alone = v.alone; awaits = v.awaits; in_time = v.in_time })
Step-IsPunctual {s} (work {s1 = s1} before w w1 after there turned e) v =
    rw e (work-IsPunctual before w w1 after s s1 there turned v)

Reaches-IsPunctual : {now : ℕ} {s : System} → Reaches now (ready ∷ []) s → IsPunctual s
Reaches-IsPunctual start = record { worker = ready; alone = refl; awaits = tt; in_time = tt }
Reaches-IsPunctual (next r step) = Step-IsPunctual step (Reaches-IsPunctual r)

-- One thread starts no task before its time, whatever is added and whenever.
pub one_worker-InTime : {now : ℕ} {s : System} → Reaches now (ready ∷ []) s → All InTime s.ran
one_worker-InTime r = (Reaches-IsPunctual r).in_time

-- With two threads and two tasks, both threads wait for the first of them; when one of them has taken
-- it, the wait of the other ends by the time too, and that thread takes the second task. So for any
-- two times a task that is due at the later one may start at the earlier one.
pub two_workers-early :
    (a b : ℕ) (f g : ℕ)
    → a < b
    → (s : System) × Reaches a (ready ∷ ready ∷ []) s
      × (s.ran
          ≡ (record { function = g; time = b }, a) ∷ (record { function = f; time = a }, a) ∷ [])
unfolding turn run_task emplace
two_workers-early a b f g h =
    let t : Task = record { function = f; time = a } in
    let u : Task = record { function = g; time = b } in
    let s0 = init_workers a (ready ∷ ready ∷ []) in
    let s1 : System = record s0 { tasks = t ∷ [] } in
    let s2 : System = record s0 { tasks = t ∷ u ∷ [] } in
    let s3 : System = record s2 { workers = waiting a ∷ ready ∷ [] } in
    let s4 : System = record s2 { workers = waiting a ∷ waiting a ∷ [] } in
    let s5 : System = record s4 {
      tasks = u ∷ [];
      workers = executing t ∷ waiting a ∷ [];
      ran = (t, a) ∷ [];
    } in
    let s6 : System = record s5 {
      tasks = [];
      workers = executing t ∷ executing u ∷ [];
      ran = (u, a) ∷ (t, a) ∷ [];
    } in
    let r1 : Reaches a (ready ∷ ready ∷ []) s1 = next start (submit t refl) in
    let r2 : Reaches a (ready ∷ ready ∷ []) s2 = next r1 (submit u (ground arith)) in
    let r3 : Reaches a (ready ∷ ready ∷ []) s3 =
      next r2 (work {s1 = s2} [] ready (waiting a) (ready ∷ []) refl (ground arith) refl) in
    let r4 : Reaches a (ready ∷ ready ∷ []) s4 =
      next r3 (work {s1 = s3} (waiting a ∷ []) ready (waiting a) [] refl (ground arith) refl) in
    let r5 : Reaches a (ready ∷ ready ∷ []) s5 = next r4 (
      work {s1 = record s4 { tasks = u ∷ []; ran = (t, a) ∷ [] }} [] (waiting a) (executing t)
        (waiting a ∷ []) refl (ground arith) refl) in
    let r6 : Reaches a (ready ∷ ready ∷ []) s6 = next r5 (
      work {s1 = record s5 { tasks = []; ran = (u, a) ∷ (t, a) ∷ [] }} (executing t ∷ [])
        (waiting a) (executing u) [] refl (ground arith) refl) in
    (s6, r6, refl)
