-- ===== src/Util/CommandQueue/Order.antt =====
-- Commands run in the order in which they were queued, none is lost, and no two run at a time.
use logiops.Prelude.{
  ℕ, suc, ◌+◌, ◌≡◌, Bool, true, false, if◌then◌else◌, List, [], ◌∷◌, ◌++◌, length, length-append,
  List-cases, from_bool, arith, refl, sym, ap, ◌∙◌, Bool-cases, inl, inr,
}
use logiops.Util.CommandQueue.{
  Job, Worker, between, busy, Queue, is_runnable, run, turn, submit, work, Reaches, start, drain,
}
use mathlib.Core.List.{append_assoc, append-nil}

-- A command has a program: a first word that is not empty.
abbrev pub has_program : List (List ℕ) → Bool
has_program [] = false
has_program ([] ∷ words) = false
has_program ((c ∷ cs) ∷ words) = true

-- The commands that have one, in their order.
unfoldable pub with_program : List Job → List Job
with_program [] = []
with_program (job ∷ rest) =
    let later = with_program rest in if has_program job.command then job ∷ later else later

with_program-append :
    (xs ys : List Job) → with_program (xs ++ ys) ≡ with_program xs ++ with_program ys
unfolding with_program
with_program-append [] ys = refl
with_program-append (job ∷ xs) ys = ground (arith, with_program-append xs ys)

pub is_runnable_lem : (job : Job) → is_runnable job ≡ has_program job.command
unfolding is_runnable
is_runnable_lem job = words_lem job.command
  where
    words_lem :
        (words : List (List ℕ))
        → (elim words as (λ w. Bool) [
          | [] ↦ false
          | word ∷ rest ↦ elim word as (λ w. Bool) [ [] ↦ false | c ∷ cs ↦ true ]
        ])
          ≡ has_program words
    words_lem [] = refl
    words_lem ([] ∷ words) = refl
    words_lem ((c ∷ cs) ∷ words) = refl

-- The queue after the commands `due` were accepted.
pub record IsOrdered (due : List Job) (s : Queue) : Type 0 where
  pub one_worker : length s.workers ≡ from_bool s.running
  pub in_order : s.started ++ s.jobs ≡ due

-- One more job is queued.
pushed :
    (due : List Job) (job : Job) (s : Queue)
    → IsOrdered due s
    → s.started ++ (s.jobs ++ job ∷ []) ≡ due ++ job ∷ []
pushed due job s v =
    sym (append_assoc s.started s.jobs (job ∷ [])) ∙ ap (λ l. l ++ job ∷ []) v.in_order

-- `run` accepts the command, or passes over one without a program.
pub run-IsOrdered :
    (due : List Job) (job : Job) (starts : Bool) (s : Queue)
    → IsOrdered due s
    → IsOrdered (due ++ with_program (job ∷ [])) (run job starts s)
unfolding run with_program
run-IsOrdered due job starts s v = elim (Bool-cases (is_runnable job)) [
  | inr empty ↦
      rw (empty, run, sym (is_runnable_lem job) ∙ empty)
        (record { one_worker = v.one_worker; in_order = v.in_order ∙ sym (append-nil due) })
  | inl fits ↦ rw (sym (is_runnable_lem job) ∙ fits) (elim (Bool-cases s.running) [
    | inl on ↦
        simp (fits, on)
          (record { one_worker = v.one_worker ∙ ap from_bool on; in_order = pushed due job s v })
    | inr off ↦ elim (Bool-cases starts) [
      | inl made ↦
          simp (fits, off, made)
            (record {
              one_worker = ap suc (v.one_worker ∙ ap from_bool off);
              in_order = pushed due job s v;
            })
      | inr failed ↦
          simp (fits, off, failed)
            (record { one_worker = v.one_worker ∙ ap from_bool off; in_order = pushed due job s v })
    ]
  ])
]

-- A thread is the only one, and `running` says that it is there.
alone :
    (due : List Job) (before : List Worker) (w : Worker) (after : List Worker) (s : Queue)
    → s.workers ≡ before ++ w ∷ after
    → IsOrdered due s
    → (length before + length after ≡ 0) × (from_bool s.running ≡ 1)
alone due before w after s there v =
    let len = ap length there ∙ length-append before (w ∷ after) in
    ground (arith, len, v.one_worker)

pub turn-IsOrdered :
    (due : List Job) (before : List Worker) (w : Worker) (after : List Worker) (s : Queue)
    → s.workers ≡ before ++ w ∷ after
    → IsOrdered due s
    → IsOrdered due (turn before w after s)
unfolding turn
turn-IsOrdered due before (busy job) after s there v = record {
  one_worker =
      omega (
        arith,
        length-append before (between ∷ after),
        alone due before (busy job) after s there v,
      );
  in_order = v.in_order;
}
turn-IsOrdered due before between after s there v = elim (List-cases s.jobs) [
  | inl empty ↦
      rw (empty, turn)
        (record {
          one_worker =
              omega (arith, length-append before after, alone due before between after s there v);
          in_order = v.in_order;
        })
  | inr (job, jobs, more) ↦
      rw (more, turn)
        (record {
          one_worker = omega (
            arith,
            length-append before (busy job ∷ after),
            alone due before between after s there v,
          );
          in_order =
              append_assoc s.started (job ∷ []) jobs
              ∙ ap (λ l. s.started ++ l) (sym more)
              ∙ v.in_order;
        })
]

Reaches-IsOrdered :
    {submitted : List Job} {s : Queue} → Reaches submitted s → IsOrdered (with_program submitted) s
unfolding with_program
Reaches-IsOrdered start = record { one_worker = refl; in_order = refl }
Reaches-IsOrdered (submit {submitted} {s} job starts r) =
    rw (with_program-append submitted (job ∷ []))
      (run-IsOrdered (with_program submitted) job starts s (Reaches-IsOrdered r))
Reaches-IsOrdered (work {submitted} {s} before w after there r) =
    turn-IsOrdered (with_program submitted) before w after s there (Reaches-IsOrdered r)

-- Whatever commands are submitted, whenever a thread can be made, and however the threads go on: there is
-- a thread exactly while `running` is set, and no second one, and the jobs that were started, and
-- behind them those that wait, are the commands that were submitted whose first word is there and not
-- empty, in their order.
pub Reaches-in_order :
    {submitted : List Job} {s : Queue}
    → Reaches submitted s
    → (length s.workers ≡ from_bool s.running) × (s.started ++ s.jobs ≡ with_program submitted)
Reaches-in_order r = let v = Reaches-IsOrdered r in (v.one_worker, v.in_order)

job_done :
    (job : Job) (jobs : List Job) (s : Queue)
    → s.jobs ≡ job ∷ jobs
    → turn [] (busy job) [] (turn [] between [] s)
      ≡ record s { jobs = jobs; workers = between ∷ []; started = s.started ++ job ∷ [] }
unfolding turn
job_done job jobs s e = rw (e, turn)

drain_from :
    (jobs : List Job) (s : Queue)
    → s.jobs ≡ jobs
    → s.workers ≡ between ∷ []
    → drain jobs s
      ≡ record s { jobs = []; running = false; workers = []; started = s.started ++ jobs }
unfolding drain turn
drain_from [] s e one = ground (arith, append-nil s.started)
drain_from (job ∷ jobs) s e one =
    let s' : Queue = record s {
      jobs = jobs;
      workers = between ∷ [];
      started = s.started ++ job ∷ [];
    } in
    ap (drain jobs) (job_done job jobs s e)
    ∙ drain_from jobs s' refl refl
    ∙ ap (λ l. record s { jobs = []; running = false; workers = []; started = l })
        (append_assoc s.started (job ∷ []) jobs)

-- Left alone, a thread that is between two jobs starts all that wait, in their order, and ends.
pub drain-all :
    (s : Queue)
    → s.workers ≡ between ∷ []
    → drain s.jobs s
      ≡ record s { jobs = []; running = false; workers = []; started = s.started ++ s.jobs }
drain-all s one = drain_from s.jobs s refl one
