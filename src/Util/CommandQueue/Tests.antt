-- ===== src/Util/CommandQueue/Tests.antt =====
-- A queue with two commands.
use logiops.Prelude.{◌≡◌, true, false, List, [], ◌∷◌, ◌++◌, length, from_bool, refl}
use logiops.Util.CommandQueue.{Job, between, Queue, run, submit, Reaches, start, drain}
use logiops.Util.CommandQueue.Order.{with_program, Reaches-in_order, drain-all}

abbrev beep : Job
beep = record { command = (98 ∷ []) ∷ []; context = [] }

abbrev chime : Job
chime = record { command = (99 ∷ []) ∷ []; context = [] }

abbrev two_queued : Queue
two_queued = record {
  jobs = beep ∷ chime ∷ [];
  running = true;
  workers = between ∷ [];
  started = [];
}

-- A command without a word is passed over.
abbrev blank : Job
blank = record { command = [] ∷ []; context = [] }

abbrev submitted : List Job
submitted = beep ∷ blank ∷ chime ∷ []

two_queued-Reaches : Reaches submitted two_queued
unfolding run
two_queued-Reaches = submit chime true (submit blank true (submit beep true start))

Reaches-in_order_example :
    (length two_queued.workers ≡ from_bool two_queued.running)
    × (two_queued.started ++ two_queued.jobs ≡ with_program submitted)
Reaches-in_order_example = Reaches-in_order two_queued-Reaches

drain-all_example :
    drain two_queued.jobs two_queued
    ≡ record two_queued { jobs = []; running = false; workers = []; started = beep ∷ chime ∷ [] }
drain-all_example = drain-all two_queued refl
