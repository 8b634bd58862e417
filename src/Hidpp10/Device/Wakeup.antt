-- ===== src/Hidpp10/Device/Wakeup.antt =====
-- The threads inside `sendReport` of src/logid/backend/hidpp10/Device.cpp, with the condition
-- variable written out: `asleep` in the first wait, `awake` when they were notified and want the
-- mutex back, and `flying` in the second wait, which ends by itself when its time is over.
use logiops.Prelude.{
  ℕ, ◌%◌, ◌≡◌, refl, sym, ◌∙◌, ap, Bool, true, false, Option, none, some, List, [], ◌∷◌, ◌++◌, set,
  length, set-set, get_or-set_self, arith, length-set, replicate, get_or-replicate, zero, suc,
}
use logiops.Prelude.Exn.{Result, ok, err, Exn}
use logiops.Hidpp.Report.{Report, sub_id, is_error10}
use logiops.Hidpp10.Defs.{sub_id_count}
use logiops.Hidpp10.Device.{
  Response, report, ResponseSlot, free, no_responses, slot_of, start, finish, respond,
  read_response, outcome,
}

pub record Threads : Type 0 where
  pub slots : List ResponseSlot
  pub asleep : List Report
  pub awake : List Report
  pub flying : List Report

abbrev pub idle : Threads
idle = record { slots = no_responses; asleep = []; awake = []; flying = [] }

pub data Event : Type 0 where
  -- A thread calls `sendReport`.
  arrives : Report → Event
  -- The last thread that was notified gets the mutex.
  retries : Event
  -- The same, where the request cannot be written.
  arrives_unsent : Exn → Report → Event
  retries_unsent : Exn → Event
  -- A report arrives.
  receives : Report → Event
  -- The last thread that sent its request takes its response.
  returns : Event

-- A thread whose `_sendReport` throws leaves, and leaves its slot claimed.
abbrev pub after_write : Result (Unit {0}) → Report → List ResponseSlot → Threads → Threads
after_write (ok _) r slots' s = record s { slots = slots'; flying = r ∷ s.flying }
after_write (err exn) r slots' s = record s { slots = slots' }

abbrev pub wait_or_send : Result (Unit {0}) → Report → Threads → Threads
wait_or_send written r s = elim (start written r s.slots) [
  | none ↦ record s { asleep = r ∷ s.asleep }
  | some (end, slots') ↦ after_write end r slots' s
]

abbrev pub notify_all : Bool → Threads → Threads
notify_all false s = s
notify_all true s = record s { asleep = []; awake = s.asleep ++ s.awake }

abbrev pub retry : Result (Unit {0}) → Threads → Option Threads
retry written s = elim s.awake [
  | [] ↦ none
  | r ∷ rs ↦ some (wait_or_send written r (record s { awake = rs }))
]

-- `none` for an event that cannot happen.
unfoldable pub step : Event → Threads → Option Threads
step (arrives r) s = some (wait_or_send (ok tt) r s)
step (arrives_unsent exn r) s = some (wait_or_send (err exn) r s)
step retries s = retry (ok tt) s
step (retries_unsent exn) s = retry (err exn) s
step (receives r) s =
    let (slots', notified) = respond r s.slots in
    some (notify_all notified (record s { slots = slots' }))
step returns s = elim s.flying [
  | [] ↦ none
  | r ∷ rs ↦ elim (finish r s.slots) [
    | none ↦ none
    | some (result, slots') ↦ some (record s { slots = slots'; flying = rs })
  ]
]

unfoldable pub run : List Event → Threads → Option Threads
unfolding step
run [] s = some s
run (e ∷ es) s = elim (step e s) [ none ↦ none | some s' ↦ run es s' ]

abbrev pub receive_all : List Report → List Event
receive_all [] = []
receive_all (r ∷ rs) = receives r ∷ receive_all rs

slot_of-set :
    (slots : List ResponseSlot) (i j : ℕ) (x : ResponseSlot)
    → length slots ≡ 4
    → i % sub_id_count ≡ j % sub_id_count
    → slot_of (set slots (i % sub_id_count) x) j ≡ x
slot_of-set slots i j x h e =
    rw (sym e) (get_or-set_self slots (i % sub_id_count) x free (omega arith))

start-free :
    (r : Report) (slots : List ResponseSlot)
    → slot_of slots (sub_id r) ≡ free
    → start (ok tt) r slots
      ≡ some (
        ok tt,
        set slots (sub_id r % sub_id_count) (record { response = none; sub_id = some (sub_id r) }),
      )
unfolding start
start-free r slots e = rw e refl

start_taken :
    (r : Report) (slots : List ResponseSlot) (x : Option Response) (s : ℕ)
    → slot_of slots (sub_id r) ≡ record { response = x; sub_id = some s }
    → start (ok tt) r slots ≡ none
unfolding start
start_taken r slots x s e = rw e refl

read_plain : (x : Report) → is_error10 x ≡ none → read_response x ≡ (sub_id x, report x)
unfolding read_response
read_plain x n = rw (n, read_response) refl

respond_hit :
    (x : Report) (slots : List ResponseSlot) (o : Option Response)
    → is_error10 x ≡ none
    → slot_of slots (sub_id x) ≡ record { response = o; sub_id = some (sub_id x) }
    → respond x slots ≡ (
      set slots
          (sub_id x % sub_id_count)
          (record { response = some (report x); sub_id = some (sub_id x) }),
      true,
    )
unfolding respond
respond_hit x slots o n e = rw (read_plain x n, e) (ground arith)

finish_hit :
    (r : Report) (slots : List ResponseSlot) (x : Response) (s : Option ℕ)
    → slot_of slots (sub_id r) ≡ record { response = some x; sub_id = s }
    → finish r slots ≡ some (outcome x, set slots (sub_id r % sub_id_count) free)
unfolding finish
finish_hit r slots x s e = rw (e, finish) refl

set-free : (n i : ℕ) → set (replicate n free) i free ≡ replicate n free
set-free zero i = refl
set-free (suc n) zero = refl
set-free (suc n) (suc i) = ap (λ t. free ∷ t) (set-free n i)

free_slot : (i : ℕ) → slot_of no_responses i ≡ free
free_slot i = get_or-replicate sub_id_count (i % sub_id_count) free

-- The slots while the request `r` waits for its response, and once the response `x` is there.
sent : Report → List ResponseSlot
sent r =
    set no_responses (sub_id r % sub_id_count)
      (record { response = none; sub_id = some (sub_id r) })

answered : Report → Report → List ResponseSlot
answered r x =
    set (sent r) (sub_id r % sub_id_count)
      (record { response = some (report x); sub_id = some (sub_id r) })

respond_free : (y : Report) → respond y no_responses ≡ (no_responses, false)
unfolding respond
respond_free y = rw (free_slot (read_response y).0) refl

forever :
    (ys : List Report) (r : Report)
    → run (receive_all ys) (record idle { asleep = r ∷ [] })
      ≡ some (record idle { asleep = r ∷ [] })
unfolding run step
forever [] r = refl
forever (y ∷ ys) r = rw (respond_free y) (forever ys r)

run-step :
    (e : Event) (es : List Event) (s s' : Threads) → step e s ≡ some s' → run (e ∷ es) s ≡ run es s'
unfolding run
run-step e es s s' h = rw (h, run) refl

module _ (r r' x : Report) (same : sub_id r % sub_id_count ≡ sub_id r' % sub_id_count)
    (plain : is_error10 x ≡ none) (answers : sub_id x ≡ sub_id r) where
  first : step (arrives r) idle ≡ some (record idle { slots = sent r; flying = r ∷ [] })
  unfolding step sent
  first = rw (start-free r no_responses (free_slot (sub_id r)), wait_or_send) refl

  second :
      step (arrives r') (record idle { slots = sent r; flying = r ∷ [] })
      ≡ some (record idle { slots = sent r; asleep = r' ∷ []; flying = r ∷ [] })
  unfolding step sent
  second =
      rw
        (
          start_taken r' (sent r) _ _ (slot_of-set no_responses (sub_id r) (sub_id r') _ refl same),
          wait_or_send,
        )
        refl

  third :
      step (receives x) (record idle { slots = sent r; asleep = r' ∷ []; flying = r ∷ [] })
      ≡ some (record idle { slots = answered r x; awake = r' ∷ []; flying = r ∷ [] })
  unfolding step sent answered
  third =
      rw
        (
          respond_hit x (sent r) none plain (
              slot_of-set no_responses (sub_id r) (sub_id x) _ refl
                (ap (λ t. t % sub_id_count) (sym answers))
              ∙ ap (λ t. record { response = none; sub_id = some t }) (sym answers)),
          answers,
        )
        refl

  fourth :
      step retries (record idle { slots = answered r x; awake = r' ∷ []; flying = r ∷ [] })
      ≡ some (record idle { slots = answered r x; asleep = r' ∷ []; flying = r ∷ [] })
  unfolding step sent answered
  fourth =
      rw
        (
          start_taken r' (answered r x) _ _
              (slot_of-set (sent r) (sub_id r) (sub_id r') _ (length-set no_responses _ _) same),
          wait_or_send,
        )
        refl

  fifth :
      step returns (record idle { slots = answered r x; asleep = r' ∷ []; flying = r ∷ [] })
      ≡ some (record idle { asleep = r' ∷ [] })
  unfolding step sent answered
  fifth =
      rw
        (
          finish_hit r (answered r x) (report x) _
              (slot_of-set (sent r) (sub_id r) (sub_id r) _ (length-set no_responses _ _) refl),
          step,
          set-set,
          set-set,
          set-free,
        )
        refl

  -- Two requests use one slot. The response of the first is received while the second waits for the
  -- slot; the second, which is notified with the first, looks at the slot before the first empties
  -- it. Then no report that is received wakes the second request up, although every slot is free.
  pub run-asleep :
      (ys : List Report)
      → run (arrives r ∷ arrives r' ∷ receives x ∷ retries ∷ returns ∷ receive_all ys) idle
        ≡ some (record idle { asleep = r' ∷ [] })
  run-asleep ys =
      run-step _ _ _ _ first
      ∙ run-step _ _ _ _ second
      ∙ run-step _ _ _ _ third
      ∙ run-step _ _ _ _ fourth
      ∙ run-step _ _ _ _ fifth
      ∙ forever ys r'
