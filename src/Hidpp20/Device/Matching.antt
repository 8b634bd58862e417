-- ===== src/Hidpp20/Device/Matching.antt =====
-- What the response slots of src/logid/backend/hidpp20/Device.cpp guarantee to the threads that use
-- them, and what a write that fails does to them.
use logiops.Prelude.{
  ℕ, ◌≡◌, ap, subst, sym, ◌∙◌, ◌≢◌, ◌↔◌, ◌⊎◌, inl, inr, Option-cases, none, some, List, [], ◌∷◌,
  ◌++◌, arith, set,
}
use mathlib.Core.List.{append_assoc}
use logiops.Prelude.Exn.{Result, ok, err, timeout_error}
use logiops.Hidpp.Report.{Report, feature}
use logiops.Hidpp20.Device.{
  Response, ResponseSlot, free, index_of, slot_of, start, finish, expire, outcome,
}
use logiops.Hidpp20.Device.Slots.{
  System, Step, begins, fails, receives, returns, gives_up, Reach, here, next, Held, Inv, at,
  Answers, AnswersIf, Serves,
}
use logiops.Hidpp20.Device.Steps.{
  Serves-free, holder-Serves, initial-Inv, claim-Held, receives-Held, leaves-Held, finish_lem,
  expire_lem,
}

-- The holders, seen from a thread in flight.
around :
    (s : System) (before : List Report) (r : Report) (after : List Report)
    → s.flying ≡ before ++ (r ∷ after)
    → Inv s
    → Held s.slots (before ++ (r ∷ (after ++ s.failed)))
around s before r after f inv =
    subst (Held s.slots) (ap (λ l. l ++ s.failed) f ∙ append_assoc before (r ∷ after) s.failed) inv

thread_leaves :
    (s : System) (before : List Report) (r : Report) (after : List Report)
    → s.flying ≡ before ++ (r ∷ after)
    → Inv s
    → Inv (record s { slots = set s.slots (index_of (feature r)) free; flying = before ++ after })
thread_leaves s before r after f inv =
    subst (Held (set s.slots (index_of (feature r)) free))
      (sym (append_assoc before after s.failed))
      (leaves-Held s.slots before r (after ++ s.failed) (around s before r after f inv))

-- Every step of any thread, writes that throw and timeouts included, keeps the invariant: each of the
-- 16 slots is free, and held by no request, or it has the feature and the address of the only request
-- that holds it, and at most an answer to that request. A request holds its slot while its thread
-- is in `sendReport`, and for good if its write threw.
pub Step-Inv : {s t : System} → Step s t → Inv s → Inv t
Step-Inv {s} (begins r slots' e) inv =
    claim-Held s.slots (ok tt) r [] (s.flying ++ s.failed) slots' inv e
Step-Inv {s} (fails r exn slots' e) inv =
    claim-Held s.slots (err exn) r s.flying s.failed slots' inv e
Step-Inv {s} (receives r) inv = receives-Held s.slots (s.flying ++ s.failed) r inv
Step-Inv {s} (returns before r after result slots' f e) inv =
    rw (finish_lem r s.slots slots' result e).0 (thread_leaves s before r after f inv)
Step-Inv {s} (gives_up before r after result slots' f e) inv =
    rw (expire_lem r s.slots slots' result e).0 (thread_leaves s before r after f inv)

pub Reach-Inv : {s : System} → Reach s → Inv s
Reach-Inv here = initial-Inv
Reach-Inv (next r st) = Step-Inv st (Reach-Inv r)

-- Whatever the threads and the device do, writes that throw included: when the second wait of a thread
-- in `sendReport` ends, what the call returns or throws comes from a received report that names the
-- feature and the address of that thread's own request, or the call throws TimeoutError.
pub finish-Answers :
    {s : System} (before : List Report) (r : Report) (after : List Report) (result : Result Report)
    (slots' : List ResponseSlot)
    → Reach s
    → s.flying ≡ before ++ (r ∷ after)
    → (finish r s.slots ≡ some (result, slots')) ⊎ (expire r s.slots ≡ some (result, slots'))
    → ((x : Response) × Answers r x × (result ≡ outcome x)) ⊎ (result ≡ err timeout_error)
finish-Answers {s} before r after result slots' reach f (inl e) =
    let w = finish_lem r s.slots slots' result e in
    let served =
      (holder-Serves s.slots before r (after ++ s.failed)
        (around s before r after f (Reach-Inv reach))).2 in
    inl (w.1, subst (AnswersIf r) w.2 served.2, w.3)
finish-Answers {s} before r after result slots' reach f (inr e) =
    inr (expire_lem r s.slots slots' result e).1

-- What slot holds where no thread is inside `sendReport`.
unfoldable pub Leaked : ResponseSlot → List Report → Type 0
Leaked slot [] = slot ≡ free
Leaked slot (r ∷ []) = slot.feature ≡ some (feature r)
Leaked slot (_ ∷ _ ∷ _) = ⊥

-- A request has to wait exactly when its slot is held: another thread's request, or one whose write
-- threw, has its feature index modulo 16.
pub start-none_iff :
    {s : System} (written : Result (Unit {0})) (r : Report)
    → Reach s
    → (start written r s.slots ≡ none) ↔ (at (index_of (feature r)) (s.flying ++ s.failed) ≢ [])
unfolding start
start-none_iff {s} written r reach = (taken, waits)
  where
    i : ℕ
    i = index_of (feature r)

    holders : List Report
    holders = s.flying ++ s.failed

    served : Serves (slot_of s.slots (feature r)) (at i holders)
    served = (Reach-Inv reach).served i (omega arith)

    taken : start written r s.slots ≡ none → at i holders ≢ []
    taken e n =
        let unused : slot_of s.slots (feature r) ≡ free =
          subst (Serves (slot_of s.slots (feature r))) n served in
        cc (rw (unused, start) at e)

    waits : at i holders ≢ [] → start written r s.slots ≡ none
    waits n = elim (Option-cases (slot_of s.slots (feature r)).feature) [
      | inl e ↦ absurd (n (Serves-free _ _ served e).0)
      | inr (f, e) ↦ rw (e, start)
    ]
