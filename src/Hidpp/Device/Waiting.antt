-- ===== src/Hidpp/Device/Waiting.antt =====
-- Between requests no report is taken for a response.
use logiops.Prelude.{
  ◌≡◌, Bool, true, false, none, some, Option-cases, arith, refl, ap, sym, ◌∙◌, inl, inr, subst,
}
use logiops.Prelude.Exn.{Result, ok}
use logiops.Hidpp.Report.{Report}
use logiops.Hidpp.Device.{Slot, unused, begin, finish, expire, respond, handle_event}

-- What happens to a device: a request that is written, a report that comes in, and the ends of the wait.
-- `waiting` says that a request is in.
pub record State : Type 0 where
  pub slot : Slot
  pub waiting : Bool

pub data Step : State → State → Type 0 where
  begins :
      {s s' : State} (r : Report)
      → s.waiting ≡ false
      → s' ≡ record { slot = (begin r (ok tt) s.slot).0; waiting = true }
      → Step s s'
  receives : {s s' : State} (r : Report) → s' ≡ record s { slot = (respond r s.slot).0 } → Step s s'
  finishes :
      {s s' : State} {slot : Slot} {result : Result Report}
      → s.waiting ≡ true
      → finish s.slot ≡ some (slot, result)
      → s' ≡ record { slot = slot; waiting = false }
      → Step s s'
  expires :
      {s s' : State} {slot : Slot} {result : Result Report}
      → s.waiting ≡ true
      → expire s.slot ≡ some (slot, result)
      → s' ≡ record { slot = slot; waiting = false }
      → Step s s'

pub data Reaches : State → Type 0 where
  start : Reaches (record { slot = unused; waiting = false })
  next : {s s' : State} → Reaches s → Step s s' → Reaches s'

-- Nothing is kept and nothing is asked for while no request is in.
abbrev Idle : State → Type 0
Idle s = s.waiting ≡ false → (s.slot.response ≡ none) × (s.slot.sent_sub_id ≡ none)

respond_idle : (r : Report) (s : Slot) → s.sent_sub_id ≡ none → respond r s ≡ (s, false)
unfolding respond
respond_idle r s h = ground arith

finish-unused :
    (s : Slot) {slot : Slot} {result : Result Report}
    → finish s ≡ some (slot, result)
    → slot ≡ unused
unfolding finish
finish-unused s e = elim (Option-cases s.response) [
  | inl nothing ↦ ground arith
  | inr (x, there) ↦ ground arith
]

expire-empty :
    (s : Slot) {slot : Slot} {result : Result Report}
    → expire s ≡ some (slot, result)
    → (slot.response ≡ none) × (slot.sent_sub_id ≡ none)
unfolding expire
expire-empty s e = elim (Option-cases s.response) [
  | inl nothing ↦ ground arith
  | inr (x, there) ↦ ground arith
]

Step-Idle : {s s' : State} → Step s s' → Idle s → Idle s'
Step-Idle (begins r h e) idle = subst Idle (sym e) (λ w. absurd (cc))
Step-Idle {s} (receives r e) idle = subst Idle (sym e) (λ w.
    let (empty, unsent) = idle w in
    let same = ap (λ x. x.0) (respond_idle r s.slot unsent) in
    (ap (λ (x : Slot). x.response) same ∙ empty, ap (λ (x : Slot). x.sent_sub_id) same ∙ unsent))
Step-Idle {s} (finishes h done e) idle = subst Idle (sym e) (λ w.
    let clean = finish-unused s.slot done in
    (ap (λ (x : Slot). x.response) clean, ap (λ (x : Slot). x.sent_sub_id) clean))
Step-Idle {s} (expires h done e) idle = subst Idle (sym e) (λ w. expire-empty s.slot done)

Reaches-Idle : {s : State} → Reaches s → Idle s
Reaches-Idle start = λ w. (refl, refl)
Reaches-Idle (next r step) = Step-Idle step (Reaches-Idle r)

-- As long as each write goes well: while no request is in, a report is not taken for a response but goes
-- to the handlers of events, and changes nothing, and no response is kept for the next request.
pub idle-events :
    {s : State} (r : Report)
    → Reaches s
    → s.waiting ≡ false
    → (handle_event r s.slot ≡ (s.slot, true)) × (s.slot.response ≡ none)
unfolding handle_event
idle-events {s} r reached w =
    let (empty, unsent) = Reaches-Idle reached w in
    (rw (respond_idle r s.slot unsent, handle_event) (refl), empty)
