-- ===== src/Hidpp20/Device/Slots.antt =====
-- The response slots of src/logid/backend/hidpp20/Device.cpp under any interleaving of senders,
-- received reports, failed writes and timeouts: an entry of `flying` is the request of a thread inside
-- `sendReport`, between its claim of a slot and its return; `failed` are the requests, the latest
-- first, whose `_sendReport` threw.
use logiops.Prelude.{
  ℕ, ◌<◌, ◌≡◌, Option, none, some, List, [], ◌∷◌, ◌++◌, ◌==◌, if◌then◌else◌, length, get_or,
}
use logiops.Prelude.Exn.{Result, ok, err, Exn}
use logiops.Hidpp.Report.{Report, feature, address}
use logiops.Hidpp20.Device.{
  Response, ResponseSlot, free, no_responses, index_of, start, finish, expire, respond,
  read_response,
}

pub record System : Type 0 where
  pub slots : List ResponseSlot
  pub flying : List Report
  pub failed : List Report

abbrev pub initial : System
initial = record { slots = no_responses; flying = []; failed = [] }

pub data Step : System → System → Type 0 where
  -- A thread claims a free slot and sends its request.
  begins :
      {s : System} (r : Report) (slots' : List ResponseSlot)
      → start (ok tt) r s.slots ≡ some (ok tt, slots')
      → Step s (record s { slots = slots'; flying = r ∷ s.flying })
  -- A thread claims a free slot, cannot send its request, and leaves by the exception.
  fails :
      {s : System} (r : Report) (exn : Exn) (slots' : List ResponseSlot)
      → start (err exn) r s.slots ≡ some (err exn, slots')
      → Step s (record s { slots = slots'; failed = r ∷ s.failed })
  -- A report arrives.
  receives : {s : System} (r : Report) → Step s (record s { slots = (respond r s.slots).0 })
  -- A thread takes its response, and leaves.
  returns :
      {s : System} (before : List Report) (r : Report) (after : List Report)
      (result : Result Report) (slots' : List ResponseSlot)
      → s.flying ≡ before ++ (r ∷ after)
      → finish r s.slots ≡ some (result, slots')
      → Step s (record s { slots = slots'; flying = before ++ after })
  -- A thread gives up, and leaves.
  gives_up :
      {s : System} (before : List Report) (r : Report) (after : List Report)
      (result : Result Report) (slots' : List ResponseSlot)
      → s.flying ≡ before ++ (r ∷ after)
      → expire r s.slots ≡ some (result, slots')
      → Step s (record s { slots = slots'; flying = before ++ after })

pub data Reach : System → Type 0 where
  here : Reach initial
  next : {s t : System} → Reach s → Step s t → Reach t

-- What a state can come to.
pub data Steps : System → System → Type 0 where
  none_left : {s : System} → Steps s s
  then_step : {s t u : System} → Steps s t → Step t u → Steps s u

-- The requests whose requests go through slot i.
unfoldable pub at : ℕ → List Report → List Report
at i [] = []
at i (r ∷ rs) = if index_of (feature r) == i then r ∷ at i rs else at i rs

-- What a response that waits in a slot was read from: a report that answers the request r.
pub data Answers (r : Report) (x : Response) : Type 0 where
  answers :
      (received : Report) (a : ℕ)
      → read_response received ≡ (feature r, a, x)
      → a ≡ address r
      → Answers r x

abbrev pub AnswersIf : Report → Option Response → Type 0
AnswersIf r none = Unit {0}
AnswersIf r (some x) = Answers r x

-- A slot is free and no request holds it, or it has the feature and the address of the one request
-- that holds it, and perhaps an answer to it.
abbrev pub Serves : ResponseSlot → List Report → Type 0
Serves slot [] = slot ≡ free
Serves slot (r ∷ []) =
    (slot.feature ≡ some (feature r))
    × (slot.address ≡ some (address r))
    × AnswersIf r slot.response
Serves slot (r ∷ _ ∷ _) = ⊥

-- Slots and the requests that hold them.
pub record Held (slots : List ResponseSlot) (holders : List Report) : Type 0 where
  pub sized : length slots ≡ 16
  pub served : (i : ℕ) → i < 16 → Serves (get_or slots i free) (at i holders)

-- A slot is held by a thread inside `sendReport`, or by a request whose write threw.
abbrev pub Inv : System → Type 0
Inv s = Held s.slots (s.flying ++ s.failed)
