-- ===== src/Hidpp20/Device/Tests.antt =====
-- One call with its response, and the theorems on src/logid/backend/hidpp20/Device.cpp at it.
use logiops.Prelude.{◌<◌, ◌≤◌, ◌≡◌, refl, ◌⊎◌, inl, true, some, none, List, [], ◌∷◌, set, arith}
use logiops.Prelude.Exn.{ok, err, assertion_failed, timeout_error}
use logiops.Hidpp.Defs.{short, long}
use logiops.Hidpp.Report.{Report, address, feature, is_error20}
use logiops.Hidpp.Report.Tests.{refused, refusal}
use logiops.Hidpp20.Device.{
  Response, error20, ResponseSlot, free, no_responses, index_of, start, finish, respond, outcome,
  read_response, build_request,
}
use logiops.Hidpp20.Device.Slots.{
  System, initial, begins, fails, at, none_left, then_step, receives, Reach, here, next, Inv,
  Answers,
}
use logiops.Hidpp20.Device.Steps.{initial-Inv}
use logiops.Hidpp20.Device.Matching.{Step-Inv, finish-Answers}
use logiops.Hidpp20.Device.Leaks.{start-failed}
use logiops.Hidpp20.Device.Requests.{start-respond-finish, IsRequest, build_request_lem}

-- The call that `refused` answers.
abbrev request : Report
request = record { bytes = 0x10 ∷ 0x01 ∷ 0x05 ∷ 0x12 ∷ 0 ∷ 0 ∷ 0 ∷ [] }

abbrev claimed : List ResponseSlot
claimed = set no_responses 5 (record { response = none; feature = some 5; address = some 0x12 })

abbrev answered : List ResponseSlot
answered =
    set no_responses 5
      (record { response = some (error20 refusal); feature = some 5; address = some 0x12 })

request-claims : start (ok tt) request no_responses ≡ some (ok tt, claimed)
unfolding start feature address
request-claims = refl

refused-answers : respond refused claimed ≡ (answered, true)
unfolding respond read_response is_error20 feature address
refused-answers = refl

abbrev waiting : System
waiting = record { slots = claimed; flying = request ∷ []; failed = [] }

abbrev done : System
done = record { slots = (respond refused claimed).0; flying = request ∷ []; failed = [] }

waiting-Reach : Reach waiting
waiting-Reach = next here (begins request claimed request-claims)

done-finish : finish request done.slots ≡ some (outcome (error20 refusal), no_responses)
unfolding finish respond read_response is_error20 feature address
done-finish = refl

Step-Inv_example : Inv waiting
Step-Inv_example = Step-Inv (begins {s = initial} request claimed request-claims) initial-Inv

finish-Answers_example :
    ((x : Response) × Answers request x × (outcome (error20 refusal) ≡ outcome x))
    ⊎ (outcome (error20 refusal) ≡ err timeout_error)
finish-Answers_example =
    finish-Answers {s = done} [] request [] (outcome (error20 refusal)) no_responses
      (next waiting-Reach (receives refused)) refl (inl done-finish)

-- The write of the request throws.
abbrev unsent : System
unsent = record { slots = claimed; flying = []; failed = request ∷ [] }

unsent-Reach : Reach unsent
unfolding start feature address
unsent-Reach = next here (fails request timeout_error claimed refl)

-- A report comes in afterwards; a call of the feature 21 goes through the same slot.
abbrev other : Report
other = record { bytes = 0x10 ∷ 0x01 ∷ 0x15 ∷ 0x12 ∷ 0 ∷ 0 ∷ 0 ∷ [] }

start-failed_example : start (ok tt) other (respond refused claimed).0 ≡ none
unfolding at feature
start-failed_example =
    start-failed {s = unsent} {t = record unsent { slots = (respond refused claimed).0 }} (ok tt)
      other unsent-Reach (λ e. cc) (then_step none_left (receives refused))

refused-reads : read_response refused ≡ (feature request, 0x12, error20 refusal)
unfolding read_response is_error20 feature
refused-reads = refl

start-respond-finish_example :
    ((respond refused claimed).1 ≡ true)
    × (finish request (respond refused claimed).0
        ≡ some (outcome (error20 refusal), set no_responses (index_of (feature request)) free))
unfolding address
start-respond-finish_example =
    start-respond-finish request refused 0x12 (error20 refusal) no_responses claimed refl
      request-claims refused-reads refl

build_request_lem_example :
    ((2 ≤ 3) × IsRequest (build_request 1 5 1 (3 ∷ 4 ∷ [])) short 1 5 1 (3 ∷ 4 ∷ []))
    ⊎ ((3 < 2) × (2 ≤ 16) × IsRequest (build_request 1 5 1 (3 ∷ 4 ∷ [])) long 1 5 1 (3 ∷ 4 ∷ []))
    ⊎ ((16 < 2) × (build_request 1 5 1 (3 ∷ 4 ∷ []) ≡ err assertion_failed))
build_request_lem_example =
    build_request_lem 1 5 1 (3 ∷ 4 ∷ []) (omega arith) (omega arith) (omega arith) (omega arith)
