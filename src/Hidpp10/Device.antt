-- ===== src/Hidpp10/Device.antt =====
-- src/logid/backend/hidpp10/Device.cpp: register requests, and the four slots that match responses
-- to them. The slots are guarded by one mutex, so each stretch of `sendReport` between two waits,
-- and all of `responseReport`, is one step on them.
pub mod Requests
pub mod Wakeup
pub mod Tests
use logiops.Prelude.{
  ℕ, ◌%◌, ◌≡◌, Bool, true, false, not, ◌||◌, Option, none, some, List, [], ◌∷◌, leb, ◌==◌,
  if◌then◌else◌, length, get_or, set, replicate,
}
use logiops.Prelude.Exn.{Result, ok, err, ◌>>=◌, ◌>>◌, assert, timeout_error, hidpp10_error}
use logiops.Hidpp.Defs.{short, long, short_param_length, long_param_length}
use logiops.Hidpp.Report.{Report, Hidpp10Error, make, sub_id, is_error10, write_params, params}
use logiops.Hidpp10.Defs.{
  set_register_short, get_register_short, set_register_long, get_register_long, sub_id_count,
}

-- `setupRegReport`.
unfoldable pub setup_reg_report : ℕ → ℕ → ℕ → List ℕ → Result Report
setup_reg_report index sub_id address ps = do
  let type = if leb (length ps) short_param_length then short else long
  let type' = if sub_id == set_register_long then long else type
  request ← make type' index sub_id address
  ok (record { bytes = write_params ps request.bytes })

-- `std::variant<Report, Report::Hidpp10Error>`.
pub data Response : Type 0 where
  report : Report → Response
  error10 : Hidpp10Error → Response

pub record ResponseSlot : Type 0 where
  pub response : Option Response
  pub sub_id : Option ℕ

-- The slot after `reset`, and at the start.
abbrev pub free : ResponseSlot
free = record { response = none; sub_id = none }

abbrev pub no_responses : List ResponseSlot
no_responses = replicate sub_id_count free

abbrev pub slot_of : List ResponseSlot → ℕ → ResponseSlot
slot_of slots sub_id = get_or slots (sub_id % sub_id_count) free

abbrev pub has_value {ℓ} : {A : Type ℓ} → Option A → Bool
has_value none = false
has_value (some _) = true

-- `sendReport` up to its second wait, for what `_sendReport` does: `none` while another request holds
-- the slot. A write that throws leaves the slot claimed.
unfoldable pub start :
    Result (Unit {0}) → Report → List ResponseSlot → Option (Result (Unit {0}) × List ResponseSlot)
start written r slots =
    let slot = slot_of slots (sub_id r) in
    if has_value slot.sub_id
    then none
    else some
        (written, set slots (sub_id r % sub_id_count) (record slot { sub_id = some (sub_id r) }))

-- What the caller of `sendReport` gets for a response.
unfoldable pub outcome : Response → Result Report
outcome (report r) = ok r
outcome (error10 e) = err (hidpp10_error e.error_code e.device_index)

-- `sendReport` once its second wait ended by its condition: `none` while there is no response.
unfoldable pub finish : Report → List ResponseSlot → Option (Result Report × List ResponseSlot)
unfolding outcome
finish r slots = elim (slot_of slots (sub_id r)).response [
  | none ↦ none
  | some x ↦ some (outcome x, set slots (sub_id r % sub_id_count) free)
]

-- `sendReport` once its second wait timed out with no response.
unfoldable pub expire : Report → List ResponseSlot → Option (Result Report × List ResponseSlot)
expire r slots = elim (slot_of slots (sub_id r)).response [
  | none ↦ some (err timeout_error, set slots (sub_id r % sub_id_count) free)
  | some x ↦ none
]

-- The sub id and the response that a received report stands for.
unfoldable pub read_response : Report → ℕ × Response
read_response r = elim (is_error10 r) [
  | some e ↦ (e.sub_id, error10 e)
  | none ↦ (sub_id r, report r)
]

abbrev pub holds : Option ℕ → ℕ → Bool
holds none v = false
holds (some w) v = w == v

-- `responseReport`: whether the report is a response, after which all waiting threads are notified,
-- and the slots after it.
unfoldable pub respond : Report → List ResponseSlot → List ResponseSlot × Bool
respond r slots =
    let (s, x) = read_response r in
    let slot = slot_of slots s in
    if not (holds slot.sub_id s)
    then (slots, false)
    else (set slots (s % sub_id_count) (record slot { response = some x }), true)

-- `accessRegister`, over what `sendReport` does with the request.
unfoldable pub access_register : (Report → Result Report) → ℕ → ℕ → ℕ → List ℕ → Result (List ℕ)
unfolding setup_reg_report
access_register send index sub_id address ps = do
  request ← setup_reg_report index sub_id address ps
  response ← send request
  ok (params response)

-- `getRegister`.
unfoldable pub get_register : (Report → Result Report) → ℕ → ℕ → List ℕ → ℕ → Result (List ℕ)
unfolding access_register
get_register send index address ps type =
    assert (leb (length ps) long_param_length)
    >> access_register send index (if type == short then get_register_short else get_register_long)
        address ps

-- `setRegister`.
unfoldable pub set_register : (Report → Result Report) → ℕ → ℕ → List ℕ → ℕ → Result (List ℕ)
unfolding access_register
set_register send index address ps type =
    assert (leb (length ps) long_param_length)
    >> access_register send index (if type == short then set_register_short else set_register_long)
        address ps

-- `setRegisterNoResponse`: the report that goes to `sendReportNoACK`.
unfoldable pub set_register_no_response : ℕ → ℕ → List ℕ → ℕ → Result Report
unfolding setup_reg_report
set_register_no_response index address ps type =
    assert (leb (length ps) long_param_length)
    >> setup_reg_report index (if type == short then set_register_short else set_register_long)
        address ps
