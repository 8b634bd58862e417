-- ===== src/Hidpp20/Device.antt =====
-- src/logid/backend/hidpp20/Device.cpp: requests and the slots that match responses to them. The
-- slots are guarded by one mutex, so each stretch of `sendReport` between two waits, and all of
-- `responseReport`, is one step on them: `start`, `respond`, `finish` and `expire`.
pub mod Slots
pub mod Steps
pub mod Matching
pub mod Leaks
pub mod Requests
pub mod Tests
use logiops.Prelude.{
  ℕ, ◌+◌, ◌*◌, ◌%◌, ◌≡◌, Bool, true, false, not, ◌||◌, Option, none, some, List, [], ◌∷◌, bit_and,
  bit_or, leb, ◌==◌, if◌then◌else◌, length, get_or, set, replicate,
}
use logiops.Prelude.Exn.{Result, ok, err, ◌>>=◌, ◌>>◌, assert, timeout_error, hidpp20_error}
use logiops.Hidpp.Defs.{
  short, long, short_param_length, long_param_length, software_id, no_ack_software_id,
  short_report_supported, long_report_supported,
}
use logiops.Hidpp.Report.{
  Report, Hidpp20Error, make_feature, feature, address, type_of, set_type, set_sw_id, is_error20,
  write_params, params,
}

-- `std::variant<Report, Report::Hidpp20Error>`.
pub data Response : Type 0 where
  report : Report → Response
  error20 : Hidpp20Error → Response

pub record ResponseSlot : Type 0 where
  pub response : Option Response
  pub feature : Option ℕ
  pub address : Option ℕ

-- The slot after `reset`, and at the start.
abbrev pub free : ResponseSlot
free = record { response = none; feature = none; address = none }

abbrev pub response_count : ℕ
response_count = 16

abbrev pub no_responses : List ResponseSlot
no_responses = replicate response_count free

abbrev pub index_of : ℕ → ℕ
index_of feature = feature % response_count

abbrev pub slot_of : List ResponseSlot → ℕ → ResponseSlot
slot_of slots feature = get_or slots (index_of feature) free

abbrev pub has_value {ℓ} : {A : Type ℓ} → Option A → Bool
has_value none = false
has_value (some _) = true

-- `sendReport` up to its second wait, for what `_sendReport` does: `none` while another request holds
-- the slot. A write that throws leaves the slot claimed.
unfoldable pub start :
    Result (Unit {0}) → Report → List ResponseSlot → Option (Result (Unit {0}) × List ResponseSlot)
start written r slots =
    let slot = slot_of slots (feature r) in
    if has_value slot.feature
    then none
    else some (
      written,
      set slots (index_of (feature r))
          (record slot { feature = some (feature r); address = some (address r) }),
    )

-- What the caller of `sendReport` gets for a response.
unfoldable pub outcome : Response → Result Report
outcome (report r) = ok r
outcome (error20 e) = err (hidpp20_error e.error_code e.device_index)

-- `sendReport` once its second wait ended by its condition: `none` while there is no response.
unfoldable pub finish : Report → List ResponseSlot → Option (Result Report × List ResponseSlot)
unfolding outcome
finish r slots = elim (slot_of slots (feature r)).response [
  | none ↦ none
  | some x ↦ some (outcome x, set slots (index_of (feature r)) free)
]

-- `sendReport` once its second wait timed out with no response.
unfoldable pub expire : Report → List ResponseSlot → Option (Result Report × List ResponseSlot)
expire r slots = elim (slot_of slots (feature r)).response [
  | none ↦ some (err timeout_error, set slots (index_of (feature r)) free)
  | some x ↦ none
]

-- The feature, the address and the response that a received report stands for.
unfoldable pub read_response : Report → ℕ × ℕ × Response
read_response r = elim (is_error20 r) [
  | some e ↦ (e.feature_index, bit_or (e.function * 16) (bit_and e.software_id 0x0f), error20 e)
  | none ↦ (feature r, address r, report r)
]

abbrev pub holds : Option ℕ → ℕ → Bool
holds none v = false
holds (some w) v = w == v

-- `responseReport`: whether the report is a response, and the slots after it.
unfoldable pub respond : Report → List ResponseSlot → List ResponseSlot × Bool
respond r slots =
    let (f, a, x) = read_response r in
    let slot = slot_of slots f in
    if not (holds slot.feature f) || not (holds slot.address a)
    then (slots, false)
    else (set slots (index_of f) (record slot { response = some x }), true)

-- `hidpp::Device::reportFixup`, for the report sizes that the raw device supports.
unfoldable pub report_fixup : ℕ → Report → Result Report
report_fixup supported_reports r =
    if type_of r == short
    then (if bit_and supported_reports short_report_supported == 0 then set_type long r else ok r)
    else (if type_of r == long
        then (assert (not (bit_and supported_reports long_report_supported == 0)) >> ok r)
        else ok r)

-- The request that `callFunction` and `callFunctionNoResponse` build.
unfoldable pub build_request : ℕ → ℕ → ℕ → List ℕ → Result Report
build_request device_index feature_index function ps = do
  assert (leb (length ps) long_param_length)
  let type = if leb (length ps) short_param_length then short else long
  request ← make_feature type device_index feature_index function software_id
  ok (record { bytes = write_params ps request.bytes })

-- `callFunction`, over what `sendReport` does with the request.
unfoldable pub call_function : (Report → Result Report) → ℕ → ℕ → ℕ → List ℕ → Result (List ℕ)
unfolding build_request
call_function send device_index feature_index function ps = do
  request ← build_request device_index feature_index function ps
  response ← send request
  ok (params response)

-- `sendReportNoACK`: the report that goes to the raw device.
unfoldable pub no_ack : Report → Report
no_ack r = set_sw_id no_ack_software_id r
