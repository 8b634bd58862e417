-- ===== src/Hidpp/Device.antt =====
-- src/logid/backend/hidpp/Device.cpp: the requests of the device base, which has one response for all.
-- A lock on sending lets one request in at a time; `begin`, `respond`, `finish` and `expire` are
-- the steps on the rest. `writes` says whether the raw device takes the report.
pub mod Waiting
pub mod Stale
pub mod Tests
use logiops.Prelude.{
  ℕ, ◌*◌, Bool, true, false, ◌&&◌, ◌||◌, Option, none, some, List, [], ◌∷◌, ◌==◌, bit_and, bit_or,
  ltb, if◌then◌else◌,
}
use logiops.Prelude.Exn.{
  Result, ok, err, ◌>>=◌, Exn, timeout_error, hidpp10_error, hidpp20_error, device_not_ready,
}
use logiops.Hidpp.Report.{
  Report, Hidpp10Error, Hidpp20Error, sub_id, address, is_error10, is_error20,
}

-- `std::variant<Report, Report::Hidpp10Error, Report::Hidpp20Error>`.
pub data Response : Type 0 where
  report : Report → Response
  error10 : Hidpp10Error → Response
  error20 : Hidpp20Error → Response

pub record Slot : Type 0 where
  pub response : Option Response
  pub sent_sub_id : Option ℕ
  pub sent_address : Option ℕ

abbrev pub unused : Slot
unused = record { response = none; sent_sub_id = none; sent_address = none }

-- `sendReport` up to its wait. A write that fails throws, and leaves what was sent.
unfoldable pub begin : Report → Result (Unit {0}) → Slot → Slot × Result (Unit {0})
begin r writes s =
    (record s { sent_sub_id = some (sub_id r); sent_address = some (address r) }, writes)

-- What the caller gets for a response.
unfoldable pub outcome : Response → Result Report
outcome (report r) = ok r
outcome (error10 e) = err (hidpp10_error e.error_code e.device_index)
outcome (error20 e) = err (hidpp20_error e.error_code e.device_index)

-- The wait ends by its condition: `none` while there is no response.
unfoldable pub finish : Slot → Option (Slot × Result Report)
unfolding outcome
finish s = elim s.response [ none ↦ none | some x ↦ some (unused, outcome x) ]

-- The wait ends by its time, with no response.
unfoldable pub expire : Slot → Option (Slot × Result Report)
expire s = elim s.response [
  | none ↦ some (record s { sent_sub_id = none }, err timeout_error)
  | some x ↦ none
]

-- What a report answers, and the response that is kept of it: for a HID++ 2.0 error, the report.
unfoldable pub read_response : Report → ℕ × ℕ × Response
read_response r = elim (is_error10 r) [
  | some e ↦ (e.sub_id, e.address, error10 e)
  | none ↦ elim (is_error20 r) [
    | some e ↦ (e.feature_index, bit_or (e.function * 16) (bit_and e.software_id 0x0f), report r)
    | none ↦ (sub_id r, address r, report r)
  ]
]

abbrev pub holds : Option ℕ → ℕ → Bool
holds none v = false
holds (some w) v = v == w

-- `responseReport`.
unfoldable pub respond : Report → Slot → Slot × Bool
unfolding read_response
respond r s =
    let (i, a, x) = read_response r in
    if holds s.sent_sub_id i && holds s.sent_address a
    then (record s { response = some x }, true)
    else (s, false)

-- `handleEvent`: whether the handlers of events see the report.
unfoldable pub handle_event : Report → Slot → Slot × Bool
unfolding respond
handle_event r s = let taken = respond r s in (taken.0, if taken.1 then false else true)

-- `hidpp10::Error::InvalidSubID`.
abbrev pub invalid_sub_id : ℕ
invalid_sub_id = 1

-- `isStable20`, for what the pings of the letters of "hello" give.
unfoldable pub is_stable20 : List (ℕ × Result ℕ) → Bool
is_stable20 [] = true
is_stable20 ((c, err exn) ∷ rest) = false
is_stable20 ((c, ok answer) ∷ rest) = (answer == c) && is_stable20 rest

-- The version that `_init` settles on, and its stability test.
unfoldable pub version_of : Result (ℕ × ℕ) → Result (ℕ × ℕ)
version_of (err (hidpp10_error code index)) =
    if code == invalid_sub_id then ok (1, 0) else err (hidpp10_error code index)
version_of (err (hidpp20_error code index)) = err device_not_ready
version_of (err exn) = err exn
version_of (ok version) = ok version

abbrev pub if_stable : List (ℕ × Result ℕ) → ℕ × ℕ → Result (ℕ × ℕ)
if_stable pings (major, minor) =
    if ltb major 2 || is_stable20 pings then ok (major, minor) else err device_not_ready

unfoldable pub init_version : Result (ℕ × ℕ) → List (ℕ × Result ℕ) → Result (ℕ × ℕ)
unfolding version_of is_stable20
init_version asked pings = do version ← version_of asked; if_stable pings version
