-- ===== src/Hidpp20/ReprogControls.antt =====
-- src/logid/backend/hidpp20/features/ReprogControls.cpp: the controls of a device, and how they are
-- diverted. `call` stands for `callFunction` of the feature: a function and its parameters give the
-- bytes of the response, or an exception.
pub mod CidMap
pub mod Tests
use logiops.Prelude.{
  ℕ, zero, suc, ◌+◌, ◌*◌, ◌/◌, ◌^◌, Bool, true, false, not, Option, none, some, List, [], ◌∷◌, ◌==◌,
  bit_and, bit_or, if◌then◌else◌,
}
use logiops.Prelude.Int.{ℤ, signed16}
use logiops.Prelude.Exn.{Result, ok, err, ◌>>=◌, hidpp20_error}
use logiops.Prelude.Bytes.{byte_at}
use logiops.Manager.Maps.{find, emplace}

abbrev pub Call : Type 0
Call = ℕ → List ℕ → Result (List ℕ)

-- `ReprogControls::Function`.
abbrev pub get_control_count_function : ℕ
get_control_count_function = 0

abbrev pub get_control_info_function : ℕ
get_control_info_function = 1

abbrev pub get_control_reporting_function : ℕ
get_control_reporting_function = 2

abbrev pub set_control_reporting_function : ℕ
set_control_reporting_function = 3

-- `ReprogControls::ControlInfo`.
pub record ControlInfo : Type 0 where
  pub control_id : ℕ
  pub task_id : ℕ
  pub flags : ℕ
  pub position : ℕ
  pub group : ℕ
  pub group_mask : ℕ
  pub additional_flags : ℕ

abbrev pub no_control : ControlInfo
no_control = record {
  control_id = 0;
  task_id = 0;
  flags = 0;
  position = 0;
  group = 0;
  group_mask = 0;
  additional_flags = 0;
}

-- `x = response[i + 1]; x |= response[i] << 8;`
abbrev pub word_at : List ℕ → ℕ → Result ℕ
word_at response i = do
  low ← byte_at response (i + 1)
  high ← byte_at response i
  ok (bit_or low (high * 256))

unfoldable pub get_control_count : Call → Result ℕ
get_control_count call = do response ← call get_control_count_function []; byte_at response 0

unfoldable pub get_control_info : Call → ℕ → Result ControlInfo
get_control_info call index = do
  response ← call get_control_info_function (index ∷ [])
  control_id ← word_at response 0
  task_id ← word_at response 2
  flags ← byte_at response 4
  position ← byte_at response 5
  group ← byte_at response 6
  group_mask ← byte_at response 7
  additional_flags ← byte_at response 8
  ok (record {
    control_id = control_id;
    task_id = task_id;
    flags = flags;
    position = position;
    group = group;
    group_mask = group_mask;
    additional_flags = additional_flags;
  })

-- `_cids` and `_cids_initialized`.
pub record Cids : Type 0 where
  pub map : List (ℕ × ControlInfo)
  pub initialized : Bool

-- The loop of `initCidMap` over `n` controls from `i` on: the map, and how the loop ends.
unfoldable pub read_controls :
    Call → ℕ → ℕ → List (ℕ × ControlInfo) → List (ℕ × ControlInfo) × Result (Unit {0})
unfolding get_control_info
read_controls call zero i map = (map, ok tt)
read_controls call (suc n) i map = elim (get_control_info call i) [
  | err exn ↦ (map, err exn)
  | ok info ↦ read_controls call n (suc i) (emplace info.control_id info map)
]

-- `initCidMap`.
unfoldable pub init_cid_map : Call → Cids → Cids × Result (Unit {0})
unfolding get_control_count read_controls
init_cid_map call s = if s.initialized then (s, ok tt) else elim (get_control_count call) [
  | err exn ↦ (s, err exn)
  | ok count ↦
      let read = read_controls call count 0 s.map in
      elim read.1 [
        | err exn ↦ (record s { map = read.0 }, err exn)
        | ok _ ↦ (record { map = read.0; initialized = true }, ok tt)
      ]
]

-- `hidpp20::Error::InvalidArgument`.
abbrev pub invalid_argument20 : ℕ
invalid_argument20 = 2

-- `getControlIdInfo` after `initCidMap`.
unfoldable pub look_up : ℕ → ℕ → Cids × Result (Unit {0}) → Cids × Result ControlInfo
look_up device_index cid (s, err exn) = (s, err exn)
look_up device_index cid (s, ok _) = elim (find cid s.map) [
  | some info ↦ (s, ok info)
  | none ↦ (s, err (hidpp20_error invalid_argument20 device_index))
]

-- `getControlIdInfo`, of a device with this index.
unfoldable pub get_control_id_info : Call → ℕ → ℕ → Cids → Cids × Result ControlInfo
unfolding init_cid_map look_up
get_control_id_info call device_index cid s = look_up device_index cid (init_cid_map call s)

-- `ControlInfoFlags`, `ControlInfoAdditionalFlags` and `ControlReportingFlags`, by their bits.
abbrev pub has_flag : ℕ → ℕ → Bool
has_flag flags bit = not (bit_and flags bit == 0)

-- `ReprogControls::getControlReporting`, which emulates the call, for the information of a control.
unfoldable pub emulated_reporting : ℕ → ControlInfo → ControlInfo
emulated_reporting cid info =
    let temporary = if has_flag info.flags 0x20 then 0x01 else 0 in
    let persistent = if has_flag info.flags 0x40 then 0x04 else 0 in
    let raw_xy = if has_flag info.additional_flags 0x01 then 0x10 else 0 in
    record no_control { control_id = cid; flags = bit_or (bit_or temporary persistent) raw_xy }

-- `(x >> 8) & 0xff` and `x & 0xff`.
abbrev pub high_byte : ℕ → ℕ
high_byte x = bit_and (x / 2 ^ 8) 0xff

abbrev pub low_byte : ℕ → ℕ
low_byte x = bit_and x 0xff

-- `ReprogControlsV4::getControlReporting`.
unfoldable pub get_control_reporting : Call → ℕ → Result ControlInfo
get_control_reporting call cid = do
  response ← call get_control_reporting_function (high_byte cid ∷ low_byte cid ∷ [])
  control_id ← word_at response 0
  flags ← byte_at response 2
  ok (record no_control { control_id = control_id; flags = flags })

-- The parameters of `ReprogControlsV4::setControlReporting`.
abbrev pub reporting_params : ℕ → ControlInfo → List ℕ
reporting_params cid info =
    high_byte cid
    ∷ low_byte cid
    ∷ info.flags
    ∷ high_byte info.control_id
    ∷ low_byte info.control_id
    ∷ []

unfoldable pub set_control_reporting : Call → ℕ → ControlInfo → Result (Unit {0})
set_control_reporting call cid info = do
  response ← call set_control_reporting_function (reporting_params cid info)
  ok tt

-- `(int16_t) ((params[i] << 8) | params[i + 1])`.
abbrev pub int16_at : List ℕ → ℕ → Result ℤ
int16_at params i = do
  high ← byte_at params i
  low ← byte_at params (i + 1)
  ok (signed16 (bit_or (high * 256) low))

-- `divertedRawXYEvent`, for the parameters of the report.
unfoldable pub diverted_raw_xy : List ℕ → Result (ℤ × ℤ)
diverted_raw_xy params = do x ← int16_at params 0; y ← int16_at params 2; ok (x, y)
