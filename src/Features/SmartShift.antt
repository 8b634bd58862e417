-- ===== src/Features/SmartShift.antt =====
-- src/logid/features/SmartShift.cpp and src/logid/backend/hidpp20/features/SmartShift.cpp: the ratchet of
-- a wheel, with the second version of the feature. A value is a byte.
pub mod Configured
pub mod Values
pub mod Serving
pub mod Tests
use logiops.Prelude.{
  ℕ, ◌+◌, ◌-◌, Bool, true, false, not, Option, none, some, List, [], ◌∷◌, ◌==◌, ltb, to_bool,
  from_bool, if◌then◌else◌,
}
use logiops.Prelude.Exn.{Result, ok, err, ◌>>=◌, invalid_argument}
use logiops.Prelude.Bytes.{byte_at}

-- `config::SmartShift`.
pub record Config : Type 0 where
  pub on : Option Bool
  pub threshold : Option ℕ
  pub torque : Option ℕ

-- What the constructor does to the configuration.
unfoldable pub clip_threshold : ℕ → ℕ
clip_threshold threshold = if threshold == 0 then 1 else threshold

unfoldable pub clip_torque : ℕ → ℕ
clip_torque torque = if torque == 0 then 1 else (if ltb 100 torque then 100 else torque)

abbrev pub clip_if : (ℕ → ℕ) → Option ℕ → Option ℕ
clip_if clip none = none
clip_if clip (some x) = some (clip x)

unfoldable pub clip : Config → Config
unfolding clip_threshold clip_torque
clip c = record c {
  threshold = clip_if clip_threshold c.threshold;
  torque = clip_if clip_torque c.torque;
}

-- `SmartShift::Status`, where `none` is a value that is not to be set.
pub record NewStatus : Type 0 where
  pub active : Option Bool
  pub auto_disengage : Option ℕ
  pub torque : Option ℕ

-- `configure`: the status that is set.
unfoldable pub configured : Config → NewStatus
configured c = record { active = c.on; auto_disengage = c.threshold; torque = c.torque }

abbrev pub active_byte : Option Bool → ℕ
active_byte none = 0
active_byte (some active) = from_bool active + 1

abbrev pub byte_or_zero : Option ℕ → ℕ
byte_or_zero none = 0
byte_or_zero (some x) = x

-- The parameters of `SmartShiftV2::setStatus`.
unfoldable pub status_params : NewStatus → List ℕ
status_params s = active_byte s.active ∷ byte_or_zero s.auto_disengage ∷ byte_or_zero s.torque ∷ []

pub record Status : Type 0 where
  pub active : Bool
  pub auto_disengage : ℕ
  pub torque : ℕ

-- `SmartShiftV2::getStatus`, for the bytes of the response; `response[0] - 1` is -1 for 0, which is true.
unfoldable pub read_status : List ℕ → Result Status
unfolding byte_at
read_status response = do
  mode ← byte_at response 0
  auto_disengage ← byte_at response 1
  torque ← byte_at response 2
  ok (record { active = not (mode == 1); auto_disengage = auto_disengage; torque = torque })

-- `IPC::getConfig` for a configuration, with the defaults of the device.
abbrev pub active_code : Option Bool → ℕ
active_code none = 0
active_code (some true) = 2
active_code (some false) = 1

abbrev pub value_or : Option ℕ → ℕ → ℕ
value_or none d = d
value_or (some x) d = x

unfoldable pub get_config : Config → ℕ → ℕ → ℕ × ℕ × ℕ
get_config c default_threshold default_torque =
    (active_code c.on, value_or c.threshold default_threshold, value_or c.torque default_torque)

abbrev pub no_status : NewStatus
no_status = record { active = none; auto_disengage = none; torque = none }

abbrev pub no_config : Config
no_config = record { on = none; threshold = none; torque = none }

abbrev pub or_no_config : Option Config → Config
or_no_config none = no_config
or_no_config (some c) = c

-- What the setters on the bus do: the configuration, and the status that is set, if one is.
abbrev pub Served : Type 0
Served = Option Config × Option NewStatus

-- `IPC::setActive(active, clear)`.
unfoldable pub set_active : Bool → Bool → Option Config → Served
set_active active true none = (none, none)
set_active active true (some c) = (some (record c { on = none }), none)
set_active active false c = (
  some (record (or_no_config c) { on = some active }),
  some (record no_status { active = some active }),
)

-- `IPC::setThreshold(threshold, clear)`, with the default of the device.
unfoldable pub set_threshold : ℕ → ℕ → Bool → Option Config → Served
unfolding clip_threshold
set_threshold default threshold true none =
    (none, some (record no_status { auto_disengage = some default }))
set_threshold default threshold true (some c) = (
  some (record c { threshold = none }),
  some (record no_status { auto_disengage = some default }),
)
set_threshold default threshold false c = (
  some (record (or_no_config c) { threshold = some (clip_threshold threshold) }),
  some (record no_status { auto_disengage = some (clip_threshold threshold) }),
)

-- `IPC::setTorque(torque, clear)` of a wheel that has a torque; without one it throws.
unfoldable pub set_torque : Bool → ℕ → ℕ → Bool → Option Config → Result Served
unfolding clip_torque
set_torque false default torque clear c = err invalid_argument
set_torque true default torque true none =
    ok (none, some (record no_status { torque = some default }))
set_torque true default torque true (some c) =
    ok (some (record c { torque = none }), some (record no_status { torque = some default }))
set_torque true default torque false c = ok (
  some (record (or_no_config c) { torque = some (clip_torque torque) }),
  some (record no_status { torque = some (clip_torque torque) }),
)
