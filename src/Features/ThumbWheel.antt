-- ===== src/Features/ThumbWheel.antt =====
-- src/logid/features/ThumbWheel.cpp and src/logid/backend/hidpp20/features/ThumbWheel.cpp: the events of
-- a thumb wheel and what its actions and gestures are told of them, and what is set on the bus.
pub mod Tracks
pub mod Levels
pub mod Tests
use logiops.Prelude.{
  ℕ, zero, suc, ◌*◌, Bool, true, false, not, ◌&&◌, Option, none, some, List, [], ◌∷◌, ◌++◌, ◌==◌,
  bit_and, if◌then◌else◌, from_bool,
}
use logiops.Prelude.Exn.{Result, ok, err, ◌>>=◌}
use logiops.Prelude.Bytes.{byte_at}
use logiops.Prelude.Int.{ℤ, pos, negsuc, ◌*ℤ◌, neg, int16}
use logiops.Hidpp20.ReprogControls.{word_at, int16_at, has_flag}

-- `ThumbWheel::Capabilities`.
abbrev pub touch_flag : ℕ
touch_flag = 2

abbrev pub proxy_flag : ℕ
proxy_flag = 4

abbrev pub tap_flag : ℕ
tap_flag = 8

-- `ThumbWheel::RotationStatus`.
abbrev pub inactive : ℕ
inactive = 0

abbrev pub start : ℕ
start = 1

abbrev pub stop : ℕ
stop = 3

pub record Info : Type 0 where
  pub native_res : ℕ
  pub diverted_res : ℕ
  pub default_direction : ℤ
  pub capabilities : ℕ
  pub time_elapsed : ℕ

-- `getInfo`, for the bytes of the response.
unfoldable pub get_info : List ℕ → Result Info
get_info response = do
  native_res ← word_at response 0
  diverted_res ← word_at response 2
  increments_right ← byte_at response 4
  capabilities ← byte_at response 5
  time_elapsed ← word_at response 6
  ok (record {
    native_res = native_res;
    diverted_res = diverted_res;
    default_direction = if increments_right == 0 then negsuc 0 else pos 1;
    capabilities = capabilities;
    time_elapsed = time_elapsed;
  })

pub record Status : Type 0 where
  pub diverted : Bool
  pub inverted : Bool
  pub touch : Bool
  pub proxy : Bool

-- `getStatus`.
unfoldable pub get_status : List ℕ → Result Status
get_status response = do
  diverted ← byte_at response 0
  bits ← byte_at response 1
  ok (record {
    diverted = not (diverted == 0);
    inverted = has_flag bits 1;
    touch = has_flag bits 2;
    proxy = has_flag bits 4;
  })

-- The parameters of `setStatus(divert, invert)`.
abbrev pub status_params : Bool → Bool → List ℕ
status_params divert invert = from_bool divert ∷ from_bool invert ∷ []

pub record Event : Type 0 where
  pub rotation : ℤ
  pub timestamp : ℕ
  pub rotation_status : ℕ
  pub flags : ℕ

-- `thumbwheelEvent`, for the parameters of the report.
unfoldable pub thumbwheel_event : List ℕ → Result Event
thumbwheel_event params = do
  rotation ← int16_at params 0
  timestamp ← word_at params 2
  rotation_status ← byte_at params 4
  flags ← byte_at params 5
  ok (record {
    rotation = rotation;
    timestamp = timestamp;
    rotation_status = rotation_status;
    flags = flags;
  })

-- The actions and the gestures of the wheel.
pub data Target : Type 0 where
  tap proxy touch : Target

pub data Side : Type 0 where
  left right : Side

-- What they are told; a gesture is pressed as `press(true)` and released as `release(false)`.
pub data Effect : Type 0 where
  press_action release_action : Target → Effect
  press_gesture release_gesture : Side → Effect
  move_gesture : Side → ℤ → Effect

-- Which of them there are, and the direction of the wheel.
pub record Wheel : Type 0 where
  pub has_action : Target → Bool
  pub has_gesture : Side → Bool
  pub default_direction : ℤ

-- `_last_proxy` and `_last_touch`.
pub record Last : Type 0 where
  pub proxy : Bool
  pub touch : Bool

abbrev pub if_any : Bool → List Effect → List Effect
if_any true es = es
if_any false es = []

abbrev pub differs : Bool → Bool → Bool
differs true b = not b
differs false b = b

-- `_last = !_last`, if the flag is not `_last`.
abbrev pub toggled : Bool → Bool → Bool
toggled flag last = if differs flag last then not last else last

-- What the action of a flag is told.
abbrev pub edge : Bool → Target → Bool → Bool → List Effect
edge has t flag last =
    if_any (differs flag last && has) ((if not last then press_action t else release_action t) ∷ [])

-- The gesture of the direction of `rotation`.
abbrev pub scroll : Wheel → ℤ → List Effect
scroll w (pos zero) = []
scroll w (pos (suc n)) =
    if_any (w.has_gesture right)
      (press_gesture right ∷ move_gesture right (int16 (pos (suc n))) ∷ [])
scroll w (negsuc n) =
    if_any (w.has_gesture left)
      (press_gesture left ∷ move_gesture left (int16 (neg (negsuc n))) ∷ [])

-- Both gestures, the right one first.
abbrev pub both : Wheel → (Side → Effect) → List Effect
both w told =
    if_any (w.has_gesture right) (told right ∷ []) ++ if_any (w.has_gesture left) (told left ∷ [])

abbrev pub rotate : Wheel → ℕ → ℤ → List Effect
rotate w status rotation =
    if_any (status == start) (both w press_gesture)
    ++ (scroll w (int16 (rotation *ℤ w.default_direction))
        ++ if_any (status == stop) (both w release_gesture))

-- `_handleEvent`.
unfoldable pub handle_event : Wheel → Event → Last → List Effect × Last
handle_event w event last =
    let proxy_now = has_flag event.flags proxy_flag in
    let touch_now = has_flag event.flags touch_flag in
    (
      if_any (has_flag event.flags tap_flag && w.has_action tap)
            (press_action tap ∷ release_action tap ∷ [])
          ++ (edge (w.has_action proxy) proxy proxy_now last.proxy
              ++ (edge (w.has_action touch) touch touch_now last.touch
                  ++ if_any (not (event.rotation_status == inactive))
                      (rotate w event.rotation_status event.rotation))),
      record { proxy = toggled proxy_now last.proxy; touch = toggled touch_now last.touch },
    )

-- `config::ThumbWheel`, without the actions and the gestures.
pub record Config : Type 0 where
  pub divert : Option Bool
  pub invert : Option Bool

abbrev pub or_false : Option Bool → Bool
or_false none = false
or_false (some b) = b

-- `IPC::_parentConfig`.
abbrev pub parent_config : Option Config → Config
parent_config none = record { divert = none; invert = none }
parent_config (some c) = c

-- `configure`: the status that is set, if one is.
unfoldable pub configured : Option Config → Option (Bool × Bool)
configured none = none
configured (some c) = some (or_false c.divert, or_false c.invert)

-- `IPC::getConfig`.
unfoldable pub get_config : Option Config → Bool × Bool
get_config none = (false, false)
get_config (some c) = (or_false c.divert, or_false c.invert)

-- `IPC::setDivert` and `IPC::setInvert`: the configuration, and the status that is set.
unfoldable pub set_divert : Bool → Option Config → Option Config × (Bool × Bool)
set_divert divert config =
    let c = parent_config config in
    (some (record c { divert = some divert }), (divert, or_false c.invert))

unfoldable pub set_invert : Bool → Option Config → Option Config × (Bool × Bool)
set_invert invert config =
    let c = parent_config config in
    (some (record c { invert = some invert }), (or_false c.divert, invert))
