-- ===== src/Features/Dpi.antt =====
-- src/logid/backend/hidpp20/features/AdjustableDPI.cpp and src/logid/features/DPI.cpp: the
-- resolutions of the sensors. A `uint16_t` is its number, and sums are taken where they cannot
-- leave it. The `double` quotient that `round` gets is exact enough: both numbers have 16 bits, so
-- `round` gives the nearest integer of the true quotient, halves upwards.
pub mod Closest
pub mod Tests
use logiops.Prelude.{
  ℕ, suc, zero, ◌+◌, ◌-◌, ◌*◌, ◌/◌, ◌%◌, ◌<◌, ◌≡◌, Bool, true, false, not, ◌&&◌, ◌||◌, Option, none,
  some, List, [], ◌∷◌, ◌++◌, bit_or, ltb, leb, ◌==◌, if◌then◌else◌, length, get_elem?, get_or, set,
  replicate,
}
use logiops.Prelude.Exn.{Exn, Result, ok, err, ◌>>=◌, ◌>>◌, division_by_zero, out_of_bounds}
use logiops.Prelude.Bytes.{byte_at}

-- `SensorDPIList`.
pub record SensorDpiList : Type 0 where
  pub dpis : List ℕ
  pub is_range : Bool
  pub dpi_step : ℕ

-- The loop of `getSensorDPIList` over the response from `i` on, for at most `n` rounds.
unfoldable pub read_dpis : ℕ → ℕ → List ℕ → SensorDpiList → Result SensorDpiList
read_dpis zero i response list = ok list
read_dpis (suc n) i response list =
    let rest = (do
      low ← byte_at response (i + 1)
      high ← byte_at response i
      let dpi = bit_or low (high * 256)
      (if dpi == 0
          then ok list
          else (if leb 0xe000 dpi
              then read_dpis n (i + 2) response
                  (record list { is_range = true; dpi_step = dpi - 0xe000 })
              else read_dpis n (i + 2) response
                  (record list { dpis = list.dpis ++ (dpi ∷ []) })))) in
    if ltb i (length response) then rest else ok list

-- What `getSensorDPIList` reads from its response.
unfoldable pub read_dpi_list : List ℕ → Result SensorDpiList
unfolding read_dpis
read_dpi_list response =
    read_dpis (length response) 1 response (record { dpis = []; is_range = false; dpi_step = 0 })

-- What `getSensorDPI` and `getDefaultSensorDPI` read from their responses.
unfoldable pub read_dpi : ℕ → List ℕ → Result ℕ
read_dpi i response = do
  low ← byte_at response (i + 1)
  high ← byte_at response i
  ok (bit_or low (high * 256))

-- The parameters of `setSensorDPI`.
unfoldable pub dpi_params : ℕ → ℕ → List ℕ
dpi_params sensor dpi = sensor ∷ dpi / 256 ∷ dpi % 256 ∷ []

-- `std::min_element` and `std::max_element` of a list with a first element.
abbrev pub min_of : ℕ → List ℕ → ℕ
min_of a [] = a
min_of a (b ∷ bs) = min_of (if ltb b a then b else a) bs

abbrev pub max_of : ℕ → List ℕ → ℕ
max_of a [] = a
max_of a (b ∷ bs) = max_of (if ltb a b then b else a) bs

abbrev pub contains : ℕ → List ℕ → Bool
contains x [] = false
contains x (y ∷ ys) = (y == x) || contains x ys

-- The order `(dpi - a) < (dpi - b)`, in `int`: a difference with its sign.
abbrev pub closer : ℕ → ℕ → ℕ → Bool
closer dpi a b = ltb (dpi + b) (dpi + a)

-- `std::min_element` by that order.
abbrev pub closest_of : ℕ → ℕ → List ℕ → ℕ
closest_of dpi a [] = a
closest_of dpi a (b ∷ bs) = closest_of dpi (if closer dpi b a then b else a) bs

-- The value of a range, between its ends: `min + round((dpi - min) / step) * step` in 16 bits.
unfoldable pub snap : ℕ → ℕ → ℕ → ℕ
snap low step dpi = (low + (2 * (dpi - low) + step) / (2 * step) * step) % 0x10000

-- `getClosestDPI`. A range without ends is dereferenced out of bounds.
unfoldable pub get_closest_dpi : SensorDpiList → ℕ → Result ℕ
unfolding snap
get_closest_dpi list dpi = elim list.dpis [
  | [] ↦ if list.is_range then err out_of_bounds else ok 0
  | a ∷ as' ↦
      if list.is_range
      then (let low = min_of a as' in
          let high = max_of a as' in
          if list.dpi_step == 0
          then err division_by_zero
          else (if leb low dpi && leb dpi high && ((dpi - low) % list.dpi_step == 0)
              then ok dpi
              else (if ltb high dpi
                  then ok high
                  else (if ltb dpi low then ok low else ok (snap low list.dpi_step dpi)))))
      else (if contains dpi (a ∷ as') then ok dpi else ok (closest_of dpi a as'))
]

-- What `configure` sets for a list, as pairs of a sensor and a resolution, and the exception that ends
-- it, if any: `i` is the sensor of the next pair, and `lists` are those of the sensors.
unfoldable pub configure_list : List SensorDpiList → ℕ → List ℕ → List (ℕ × ℕ) × Option Exn
unfolding get_closest_dpi
configure_list lists i [] = ([], none)
configure_list lists i (dpi ∷ dpis) =
    let skipped = configure_list lists i dpis in
    let later = configure_list lists (suc i) dpis in
    if dpi == 0 then skipped else (elim (get_elem? lists i) [
      | none ↦ ([], some out_of_bounds)
      | some list ↦ elim (get_closest_dpi list (dpi % 0x10000)) [
        | err e ↦ ([], some e)
        | ok closest ↦ ((i, closest) ∷ later.0, later.1)
      ]
    ])

-- The configured resolutions: none, one, or one for each sensor.
pub data DpiConfig : Type 0 where
  not_set : DpiConfig
  one : ℕ → DpiConfig
  each : List ℕ → DpiConfig

-- `while (list.size() <= sensor) list.emplace_back(0)`.
abbrev pub pad : ℕ → List ℕ → List ℕ
pad zero list = list
pad (suc n) [] = 0 ∷ pad n []
pad (suc n) (d ∷ list) = d ∷ pad n list

-- The configuration after `IPC::setDPI`.
unfoldable pub set_dpi_config : ℕ → ℕ → DpiConfig → DpiConfig
set_dpi_config dpi sensor not_set = each (set (pad (suc sensor) []) sensor dpi)
set_dpi_config dpi sensor (one d) =
    if sensor == 0 then one dpi else each (set (set (replicate (suc sensor) 0) sensor dpi) 0 dpi)
set_dpi_config dpi sensor (each list) = each (set (pad (suc sensor) list) sensor dpi)

-- `IPC::getDPI`: the configured value, or `none` where the device is asked.
unfoldable pub get_dpi_config : ℕ → DpiConfig → Option ℕ
get_dpi_config sensor not_set = none
get_dpi_config sensor (one d) = if sensor == 0 then some d else none
get_dpi_config sensor (each list) =
    if ltb sensor (length list) then some (get_or list sensor 0) else none
