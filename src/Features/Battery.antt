-- ===== src/Features/Battery.antt =====
-- src/logid/backend/hidpp20/features/BatteryStatus.cpp and src/logid/features/BatteryStatus.cpp:
-- battery readings, the choice among the readers of a device, and the battery that is published and
-- withdrawn. The `double` interpolation between two voltages is a parameter.
pub mod Readings
pub mod Publishing
pub mod Sleep
pub mod Tests
use logiops.Prelude.{
  ℕ, ◌+◌, ◌*◌, ◌<◌, ◌≤◌, ◌≡◌, Bool, true, false, not, ◌&&◌, ◌||◌, Option, none, some, List, [], ◌∷◌,
  drop, bit_and, bit_or, ltb, leb, ◌==◌, if◌then◌else◌,
}

-- `BatteryStatus::State`, as far as it is parsed.
pub data State : Type 0 where
  discharging recharging almost_full full slow_recharge invalid_battery thermal_error unknown :
      State

pub record Status : Type 0 where
  pub level : Option ℕ
  pub next_level : Option ℕ
  pub state : State

-- `Status status{}` with the state Unknown.
abbrev pub no_status : Status
no_status = record { level = none; next_level = none; state = unknown }

unfoldable pub parse_state : ℕ → State
parse_state s =
    if s == 0x00
    then discharging
    else (if s == 0x01
        then recharging
        else (if s == 0x02
            then almost_full
            else (if s == 0x03
                then full
                else (if s == 0x04
                    then slow_recharge
                    else (if s == 0x05
                        then invalid_battery
                        else (if s == 0x06 then thermal_error else unknown))))))

-- A level is a percentage from 1 to 100, or none.
abbrev pub level_of : ℕ → Option ℕ
level_of l = if ltb 0 l && leb l 100 then some l else none

-- `BatteryStatus::parseStatus`.
unfoldable pub parse_status : List ℕ → Status
unfolding parse_state
parse_status (level ∷ next_level ∷ state ∷ rest) = record {
  level = level_of level;
  next_level = level_of next_level;
  state = parse_state state;
}
parse_status _ = no_status

-- The voltages, in mV, and percentages of `estimateBatteryPercentage`.
abbrev pub voltage_to_percentage : List (ℕ × ℕ)
voltage_to_percentage =
    (4186, 100)
    ∷ (4067, 90)
    ∷ (3989, 80)
    ∷ (3922, 70)
    ∷ (3859, 60)
    ∷ (3811, 50)
    ∷ (3778, 40)
    ∷ (3751, 30)
    ∷ (3717, 20)
    ∷ (3671, 10)
    ∷ (3646, 5)
    ∷ (3579, 2)
    ∷ (3500, 0)
    ∷ []

-- The interpolation: `percent voltage v_low v_high p_low p_high`.
abbrev pub Interpolation : Type 0
Interpolation = ℕ → ℕ → ℕ → ℕ → ℕ → ℕ

-- The loop over the neighbours of the table, from the entry `(v_high, p_high)` on.
unfoldable pub interpolate : Interpolation → ℕ → ℕ → ℕ → List (ℕ × ℕ) → Option ℕ
interpolate percent voltage v_high p_high [] = none
interpolate percent voltage v_high p_high ((v_low, p_low) ∷ table) =
    let next = interpolate percent voltage v_low p_low table in
    if ltb voltage v_low || ltb v_high voltage
    then next
    else some (percent voltage v_low v_high p_low p_high)

unfoldable pub estimate_battery_percentage : Interpolation → ℕ → Option ℕ
unfolding interpolate
estimate_battery_percentage percent voltage =
    if leb 4186 voltage
    then some 100
    else (if leb voltage 3500
        then some 0
        else interpolate percent voltage 4186 100 (drop 1 voltage_to_percentage))

-- The state that the flags of a voltage say: bit 7 for the external power, bit 4 for slow charging.
abbrev pub voltage_state : ℕ → State
voltage_state flags =
    if not (bit_and flags 16 == 0)
    then slow_recharge
    else (if not (bit_and flags 128 == 0)
        then (if bit_and flags 3 == 1 then full else recharging)
        else discharging)

-- `BatteryVoltage::parseStatus`, with the first byte of the voltage read first.
unfoldable pub parse_voltage : Interpolation → List ℕ → Status
unfolding estimate_battery_percentage
parse_voltage percent (high ∷ low ∷ flags ∷ rest) = record {
  level = estimate_battery_percentage percent (bit_or (high * 256) low);
  next_level = none;
  state = voltage_state flags;
}
parse_voltage percent _ = no_status

-- The level for a level byte of a unified battery.
abbrev pub coarse_level : ℕ → Option ℕ
coarse_level l =
    if l == 8
    then some 90
    else (if l == 4
        then some 50
        else (if l == 2 then some 20 else (if l == 1 then some 5 else none)))

-- `UnifiedBattery::parseStatus`.
unfoldable pub parse_unified : List ℕ → Status
unfolding parse_state
parse_unified (discharge ∷ level ∷ state ∷ fourth ∷ rest) = record {
  level = if ltb 0 discharge && leb discharge 100 then some discharge else coarse_level level;
  next_level = none;
  state = parse_state state;
}
parse_unified _ = no_status

-- `inferredCapacity`.
abbrev pub inferred_capacity : State → ℕ
inferred_capacity full = 100
inferred_capacity almost_full = 90
inferred_capacity recharging = 90
inferred_capacity slow_recharge = 20
inferred_capacity _ = 0

-- `_capacity`.
unfoldable pub capacity : Status → Option ℕ
capacity status = elim status.level [
  | some l ↦ some l
  | none ↦
      if inferred_capacity status.state == 0 then none else some (inferred_capacity status.state)
]

-- `_charging`.
abbrev pub charging : State → Bool
charging recharging = true
charging almost_full = true
charging slow_recharge = true
charging _ = false

abbrev pub is_full : State → Bool
is_full full = true
is_full _ = false

-- `_hasReportedCapacity`.
abbrev pub has_reported_capacity : Status → Bool
has_reported_capacity status = elim status.level [ none ↦ false | some l ↦ true ]

-- A reader, by its priority, and what `read` comes to: `none` where it throws.
pub record Reader : Type 0 where
  pub priority : ℕ
  pub read : Option Status

pub record Selected : Type 0 where
  pub status : Status
  pub capacity : ℕ
  pub priority : ℕ
  pub reported : Bool

-- The condition to take a reading instead of the one selected.
abbrev pub better : Selected → Selected → Bool
better r s =
    (r.reported && not s.reported)
    || ((if r.reported then s.reported else not s.reported)
        && (ltb s.priority r.priority || ((r.priority == s.priority) && ltb s.capacity r.capacity)))

abbrev pub select : Option Selected → Selected → Option Selected
select none r = some r
select (some s) r = if better r s then some r else some s

-- What a reader has to offer: a reading with a capacity.
abbrev pub offer : Reader → Option Selected
offer reader = elim reader.read [
  | none ↦ none
  | some status ↦ elim (capacity status) [
    | none ↦ none
    | some c ↦ some (record {
      status = status;
      capacity = c;
      priority = reader.priority;
      reported = has_reported_capacity status;
    })
  ]
]

-- The loop of `_readAndPublish`: what is selected, and whether any reading says that it charges.
unfoldable pub read_all : List Reader → Option Selected → Bool → Option Selected × Bool
read_all [] selected any_charging = (selected, any_charging)
read_all (r ∷ readers) selected any_charging =
    let passed = read_all readers selected any_charging in
    elim (offer r) [
      | none ↦ passed
      | some o ↦ read_all readers (select selected o) (any_charging || charging o.status.state)
    ]

-- `_readAndPublish`: the status that is published, if any.
unfoldable pub read_and_publish : List Reader → Option Status
unfolding read_all
read_and_publish readers =
    let (selected, any_charging) = read_all readers none false in
    elim selected [
      | none ↦ none
      | some s ↦
          if any_charging && not (is_full s.status.state) && not (charging s.status.state)
          then some (record s.status { state = recharging })
          else some s.status
    ]
