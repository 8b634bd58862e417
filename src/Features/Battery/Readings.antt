-- ===== src/Features/Battery/Readings.antt =====
-- The percentages that the readings of src/logid/backend/hidpp20/features/BatteryStatus.cpp come
-- to.
use logiops.Prelude.{
  ℕ, ◌<◌, ◌≤◌, ◌≡◌, refl, sym, subst, drop, ◌*◌, Bool, Bool-cases, true, false, inl, inr, ◌&&◌,
  ◌||◌, Option, none, some, List, [], ◌∷◌, ltb, leb, ◌==◌, bit_or, if◌then◌else◌, arith,
}
use logiops.Features.Battery.{
  State, discharging, recharging, almost_full, full, slow_recharge, invalid_battery, thermal_error,
  unknown, Status, level_of, parse_status, Interpolation, voltage_to_percentage, interpolate,
  estimate_battery_percentage, parse_voltage, coarse_level, parse_unified, inferred_capacity,
  capacity,
}

abbrev pub last_of : ℕ → List (ℕ × ℕ) → ℕ
last_of v [] = v
last_of v (e ∷ table) = last_of e.0 table

-- Within an interval, an interpolation lies between the percentages of its ends.
abbrev pub IsBetween : Interpolation → Type 0
IsBetween percent =
    (v v_low v_high p_low p_high : ℕ)
    → v_low ≤ v
    → v ≤ v_high
    → v_low < v_high
    → p_low ≤ p_high
    → (p_low ≤ percent v v_low v_high p_low p_high) × (percent v v_low v_high p_low p_high ≤ p_high)

-- From an entry on, voltages and percentages fall.
abbrev pub Falls : ℕ → ℕ → List (ℕ × ℕ) → Type 0
Falls v p [] = Unit {0}
Falls v p ((v_low, p_low) ∷ table) = (v_low < v) × (p_low ≤ p) × Falls v_low p_low table

interpolate-some :
    (percent : Interpolation) (voltage v_high p_high : ℕ) (table : List (ℕ × ℕ))
    → IsBetween percent
    → voltage ≤ v_high
    → last_of v_high table < voltage
    → p_high ≤ 100
    → Falls v_high p_high table
    → (p : ℕ) × (interpolate percent voltage v_high p_high table ≡ some p) × (p ≤ 100)
unfolding interpolate
interpolate-some percent voltage v_high p_high [] hp lt last ph falls = absurd (omega arith)
interpolate-some percent voltage v_high p_high ((v_low, p_low) ∷ table) hp lt last ph falls =
    elim (Bool-cases (ltb voltage v_low || ltb v_high voltage)) [
      | inl e ↦
          let w =
            interpolate-some percent voltage v_low p_low table hp (ground arith) last
              (omega (arith, falls.1)) falls.2 in
          (w.0, rw e w.1, w.2)
      | inr e ↦ (
        percent voltage v_low v_high p_low p_high,
        rw e refl,
        omega (arith, (hp voltage v_low v_high p_low p_high (ground arith) lt falls.0 falls.1).1),
      )
    ]

table-Falls : Falls 4186 100 (drop 1 voltage_to_percentage)
table-Falls = omega arith

estimate-some :
    (percent : Interpolation) (voltage : ℕ)
    → IsBetween percent
    → (p : ℕ) × (estimate_battery_percentage percent voltage ≡ some p) × (p ≤ 100)
unfolding estimate_battery_percentage
estimate-some percent voltage hp = elim (Bool-cases (leb 4186 voltage)) [
  | inl e ↦ (100, rw e refl, omega arith)
  | inr e ↦ elim (Bool-cases (leb voltage 3500)) [
    | inl f ↦ (0, rw (e, f) refl, omega arith)
    | inr f ↦
        let w =
          interpolate-some percent voltage 4186 100 (drop 1 voltage_to_percentage) hp (ground arith)
            (ground arith) (omega arith) table-Falls in
        (w.0, rw (e, f) w.1, w.2)
  ]
]

abbrev pub AtMost : Option ℕ → Type 0
AtMost none = Unit
AtMost (some c) = c ≤ 100

inferred_capacity-le : (st : State) → inferred_capacity st ≤ 100
inferred_capacity-le discharging = omega arith
inferred_capacity-le recharging = omega arith
inferred_capacity-le almost_full = omega arith
inferred_capacity-le full = omega arith
inferred_capacity-le slow_recharge = omega arith
inferred_capacity-le invalid_battery = omega arith
inferred_capacity-le thermal_error = omega arith
inferred_capacity-le unknown = omega arith

if-AtMost : (b : Bool) (o p : Option ℕ) → AtMost o → AtMost p → AtMost (if b then o else p)
if-AtMost true o p h k = h
if-AtMost false o p h k = k

capacity_cases :
    (level next_level : Option ℕ) (st : State)
    → AtMost level
    → AtMost (capacity (record { level = level; next_level = next_level; state = st }))
unfolding capacity
capacity_cases (some l) next_level st h = h
capacity_cases none next_level st h =
    if-AtMost (inferred_capacity st == 0) none (some (inferred_capacity st)) tt
      (inferred_capacity-le st)

capacity-AtMost : (s : Status) → AtMost s.level → AtMost (capacity s)
capacity-AtMost s h = capacity_cases s.level s.next_level s.state h

level_of-AtMost : (l : ℕ) → AtMost (level_of l)
level_of-AtMost l = elim (Bool-cases (ltb 0 l && leb l 100)) [
  | inl e ↦ rw e (ground arith)
  | inr e ↦ rw e tt
]

coarse_level-AtMost : (l : ℕ) → AtMost (coarse_level l)
coarse_level-AtMost l = if-AtMost (l == 8) (some 90) _ (omega arith) (
    if-AtMost (l == 4) (some 50) _ (omega arith) (
      if-AtMost (l == 2) (some 20) _ (omega arith)
        (if-AtMost (l == 1) (some 5) none (omega arith) tt)))

estimate-AtMost :
    (percent : Interpolation) (voltage : ℕ)
    → IsBetween percent
    → AtMost (estimate_battery_percentage percent voltage)
estimate-AtMost percent voltage hp =
    let w = estimate-some percent voltage hp in subst AtMost (sym w.1) w.2

status-AtMost : (bytes : List ℕ) → AtMost (parse_status bytes).level
unfolding parse_status
status-AtMost [] = tt
status-AtMost (a ∷ []) = tt
status-AtMost (a ∷ b ∷ []) = tt
status-AtMost (a ∷ b ∷ c ∷ rest) = level_of-AtMost a

voltage-AtMost :
    (percent : Interpolation) (bytes : List ℕ)
    → IsBetween percent
    → AtMost (parse_voltage percent bytes).level
unfolding parse_voltage
voltage-AtMost percent [] hp = tt
voltage-AtMost percent (a ∷ []) hp = tt
voltage-AtMost percent (a ∷ b ∷ []) hp = tt
voltage-AtMost percent (a ∷ b ∷ c ∷ rest) hp = estimate-AtMost percent (bit_or (a * 256) b) hp

unified-AtMost : (bytes : List ℕ) → AtMost (parse_unified bytes).level
unfolding parse_unified
unified-AtMost [] = tt
unified-AtMost (a ∷ []) = tt
unified-AtMost (a ∷ b ∷ []) = tt
unified-AtMost (a ∷ b ∷ c ∷ []) = tt
unified-AtMost (a ∷ b ∷ c ∷ d ∷ rest) = elim (Bool-cases (ltb 0 a && leb a 100)) [
  | inl e ↦ rw e (ground arith)
  | inr e ↦ rw e (coarse_level-AtMost b)
]

-- Whatever bytes a device sends, the three features read a capacity of at most 100 or none, for an
-- interpolation that lies between the percentages of the ends of an interval, for voltages in it.
pub parse-AtMost :
    (percent : Interpolation) (bytes : List ℕ)
    → IsBetween percent
    → AtMost (capacity (parse_status bytes))
      × AtMost (capacity (parse_voltage percent bytes))
      × AtMost (capacity (parse_unified bytes))
parse-AtMost percent bytes hp = (
  capacity-AtMost _ (status-AtMost bytes),
  capacity-AtMost _ (voltage-AtMost percent bytes hp),
  capacity-AtMost _ (unified-AtMost bytes),
)
