-- ===== src/Features/Battery/Tests.antt =====
-- Battery readings and the published battery (src/logid/features/BatteryStatus.cpp) on concrete
-- values.
use logiops.Prelude.{
  ℕ, ◌<◌, ◌+◌, ◌*◌, ◌/◌, ◌-◌, ◌≤◌, ◌≡◌, ◌⊎◌, All, false, none, some, List, [], ◌∷◌, arith,
}
use native.Mathlib.Nat.{mul-le-mul_left, div-lt_iff_lt-mul}
use logiops.Features.Battery.{
  recharging, discharging, Reader, Selected, Interpolation, capacity, parse_status, parse_voltage,
  parse_unified, read_all,
}
use logiops.Features.Battery.Readings.{AtMost, IsBetween, parse-AtMost}
use logiops.Features.Battery.Publishing.{offers, rank, Among, read_all-best}

-- The interpolation in whole numbers, rounded to the nearest.
abbrev whole : Interpolation
whole v v_low v_high p_low p_high =
    p_low + ((p_high - p_low) * (v - v_low) * 2 + (v_high - v_low)) / ((v_high - v_low) * 2)

share_at_most : (a b d : ℕ) → b ≤ d → 0 < d → (a * b * 2 + d) / (d * 2) ≤ a
share_at_most a b d h k =
    let ab : a * b ≤ a * d = mul-le-mul_left a h in
    let less : (a * b * 2 + d) / (d * 2) < a + 1 =
      (div-lt_iff_lt-mul {k = d * 2} (omega arith)).1 (grind (arith, ab)) in
    omega (arith, less)

whole-IsBetween : IsBetween whole
whole-IsBetween v v_low v_high p_low p_high h k l m =
    let share =
      share_at_most (p_high - p_low) (v - v_low) (v_high - v_low) (omega arith) (omega arith) in
    (omega arith, omega (arith, share))

parse-AtMost_example :
    AtMost (capacity (parse_status (0x10 ∷ 0x5a ∷ 0x80 ∷ [])))
    × AtMost (capacity (parse_voltage whole (0x10 ∷ 0x5a ∷ 0x80 ∷ [])))
    × AtMost (capacity (parse_unified (0x10 ∷ 0x5a ∷ 0x80 ∷ [])))
parse-AtMost_example = parse-AtMost whole (0x10 ∷ 0x5a ∷ 0x80 ∷ []) whole-IsBetween

-- A reader with a percentage, a failing one, and one with a state only.
abbrev readers : List Reader
readers =
    record {
      priority = 10;
      read = some (record { level = none; next_level = none; state = recharging });
    }
    ∷ record { priority = 30; read = none }
    ∷ record {
      priority = 20;
      read = some (record { level = some 70; next_level = none; state = discharging });
    }
    ∷ []

read_all-best_example :
    ((offers readers ≡ []) × ((read_all readers none false).0 ≡ none))
    ⊎ ((t : Selected) × ((read_all readers none false).0 ≡ some t)
        × Among t (offers readers)
        × All (λ o. rank o ≤ rank t) (offers readers))
unfolding capacity
read_all-best_example = read_all-best readers false (omega arith)
