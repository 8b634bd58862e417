-- ===== src/Actions/Gesture.antt =====
-- The gestures of src/logid/actions/gesture that keep one axis: OnRelease, the threshold gesture,
-- OnInterval and None. An axis is an `int32_t`: sums are taken in 32 bits (`int32`). What a gesture
-- does with its action is its effects, in order.
pub mod Release
pub mod Threshold
pub mod Interval
pub mod Null
pub mod Tests
use logiops.Prelude.{Bool, true, false, Option, none, some, List, [], ◌∷◌, if◌then◌else◌}
use logiops.Prelude.Int.{ℤ, pos, ◌+ℤ◌, eqb_ℤ, IsInt32}

-- `_action->press()` and `_action->release()`.
pub data Effect : Type 0 where
  press release : Effect

abbrev pub gesture_threshold : ℤ
gesture_threshold = pos 50

abbrev pub value_or : Option ℤ → ℤ → ℤ
value_or none d = d
value_or (some v) d = v

-- `if (_action) { _action->press(); _action->release(); }`
abbrev pub run_action : Bool → List Effect
run_action true = press ∷ release ∷ []
run_action false = []

-- `setThreshold` and `setInterval`: 0 clears the setting.
abbrev pub setting : ℤ → Option ℤ
setting v = if eqb_ℤ v (pos 0) then none else some v

-- How far a gesture is moved, and that no sum on the way leaves the 32 bits.
abbrev pub sum : List ℤ → ℤ
sum [] = pos 0
sum (m ∷ ms) = m +ℤ sum ms

abbrev pub Fits : ℤ → List ℤ → Type 0
Fits a [] = Unit {0}
Fits a (m ∷ ms) = IsInt32 (a +ℤ m) × Fits (a +ℤ m) ms
