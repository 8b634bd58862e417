-- ===== src/Actions/Gesture/Null.antt =====
-- src/logid/actions/gesture/NullGesture.cpp: a gesture that does nothing but count its way.
use logiops.Prelude.{Bool, Option, List, [], if◌then◌else◌}
use logiops.Prelude.Int.{ℤ, pos, ◌+ℤ◌, leb_ℤ, int32}
use logiops.Actions.Gesture.{Effect, gesture_threshold, value_or}

pub record NullGesture : Type 0 where
  pub axis : ℤ
  pub threshold : Option ℤ

unfoldable pub press_gesture : Bool → NullGesture → NullGesture
press_gesture init g = record g {
  axis = if init then value_or g.threshold gesture_threshold else pos 0;
}

unfoldable pub release_gesture : Bool → NullGesture → NullGesture × List Effect
release_gesture primary g = (g, [])

unfoldable pub move : ℤ → NullGesture → NullGesture × List Effect
move m g = (record g { axis = int32 (g.axis +ℤ m) }, [])

unfoldable pub met_threshold : NullGesture → Bool
met_threshold g = leb_ℤ (value_or g.threshold gesture_threshold) g.axis
