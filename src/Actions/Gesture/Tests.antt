-- ===== src/Actions/Gesture/Tests.antt =====
-- The gestures of src/logid/actions/gesture on concrete movements.
use logiops.Prelude.{◌≡◌, true, false, none, some, List, [], ◌∷◌, refl}
use logiops.Prelude.Exn.{err, division_by_zero}
use logiops.Prelude.Int.{ℤ, pos, negsuc, ◌+ℤ◌, int32}
use logiops.Actions.Gesture.{press, release}
use logiops.Actions.Gesture.Release
use logiops.Actions.Gesture.Threshold
use logiops.Actions.Gesture.Interval
use logiops.Actions.Gesture.Release.{ReleaseGesture}
use logiops.Actions.Gesture.Threshold.{ThresholdGesture}
use logiops.Actions.Gesture.Interval.{IntervalGesture}

abbrev steps : List ℤ
steps = pos 30 ∷ negsuc 29 ∷ pos 40 ∷ []

abbrev on_release : ReleaseGesture
on_release = record { axis = pos 3; threshold = none; action = true }

released_early : (Release.release_gesture true (Release.move_all (pos 46 ∷ []) on_release)).1 ≡ []
unfolding Release.release_gesture Release.move_all Release.move Release.met_threshold int32 ◌+ℤ◌
released_early = refl

abbrev on_threshold : ThresholdGesture
on_threshold = record { axis = pos 0; threshold = some (pos 20); action = true; executed = false }

executed_once : (Threshold.move_all steps on_threshold).1 ≡ press ∷ release ∷ []
unfolding Threshold.move_all Threshold.move Threshold.met_threshold int32 ◌+ℤ◌
executed_once = refl

abbrev on_interval : IntervalGesture
on_interval = record {
  axis = pos 0;
  interval_pass_count = pos 0;
  interval = some (pos 10);
  threshold = some (pos 5);
  action = true;
}

by_zero :
    Interval.move (pos 10) (record on_interval { interval = some (pos 0) }) ≡ err division_by_zero
unfolding Interval.move Interval.pass_intervals Interval.divide int32 ◌+ℤ◌
by_zero = refl
