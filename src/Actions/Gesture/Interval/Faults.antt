-- ===== src/Actions/Gesture/Interval/Faults.antt =====
-- The division in src/logid/actions/gesture/IntervalGesture.cpp.
use logiops.Prelude.{some, ◌≡◌, ◌≢◌, false, arith}
use logiops.Prelude.Exn.{err, division_by_zero}
use logiops.Prelude.Int.{ℤ, pos, ◌+ℤ◌, ltb_ℤ, int32}
use logiops.Actions.Gesture.{gesture_threshold, value_or}
use logiops.Actions.Gesture.Interval.{IntervalGesture, move, set_interval}

-- An interval of 0 divides by 0 on the first move that reaches the threshold. `setInterval` never
-- stores a 0, so such an interval can only come from the configuration file.
pub move-zero_interval :
    (m v : ℤ) (g : IntervalGesture)
    → g.interval ≡ some (pos 0)
    → ltb_ℤ (int32 (g.axis +ℤ m)) (value_or g.threshold gesture_threshold) ≡ false
    → (move m g ≡ err division_by_zero) × ((set_interval v g).interval ≢ some (pos 0))
unfolding move set_interval
move-zero_interval m v g e h = (ground arith, ground arith)
