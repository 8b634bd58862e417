-- ===== src/Actions/Gesture/Interval.antt =====
-- src/logid/actions/gesture/IntervalGesture.cpp: an action that runs again with every interval that
-- the gesture passes.
pub mod Forward
pub mod Faults
use logiops.Prelude.{
  ℕ, suc, ◌+◌, ◌-◌, ◌/◌, ◌≤◌, ◌<◌, Bool, Bool-cases, true, false, ◌≡◌, refl, sym, ap, ◌∙◌, Option,
  none, some, List, [], ◌∷◌, ◌++◌, if◌then◌else◌, inl, inr, arith,
}
use logiops.Prelude.Exn.{Result, ok, err, ◌>>=◌, division_by_zero}
use logiops.Prelude.Int.{
  ℤ, pos, negsuc, pos_part, neg_part, ◌+ℤ◌, ◌-ℤ◌, div_ℤ, leb_ℤ, ltb_ℤ, eqb_ℤ, ◌≤ℤ◌, int32,
  int32_lem, IsInt32,
}
use logiops.Actions.Gesture.{Effect, gesture_threshold, value_or, run_action, setting, Fits}

pub record IntervalGesture : Type 0 where
  pub axis : ℤ
  pub interval_pass_count : ℤ
  pub interval : Option ℤ
  pub threshold : Option ℤ
  pub action : Bool

unfoldable pub press_gesture : Bool → IntervalGesture → IntervalGesture
press_gesture init g = record g {
  axis = if init then value_or g.threshold gesture_threshold else pos 0;
  interval_pass_count = pos 0;
}

unfoldable pub release_gesture : Bool → IntervalGesture → IntervalGesture × List Effect
release_gesture primary g = (g, [])

unfoldable pub met_threshold : IntervalGesture → Bool
met_threshold g = leb_ℤ (value_or g.threshold gesture_threshold) g.axis

-- `int32_t` division, which by 0 is undefined.
unfoldable pub divide : ℤ → ℤ → Result ℤ
divide a b = if eqb_ℤ b (pos 0) then err division_by_zero else ok (int32 (div_ℤ a b))

-- `move` with an interval: the moved gesture `g` at its new axis.
unfoldable pub pass_intervals : ℤ → ℤ → IntervalGesture → Result (IntervalGesture × List Effect)
unfolding divide
pass_intervals interval threshold g = do
  new_interval_count ← divide (int32 (g.axis -ℤ threshold)) interval
  ok (
    record g { interval_pass_count = new_interval_count },
    if ltb_ℤ g.interval_pass_count new_interval_count then run_action g.action else [],
  )

unfoldable pub move : ℤ → IntervalGesture → Result (IntervalGesture × List Effect)
unfolding pass_intervals
move m g = elim g.interval [
  | none ↦ ok (g, [])
  | some interval ↦
      let threshold = value_or g.threshold gesture_threshold in
      let moved = record g { axis = int32 (g.axis +ℤ m) } in
      if ltb_ℤ moved.axis threshold then ok (moved, []) else pass_intervals interval threshold moved
]

unfoldable pub set_interval : ℤ → IntervalGesture → IntervalGesture
set_interval v g = record g { interval = setting v }

unfoldable pub set_threshold : ℤ → IntervalGesture → IntervalGesture
set_threshold v g = record g { threshold = setting v }
