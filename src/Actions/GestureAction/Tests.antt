-- ===== src/Actions/GestureAction/Tests.antt =====
-- A gesture button on concrete movements, with threshold-and-release gestures to the left, to the
-- right and down.
use logiops.Prelude.{◌≡◌, not, ◌++◌, refl, arith, true, false, none, some, List, [], ◌∷◌}
use logiops.Prelude.Exn.{ok}
use logiops.Prelude.Int.{ℤ, pos, negsuc, ◌+ℤ◌, int32_lem}
use logiops.Actions.Gesture.{sum}
use logiops.Actions.Gesture.Release.{ReleaseGesture}
use logiops.Actions.Gesture.Release
use logiops.Actions.GestureAction.{
  none_direction, up, down, left, right, GestureOps, GestureAction, press, release,
}
use logiops.Actions.GestureAction.Moves.{Measured}
use logiops.Actions.GestureAction.Horizontal.{Lands, move_all, press-move_all}
use logiops.Actions.GestureAction.Releasing.{any_met, released, directed, release-any_met}

abbrev release_ops : GestureOps ReleaseGesture
release_ops = record {
  press_gesture = Release.press_gesture;
  release_gesture = λ primary g. Release.release_gesture primary g;
  move_gesture = λ v g. ok (Release.move v g);
  met_threshold = Release.met_threshold;
}

abbrev release_measured : Measured release_ops
unfolding Release.press_gesture Release.move
release_measured = record {
  way = λ g. g.axis;
  pressed_way = λ g. refl;
  next = Release.move;
  next_runs = λ v g h h'. refl;
  next_way = λ v g h h'. int32_lem (g.axis +ℤ v) h';
}

abbrev gesture : ReleaseGesture
gesture = record { axis = pos 0; threshold = none; action = true }

abbrev button : GestureAction ReleaseGesture
button = record {
  pressed = false;
  x = pos 0;
  y = pos 0;
  gestures = λ d. elim d [
    | none_direction ↦ none
    | up ↦ none
    | down ↦ some gesture
    | left ↦ some gesture
    | right ↦ some gesture
  ];
}

-- To the left, back across the start, and to the left again.
abbrev shaking : List ℤ
shaking = negsuc 9 ∷ pos 25 ∷ negsuc 39 ∷ []

press-move_all_example :
    Lands release_ops release_measured
      (sum shaking)
      (move_all release_ops shaking (press release_ops button))
unfolding ◌+ℤ◌
press-move_all_example = press-move_all release_ops release_measured shaking button (ground arith)

-- Five below the start, with the gesture of down at five.
abbrev below : GestureAction ReleaseGesture
below = record button {
  y = pos 5;
  gestures = λ d. elim d [
    | none_direction ↦ none
    | up ↦ some gesture
    | down ↦ some (record gesture { axis = pos 5 })
    | left ↦ none
    | right ↦ none
  ];
}

release-any_met_example :
    (release release_ops below).1
    ≡ directed release_ops below
      ++ released release_ops
          (not (any_met release_ops below.gestures))
          (below.gestures none_direction)
release-any_met_example = release-any_met release_ops below
