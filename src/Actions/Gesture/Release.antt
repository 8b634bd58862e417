-- ===== src/Actions/Gesture/Release.antt =====
-- src/logid/actions/gesture/ReleaseGesture.cpp: an action that runs when the button is released
-- after the gesture went far enough.
use logiops.Prelude.{Bool, false, ◌&&◌, ◌≡◌, ap, ◌∙◌, Option, List, [], ◌∷◌, if◌then◌else◌, arith}
use logiops.Prelude.Int.{ℤ, pos, ◌+ℤ◌, leb_ℤ, int32, int32_lem, int_laws, zero-+ℤ}
use logiops.Actions.Gesture.{Effect, gesture_threshold, value_or, run_action, setting, sum, Fits}

pub record ReleaseGesture : Type 0 where
  pub axis : ℤ
  pub threshold : Option ℤ
  pub action : Bool

-- `press(init_threshold)`.
unfoldable pub press_gesture : Bool → ReleaseGesture → ReleaseGesture
press_gesture init g =
    if init
    then record g { axis = value_or g.threshold gesture_threshold }
    else record g { axis = pos 0 }

unfoldable pub met_threshold : ReleaseGesture → Bool
met_threshold g = leb_ℤ (value_or g.threshold gesture_threshold) g.axis

-- `release(primary)`.
unfoldable pub release_gesture : Bool → ReleaseGesture → ReleaseGesture × List Effect
unfolding met_threshold
release_gesture primary g = if met_threshold g && primary then (g, run_action g.action) else (g, [])

unfoldable pub move : ℤ → ReleaseGesture → ReleaseGesture × List Effect
move m g = (record g { axis = int32 (g.axis +ℤ m) }, [])

unfoldable pub set_threshold : ℤ → ReleaseGesture → ReleaseGesture
set_threshold v g = record g { threshold = setting v }

unfoldable pub move_all : List ℤ → ReleaseGesture → ReleaseGesture
move_all [] g = g
move_all (m ∷ ms) g = move_all ms (move m g).0

move_all-axis :
    (ms : List ℤ) (g : ReleaseGesture)
    → Fits g.axis ms
    → move_all ms g ≡ record g { axis = g.axis +ℤ sum ms }
unfolding move_all move
move_all-axis [] g h = ap (λ t. record g { axis = t }) (omega int_laws)
move_all-axis (m ∷ ms) g h =
    move_all-axis ms _ (rw (int32_lem (g.axis +ℤ m) h.0) h.1)
    ∙ ap (λ t. record g { axis = t }) (rw (int32_lem (g.axis +ℤ m) h.0) (omega int_laws))

-- From a press to the release, the action runs once if this is the primary gesture and the moves add
-- up to the threshold, which is 50 where none is set, and not at all otherwise.
pub press-move-release :
    (ms : List ℤ) (g : ReleaseGesture) (primary : Bool)
    → Fits (pos 0) ms
    → (release_gesture primary (move_all ms (press_gesture false g))).1 ≡ (
        if leb_ℤ (value_or g.threshold gesture_threshold) (sum ms) && primary
        then run_action g.action
        else [])
unfolding release_gesture press_gesture
press-move-release ms g primary h =
    rw (move_all-axis ms (record g { axis = pos 0 }) h, zero-+ℤ (sum ms)) (ground arith)
