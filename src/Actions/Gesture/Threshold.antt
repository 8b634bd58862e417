-- ===== src/Actions/Gesture/Threshold.antt =====
-- src/logid/actions/gesture/ThresholdGesture.cpp: an action that runs once, as soon as the gesture
-- went far enough.
use logiops.Prelude.{
  Bool, Bool-cases, true, false, not, ◌&&◌, ◌||◌, ◌≡◌, refl, ap, ◌∙◌, Option, List, [], ◌∷◌, ◌++◌,
  if◌then◌else◌, inl, inr, arith,
}
use mathlib.Core.List.{append-nil}
use logiops.Prelude.Int.{ℤ, pos, ◌+ℤ◌, leb_ℤ, int32, int32_lem}
use logiops.Actions.Gesture.{Effect, gesture_threshold, value_or, run_action, setting, Fits}

pub record ThresholdGesture : Type 0 where
  pub axis : ℤ
  pub threshold : Option ℤ
  pub action : Bool
  pub executed : Bool

unfoldable pub press_gesture : Bool → ThresholdGesture → ThresholdGesture
press_gesture init g = record g {
  axis = if init then value_or g.threshold gesture_threshold else pos 0;
  executed = false;
}

unfoldable pub release_gesture : Bool → ThresholdGesture → ThresholdGesture × List Effect
release_gesture primary g = (record g { executed = false }, [])

unfoldable pub met_threshold : ThresholdGesture → Bool
met_threshold g = leb_ℤ (value_or g.threshold gesture_threshold) g.axis

unfoldable pub move : ℤ → ThresholdGesture → ThresholdGesture × List Effect
unfolding met_threshold
move m g =
    let moved = record g { axis = int32 (g.axis +ℤ m) } in
    if not moved.executed && met_threshold moved
    then (record moved { executed = true }, run_action moved.action)
    else (moved, [])

unfoldable pub set_threshold : ℤ → ThresholdGesture → ThresholdGesture
set_threshold v g = record g { threshold = setting v }

unfoldable pub move_all : List ℤ → ThresholdGesture → ThresholdGesture × List Effect
move_all [] g = (g, [])
move_all (m ∷ ms) g =
    let (g', now) = move m g in let (g'', later) = move_all ms g' in (g'', now ++ later)

-- Some position on the way from `a` reaches the threshold.
abbrev pub reaches : ℤ → ℤ → List ℤ → Bool
reaches t a [] = false
reaches t a (m ∷ ms) = leb_ℤ t (a +ℤ m) || reaches t (a +ℤ m) ms

move_executed :
    (m : ℤ) (g : ThresholdGesture)
    → g.executed ≡ true
    → ((move m g).0.executed ≡ true) × ((move m g).1 ≡ [])
unfolding move
move_executed m g e = ground arith

move_hit :
    (m : ℤ) (g : ThresholdGesture)
    → g.executed ≡ false
    → leb_ℤ (value_or g.threshold gesture_threshold) (int32 (g.axis +ℤ m)) ≡ true
    → ((move m g).0.executed ≡ true) × ((move m g).1 ≡ run_action g.action)
unfolding move
move_hit m g e h = rw (e, h) (refl, refl)

move_miss :
    (m : ℤ) (g : ThresholdGesture)
    → g.executed ≡ false
    → leb_ℤ (value_or g.threshold gesture_threshold) (int32 (g.axis +ℤ m)) ≡ false
    → move m g ≡ (record g { axis = int32 (g.axis +ℤ m) }, [])
unfolding move
move_miss m g e h = rw (e, h) refl

executed_silent : (ms : List ℤ) (g : ThresholdGesture) → g.executed ≡ true → (move_all ms g).1 ≡ []
unfolding move_all
executed_silent [] g e = refl
executed_silent (m ∷ ms) g e =
    let w = move_executed m g e in rw (w.1, executed_silent ms (move m g).0 w.0)

-- Until the next press, the action runs exactly once if some position on the way reaches the
-- threshold, however often the gesture leaves and reaches it again, and not at all otherwise.
pub move_all-once :
    (ms : List ℤ) (g : ThresholdGesture)
    → g.executed ≡ false
    → Fits g.axis ms
    → (move_all ms g).1 ≡ (
        if reaches (value_or g.threshold gesture_threshold) g.axis ms
        then run_action g.action
        else [])
unfolding move_all
move_all-once [] g e h = refl
move_all-once (m ∷ ms) g e h =
    let t : ℤ = value_or g.threshold gesture_threshold in
    let fits : int32 (g.axis +ℤ m) ≡ g.axis +ℤ m = int32_lem (g.axis +ℤ m) h.0 in
    elim (Bool-cases (leb_ℤ t (g.axis +ℤ m))) [
      | inl hit ↦
          let w = move_hit m g e (ap (leb_ℤ t) fits ∙ hit) in
          rw (w.1, executed_silent ms (move m g).0 w.0, hit) (append-nil (run_action g.action))
      | inr miss ↦
          rw (move_miss m g e (ap (leb_ℤ t) fits ∙ miss), fits, miss)
            (move_all-once ms (record g { axis = g.axis +ℤ m }) e h.1)
    ]
