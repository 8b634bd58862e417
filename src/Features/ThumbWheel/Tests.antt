-- ===== src/Features/ThumbWheel/Tests.antt =====
-- A thumb wheel that is touched, turned to the left and let go.
use logiops.Prelude.{◌≡◌, true, false, some, List, [], ◌∷◌, refl}
use logiops.Prelude.Exn.{ok}
use logiops.Prelude.Bytes.{byte_at}
use logiops.Prelude.Int.{pos, negsuc, ◌*ℤ◌, neg, int16, signed16}
use logiops.Features.ThumbWheel.{
  touch, left, press_action, release_action, press_gesture, move_gesture, Wheel, Last, Event,
  handle_event, thumbwheel_event,
}
use logiops.Features.ThumbWheel.Tracks.{track}
use logiops.Features.ThumbWheel.Levels.{handle_all, level, handle_all-level}

abbrev wheel : Wheel
wheel = record { has_action = λ t. true; has_gesture = λ side. true; default_direction = negsuc 0 }

abbrev untouched : Last
untouched = record { proxy = false; touch = false }

abbrev turned : Event
turned = record { rotation = pos 3; timestamp = 9; rotation_status = 2; flags = 2 }

turned_read : thumbwheel_event (0 ∷ 3 ∷ 0 ∷ 9 ∷ 2 ∷ 2 ∷ []) ≡ ok turned
unfolding thumbwheel_event byte_at signed16
turned_read = refl

abbrev let_go : Event
let_go = record { rotation = pos 0; timestamp = 12; rotation_status = 0; flags = 0 }

abbrev events : List Event
events = turned ∷ let_go ∷ []

events_handled :
    (handle_all wheel events untouched).0
    ≡ press_action touch
      ∷ press_gesture left
      ∷ move_gesture left (pos 3)
      ∷ release_action touch
      ∷ []
unfolding handle_all handle_event int16 neg ◌*ℤ◌
events_handled = refl

handle_all-level_example :
    track touch false (handle_all wheel events untouched).0 ≡ some (level touch events false)
handle_all-level_example = handle_all-level wheel touch events untouched refl
