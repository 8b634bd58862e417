-- ===== src/Features/RemapButton/Tests.antt =====
-- Two known buttons and one that is not.
use logiops.Prelude.{ℕ, ◌≡◌, some, List, [], ◌∷◌, refl}
use logiops.Prelude.Sets.{contains, insert, erase}
use logiops.Features.RemapButton.{press, release, Buttons, Event, diverted, asleep, handle_all}
use logiops.Features.RemapButton.Presses.{track, handle_all-track}

abbrev known : List ℕ
known = 0xc3 ∷ 0xd7 ∷ []

abbrev idle : Buttons
idle = record { known = known; pressed = [] }

abbrev events : List Event
events =
    diverted (0 ∷ 0xc3 ∷ 0 ∷ 0 ∷ [])
    ∷ diverted (0 ∷ 0xd7 ∷ 0 ∷ 0xc3 ∷ 0 ∷ 0x50 ∷ 0 ∷ 0 ∷ [])
    ∷ diverted (0 ∷ 0xd7 ∷ 0 ∷ 0 ∷ [])
    ∷ asleep
    ∷ []

events_handled :
    (handle_all events idle).0 ≡ press 0xc3 ∷ press 0xd7 ∷ release 0xc3 ∷ release 0xd7 ∷ []
unfolding handle_all insert erase contains
events_handled = refl

handle_all-track_example :
    track 0xd7 (contains 0xd7 []) (handle_all events idle).0
    ≡ some (contains 0xd7 (handle_all events idle).1.pressed)
unfolding contains
handle_all-track_example = handle_all-track known 0xd7 events [] refl tt
