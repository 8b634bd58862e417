-- ===== src/Features/RemapButton.antt =====
-- src/logid/features/RemapButton.cpp: the buttons of a device that are diverted, which of them are
-- pressed, and what they are told. `_buttons` is the set of the controls that are known.
pub mod Presses
pub mod Moves
pub mod Tests
use logiops.Prelude.{
  ℕ, ◌*◌, Bool, true, false, not, ◌&&◌, Option, none, some, List, [], ◌∷◌, ◌++◌, ◌==◌, bit_or,
  bit_and, if◌then◌else◌,
}
use logiops.Prelude.Int.{ℤ}
use logiops.Prelude.Sets.{insert, erase, contains}

-- The calls of `Button::press` and `Button::release`, by the control.
pub data Effect : Type 0 where
  press release : ℕ → Effect

pub record Buttons : Type 0 where
  pub known : List ℕ
  pub pressed : List ℕ

-- The loop over `new_state` in `_buttonEvent`: what is pressed, and what is left of `_pressed_buttons`.
unfoldable pub press_added : List ℕ → List ℕ → List ℕ → List Effect × List ℕ
press_added known [] pressed = ([], pressed)
press_added known (i ∷ new_state) pressed =
    let held = press_added known new_state (erase i pressed) in
    let added = press_added known new_state pressed in
    if contains i pressed
    then held
    else (if contains i known then (press i ∷ added.0, added.1) else added)

-- The loop over what is left of `_pressed_buttons`, and the loop of `onSleep`.
unfoldable pub release_all : List ℕ → List ℕ → List Effect
release_all known [] = []
release_all known (i ∷ rest) =
    let later = release_all known rest in if contains i known then release i ∷ later else later

-- `_buttonEvent`.
unfoldable pub button_event : List ℕ → Buttons → List Effect × Buttons
unfolding press_added release_all
button_event new_state s =
    let added = press_added s.known new_state s.pressed in
    (added.0 ++ release_all s.known added.1, record s { pressed = new_state })

-- `onSleep`.
unfoldable pub on_sleep : Buttons → List Effect × Buttons
unfolding release_all
on_sleep s = (release_all s.known s.pressed, record s { pressed = [] })

-- The set of `ReprogControls::divertedButtonEvent`, for the parameters of the report: pairs of bytes,
-- up to the first that is zero.
unfoldable pub diverted_buttons : List ℕ → List ℕ
diverted_buttons (high ∷ (low ∷ rest)) =
    let cid = bit_or low (high * 256) in
    let later = diverted_buttons rest in if cid == 0 then [] else insert cid later
diverted_buttons _ = []

-- What happens to the buttons: a report of the pressed ones, by its parameters, or a sleep.
pub data Event : Type 0 where
  diverted : List ℕ → Event
  asleep : Event

unfoldable pub handle : Event → Buttons → List Effect × Buttons
unfolding button_event on_sleep diverted_buttons
handle (diverted params) s = button_event (diverted_buttons params) s
handle asleep s = on_sleep s

unfoldable pub handle_all : List Event → Buttons → List Effect × Buttons
unfolding handle
handle_all [] s = ([], s)
handle_all (e ∷ rest) s =
    let first = handle e s in let later = handle_all rest first.1 in (first.0 ++ later.0, later.1)

-- What a button does with its action. The action is by its own state, of any type, and two calls.
pub record Button {ℓ} (Action : Type ℓ) : Type ℓ where
  pub action : Option Action
  pub first_move : Bool

-- `Button::press` with `press` of the action.
abbrev pub press_button {ℓ} : {Action : Type ℓ} → (Action → Action) → Button Action → Button Action
press_button call b = record {
  action = elim b.action [ none ↦ none | some a ↦ some (call a) ];
  first_move = true;
}

-- `Button::move` with `move` of the action.
unfoldable pub move_button {ℓ} :
    {Action : Type ℓ} → (ℤ → ℤ → Action → Action) → ℤ → ℤ → Button Action → Button Action
move_button call x y b = elim b.action [
  | none ↦ record b { first_move = false }
  | some a ↦
      if b.first_move
      then record b { first_move = false }
      else record b { action = some (call x y a) }
]
