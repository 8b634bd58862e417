-- ===== src/Features/RemapButton/Moves.antt =====
-- The movements that the action of a pressed button gets: all but the first after the press.
use logiops.Prelude.{Bool, ◌≡◌, false, some, List, [], ◌∷◌, refl}
use logiops.Prelude.Int.{ℤ}
use logiops.Features.RemapButton.{Button, press_button, move_button}

module _ {ℓ} {Action : Type ℓ} (press : Action → Action) (move : ℤ → ℤ → Action → Action) where
  -- Movements of a button, and of its action.
  abbrev pub move_all : List (ℤ × ℤ) → Button Action → Button Action
  move_all [] b = b
  move_all ((x, y) ∷ rest) b = move_all rest (move_button move x y b)

  abbrev pub move_action : List (ℤ × ℤ) → Action → Action
  move_action [] a = a
  move_action ((x, y) ∷ rest) a = move_action rest (move x y a)

  moved :
      (moves : List (ℤ × ℤ)) (a : Action)
      → move_all moves (record { action = some a; first_move = false })
        ≡ record { action = some (move_action moves a); first_move = false }
  unfolding move_button
  moved [] a = refl
  moved ((x, y) ∷ rest) a = moved rest (move x y a)

  -- After a press the first movement is dropped, whatever was before, and the action gets the others in
  -- their order.
  pub press-moves :
      (x y : ℤ) (moves : List (ℤ × ℤ)) (a : Action) (first_move : Bool)
      → move_all
          ((x, y) ∷ moves)
          (press_button press (record { action = some a; first_move = first_move }))
        ≡ record { action = some (move_action moves (press a)); first_move = false }
  unfolding move_button
  press-moves x y moves a first_move = moved moves (press a)
