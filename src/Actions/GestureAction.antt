-- ===== src/Actions/GestureAction.antt =====
-- src/logid/actions/GestureAction.cpp: a button that, while it is held, hands pointer movement to
-- the gestures of its directions. The map of gestures is a function of the direction; the gestures
-- themselves are behind `GestureOps`, as they are behind virtual calls in the source.
pub mod Moves
pub mod Horizontal
pub mod Vertical
pub mod Releasing
pub mod Tests
use logiops.Prelude.{
  ℕ, ◌≡◌, Bool, true, false, not, ◌&&◌, ◌||◌, Option, none, some, List, [], ◌∷◌, ◌++◌,
  if◌then◌else◌,
}
use logiops.Prelude.Exn.{Result, ok, err, ◌>>=◌}
use logiops.Prelude.Int.{ℤ, pos, neg, ◌+ℤ◌, leb_ℤ, ltb_ℤ, eqb_ℤ, int16, int32, IsInt32}
use logiops.Actions.Gesture.{Effect}

pub data Direction : Type 0 where
  none_direction up down left right : Direction

abbrev pub same : Direction → Direction → Bool
same none_direction none_direction = true
same up up = true
same down down = true
same left left = true
same right right = true
same _ _ = false

-- `toDirection(x, y)`.
unfoldable pub to_direction : ℤ → ℤ → Direction
to_direction x y =
    if leb_ℤ (pos 0) x && leb_ℤ (pos 0) y
    then (if leb_ℤ y x then right else down)
    else (if ltb_ℤ x (pos 0) && leb_ℤ (pos 0) y
        then (if leb_ℤ (neg x) y then down else left)
        else (if leb_ℤ x (pos 0)
            then (if leb_ℤ x y then left else up)
            else (if leb_ℤ x (neg y) then up else right)))

-- The virtual methods of `Gesture`.
pub record GestureOps (G : Type 0) : Type 0 where
  pub press_gesture : Bool → G → G
  pub release_gesture : Bool → G → G × List Effect
  pub move_gesture : ℤ → G → Result (G × List Effect)
  pub met_threshold : G → Bool

pub record GestureAction (G : Type 0) : Type 0 where
  pub pressed : Bool
  pub x : ℤ
  pub y : ℤ
  pub gestures : Direction → Option G

module _ {G : Type 0} (ops : GestureOps G) where
  abbrev pub update : Direction → G → (Direction → Option G) → Direction → Option G
  update d g gestures e = if same d e then some g else gestures e

  abbrev pub press_if : Option G → Option G
  press_if none = none
  press_if (some g) = some (ops.press_gesture false g)

  unfoldable pub press : GestureAction G → GestureAction G
  press s = record s {
    pressed = true;
    x = pos 0;
    y = pos 0;
    gestures = λ d. press_if (s.gestures d);
  }

  -- `release(primary)` on one gesture.
  abbrev pub release_one : Direction → Bool → G → GestureAction G → GestureAction G × List Effect
  release_one d primary g s =
      let (g', effects) = ops.release_gesture primary g in
      (record s { gestures = update d g' s.gestures }, effects)

  -- The primary gesture, and whether it met its threshold.
  unfoldable pub release_primary :
      Direction → GestureAction G → GestureAction G × List Effect × Bool
  release_primary d s = elim (s.gestures d) [
    | none ↦ (s, [], false)
    | some g ↦ let (s', effects) = release_one d true g s in (s', effects, ops.met_threshold g)
  ]

  -- One round of the loop over the gestures: `e` is the direction of this round, `d` the primary one.
  unfoldable pub release_other :
      Direction → Direction → Bool → GestureAction G → GestureAction G × List Effect × Bool
  release_other d e met s = elim (s.gestures e) [
    | none ↦ (s, [], met)
    | some g ↦
        if same e d || same e none_direction
        then (s, [], met)
        else (if not met
            then (if ops.met_threshold g
                then (let (s', effects) = release_one e true g s in (s', effects, true))
                else (s, [], met))
            else (let (s', effects) = release_one e false g s in (s', effects, met)))
  ]

  unfoldable pub release_others :
      Direction → List Direction → Bool → GestureAction G → GestureAction G × List Effect × Bool
  release_others d [] met s = (s, [], met)
  release_others d (e ∷ es) met s =
      let (s', now, met') = release_other d e met s in
      let (s'', later, met'') = release_others d es met' s' in (s'', now ++ later, met'')

  -- The order of a `std::map` over the enumeration.
  abbrev pub directions : List Direction
  directions = none_direction ∷ up ∷ down ∷ left ∷ right ∷ []

  unfoldable pub release_none : Bool → GestureAction G → GestureAction G × List Effect
  release_none met s = elim (s.gestures none_direction) [
    | none ↦ (s, [])
    | some g ↦ release_one none_direction (not met) g s
  ]

  unfoldable pub release : GestureAction G → GestureAction G × List Effect
  unfolding release_primary release_others release_none
  release s =
      let d = to_direction s.x s.y in
      let (s1, first, met) = release_primary d (record s { pressed = false }) in
      let (s2, rest, met') = release_others d directions met s1 in
      let (s3, last) = release_none met' s2 in (s3, first ++ (rest ++ last))

  -- `move` on the gesture of a direction, if there is one.
  unfoldable pub move_at : Direction → ℤ → GestureAction G → Result (GestureAction G × List Effect)
  move_at d v s = elim (s.gestures d) [
    | none ↦ ok (s, [])
    | some g ↦ do
      (g', effects) ← ops.move_gesture v g
      ok (record s { gestures = update d g' s.gestures }, effects)
  ]

  -- One gesture, then another unless the new position is the origin.
  unfoldable pub cross :
      Direction → ℤ → Direction → ℤ → ℤ → GestureAction G → Result (GestureAction G × List Effect)
  unfolding move_at
  cross d v e w new s = do
    (s1, now) ← move_at d v s
    (if eqb_ℤ new (pos 0)
        then ok (s1, now)
        else (do (s2, later) ← move_at e w s1; ok (s2, now ++ later)))

  unfoldable pub move_x : ℤ → ℤ → GestureAction G → Result (GestureAction G × List Effect)
  unfolding cross
  move_x x new_x s =
      if eqb_ℤ x (pos 0)
      then ok (s, [])
      else (if ltb_ℤ s.x (pos 0) && leb_ℤ (pos 0) new_x
          then cross left (int16 s.x) right (int16 new_x) new_x s
          else (if ltb_ℤ (pos 0) s.x && leb_ℤ new_x (pos 0)
              then cross right (int16 (neg s.x)) left (int16 (neg new_x)) new_x s
              else (if ltb_ℤ new_x (pos 0)
                  then move_at left (int16 (neg x)) s
                  else (if ltb_ℤ (pos 0) new_x then move_at right x s else ok (s, [])))))

  unfoldable pub move_y : ℤ → ℤ → GestureAction G → Result (GestureAction G × List Effect)
  unfolding cross
  move_y y new_y s =
      if eqb_ℤ y (pos 0)
      then ok (s, [])
      else (if ltb_ℤ (pos 0) s.y && leb_ℤ new_y (pos 0)
          then cross up (int16 s.y) down (int16 new_y) new_y s
          else (if ltb_ℤ s.y (pos 0) && leb_ℤ (pos 0) new_y
              then cross down (int16 (neg s.y)) up (int16 (neg new_y)) new_y s
              else (if ltb_ℤ new_y (pos 0)
                  then move_at up (int16 (neg y)) s
                  else (if ltb_ℤ (pos 0) new_y then move_at down y s else ok (s, [])))))

  unfoldable pub move : ℤ → ℤ → GestureAction G → Result (GestureAction G × List Effect)
  unfolding move_x move_y
  move x y s = do
    let new_x = int32 (s.x +ℤ x)
    let new_y = int32 (s.y +ℤ y)
    (s1, horizontal) ← move_x x new_x s
    (s2, vertical) ← move_y y new_y s1
    ok (record s2 { x = new_x; y = new_y }, horizontal ++ vertical)
