-- ===== src/Actions/GestureAction/Vertical.antt =====
-- src/logid/actions/GestureAction.cpp, the vertical half of `move`.
use logiops.Prelude.{◌≡◌, refl, false, arith}
use logiops.Prelude.Int.{
  ℤ, pos, negsuc, neg, ◌+ℤ◌, ◌<ℤ◌, ◌≤ℤ◌, IsInt32, eqb_ℤ, int16, ltb_ℤ-true, leb_ℤ-true,
}
use logiops.Actions.GestureAction.{
  Direction, none_direction, up, down, left, right, to_direction, GestureOps, GestureAction, cross,
  move_y,
}
use logiops.Actions.GestureAction.Moves.{Measured, Reads, Crossed, cross-Crossed}
use logiops.Actions.GestureAction.Horizontal.{IsNear, int16_near, eqb_zero, near_IsInt16}

-- How far a position is in a direction.
abbrev pub along : Direction → ℤ → ℤ → ℤ
along none_direction x y = pos 0
along up x y = neg y
along down x y = y
along left x y = neg x
along right x y = x

-- The direction of a position is one of the four, up for negative y and down for positive y, in which
-- the position is at least as far as in any other.
pub to_direction-along :
    (x y : ℤ)
    → (x ≤ℤ along (to_direction x y) x y)
      × (neg x ≤ℤ along (to_direction x y) x y)
      × (y ≤ℤ along (to_direction x y) x y)
      × (neg y ≤ℤ along (to_direction x y) x y)
unfolding to_direction neg
to_direction-along (pos a) (pos b) = ground arith
to_direction-along (pos a) (negsuc b) = ground arith
to_direction-along (negsuc a) (pos b) = ground arith
to_direction-along (negsuc a) (negsuc b) = ground arith

module _ {G : Type 0} (ops : GestureOps G) (laws : Measured ops) where
  crossing_runs :
      (y n : ℤ) (s : GestureAction G)
      → eqb_ℤ y (pos 0) ≡ false
      → pos 0 <ℤ s.y
      → n ≤ℤ pos 0
      → move_y ops y n s ≡ cross ops up (int16 s.y) down (int16 n) n s
  unfolding move_y
  crossing_runs y n s h k l = rw (h, ltb_ℤ-true (pos 0) s.y k, leb_ℤ-true n (pos 0) l) refl

  -- When the pointer comes back from a place below its start (where y is positive) to the start or
  -- above it, the gesture of up is moved by the distance below the start, and the gesture of down by
  -- the new distance, which is not positive.
  pub move_y-crossing :
      (y n zu zd : ℤ) (s : GestureAction G)
      → eqb_ℤ y (pos 0) ≡ false
      → pos 0 <ℤ s.y
      → n ≤ℤ pos 0
      → IsNear s.y
      → IsNear n
      → Reads ops laws (s.gestures up) zu
      → Reads ops laws (s.gestures down) zd
      → IsInt32 (zu +ℤ s.y)
      → IsInt32 (zd +ℤ n)
      → Crossed ops laws up (zu +ℤ s.y) down (zd +ℤ n) s (move_y ops y n s)
  move_y-crossing y n zu zd s h k l hs hn ru rd hu hd =
      rw (crossing_runs y n s h k l, int16_near s.y hs, int16_near n hn)
        (cross-Crossed ops laws up down s.y n n zu zd s refl refl (eqb_zero n) ru rd
          (near_IsInt16 s.y hs) (near_IsInt16 n hn) hu hd)
