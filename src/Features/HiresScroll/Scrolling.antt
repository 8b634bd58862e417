-- ===== src/Features/HiresScroll/Scrolling.antt =====
-- Scrolling moves the gesture of its direction only, from where the last turn of the wheel began.
use logiops.Prelude.{
  ℕ, zero, suc, ◌≡◌, Bool, true, false, List, [], ◌∷◌, ◌++◌, leb, if◌then◌else◌, Bool-cases, arith,
  refl, ap, sym, ◌∙◌, inl, inr, subst,
}
use logiops.Prelude.Int.{ℤ, pos, negsuc, ◌+ℤ◌, neg, int16}
use logiops.Features.HiresScroll.{
  Effect, restart_up, restart_down, move_up, move_down, Direction, down, still, up, Gestures,
  effect_if, after_pause, scroll, handle_scroll,
}

-- How far the gestures were moved since they were last pressed.
pub record Travel : Type 0 where
  pub up_way : ℤ
  pub down_way : ℤ

abbrev pub nowhere : Travel
nowhere = record { up_way = pos 0; down_way = pos 0 }

abbrev pub tell : Effect → Travel → Travel
tell restart_up t = record t { up_way = pos 0 }
tell restart_down t = record t { down_way = pos 0 }
tell (move_up d) t = record t { up_way = t.up_way +ℤ d }
tell (move_down d) t = record t { down_way = t.down_way +ℤ d }

abbrev pub tell_all : List Effect → Travel → Travel
tell_all [] t = t
tell_all (e ∷ rest) t = tell_all rest (tell e t)

-- The wheel since it last turned round or stood still for a second: its direction, and how far.
abbrev pub Streak : Type 0
Streak = Direction × ℤ

abbrev pub turn : ℤ → Streak → Streak
turn (pos zero) streak = streak
turn (pos (suc n)) (up, way) = (up, way +ℤ pos (suc n))
turn (pos (suc n)) (last, way) = (up, pos 0 +ℤ pos (suc n))
turn (negsuc n) (down, way) = (down, way +ℤ int16 (neg (negsuc n)))
turn (negsuc n) (last, way) = (down, pos 0 +ℤ int16 (neg (negsuc n)))

abbrev pub pause : ℕ → Streak → Streak
pause seconds streak = if leb 1 seconds then (still, pos 0) else streak

-- The travel that goes with a streak.
abbrev pub travel_of : Gestures → Streak → Travel
travel_of g (up, way) = record { up_way = if g.has_up then way else pos 0; down_way = pos 0 }
travel_of g (down, way) = record { up_way = pos 0; down_way = if g.has_down then way else pos 0 }
travel_of g (still, way) = nowhere

abbrev gestures : Bool → Bool → Gestures
gestures u d = record { has_up = u; has_down = d }

-- Both gestures start anew.
restarted :
    (u d : Bool) (last : Direction) (way : ℤ)
    → tell_all
        (effect_if u restart_up ++ effect_if d restart_down)
        (travel_of (gestures u d) (last, way))
      ≡ nowhere
restarted true true up way = refl
restarted u d last way = ground arith

scroll-travel :
    (u d : Bool) (delta : ℤ) (last : Direction) (way : ℤ)
    → (tell_all (scroll (gestures u d) delta last).0 (travel_of (gestures u d) (last, way))
        ≡ travel_of (gestures u d) (turn delta (last, way)))
      × ((scroll (gestures u d) delta last).1 ≡ (turn delta (last, way)).0)
scroll-travel u d (pos zero) last way = (refl, refl)
scroll-travel true d (pos (suc n)) up way = (refl, refl)
scroll-travel false d (pos (suc n)) up way = (refl, refl)
scroll-travel true true (pos (suc n)) down way = (refl, refl)
scroll-travel true false (pos (suc n)) down way = (refl, refl)
scroll-travel false true (pos (suc n)) down way = (refl, refl)
scroll-travel false false (pos (suc n)) down way = (refl, refl)
scroll-travel true d (pos (suc n)) still way = (refl, refl)
scroll-travel false d (pos (suc n)) still way = (refl, refl)
scroll-travel true true (negsuc n) up way = (refl, refl)
scroll-travel true false (negsuc n) up way = (refl, refl)
scroll-travel false true (negsuc n) up way = (refl, refl)
scroll-travel false false (negsuc n) up way = (refl, refl)
scroll-travel u true (negsuc n) down way = (refl, refl)
scroll-travel u false (negsuc n) down way = (refl, refl)
scroll-travel u true (negsuc n) still way = (refl, refl)
scroll-travel u false (negsuc n) still way = (refl, refl)

pause-travel :
    (u d : Bool) (seconds : ℕ) (last : Direction) (way : ℤ)
    → (tell_all (after_pause (gestures u d) seconds last).0 (travel_of (gestures u d) (last, way))
        ≡ travel_of (gestures u d) (pause seconds (last, way)))
      × ((after_pause (gestures u d) seconds last).1 ≡ (pause seconds (last, way)).0)
pause-travel u d seconds last way = elim (Bool-cases (leb 1 seconds)) [
  | inr soon ↦ rw (soon, after_pause, pause) (refl, refl)
  | inl late ↦ rw (late, after_pause, pause) (restarted u d last way, refl)
]

-- Events of the wheel: the whole seconds since the event before, and `deltaV`.
unfoldable pub handle_all : Gestures → List (ℕ × ℤ) → Direction → List Effect × Direction
unfolding handle_scroll
handle_all g [] last = ([], last)
handle_all g ((seconds, delta) ∷ rest) last =
    let first = handle_scroll g seconds delta last in
    let later = handle_all g rest first.1 in (first.0 ++ later.0, later.1)

abbrev pub streak_of : List (ℕ × ℤ) → Streak → Streak
streak_of [] streak = streak
streak_of ((seconds, delta) ∷ rest) streak = streak_of rest (turn delta (pause seconds streak))

tell_all-append :
    (es fs : List Effect) (t : Travel) → tell_all (es ++ fs) t ≡ tell_all fs (tell_all es t)
tell_all-append [] fs t = refl
tell_all-append (e ∷ es) fs t = tell_all-append es fs (tell e t)

handle_scroll-travel :
    (u d : Bool) (seconds : ℕ) (delta : ℤ) (streak : Streak)
    → (tell_all
          (handle_scroll (gestures u d) seconds delta streak.0).0
          (travel_of (gestures u d) streak)
        ≡ travel_of (gestures u d) (turn delta (pause seconds streak)))
      × ((handle_scroll (gestures u d) seconds delta streak.0).1
          ≡ (turn delta (pause seconds streak)).0)
unfolding handle_scroll
handle_scroll-travel u d seconds delta (last, way) =
    let g = gestures u d in
    let paused = after_pause g seconds last in
    let (told, now) = pause-travel u d seconds last way in
    let (last', way') = pause seconds (last, way) in
    let (moved, then_) = scroll-travel u d delta last' way' in
    (
      tell_all-append paused.0 (scroll g delta paused.1).0 (travel_of g (last, way))
          ∙ ap (tell_all (scroll g delta paused.1).0) told
          ∙ subst
              (λ x.
                tell_all (scroll g delta x).0 (travel_of g (last', way'))
                ≡ travel_of g (turn delta (last', way')))
              (sym now) moved,
      ap (λ x. (scroll g delta x).1) now ∙ then_,
    )

-- Whatever comes from the wheel, and whichever gestures there are: the gesture of the direction in
-- which the wheel turns has been moved, since it was last pressed, by all of the turn since the
-- wheel last changed its direction or stood still for a second, and the other one not at all.
pub handle_all-travel :
    (u d : Bool) (events : List (ℕ × ℤ)) (streak : Streak)
    → tell_all
        (handle_all (record { has_up = u; has_down = d }) events streak.0).0
        (travel_of (record { has_up = u; has_down = d }) streak)
      ≡ travel_of (record { has_up = u; has_down = d }) (streak_of events streak)
unfolding handle_all
handle_all-travel u d [] streak = refl
handle_all-travel u d ((seconds, delta) ∷ rest) streak =
    let g = gestures u d in
    let first = handle_scroll g seconds delta streak.0 in
    let next = turn delta (pause seconds streak) in
    let (told, now) = handle_scroll-travel u d seconds delta streak in
    let later = handle_all-travel u d rest next in
    tell_all-append first.0 (handle_all g rest first.1).0 (travel_of g streak)
    ∙ ap (tell_all (handle_all g rest first.1).0) told
    ∙ subst
        (λ x.
          tell_all (handle_all g rest x).0 (travel_of g next) ≡ travel_of g (streak_of rest next))
        (sym now) later
