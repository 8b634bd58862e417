-- ===== src/Features/ThumbWheel/Tracks.antt =====
-- What an action of a thumb wheel is told, among all that is told.
use logiops.Prelude.{
  ℕ, zero, suc, ◌≡◌, Bool, true, false, Option, none, some, List, [], ◌∷◌, ◌++◌, ◌==◌,
  if◌then◌else◌, arith, refl, ap, ◌∙◌,
}
use logiops.Prelude.Int.{ℤ, pos, negsuc, ◌*ℤ◌, int16}
use logiops.Features.ThumbWheel.{
  Target, tap, proxy, touch, Side, left, right, Effect, press_action, release_action, press_gesture,
  release_gesture, move_gesture, Wheel, if_any, toggled, edge, scroll, both, rotate, start, stop,
}

abbrev pub same : Target → Target → Bool
same tap tap = true
same proxy proxy = true
same touch touch = true
same _ _ = false

-- One action through what is told: pressed only while it is up, and released only while it is down.
abbrev pub track : Target → Bool → List Effect → Option Bool
track t down [] = some down
track t down (press_action u ∷ rest) =
    if same t u then (if down then none else track t true rest) else track t down rest
track t down (release_action u ∷ rest) =
    if same t u then (if down then track t false rest else none) else track t down rest
track t down (press_gesture side ∷ rest) = track t down rest
track t down (release_gesture side ∷ rest) = track t down rest
track t down (move_gesture side d ∷ rest) = track t down rest

abbrev track_on : Target → Option Bool → List Effect → Option Bool
track_on t none es = none
track_on t (some down) es = track t down es

track-append :
    (t : Target) (down : Bool) (es fs : List Effect)
    → track t down (es ++ fs) ≡ track_on t (track t down es) fs
track-append t down [] fs = refl
track-append t down (press_action u ∷ rest) fs =
    ground (arith, track-append t true rest fs, track-append t down rest fs)
track-append t down (release_action u ∷ rest) fs =
    ground (arith, track-append t false rest fs, track-append t down rest fs)
track-append t down (press_gesture side ∷ rest) fs = track-append t down rest fs
track-append t down (release_gesture side ∷ rest) fs = track-append t down rest fs
track-append t down (move_gesture side d ∷ rest) fs = track-append t down rest fs

pub toggled_lem : (flag last : Bool) → toggled flag last ≡ flag
toggled_lem true true = refl
toggled_lem true false = refl
toggled_lem false true = refl
toggled_lem false false = refl

-- The action of a flag follows it, and the others are not told.
same_self : (t : Target) → same t t ≡ true
same_self tap = refl
same_self proxy = refl
same_self touch = refl

pub track-edge :
    (t : Target) (has flag last : Bool)
    → has ≡ true
    → track t last (edge has t flag last) ≡ some flag
track-edge t has true true h = refl
track-edge t has true false h = rw (h, same_self t) refl
track-edge t has false true h = rw (h, same_self t) refl
track-edge t has false false h = refl

pub track-edge_other :
    (t u : Target) (has flag last down : Bool)
    → same t u ≡ false
    → track t down (edge has u flag last) ≡ some down
track-edge_other t u has true true down e = refl
track-edge_other t u false true false down e = refl
track-edge_other t u true true false down e = rw e refl
track-edge_other t u false false true down e = refl
track-edge_other t u true false true down e = rw e refl
track-edge_other t u has false false down e = refl

-- A tap leaves every action that is up where it is.
pub track-tap :
    (t : Target) (any down : Bool)
    → (same t tap ≡ true → down ≡ false)
    → track t down (if_any any (press_action tap ∷ release_action tap ∷ [])) ≡ some down
track-tap t false down h = refl
track-tap tap true down h = rw (h refl) refl
track-tap proxy true down h = refl
track-tap touch true down h = refl

-- Gestures are no actions.
unfoldable pub IsGesture : Effect → Type 0
IsGesture (press_action t) = ⊥
IsGesture (release_action t) = ⊥
IsGesture e = Unit

unfoldable pub AreGestures : List Effect → Type 0
AreGestures [] = Unit
AreGestures (e ∷ rest) = IsGesture e × AreGestures rest

pub track-AreGestures :
    (t : Target) (down : Bool) (es : List Effect) → AreGestures es → track t down es ≡ some down
unfolding AreGestures IsGesture
track-AreGestures t down [] h = refl
track-AreGestures t down (press_action u ∷ rest) h = absurd h.0
track-AreGestures t down (release_action u ∷ rest) h = absurd h.0
track-AreGestures t down (press_gesture side ∷ rest) h = track-AreGestures t down rest h.1
track-AreGestures t down (release_gesture side ∷ rest) h = track-AreGestures t down rest h.1
track-AreGestures t down (move_gesture side d ∷ rest) h = track-AreGestures t down rest h.1

append-AreGestures :
    (es fs : List Effect) → AreGestures es → AreGestures fs → AreGestures (es ++ fs)
unfolding AreGestures
append-AreGestures [] fs h k = k
append-AreGestures (e ∷ es) fs h k = (h.0, append-AreGestures es fs h.1 k)

pub if_any-AreGestures :
    (any : Bool) (es : List Effect) → AreGestures es → AreGestures (if_any any es)
unfolding AreGestures
if_any-AreGestures true es h = h
if_any-AreGestures false es h = tt

both-AreGestures :
    (w : Wheel) (told : Side → Effect)
    → ((side : Side) → IsGesture (told side))
    → AreGestures (both w told)
unfolding AreGestures
both-AreGestures w told h =
    append-AreGestures (if_any (w.has_gesture right) (told right ∷ []))
      (if_any (w.has_gesture left) (told left ∷ []))
      (if_any-AreGestures (w.has_gesture right) (told right ∷ []) (h right, tt))
      (if_any-AreGestures (w.has_gesture left) (told left ∷ []) (h left, tt))

scroll-AreGestures : (w : Wheel) (d : ℤ) → AreGestures (scroll w d)
unfolding AreGestures IsGesture
scroll-AreGestures w (pos zero) = tt
scroll-AreGestures w (pos (suc n)) =
    if_any-AreGestures (w.has_gesture right) (press_gesture right ∷ move_gesture right _ ∷ [])
      (tt, (tt, tt))
scroll-AreGestures w (negsuc n) =
    if_any-AreGestures (w.has_gesture left) (press_gesture left ∷ move_gesture left _ ∷ [])
      (tt, (tt, tt))

pub rotate-AreGestures : (w : Wheel) (status : ℕ) (d : ℤ) → AreGestures (rotate w status d)
unfolding IsGesture
rotate-AreGestures w status d =
    append-AreGestures (if_any (status == start) (both w press_gesture))
      (scroll w (int16 (d *ℤ w.default_direction))
        ++ if_any (status == stop) (both w release_gesture))
      (if_any-AreGestures (status == start) (both w press_gesture)
        (both-AreGestures w press_gesture (λ side. tt)))
      (append-AreGestures (scroll w (int16 (d *ℤ w.default_direction)))
        (if_any (status == stop) (both w release_gesture))
        (scroll-AreGestures w (int16 (d *ℤ w.default_direction)))
        (if_any-AreGestures (status == stop) (both w release_gesture)
          (both-AreGestures w release_gesture (λ side. tt))))

-- Two parts, one after the other.
pub track-then :
    (t : Target) (a b c : Bool) (es fs : List Effect)
    → track t a es ≡ some b
    → track t b fs ≡ some c
    → track t a (es ++ fs) ≡ some c
track-then t a b c es fs e f = track-append t a es fs ∙ ap (λ x. track_on t x fs) e ∙ f
