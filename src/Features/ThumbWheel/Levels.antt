-- ===== src/Features/ThumbWheel/Levels.antt =====
-- Each action of a thumb wheel is pressed and released in turn, as the flags of the events say.
use logiops.Prelude.{
  ◌≡◌, Bool, true, false, not, ◌&&◌, some, List, [], ◌∷◌, ◌++◌, ◌==◌, arith, refl, sym,
}
use logiops.Hidpp20.ReprogControls.{has_flag}
use logiops.Features.ThumbWheel.{
  Target, tap, proxy, touch, Effect, press_action, release_action, Wheel, Last, Event, if_any, edge,
  rotate, handle_event, touch_flag, proxy_flag, tap_flag, inactive,
}
use logiops.Features.ThumbWheel.Tracks.{
  same, track, track-edge, track-edge_other, track-tap, track-AreGestures, if_any-AreGestures,
  rotate-AreGestures, track-then, toggled_lem,
}

-- What a state and an event say of an action; a tap is over at once.
abbrev pub last_of : Target → Last → Bool
last_of tap last = false
last_of proxy last = last.proxy
last_of touch last = last.touch

abbrev pub flag_of : Target → Event → Bool
flag_of tap event = false
flag_of proxy event = has_flag event.flags proxy_flag
flag_of touch event = has_flag event.flags touch_flag

unfoldable pub handle_all : Wheel → List Event → Last → List Effect × Last
unfolding handle_event
handle_all w [] last = ([], last)
handle_all w (event ∷ rest) last =
    let first = handle_event w event last in
    let later = handle_all w rest first.1 in (first.0 ++ later.0, later.1)

-- The flag of the last event.
abbrev pub level : Target → List Event → Bool → Bool
level t [] b = b
level t (event ∷ rest) b = level t rest (flag_of t event)

turns : Wheel → Event → List Effect
turns w event =
    if_any (not (event.rotation_status == inactive)) (rotate w event.rotation_status event.rotation)

track-turns :
    (w : Wheel) (t : Target) (event : Event) (down : Bool)
    → track t down (turns w event) ≡ some down
unfolding turns
track-turns w t event down = track-AreGestures t down _ (
    if_any-AreGestures (not (event.rotation_status == inactive))
      (rotate w event.rotation_status event.rotation)
      (rotate-AreGestures w event.rotation_status event.rotation))

-- The parts of an event, for an action that is up or down before and after the two edges.
track-parts :
    (w : Wheel) (t : Target) (event : Event) (last : Last) (a b c : Bool)
    → (same t tap ≡ true → a ≡ false)
    → track t a (edge (w.has_action proxy) proxy (has_flag event.flags proxy_flag) last.proxy)
      ≡ some b
    → track t b (edge (w.has_action touch) touch (has_flag event.flags touch_flag) last.touch)
      ≡ some c
    → track t a (handle_event w event last).0 ≡ some c
unfolding handle_event turns
track-parts w t event last a b c up to_b to_c =
    let tapped = has_flag event.flags tap_flag && w.has_action tap in
    let taps = if_any tapped (press_action tap ∷ release_action tap ∷ []) in
    let proxies = edge (w.has_action proxy) proxy (has_flag event.flags proxy_flag) last.proxy in
    let touches = edge (w.has_action touch) touch (has_flag event.flags touch_flag) last.touch in
    let turned = turns w event in
    track-then t a a c taps (proxies ++ (touches ++ turned)) (track-tap t tapped a up) (
      track-then t a b c proxies (touches ++ turned) to_b
        (track-then t b c c touches turned to_c (track-turns w t event c)))

handle_event-track :
    (w : Wheel) (t : Target) (event : Event) (last : Last)
    → w.has_action t ≡ true
    → track t (last_of t last) (handle_event w event last).0 ≡ some (flag_of t event)
handle_event-track w tap event last h =
    let proxy_now = has_flag event.flags proxy_flag in
    let touch_now = has_flag event.flags touch_flag in
    track-parts w tap event last false false false (λ e. refl)
      (track-edge_other tap proxy (w.has_action proxy) proxy_now last.proxy false refl)
      (track-edge_other tap touch (w.has_action touch) touch_now last.touch false refl)
handle_event-track w proxy event last h =
    let proxy_now = has_flag event.flags proxy_flag in
    let touch_now = has_flag event.flags touch_flag in
    track-parts w proxy event last last.proxy proxy_now proxy_now (λ e. ground (arith, e))
      (track-edge proxy (w.has_action proxy) proxy_now last.proxy h)
      (track-edge_other proxy touch (w.has_action touch) touch_now last.touch proxy_now refl)
handle_event-track w touch event last h =
    let proxy_now = has_flag event.flags proxy_flag in
    let touch_now = has_flag event.flags touch_flag in
    track-parts w touch event last last.touch last.touch touch_now (λ e. ground (arith, e))
      (track-edge_other touch proxy (w.has_action proxy) proxy_now last.proxy last.touch refl)
      (track-edge touch (w.has_action touch) touch_now last.touch h)

handle_event-last :
    (w : Wheel) (t : Target) (event : Event) (last : Last)
    → last_of t (handle_event w event last).1 ≡ flag_of t event
unfolding handle_event
handle_event-last w tap event last = refl
handle_event-last w proxy event last = toggled_lem (has_flag event.flags proxy_flag) last.proxy
handle_event-last w touch event last = toggled_lem (has_flag event.flags touch_flag) last.touch

-- Whatever events come from the wheel: an action that there is is told of presses and releases in
-- turn, and is down at the end exactly if the last event has its flag, or if it was and none came; a
-- tap is pressed and released at once.
pub handle_all-level :
    (w : Wheel) (t : Target) (events : List Event) (last : Last)
    → w.has_action t ≡ true
    → track t (last_of t last) (handle_all w events last).0 ≡ some (level t events (last_of t last))
unfolding handle_all
handle_all-level w t [] last h = refl
handle_all-level w t (event ∷ rest) last h =
    let first = handle_event w event last in
    track-then t (last_of t last) (flag_of t event) (level t rest (flag_of t event)) first.0
      (handle_all w rest first.1).0 (handle_event-track w t event last h)
      (rw (sym (handle_event-last w t event last)) (handle_all-level w t rest first.1 h))
