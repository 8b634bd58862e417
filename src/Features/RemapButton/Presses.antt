-- ===== src/Features/RemapButton/Presses.antt =====
-- Each button is pressed and released in turn, and is pressed exactly while the device reports it.
use logiops.Prelude.{
  ℕ, suc, ◌*◌, bit_or, ◌≡◌, Bool, true, false, not, ◌&&◌, Option, none, some, List, [], ◌∷◌, ◌++◌,
  ◌==◌, if◌then◌else◌, Bool-cases, ==_iff, arith, refl, ap, sym, ◌∙◌, inl, inr, subst,
}
use logiops.Prelude.Sets.{
  insert-AscendsFrom, erase, contains, AscendsFrom, erase-AscendsFrom, contains-erase,
  contains_below,
}
use logiops.Features.RemapButton.{
  Effect, press, release, Buttons, press_added, release_all, button_event, on_sleep,
  diverted_buttons, Event, diverted, asleep, handle, handle_all,
}

-- One button through calls: pressed only while it is up, and released only while it is down.
abbrev pub track : ℕ → Bool → List Effect → Option Bool
track k down [] = some down
track k down (press i ∷ rest) =
    if i == k then (if down then none else track k true rest) else track k down rest
track k down (release i ∷ rest) =
    if i == k then (if down then track k false rest else none) else track k down rest

abbrev track_on : ℕ → Option Bool → List Effect → Option Bool
track_on k none es = none
track_on k (some down) es = track k down es

track-append :
    (k : ℕ) (down : Bool) (es fs : List Effect)
    → track k down (es ++ fs) ≡ track_on k (track k down es) fs
track-append k down [] fs = refl
track-append k true (press i ∷ rest) fs = ground (arith, track-append k true rest fs)
track-append k false (press i ∷ rest) fs =
    ground (arith, track-append k true rest fs, track-append k false rest fs)
track-append k true (release i ∷ rest) fs =
    ground (arith, track-append k true rest fs, track-append k false rest fs)
track-append k false (release i ∷ rest) fs = ground (arith, track-append k false rest fs)

-- What the calls do to a button, if it is pressed by them once or not at all.
abbrev pressed_once : Bool → Bool → Option Bool
pressed_once once down = if once then (if down then none else some true) else some down

same_contains : (k i : ℕ) (l : List ℕ) → (k == i) ≡ true → contains k l ≡ contains i l
same_contains k i l e = ap (λ (x : ℕ). contains x l) ((==_iff k i).0 e)

-- The releases after the presses: a button that was pressed and is no more goes up.
after_presses :
    (k : ℕ) (old new : Bool) (es : List Effect) (middle : Option Bool)
    → middle ≡ pressed_once (new && not old) old
    → ((down : Bool)
        → track k down es
          ≡ (if old && not new then (if down then some false else none) else some down))
    → track_on k middle es ≡ some new
after_presses k true true es middle e h = rw e (h true)
after_presses k true false es middle e h = rw e (h true)
after_presses k false true es middle e h = rw e (h true)
after_presses k false false es middle e h = rw e (h false)

all_up : (b : Bool) → (if b then (if b then some false else none) else some b) ≡ some false
all_up true = refl
all_up false = refl

-- The set that a report gives is a set.
diverted_buttons-AscendsFrom : (params : List ℕ) → AscendsFrom 0 (diverted_buttons params)
unfolding diverted_buttons
diverted_buttons-AscendsFrom [] = tt
diverted_buttons-AscendsFrom (high ∷ []) = tt
diverted_buttons-AscendsFrom (high ∷ (low ∷ rest)) =
    elim (Bool-cases (bit_or low (high * 256) == 0)) [
      | inl end ↦ rw end (tt)
      | inr more ↦ rw more (
          insert-AscendsFrom 0 (bit_or low (high * 256)) (diverted_buttons rest) (omega arith)
            (diverted_buttons-AscendsFrom rest))
    ]

module _ (known : List ℕ) (k : ℕ) where
  -- What is left is what was pressed and is no more.
  left-press_added :
      (lo : ℕ) (new_state pressed : List ℕ)
      → AscendsFrom lo new_state
      → AscendsFrom 0 pressed
      → contains k (press_added known new_state pressed).1
        ≡ contains k pressed && not (contains k new_state)
  unfolding press_added contains
  left-press_added lo [] pressed a b = ground arith
  left-press_added lo (i ∷ rest) pressed a b = ground (
    arith,
    left-press_added (suc i) rest (erase i pressed) a.1 (erase-AscendsFrom 0 i pressed b),
    left-press_added (suc i) rest pressed a.1 b,
    contains-erase k i 0 pressed b,
    same_contains k i pressed,
  )

  -- A known button is pressed once if it is new, and else not.
  track-press_added :
      (lo : ℕ) (new_state pressed : List ℕ) (down : Bool)
      → contains k known ≡ true
      → AscendsFrom lo new_state
      → AscendsFrom 0 pressed
      → track k down (press_added known new_state pressed).0
        ≡ pressed_once (contains k new_state && not (contains k pressed)) down
  unfolding press_added contains
  track-press_added lo [] pressed down is_known a b = refl
  track-press_added lo (i ∷ rest) pressed down is_known a b = ground (
    arith,
    track-press_added (suc i) rest (erase i pressed) down is_known a.1
        (erase-AscendsFrom 0 i pressed b),
    track-press_added (suc i) rest pressed down is_known a.1 b,
    track-press_added (suc i) rest pressed true is_known a.1 b,
    contains-erase k i 0 pressed b,
    same_contains k i pressed,
    same_contains k i known,
    contains_below k (suc i) rest,
  )

  left-AscendsFrom :
      (new_state pressed : List ℕ)
      → AscendsFrom 0 pressed
      → AscendsFrom 0 (press_added known new_state pressed).1
  unfolding press_added
  left-AscendsFrom [] pressed b = b
  left-AscendsFrom (i ∷ rest) pressed b = elim (Bool-cases (contains i pressed)) [
    | inl held ↦
        rw (held) (left-AscendsFrom rest (erase i pressed) (erase-AscendsFrom 0 i pressed b))
    | inr added ↦ elim (Bool-cases (contains i known)) [
      | inl is_known ↦ rw (added, is_known) (left-AscendsFrom rest pressed b)
      | inr unknown ↦ rw (added, unknown) (left-AscendsFrom rest pressed b)
    ]
  ]

  track-release_all :
      (lo : ℕ) (rest : List ℕ) (down : Bool)
      → contains k known ≡ true
      → AscendsFrom lo rest
      → track k down (release_all known rest)
        ≡ (if contains k rest then (if down then some false else none) else some down)
  unfolding release_all contains
  track-release_all lo [] down is_known a = refl
  track-release_all lo (i ∷ rest) down is_known a = ground (
    arith,
    track-release_all (suc i) rest down is_known a.1,
    track-release_all (suc i) rest false is_known a.1,
    same_contains k i known,
    contains_below k (suc i) rest,
  )

  button_event-track :
      (new_state : List ℕ) (pressed : List ℕ)
      → contains k known ≡ true
      → AscendsFrom 0 new_state
      → AscendsFrom 0 pressed
      → track k
          (contains k pressed)
          (button_event new_state (record { known = known; pressed = pressed })).0
        ≡ some (contains k new_state)
  unfolding button_event
  button_event-track new_state pressed is_known a b =
      let added = press_added known new_state pressed in
      let p = track-press_added 0 new_state pressed (contains k pressed) is_known a b in
      let l = left-press_added 0 new_state pressed a b in
      track-append k (contains k pressed) added.0 (release_all known added.1)
      ∙ after_presses k (contains k pressed) (contains k new_state) (release_all known added.1)
          (track k (contains k pressed) added.0) p
          (λ down.
            track-release_all 0 added.1 down is_known (left-AscendsFrom new_state pressed b)
            ∙ ap (λ (c : Bool). if c then (if down then some false else none) else some down) l)

  handle-track :
      (e : Event) (pressed : List ℕ)
      → contains k known ≡ true
      → AscendsFrom 0 pressed
      → (track k (contains k pressed) (handle e (record { known = known; pressed = pressed })).0
          ≡ some (contains k (handle e (record { known = known; pressed = pressed })).1.pressed))
        × AscendsFrom 0 (handle e (record { known = known; pressed = pressed })).1.pressed
        × ((handle e (record { known = known; pressed = pressed })).1.known ≡ known)
  unfolding handle on_sleep button_event contains
  handle-track (diverted params) pressed is_known b = (
    button_event-track (diverted_buttons params) pressed is_known
        (diverted_buttons-AscendsFrom params) b,
    diverted_buttons-AscendsFrom params,
    refl,
  )
  handle-track asleep pressed is_known b = (
    track-release_all 0 pressed (contains k pressed) is_known b ∙ all_up (contains k pressed),
    tt,
    refl,
  )

  -- A button that is known is told of presses and releases in turn, whatever the device reports and
  -- whenever it sleeps, and is down at the end exactly if it is among the pressed ones.
  pub handle_all-track :
      (events : List Event) (pressed : List ℕ)
      → contains k known ≡ true
      → AscendsFrom 0 pressed
      → track k
          (contains k pressed)
          (handle_all events (record { known = known; pressed = pressed })).0
        ≡ some
            (contains k (handle_all events (record { known = known; pressed = pressed })).1.pressed)
  unfolding handle_all
  handle_all-track [] pressed is_known b = refl
  handle_all-track (e ∷ rest) pressed is_known b =
      let s : Buttons = record { known = known; pressed = pressed } in
      let first = handle e s in
      let (told, ascends, same) = handle-track e pressed is_known b in
      let eq : first.1 ≡ record { known = known; pressed = first.1.pressed } =
        ap (λ l. record { known = l; pressed = first.1.pressed }) same in
      let later = handle_all-track rest first.1.pressed is_known ascends in
      track-append k (contains k pressed) first.0 (handle_all rest first.1).0
      ∙ ap (λ o. track_on k o (handle_all rest first.1).0) told
      ∙ subst
          (λ x.
            track k (contains k first.1.pressed) (handle_all rest x).0
            ≡ some (contains k (handle_all rest x).1.pressed))
          (sym eq) later
