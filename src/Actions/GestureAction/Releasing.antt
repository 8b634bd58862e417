-- ===== src/Actions/GestureAction/Releasing.antt =====
-- src/logid/actions/GestureAction.cpp, `release`: when the gesture without a direction acts.
use logiops.Prelude.{
  ◌≡◌, refl, sym, ap, ◌∙◌, subst, Bool, Bool-cases, true, false, inl, inr, not, ◌||◌, Option,
  Option-cases, none, some, List, [], ◌∷◌, ◌++◌, if◌then◌else◌, arith,
}
use mathlib.Core.List.{append_assoc}
use logiops.Prelude.Int.{ℤ}
use logiops.Actions.Gesture.{Effect}
use logiops.Actions.GestureAction.{
  Direction, none_direction, up, down, left, right, same, to_direction, GestureOps, GestureAction,
  update, release_primary, release_other, release_others, directions, release_none, release,
}

true-false : true ≡ false → ⊥
true-false e = ground arith

or_up : (u d l r : Bool) → (u || (d || (l || (r || false)))) ≡ (u || d || l || r)
or_up u d l r = ground arith

or_down : (u d l r : Bool) → (d || (u || (l || (r || false)))) ≡ (u || d || l || r)
or_down u d l r = ground arith

or_left : (u d l r : Bool) → (l || (u || (d || (r || false)))) ≡ (u || d || l || r)
or_left u d l r = ground arith

or_right : (u d l r : Bool) → (r || (u || (d || (l || false)))) ≡ (u || d || l || r)
or_right u d l r = ground arith

to_direction-some : (x y : ℤ) → same (to_direction x y) none_direction ≡ false
unfolding to_direction
to_direction-some x y = ground arith

or_assoc : (a b c : Bool) → ((a || b) || c) ≡ (a || (b || c))
or_assoc true b c = refl
or_assoc false b c = refl

module _ {G : Type 0} (ops : GestureOps G) where
  -- Whether a gesture met its threshold.
  abbrev pub met : Option G → Bool
  met none = false
  met (some g) = ops.met_threshold g

  -- A round of the loop that does nothing.
  abbrev pub skips : Direction → Direction → Bool
  skips d e = same e d || same e none_direction

  any : Direction → List Direction → (Direction → Option G) → Bool
  any d [] gestures = false
  any d (e ∷ es) gestures = (if skips d e then false else met (gestures e)) || any d es gestures

  record Round (d e : Direction) (m : Bool) (s : GestureAction G)
      (r : GestureAction G × List Effect × Bool) : Type 0 where
    met_then : r.2 ≡ (m || (if skips d e then false else met (s.gestures e)))
    others : (f : Direction) → same e f ≡ false → r.0.gestures f ≡ s.gestures f
    nothing : r.0.gestures none_direction ≡ s.gestures none_direction

  passed :
      (d e : Direction) (m n : Bool) (s : GestureAction G)
      (r : GestureAction G × List Effect × Bool)
      → r ≡ (s, [], n)
      → n ≡ (m || (if skips d e then false else met (s.gestures e)))
      → Round d e m s r
  passed d e m n s r q h =
      subst (Round d e m s) (sym q) (record { met_then = h; others = λ f k. refl; nothing = refl })

  acted :
      (d e : Direction) (m : Bool) (s : GestureAction G) (r : GestureAction G × List Effect × Bool)
      (g : G) (effects : List Effect)
      → r ≡ (record s { gestures = update ops e g s.gestures }, effects, true)
      → same e none_direction ≡ false
      → true ≡ (m || (if skips d e then false else met (s.gestures e)))
      → Round d e m s r
  acted d e m s r g effects q n h =
      subst (Round d e m s) (sym q)
        (record { met_then = h; others = λ f k. rw k refl; nothing = rw n refl })

  release_other-Round :
      (d e : Direction) (m : Bool) (s : GestureAction G) → Round d e m s (release_other ops d e m s)
  unfolding release_other
  release_other-Round d e m s = elim (Option-cases (s.gestures e)) [
    | inl n ↦ passed d e m m s _ (rw (n, release_other) refl) (rw n (ground arith))
    | inr (g, p) ↦ elim (Bool-cases (skips d e)) [
      | inl k ↦ passed d e m m s _ (rw (p, release_other, k) refl) (rw k (ground arith))
      | inr k ↦
          let n : same e none_direction ≡ false = ground arith in
          elim (Bool-cases m) [
            | inl t ↦
                acted d e m s _ (ops.release_gesture false g).0 (ops.release_gesture false g).1
                  (rw (p, release_other, k, t) refl) n (rw t refl)
            | inr t ↦ elim (Bool-cases (ops.met_threshold g)) [
              | inl u ↦
                  acted d e m s _ (ops.release_gesture true g).0 (ops.release_gesture true g).1
                    (rw (p, release_other, k, t, u) refl) n (rw (t, k, p, met, u) refl)
              | inr u ↦
                  passed d e m m s _ (rw (p, release_other, k, t, u) refl)
                    (rw (t, k, p, met, u) refl)
            ]
          ]
    ]
  ]

  NotIn : Direction → List Direction → Type 0
  NotIn e [] = Unit
  NotIn e (f ∷ fs) = (same e f ≡ false) × NotIn e fs

  Distinct : List Direction → Type 0
  Distinct [] = Unit
  Distinct (e ∷ es) = NotIn e es × Distinct es

  any_kept :
      (d e : Direction) (es : List Direction) (k l : Direction → Option G)
      → NotIn e es
      → ((f : Direction) → same e f ≡ false → l f ≡ k f)
      → any d es l ≡ any d es k
  unfolding any NotIn
  any_kept d e [] k l h w = refl
  any_kept d e (f ∷ fs) k l h w = rw (w f h.0, any_kept d e fs k l h.1 w) refl

  release_others-any :
      (d : Direction) (es : List Direction) (m : Bool) (s : GestureAction G)
      → Distinct es
      → ((release_others ops d es m s).2 ≡ (m || any d es s.gestures))
        × ((release_others ops d es m s).0.gestures none_direction ≡ s.gestures none_direction)
  unfolding release_others any Distinct
  release_others-any d [] m s h = (ground arith, refl)
  release_others-any d (e ∷ es) m s h =
      let r = release_other-Round d e m s in
      let w =
        release_others-any d es (release_other ops d e m s).2 (release_other ops d e m s).0 h.1 in
      let kept = any_kept d e es s.gestures (release_other ops d e m s).0.gestures h.0 r.others in
      let b = if skips d e then false else met (s.gestures e) in
      (
        w.0
            ∙ ap (λ t. t || any d es (release_other ops d e m s).0.gestures) r.met_then
            ∙ ap (λ t. (m || b) || t) kept
            ∙ or_assoc m b (any d es s.gestures),
        w.1 ∙ r.nothing,
      )

  directions-Distinct : Distinct (directions ops)
  unfolding Distinct NotIn
  directions-Distinct = (
    (refl, (refl, (refl, (refl, tt)))),
    ((refl, (refl, (refl, tt))), ((refl, (refl, tt)), ((refl, tt), (tt, tt)))),
  )

  -- Whether a gesture of one of the four directions met its threshold.
  abbrev pub any_met : (Direction → Option G) → Bool
  any_met gestures =
      met (gestures up) || met (gestures down) || met (gestures left) || met (gestures right)

  -- The effects of releasing a gesture, if there is one.
  abbrev pub released : Bool → Option G → List Effect
  released primary none = []
  released primary (some g) = (ops.release_gesture primary g).1

  release_primary_lem :
      (d : Direction) (s : GestureAction G)
      → same d none_direction ≡ false
      → ((release_primary ops d s).2 ≡ met (s.gestures d))
        × ((f : Direction)
            → same d f ≡ false
            → (release_primary ops d s).0.gestures f ≡ s.gestures f)
  unfolding release_primary
  release_primary_lem d s n = elim (Option-cases (s.gestures d)) [
    | inl e ↦ rw (e, release_primary, met) (refl, λ f k. refl)
    | inr (g, e) ↦ rw (e, release_primary, met) (refl, λ f k. rw k refl)
  ]

  any-directions :
      (d : Direction) (k l : Direction → Option G)
      → same d none_direction ≡ false
      → ((f : Direction) → same d f ≡ false → l f ≡ k f)
      → (met (k d) || any d (directions ops) l) ≡ any_met k
  unfolding any
  any-directions none_direction k l n w = absurd (true-false n)
  any-directions up k l n w =
      rw (w down refl, w left refl, w right refl)
        (or_up (met (k up)) (met (k down)) (met (k left)) (met (k right)))
  any-directions down k l n w =
      rw (w up refl, w left refl, w right refl)
        (or_down (met (k up)) (met (k down)) (met (k left)) (met (k right)))
  any-directions left k l n w =
      rw (w up refl, w down refl, w right refl)
        (or_left (met (k up)) (met (k down)) (met (k left)) (met (k right)))
  any-directions right k l n w =
      rw (w up refl, w down refl, w left refl)
        (or_right (met (k up)) (met (k down)) (met (k left)) (met (k right)))

  release_none_lem :
      (m : Bool) (s : GestureAction G)
      → (release_none ops m s).1 ≡ released (not m) (s.gestures none_direction)
  unfolding release_none
  release_none_lem m s = elim (Option-cases (s.gestures none_direction)) [
    | inl e ↦ rw (e, release_none, released) refl
    | inr (g, e) ↦ rw (e, release_none, released) refl
  ]

  -- What the gestures of the directions do when the button is released.
  abbrev pub directed : GestureAction G → List Effect
  directed s =
      let d = to_direction s.x s.y in
      let first = release_primary ops d (record s { pressed = false }) in
      first.1 ++ (release_others ops d (directions ops) first.2 first.0).1

  -- When the button is released, the effects of the gesture without a direction come after those of
  -- the others; it is released as the gesture it was before, and as the primary one exactly if none of
  -- the four directions has a gesture that met its threshold.
  pub release-any_met :
      (s : GestureAction G)
      → (release ops s).1
        ≡ directed s ++ released (not (any_met s.gestures)) (s.gestures none_direction)
  unfolding release
  release-any_met s =
      let d = to_direction s.x s.y in
      let t = record s { pressed = false } in
      let p = release_primary_lem d t (to_direction-some s.x s.y) in
      let s1 = (release_primary ops d t).0 in
      let w =
        release_others-any d (directions ops) (release_primary ops d t).2 s1 directions-Distinct in
      let r = release_others ops d (directions ops) (release_primary ops d t).2 s1 in
      let m : r.2 ≡ any_met s.gestures =
        w.0
        ∙ ap (λ b. b || any d (directions ops) s1.gestures) p.0
        ∙ any-directions d s.gestures s1.gestures (to_direction-some s.x s.y) p.1 in
      let g : r.0.gestures none_direction ≡ s.gestures none_direction =
        w.1 ∙ p.1 none_direction (to_direction-some s.x s.y) in
      ap (λ l. (release_primary ops d t).1 ++ (r.1 ++ l))
        (release_none_lem r.2 r.0
          ∙ ap (λ b. released (not b) (r.0.gestures none_direction)) m
          ∙ ap (released (not (any_met s.gestures))) g)
      ∙ sym (append_assoc (release_primary ops d t).1 r.1 _)
