-- ===== src/Actions/Gesture/Interval/Forward.antt =====
-- How often an interval gesture of src/logid/actions/gesture/IntervalGesture.cpp runs its action
-- while it moves forward.
use logiops.Prelude.{
  ℕ, suc, ◌+◌, ◌-◌, ◌*◌, ◌/◌, ◌%◌, ◌≤◌, ◌<◌, Bool, Bool-cases, true, false, ◌≡◌, refl, sym, ap,
  subst, ◌∙◌, ◌⊎◌, some, List, [], ◌∷◌, ◌++◌, if◌then◌else◌, inl, inr, ltb, dec_lt, length,
  length-append, All, arith,
}
use native.Mathlib.Nat.{div-eq_of_lt-le, div-add-mod, mod-lt, div-le_self, zero-div}
use logiops.Prelude.Exn.{Result, ok, ◌>>=◌}
use logiops.Prelude.Int.{
  ℤ, pos, pos_part, ◌+ℤ◌, ◌-ℤ◌, div_ℤ, ltb_ℤ, ◌≤ℤ◌, int32_lem, IsInt32, int_laws, ltb_ℤ→lt,
  ltb_ℤ→ge,
}
use logiops.Actions.Gesture.{Effect, gesture_threshold, value_or, run_action}
use logiops.Actions.Gesture.Interval.{IntervalGesture, move, pass_intervals, divide}

div-step :
    (x m i : ℕ) → m ≤ suc i → ((x + m) / suc i ≡ x / suc i) ⊎ ((x + m) / suc i ≡ suc (x / suc i))
div-step x m i h = elim (dec_lt (x % suc i + m) (suc i)) [
  | yes low ↦ inl (
      div-eq_of_lt-le {k = x / suc i} (suc i) (omega (arith, div-add-mod x (suc i)))
        (omega (arith, div-add-mod x (suc i))))
  | no high ↦ inr (
      div-eq_of_lt-le {k = suc (x / suc i)} (suc i) (omega (arith, div-add-mod x (suc i)))
        (omega (arith, div-add-mod x (suc i), mod-lt x {m = suc i} (omega arith))))
]

-- The intervals that lie between the threshold t and the axis a.
abbrev pub passed : ℕ → ℤ → ℤ → ℕ
passed i t a = pos_part (a -ℤ t) / suc i

-- The gesture stands where its axis says.
abbrev pub Counted : ℕ → ℤ → IntervalGesture → Type 0
Counted i t g =
    (g.interval ≡ some (pos (suc i)))
    × (value_or g.threshold gesture_threshold ≡ t)
    × (g.interval_pass_count ≡ pos (passed i t g.axis))

pass_intervals_lem :
    (i d : ℕ) (t : ℤ) (g : IntervalGesture)
    → g.axis -ℤ t ≡ pos d
    → d < 0x80000000
    → pass_intervals (pos (suc i)) t g
      ≡ ok (
        record g { interval_pass_count = pos (d / suc i) },
        if ltb_ℤ g.interval_pass_count (pos (d / suc i)) then run_action g.action else [],
      )
unfolding pass_intervals divide div_ℤ
pass_intervals_lem i d t g e h =
    rw
      (
        e,
        int32_lem (pos d) (omega arith),
        int32_lem (pos (d / suc i)) (omega (arith, div-le_self d (suc i))),
      )
      (ground arith)

difference-pos : (a t : ℤ) → t ≤ℤ a → a -ℤ t ≡ pos (pos_part (a -ℤ t))
unfolding ◌-ℤ◌
difference-pos a t h = ground arith

difference-zero : (a t : ℤ) → a ≤ℤ t → pos_part (a -ℤ t) ≡ 0
unfolding ◌-ℤ◌
difference-zero a t h = ground arith

move_below :
    (m interval : ℤ) (g : IntervalGesture)
    → g.interval ≡ some interval
    → IsInt32 (g.axis +ℤ m)
    → ltb_ℤ (g.axis +ℤ m) (value_or g.threshold gesture_threshold) ≡ true
    → move m g ≡ ok (record g { axis = g.axis +ℤ m }, [])
unfolding move
move_below m interval g e f h = ground (arith, int32_lem (g.axis +ℤ m))

move_reached :
    (m interval : ℤ) (g : IntervalGesture)
    → g.interval ≡ some interval
    → IsInt32 (g.axis +ℤ m)
    → ltb_ℤ (g.axis +ℤ m) (value_or g.threshold gesture_threshold) ≡ false
    → move m g
      ≡ pass_intervals interval
          (value_or g.threshold gesture_threshold)
          (record g { axis = g.axis +ℤ m })
unfolding move
move_reached m interval g e f h = ground (arith, int32_lem (g.axis +ℤ m))

ltb_ℤ-pos : (p q : ℕ) → ltb_ℤ (pos p) (pos q) ≡ ltb p q
ltb_ℤ-pos p q = ground arith

passed-below : (i : ℕ) (a t : ℤ) → a ≤ℤ t → passed i t a ≡ 0
passed-below i a t h = ap (λ d. d / suc i) (difference-zero a t h) ∙ zero-div (suc i)

module _ (i : ℕ) (t : ℤ) (n : ℕ) (g : IntervalGesture) (c : Counted i t g) where
  -- One move forward, within 32 bits.
  move-Counted :
      IsInt32 (g.axis +ℤ pos n)
      → IsInt32 (g.axis +ℤ pos n -ℤ t)
      → (g' : IntervalGesture) × (move (pos n) g
          ≡ ok (
            g',
            if ltb (passed i t g.axis) (passed i t (g.axis +ℤ pos n))
                then run_action g.action
                else [],
          ))
        × Counted i t g'
        × (g'.axis ≡ g.axis +ℤ pos n)
        × (g'.action ≡ g.action)
  move-Counted fa fd = elim (Bool-cases (ltb_ℤ (g.axis +ℤ pos n) t)) [
    | inl below ↦
        let old : passed i t g.axis ≡ 0 =
          passed-below i g.axis t (omega (int_laws, ltb_ℤ→lt (g.axis +ℤ pos n) t below)) in
        let new : passed i t (g.axis +ℤ pos n) ≡ 0 =
          passed-below i (g.axis +ℤ pos n) t
            (omega (int_laws, ltb_ℤ→lt (g.axis +ℤ pos n) t below)) in
        (
          record g { axis = g.axis +ℤ pos n },
          rw (old, new)
              (move_below (pos n) (pos (suc i)) g c.0 fa
                (ap (ltb_ℤ (g.axis +ℤ pos n)) c.1 ∙ below)),
          (c.0, c.1, c.2 ∙ ap pos (old ∙ sym new)),
          refl,
          refl,
        )
    | inr reached ↦
        let a : ℤ = g.axis +ℤ pos n in
        let moved : IntervalGesture = record g { axis = a } in
        let e1 : move (pos n) g ≡ pass_intervals (pos (suc i)) t moved =
          move_reached (pos n) (pos (suc i)) g c.0 fa (ap (ltb_ℤ a) c.1 ∙ reached)
          ∙ ap (λ s. pass_intervals (pos (suc i)) s moved) c.1 in
        let e2 =
          pass_intervals_lem i (pos_part (a -ℤ t)) t moved
            (difference-pos a t (ltb_ℤ→ge a t reached)) fd.0 in
        (
          record g { axis = a; interval_pass_count = pos (passed i t a) },
          e1
              ∙ e2
              ∙ ap
                  (λ b. ok (
                    record g { axis = a; interval_pass_count = pos (passed i t a) },
                    if b then run_action g.action else [],
                  ))
                  (ap (λ p. ltb_ℤ p (pos (passed i t a))) c.2
                    ∙ ltb_ℤ-pos (passed i t g.axis) (passed i t a)),
          (c.0, c.1, refl),
          refl,
          refl,
        )
  ]

-- A run of moves, up to the first fault.
unfoldable pub move_all : List ℕ → IntervalGesture → Result (IntervalGesture × List Effect)
move_all [] g = ok (g, [])
move_all (n ∷ ns) g = do
  (g', now) ← move (pos n) g
  (g'', later) ← move_all ns g'
  ok (g'', now ++ later)

-- The way forward from `a` and its distance from `t` stay within 32 bits.
abbrev pub FitsForward : ℤ → ℤ → List ℕ → Type 0
FitsForward t a [] = Unit {0}
FitsForward t a (n ∷ ns) =
    IsInt32 (a +ℤ pos n) × IsInt32 (a +ℤ pos n -ℤ t) × FitsForward t (a +ℤ pos n) ns

abbrev pub forward : ℤ → List ℕ → ℤ
forward a [] = a
forward a (n ∷ ns) = forward (a +ℤ pos n) ns

advance :
    (a t : ℤ) (n : ℕ)
    → let before = pos_part (a -ℤ t) in
      let after = pos_part (a +ℤ pos n -ℤ t) in
      (after ≡ before + (after - before)) × (after - before ≤ n)
unfolding ◌+ℤ◌ ◌-ℤ◌
advance a t n = ground arith

passed-step :
    (i n : ℕ) (t a : ℤ)
    → n ≤ suc i
    → (passed i t (a +ℤ pos n) ≡ passed i t a) ⊎ (passed i t (a +ℤ pos n) ≡ suc (passed i t a))
passed-step i n t a h =
    let m : ℕ = pos_part (a +ℤ pos n -ℤ t) - pos_part (a -ℤ t) in
    let grows : pos_part (a +ℤ pos n -ℤ t) ≡ pos_part (a -ℤ t) + m = (advance a t n).0 in
    elim (div-step (pos_part (a -ℤ t)) m i (omega (arith, (advance a t n).1))) [
      | inl e ↦ inl (ap (λ d. d / suc i) grows ∙ e)
      | inr e ↦ inr (ap (λ d. d / suc i) grows ∙ e)
    ]

run_length :
    (p q : ℕ) (b : Bool)
    → b ≡ true
    → (q ≡ p) ⊎ (q ≡ suc p)
    → length (if ltb p q then run_action b else []) + 2 * p ≡ 2 * q
run_length p q b e h = ground arith

-- Moving forward in steps no longer than the interval, the gesture runs its action exactly once for
-- each interval that it passes beyond the threshold: none is missed, none runs twice.
pub move_all-intervals :
    (i : ℕ) (t : ℤ) (ns : List ℕ) (g : IntervalGesture)
    → Counted i t g
    → g.action ≡ true
    → FitsForward t g.axis ns
    → All (λ n. n ≤ suc i) ns
    → (g' : IntervalGesture) × (effects : List Effect) × (move_all ns g ≡ ok (g', effects))
      × (g'.axis ≡ forward g.axis ns)
      × (length effects + 2 * passed i t g.axis ≡ 2 * passed i t (forward g.axis ns))
unfolding move_all
move_all-intervals i t [] g c act f h = (g, [], refl, refl, omega arith)
move_all-intervals i t (n ∷ ns) g c act f h =
    let (g', moves, counted, there, same) = move-Counted i t n g c f.0 f.1 in
    let (g'', later, rest, end, count) =
      move_all-intervals i t ns g' counted (same ∙ act)
        (subst (λ a. FitsForward t a ns) (sym there) f.2) h.1 in
    let now : List Effect =
      if ltb (passed i t g.axis) (passed i t (g.axis +ℤ pos n)) then run_action g.action else [] in
    (
      g'',
      now ++ later,
      rw (moves, rest),
      end ∙ ap (λ a. forward a ns) there,
      omega (
        arith,
        length-append now later,
        run_length (passed i t g.axis) (passed i t (g.axis +ℤ pos n)) g.action act
            (passed-step i n t g.axis h.0),
        count,
        ap (λ a. passed i t (forward a ns)) there,
        ap (passed i t) there,
      ),
    )
