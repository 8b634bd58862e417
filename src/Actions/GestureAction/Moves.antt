-- ===== src/Actions/GestureAction/Moves.antt =====
-- src/logid/actions/GestureAction.cpp, moving one gesture: what its distance reads afterwards.
use logiops.Prelude.{
  ◌≡◌, refl, sym, ◌∙◌, true, false, Option, none, some, List, [], ◌++◌, ap, Option-cases,
  Bool-cases, subst, inl, inr,
}
use logiops.Prelude.Exn.{Result, ok}
use logiops.Prelude.Int.{ℤ, pos, ◌+ℤ◌, +ℤ-zero, IsInt16, IsInt32, eqb_ℤ}
use logiops.Actions.Gesture.{Effect}
use logiops.Actions.GestureAction.{
  Direction, none_direction, up, down, left, right, same, GestureOps, GestureAction, update,
  move_at, cross, press_if,
}

-- What a gesture promises of its distance.
pub record Measured {G : Type 0} (ops : GestureOps G) : Type 0 where
  pub way : G → ℤ
  pub pressed_way : (g : G) → way (ops.press_gesture false g) ≡ pos 0
  pub next : ℤ → G → G × List Effect
  pub next_runs :
      (v : ℤ) (g : G) → IsInt16 v → IsInt32 (way g +ℤ v) → ops.move_gesture v g ≡ ok (next v g)
  pub next_way : (v : ℤ) (g : G) → IsInt16 v → IsInt32 (way g +ℤ v) → way (next v g).0 ≡ way g +ℤ v

module _ {G : Type 0} (ops : GestureOps G) (laws : Measured ops) where
  -- The gesture, if there is one, has gone the distance `z`.
  unfoldable pub Reads : Option G → ℤ → Type 0
  Reads none z = Unit
  Reads (some g) z = laws.way g ≡ z

  -- A move of the gesture at `d` by `v` succeeds, and leaves the rest alone.
  pub record Moved (d : Direction) (v z : ℤ) (s : GestureAction G)
      (r : Result (GestureAction G × List Effect)) : Type 0 where
    pub state : GestureAction G
    pub effects : List Effect
    pub runs : r ≡ ok (state, effects)
    pub reads : Reads (state.gestures d) (z +ℤ v)
    pub others : (e : Direction) → same d e ≡ false → state.gestures e ≡ s.gestures e

  same_self : (d : Direction) → same d d ≡ true
  same_self none_direction = refl
  same_self up = refl
  same_self down = refl
  same_self left = refl
  same_self right = refl

  move_at-none :
      (d : Direction) (v : ℤ) (s : GestureAction G)
      → s.gestures d ≡ none
      → move_at ops d v s ≡ ok (s, [])
  unfolding move_at
  move_at-none d v s e = rw (e, move_at) refl

  move_at-some :
      (d : Direction) (v : ℤ) (s : GestureAction G) (g : G) (r : G × List Effect)
      → s.gestures d ≡ some g
      → ops.move_gesture v g ≡ ok r
      → move_at ops d v s ≡ ok (record s { gestures = update ops d r.0 s.gestures }, r.1)
  unfolding move_at
  move_at-some d v s g r e f = rw (e, move_at, f) refl

  pub Reads-some : {o : Option G} (g : G) (z : ℤ) → o ≡ some g → Reads o z → laws.way g ≡ z
  unfolding Reads
  Reads-some g z e h = subst (λ o. Reads o z) e h

  pub move_at-Moved :
      (d : Direction) (v z : ℤ) (s : GestureAction G)
      → Reads (s.gestures d) z
      → IsInt16 v
      → IsInt32 (z +ℤ v)
      → Moved d v z s (move_at ops d v s)
  unfolding Reads
  move_at-Moved d v z s rd hv hz = elim (Option-cases (s.gestures d)) [
    | inl e ↦ record {
      state = s;
      effects = [];
      runs = move_at-none d v s e;
      reads = subst (λ o. Reads o (z +ℤ v)) (sym e) tt;
      others = λ e h. refl;
    }
    | inr (g, e) ↦
        let w = Reads-some g z e rd in
        let hw = subst (λ t. IsInt32 (t +ℤ v)) (sym w) hz in
        record {
          state = record s { gestures = update ops d (laws.next v g).0 s.gestures };
          effects = (laws.next v g).1;
          runs = move_at-some d v s g (laws.next v g) e (laws.next_runs v g hv hw);
          reads = rw (same_self d) (laws.next_way v g hv hw ∙ ap (λ t. t +ℤ v) w);
          others = λ e h. rw h refl;
        }
  ]

  -- Two directions are moved, one after the other.
  pub record Crossed (d : Direction) (zd : ℤ) (e : Direction) (ze : ℤ) (s : GestureAction G)
      (r : Result (GestureAction G × List Effect)) : Type 0 where
    pub state : GestureAction G
    pub effects : List Effect
    pub runs : r ≡ ok (state, effects)
    pub reads_first : Reads (state.gestures d) zd
    pub reads_second : Reads (state.gestures e) ze

  cross_stops :
      (d e : Direction) (v w new : ℤ) (s s1 : GestureAction G) (now : List Effect)
      → eqb_ℤ new (pos 0) ≡ true
      → move_at ops d v s ≡ ok (s1, now)
      → cross ops d v e w new s ≡ ok (s1, now)
  unfolding cross
  cross_stops d e v w new s s1 now h f = rw (f, h) refl

  cross_goes :
      (d e : Direction) (v w new : ℤ) (s s1 s2 : GestureAction G) (now later : List Effect)
      → eqb_ℤ new (pos 0) ≡ false
      → move_at ops d v s ≡ ok (s1, now)
      → move_at ops e w s1 ≡ ok (s2, later)
      → cross ops d v e w new s ≡ ok (s2, now ++ later)
  unfolding cross
  cross_goes d e v w new s s1 s2 now later h f g = rw (f, h, g) refl

  pub cross-Crossed :
      (d e : Direction) (v w new zd ze : ℤ) (s : GestureAction G)
      → same d e ≡ false
      → same e d ≡ false
      → (eqb_ℤ new (pos 0) ≡ true → w ≡ pos 0)
      → Reads (s.gestures d) zd
      → Reads (s.gestures e) ze
      → IsInt16 v
      → IsInt16 w
      → IsInt32 (zd +ℤ v)
      → IsInt32 (ze +ℤ w)
      → Crossed d (zd +ℤ v) e (ze +ℤ w) s (cross ops d v e w new s)
  cross-Crossed d e v w new zd ze s de ed h0 rd re hv hw hd he =
      let m = move_at-Moved d v zd s rd hv hd in
      let re' = subst (λ o. Reads o ze) (sym (m.others e de)) re in
      elim (Bool-cases (eqb_ℤ new (pos 0))) [
        | inl t ↦ record {
          state = m.state;
          effects = m.effects;
          runs = cross_stops d e v w new s m.state m.effects t m.runs;
          reads_first = m.reads;
          reads_second =
              subst (λ z. Reads (m.state.gestures e) z)
                (sym (+ℤ-zero ze) ∙ ap (λ t. ze +ℤ t) (sym (h0 t))) re';
        }
        | inr f ↦
            let n = move_at-Moved e w ze m.state re' hw he in
            record {
              state = n.state;
              effects = m.effects ++ n.effects;
              runs = cross_goes d e v w new s m.state n.state m.effects n.effects f m.runs n.runs;
              reads_first = subst (λ o. Reads o (zd +ℤ v)) (sym (n.others d ed)) m.reads;
              reads_second = n.reads;
            }
      ]

  pub Reads-press : (o : Option G) → Reads (press_if ops o) (pos 0)
  unfolding Reads
  Reads-press none = tt
  Reads-press (some g) = laws.pressed_way g

  -- One of two directions is moved, or none.
  pub Moved-first :
      (d e : Direction) (v zd ze : ℤ) (s : GestureAction G)
      {r : Result (GestureAction G × List Effect)}
      → same d e ≡ false
      → Reads (s.gestures e) ze
      → Moved d v zd s r
      → Crossed d (zd +ℤ v) e ze s r
  Moved-first d e v zd ze s de re m = record {
    state = m.state;
    effects = m.effects;
    runs = m.runs;
    reads_first = m.reads;
    reads_second = subst (λ o. Reads o ze) (sym (m.others e de)) re;
  }

  pub Crossed-swap :
      {d e : Direction} {zd ze : ℤ} {s : GestureAction G}
      {r : Result (GestureAction G × List Effect)}
      → Crossed d zd e ze s r
      → Crossed e ze d zd s r
  Crossed-swap c = record {
    state = c.state;
    effects = c.effects;
    runs = c.runs;
    reads_first = c.reads_second;
    reads_second = c.reads_first;
  }

  pub Crossed-as :
      {d e : Direction} {zd ze yd ye : ℤ} {s : GestureAction G}
      {r r' : Result (GestureAction G × List Effect)}
      → zd ≡ yd
      → ze ≡ ye
      → r' ≡ r
      → Crossed d zd e ze s r
      → Crossed d yd e ye s r'
  Crossed-as hd he hr c = record {
    state = c.state;
    effects = c.effects;
    runs = hr ∙ c.runs;
    reads_first = subst (Reads (c.state.gestures _)) hd c.reads_first;
    reads_second = subst (Reads (c.state.gestures _)) he c.reads_second;
  }
