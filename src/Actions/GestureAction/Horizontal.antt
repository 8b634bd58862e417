-- ===== src/Actions/GestureAction/Horizontal.antt =====
-- src/logid/actions/GestureAction.cpp, the horizontal half of `move`.
use logiops.Prelude.{
  ◌≡◌, refl, sym, ◌∙◌, true, List, [], ◌∷◌, ◌++◌, ap, arith, Bool-cases, subst, ◌<◌, inl, inr, ◌&&◌,
}
use logiops.Prelude.Exn.{Result, ok, ◌>>=◌}
use logiops.Prelude.Int.{
  ℤ, pos, negsuc, neg, pos_part, neg_part, ◌+ℤ◌, ◌<ℤ◌, ◌≤ℤ◌, IsInt16, IsInt32, eqb_ℤ, leb_ℤ, ltb_ℤ,
  int16, int16_lem, int32_lem, int32, +ℤ-zero, zero-+ℤ, +ℤ_assoc,
}
use logiops.Actions.Gesture.{Effect, sum}
use logiops.Actions.GestureAction.{
  left, right, GestureOps, GestureAction, move_at, cross, move_x, move_y, move, press,
}
use logiops.Actions.GestureAction.Moves.{
  Measured, Reads, move_at-Moved, Crossed, cross-Crossed, Reads-press, Moved-first, Crossed-swap,
  Crossed-as,
}

-- The distance a pointer at `z` is to the left of where it started, and to the right.
abbrev pub leftward : ℤ → ℤ
leftward z = pos (neg_part z)

abbrev pub rightward : ℤ → ℤ
rightward z = pos (pos_part z)

-- A distance that the source's casts to sixteen bits keep, with either sign.
abbrev pub IsNear : ℤ → Type 0
IsNear z = (pos_part z < 0x8000) × (neg_part z < 0x8000)

pub int16_near : (z : ℤ) → IsNear z → int16 z ≡ z
int16_near z h = int16_lem z (h.0, omega arith)

int16-neg : (z : ℤ) → IsNear z → int16 (neg z) ≡ neg z
unfolding neg
int16-neg (pos n) h = int16_lem _ (ground arith)
int16-neg (negsuc n) h = int16_lem _ (ground arith)

-- What the two gestures are moved by when the pointer goes from `z` to `z + x`.
left_crossed :
    (z n : ℤ)
    → z <ℤ pos 0
    → pos 0 ≤ℤ n
    → (leftward z +ℤ z ≡ leftward n) × (rightward z +ℤ n ≡ rightward n)
unfolding ◌+ℤ◌
left_crossed (pos a) n h h' = ground arith
left_crossed (negsuc a) (pos b) h h' = ground arith
left_crossed (negsuc a) (negsuc b) h h' = ground arith

right_crossed :
    (z n : ℤ)
    → pos 0 <ℤ z
    → n ≤ℤ pos 0
    → (rightward z +ℤ neg z ≡ rightward n) × (leftward z +ℤ neg n ≡ leftward n)
unfolding ◌+ℤ◌ neg
right_crossed (negsuc a) n h h' = ground arith
right_crossed (pos a) (pos b) h h' = ground arith
right_crossed (pos a) (negsuc b) h h' = ground arith

left_kept :
    (z x : ℤ)
    → z ≤ℤ pos 0
    → z +ℤ x ≤ℤ pos 0
    → (leftward z +ℤ neg x ≡ leftward (z +ℤ x)) × (rightward z ≡ rightward (z +ℤ x))
unfolding ◌+ℤ◌ neg
left_kept (pos a) (pos b) h h' = ground arith
left_kept (pos a) (negsuc b) h h' = ground arith
left_kept (negsuc a) (pos b) h h' = ground arith
left_kept (negsuc a) (negsuc b) h h' = ground arith

right_kept :
    (z x : ℤ)
    → pos 0 ≤ℤ z
    → pos 0 ≤ℤ z +ℤ x
    → (rightward z +ℤ x ≡ rightward (z +ℤ x)) × (leftward z ≡ leftward (z +ℤ x))
unfolding ◌+ℤ◌
right_kept (pos a) (pos b) h h' = ground arith
right_kept (pos a) (negsuc b) h h' = ground arith
right_kept (negsuc a) x h h' = ground arith

pub near_IsInt16 : (z : ℤ) → IsNear z → IsInt16 z
near_IsInt16 z h = (h.0, omega arith)

near_IsInt32 : (z : ℤ) → IsNear z → IsInt32 z
near_IsInt32 z h = (omega arith, omega arith)

near_neg : (z : ℤ) → IsNear z → IsInt16 (neg z)
unfolding neg
near_neg (pos n) h = ground arith
near_neg (negsuc n) h = ground arith

near_leftward : (z : ℤ) → IsNear z → IsInt32 (leftward z)
near_leftward z h = (omega arith, omega arith)

near_rightward : (z : ℤ) → IsNear z → IsInt32 (rightward z)
near_rightward z h = (omega arith, omega arith)

pub eqb_zero : (z : ℤ) → eqb_ℤ z (pos 0) ≡ true → z ≡ pos 0
eqb_zero (pos n) h = ground arith
eqb_zero (negsuc n) h = ground arith

still : (z x : ℤ) → eqb_ℤ x (pos 0) ≡ true → z ≡ z +ℤ x
still z x h = sym (ap (λ t. z +ℤ t) (eqb_zero x h) ∙ +ℤ-zero z)

neg_zero : (z : ℤ) → z ≡ pos 0 → neg z ≡ pos 0
unfolding neg
neg_zero z h = rw h refl

-- The pointer stays near the button's position along a list of movements.
abbrev pub StaysNear : ℤ → List ℤ → Type 0
StaysNear z [] = Unit
StaysNear z (x ∷ xs) = IsNear x × IsNear (z +ℤ x) × StaysNear (z +ℤ x) xs

module _ {G : Type 0} (ops : GestureOps G) where
  -- Movements along the horizontal axis, one after the other.
  unfoldable pub move_all : List ℤ → GestureAction G → Result (GestureAction G)
  move_all [] s = ok s
  move_all (x ∷ xs) s = do (s', effects) ← move ops x (pos 0) s; move_all xs s'

module _ {G : Type 0} (ops : GestureOps G) (laws : Measured ops) where
  -- The gestures read how far the pointer is from where the button was pressed.
  Tracks : ℤ → GestureAction G → Type 0
  Tracks z s =
      Reads ops laws (s.gestures left) (leftward z)
      × Reads ops laws (s.gestures right) (rightward z)

  Follows : ℤ → GestureAction G → Result (GestureAction G × List Effect) → Type 0
  Follows z s r = Crossed ops laws left (leftward z) right (rightward z) s r

  to_right :
      (z x : ℤ) (s : GestureAction G)
      → Tracks z s
      → IsNear z
      → IsNear (z +ℤ x)
      → z <ℤ pos 0
      → pos 0 ≤ℤ z +ℤ x
      → Follows (z +ℤ x) s (cross ops left (int16 z) right (int16 (z +ℤ x)) (z +ℤ x) s)
  unfolding Tracks Follows
  to_right z x s t hz hn h h' =
      let n = z +ℤ x in
      let f = left_crossed z n h h' in
      rw (int16_near z hz, int16_near n hn)
        (Crossed-as ops laws f.0 f.1 refl (
          cross-Crossed ops laws left right z n n (leftward z) (rightward z) s refl refl
            (eqb_zero n) t.0 t.1 (near_IsInt16 z hz) (near_IsInt16 n hn)
            (subst IsInt32 (sym f.0) (near_leftward n hn))
            (subst IsInt32 (sym f.1) (near_rightward n hn))))

  to_left :
      (z x : ℤ) (s : GestureAction G)
      → Tracks z s
      → IsNear z
      → IsNear (z +ℤ x)
      → pos 0 <ℤ z
      → z +ℤ x ≤ℤ pos 0
      → Follows (z +ℤ x) s (cross ops right (int16 (neg z)) left (int16 (neg (z +ℤ x))) (z +ℤ x) s)
  unfolding Tracks Follows
  to_left z x s t hz hn h h' =
      let n = z +ℤ x in
      let f = right_crossed z n h h' in
      rw (int16-neg z hz, int16-neg n hn)
        (Crossed-swap ops laws (
          Crossed-as ops laws f.0 f.1 refl (
            cross-Crossed ops laws right left (neg z) (neg n) n (rightward z) (leftward z) s refl
              refl (λ e. neg_zero n (eqb_zero n e)) t.1 t.0 (near_neg z hz) (near_neg n hn)
              (subst IsInt32 (sym f.0) (near_rightward n hn))
              (subst IsInt32 (sym f.1) (near_leftward n hn)))))

  on_left :
      (z x : ℤ) (s : GestureAction G)
      → Tracks z s
      → IsNear x
      → IsNear (z +ℤ x)
      → z ≤ℤ pos 0
      → z +ℤ x ≤ℤ pos 0
      → Follows (z +ℤ x) s (move_at ops left (int16 (neg x)) s)
  unfolding Tracks Follows
  on_left z x s t hx hn h h' =
      let n = z +ℤ x in
      let f = left_kept z x h h' in
      rw (int16-neg x hx) (
        Crossed-as ops laws f.0 f.1 refl (
          Moved-first ops laws left right (neg x) (leftward z) (rightward z) s refl t.1 (
            move_at-Moved ops laws left (neg x) (leftward z) s t.0 (near_neg x hx)
              (subst IsInt32 (sym f.0) (near_leftward n hn)))))

  on_right :
      (z x : ℤ) (s : GestureAction G)
      → Tracks z s
      → IsNear x
      → IsNear (z +ℤ x)
      → pos 0 ≤ℤ z
      → pos 0 ≤ℤ z +ℤ x
      → Follows (z +ℤ x) s (move_at ops right x s)
  unfolding Tracks Follows
  on_right z x s t hx hn h h' =
      let n = z +ℤ x in
      let f = right_kept z x h h' in
      Crossed-swap ops laws (
        Crossed-as ops laws f.0 f.1 refl (
          Moved-first ops laws right left x (rightward z) (leftward z) s refl t.0 (
            move_at-Moved ops laws right x (rightward z) s t.1 (near_IsInt16 x hx)
              (subst IsInt32 (sym f.0) (near_rightward n hn)))))

  stays : (z n : ℤ) (s : GestureAction G) → Tracks z s → z ≡ n → Follows n s (ok (s, []))
  unfolding Tracks Follows
  stays z n s t e =
      subst (λ w. Crossed ops laws left (leftward w) right (rightward w) s (ok (s, []))) e
        (record { state = s; effects = []; runs = refl; reads_first = t.0; reads_second = t.1 })

  move_x_cases :
      (x n : ℤ) (s : GestureAction G) (P : Result (GestureAction G × List Effect) → Type 0)
      → (s.x ≡ s.x +ℤ x → P (ok (s, [])))
      → (s.x <ℤ pos 0 → pos 0 ≤ℤ n → P (cross ops left (int16 s.x) right (int16 n) n s))
      → (pos 0 <ℤ s.x → n ≤ℤ pos 0 → P (cross ops right (int16 (neg s.x)) left (int16 (neg n)) n s))
      → (s.x ≤ℤ pos 0 → n ≤ℤ pos 0 → P (move_at ops left (int16 (neg x)) s))
      → (pos 0 ≤ℤ s.x → pos 0 ≤ℤ n → P (move_at ops right x s))
      → (s.x ≡ pos 0 → n ≡ pos 0 → P (ok (s, [])))
      → P (move_x ops x n s)
  unfolding move_x
  move_x_cases x n s P a b c d e f = elim (Bool-cases (eqb_ℤ x (pos 0))) [
    | inl h ↦ rw h (a (still s.x x h))
    | inr h ↦ elim (Bool-cases (ltb_ℤ s.x (pos 0) && leb_ℤ (pos 0) n)) [
      | inl k ↦ rw (h, k) (b (ground arith) (ground arith))
      | inr k ↦ elim (Bool-cases (ltb_ℤ (pos 0) s.x && leb_ℤ n (pos 0))) [
        | inl l ↦ rw (h, k, l) (c (ground arith) (ground arith))
        | inr l ↦ elim (Bool-cases (ltb_ℤ n (pos 0))) [
          | inl m ↦ rw (h, k, l, m) (d (ground arith) (ground arith))
          | inr m ↦ elim (Bool-cases (ltb_ℤ (pos 0) n)) [
            | inl o ↦ rw (h, k, l, m, o) (e (ground arith) (ground arith))
            | inr o ↦ rw (h, k, l, m, o) (f (ground arith) (ground arith))
          ]
        ]
      ]
    ]
  ]

  move_x-Follows :
      (x : ℤ) (s : GestureAction G)
      → Tracks s.x s
      → IsNear x
      → IsNear s.x
      → IsNear (s.x +ℤ x)
      → Follows (s.x +ℤ x) s (move_x ops x (s.x +ℤ x) s)
  move_x-Follows x s t hx hz hn =
      move_x_cases x (s.x +ℤ x) s (Follows (s.x +ℤ x) s) (stays s.x (s.x +ℤ x) s t)
        (to_right s.x x s t hz hn) (to_left s.x x s t hz hn) (on_left s.x x s t hx hn)
        (on_right s.x x s t hx hn) (λ e e'. stays s.x (s.x +ℤ x) s t (e ∙ sym e'))

  move-horizontal :
      (x : ℤ) (s s' : GestureAction G) (effects : List Effect)
      → IsNear (s.x +ℤ x)
      → move_x ops x (s.x +ℤ x) s ≡ ok (s', effects)
      → move ops x (pos 0) s
        ≡ ok (record s' { x = s.x +ℤ x; y = int32 (s.y +ℤ pos 0) }, effects ++ [])
  unfolding move move_y
  move-horizontal x s s' effects hn e =
      rw (int32_lem (s.x +ℤ x) (near_IsInt32 (s.x +ℤ x) hn), e) refl

  -- A run that ends in a state where the two gestures read how far `z` is to either side.
  pub record Lands (z : ℤ) (r : Result (GestureAction G)) : Type 0 where
    pub state : GestureAction G
    pub runs : r ≡ ok state
    pub left_reads : Reads ops laws (state.gestures left) (leftward z)
    pub right_reads : Reads ops laws (state.gestures right) (rightward z)

  Lands-as : {z w : ℤ} {r r' : Result (GestureAction G)} → z ≡ w → r' ≡ r → Lands z r → Lands w r'
  Lands-as {r' = r'} e e' l =
      subst (λ v. Lands v r') e
        (record {
          state = l.state;
          runs = e' ∙ l.runs;
          left_reads = l.left_reads;
          right_reads = l.right_reads;
        })

  move_all_step :
      (x : ℤ) (xs : List ℤ) (s s' : GestureAction G) (effects : List Effect)
      → move ops x (pos 0) s ≡ ok (s', effects)
      → move_all ops (x ∷ xs) s ≡ move_all ops xs s'
  unfolding move_all
  move_all_step x xs s s' effects e = rw e refl

  move_all-Lands :
      (xs : List ℤ) (z : ℤ) (s : GestureAction G)
      → s.x ≡ z
      → Tracks z s
      → IsNear z
      → StaysNear z xs
      → Lands (z +ℤ sum xs) (move_all ops xs s)
  unfolding move_all Tracks Follows
  move_all-Lands [] z s e t hz h = record {
    state = s;
    runs = refl;
    left_reads = subst (λ w. Reads ops laws (s.gestures left) (leftward w)) (sym (+ℤ-zero z)) t.0;
    right_reads =
        subst (λ w. Reads ops laws (s.gestures right) (rightward w)) (sym (+ℤ-zero z)) t.1;
  }
  move_all-Lands (x ∷ xs) z s e t hz h =
      let n = s.x +ℤ x in
      let c =
        move_x-Follows x s (subst (λ w. Tracks w s) (sym e) t) h.0 (subst IsNear (sym e) hz)
          (subst (λ w. IsNear (w +ℤ x)) (sym e) h.1) in
      let run =
        move-horizontal x s c.state c.effects (subst (λ w. IsNear (w +ℤ x)) (sym e) h.1) c.runs in
      Lands-as (+ℤ_assoc z x (sum xs)) (move_all_step x xs s _ _ run) (
        move_all-Lands xs (z +ℤ x) _ (ap (λ w. w +ℤ x) e)
          (subst (λ w. Tracks (w +ℤ x) c.state) e (c.reads_first, c.reads_second)) h.1 h.2)

  -- From a press on, as long as the pointer moves along the horizontal axis and stays within sixteen
  -- bits, no move fails, and the gestures of the left and of the right read how far to the left and to
  -- the right of its start the pointer is. The gestures are any that add up what they are moved by.
  pub press-move_all :
      (xs : List ℤ) (s : GestureAction G)
      → StaysNear (pos 0) xs
      → Lands (sum xs) (move_all ops xs (press ops s))
  unfolding press Tracks
  press-move_all xs s h =
      subst (λ z. Lands z (move_all ops xs (press ops s))) (zero-+ℤ (sum xs))
        (move_all-Lands xs (pos 0) (press ops s) refl
          (Reads-press ops laws (s.gestures left), Reads-press ops laws (s.gestures right))
          (omega arith, omega arith) h)
