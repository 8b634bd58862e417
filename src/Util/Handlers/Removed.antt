-- ===== src/Util/Handlers/Removed.antt =====
-- A handler that is removed while the list runs is not called any more.
use logiops.Prelude.{
  ℕ, ◌<◌, ◌≡◌, Bool, true, false, ◌&&◌, List, [], ◌∷◌, ◌==◌, if◌then◌else◌, All, Bool-cases, ==_iff,
  subst, arith, refl, sym, ap, inl, inr,
}
use logiops.Util.Handlers.{
  Handlers, is_active, deactivate, add, remove, Edit, adds, removes, edit, loop,
}

-- An edit that does not add the handler.
abbrev pub Spares : ℕ → Edit → Type 0
Spares k (adds h) = (k == h) ≡ false
Spares k (removes h) = Unit {0}

-- A handler is among some.
abbrev pub is_called : ℕ → List ℕ → Bool
is_called k [] = false
is_called k (h ∷ rest) = if k == h then true else is_called k rest

abbrev pub has_removal : ℕ → List Edit → Bool
has_removal k [] = false
has_removal k (adds h ∷ rest) = has_removal k rest
has_removal k (removes h ∷ rest) = if k == h then true else has_removal k rest

is_active-deactivate :
    (k h : ℕ) (l : List (ℕ × Bool))
    → is_active k (deactivate h l) ≡ (if k == h then false else is_active k l)
unfolding is_active deactivate
is_active-deactivate k h [] = ground arith
is_active-deactivate k h ((g, active) ∷ rest) = ground (arith, is_active-deactivate k h rest)

remove_lem :
    (h : ℕ) (s : Handlers) → 0 < s.running → remove h s ≡ record s { list = deactivate h s.list }
unfolding remove
remove_lem h s r = ground arith

added_inactive :
    (k h : ℕ) (s : Handlers)
    → (k == h) ≡ false
    → is_active k s.list ≡ false
    → is_active k ((h, true) ∷ s.list) ≡ false
unfolding is_active
added_inactive k h s other off = ground arith

-- The handler is inactive, and the mutex is held.
abbrev Quiet : ℕ → Handlers → Type 0
Quiet k s = (is_active k s.list ≡ false) × (0 < s.running)

edit-removes :
    (h : ℕ) (rest : List Edit) (s : Handlers)
    → 0 < s.running
    → edit (removes h ∷ rest) s ≡ edit rest (record s { list = deactivate h s.list })
unfolding edit
edit-removes h rest s r = ap (edit rest) (remove_lem h s r)

-- While the list runs, edits keep a handler inactive, and the mutex held.
edit_inactive :
    (k : ℕ) (edits : List Edit) (s : Handlers)
    → All (Spares k) edits
    → 0 < s.running
    → is_active k s.list ≡ false
    → Quiet k (edit edits s)
unfolding edit
edit_inactive k [] s spared r off = (off, r)
edit_inactive k (adds h ∷ rest) s spared r off =
    edit_inactive k rest (add h s) spared.1 r (added_inactive k h s spared.0 off)
edit_inactive k (removes h ∷ rest) s spared r off =
    subst (Quiet k) (sym (edit-removes h rest s r)) (
      edit_inactive k rest (record s { list = deactivate h s.list }) spared.1 r
        (rw (is_active-deactivate k h s.list) (ground arith)))

-- Edits that remove the handler, and do not add it, leave it inactive.
edit_removes :
    (k : ℕ) (edits : List Edit) (s : Handlers)
    → All (Spares k) edits
    → 0 < s.running
    → has_removal k edits ≡ true
    → Quiet k (edit edits s)
unfolding edit
edit_removes k [] s spared r has = cc
edit_removes k (adds h ∷ rest) s spared r has = edit_removes k rest (add h s) spared.1 r has
edit_removes k (removes h ∷ rest) s spared r has =
    subst (Quiet k) (sym (edit-removes h rest s r)) (elim (Bool-cases (k == h)) [
      | inl same ↦
          edit_inactive k rest (record s { list = deactivate h s.list }) spared.1 r
            (rw (is_active-deactivate k h s.list) (ground arith))
      | inr other ↦
          edit_removes k rest (record s { list = deactivate h s.list }) spared.1 r (ground arith)
    ])

on_and_off_at : (b c : Bool) → b && c ≡ true → b ≡ false → ⊥
on_and_off_at b c called off = ground arith

module _ (condition : ℕ → Bool) (callback : ℕ → List Edit) (k : ℕ) where
  other_than :
      (h : ℕ) (s : Handlers)
      → is_active h s.list && condition h ≡ true
      → is_active k s.list ≡ false
      → (k == h) ≡ false
  other_than h s called off = elim (Bool-cases (k == h)) [
    | inr other ↦ other
    | inl same ↦ absurd (
        on_and_off_at (is_active h s.list) (condition h) called
          (subst (λ x. is_active x s.list ≡ false) ((==_iff k h).0 same) off))
  ]

  inactive-uncalled :
      (hs : List ℕ) (s : Handlers)
      → ((h : ℕ) → All (Spares k) (callback h))
      → 0 < s.running
      → is_active k s.list ≡ false
      → is_called k (loop condition callback hs s).0 ≡ false
  unfolding loop
  inactive-uncalled [] s spared r off = refl
  inactive-uncalled (h ∷ hs) s spared r off =
      elim (Bool-cases (is_active h s.list && condition h)) [
        | inr passed ↦ simp passed (inactive-uncalled hs s spared r off)
        | inl called ↦
            let quiet = edit_inactive k (callback h) s (spared h) r off in
            simp (called, other_than h s called off)
              (inactive-uncalled hs (edit (callback h) s) spared quiet.1 quiet.0)
      ]

  -- If a callback is called that removes a handler, and no callback adds it again, the rest of the
  -- run does not call that handler, wherever it stands in the list.
  pub removed-uncalled :
      (h : ℕ) (hs : List ℕ) (s : Handlers)
      → ((g : ℕ) → All (Spares k) (callback g))
      → 0 < s.running
      → is_active h s.list ≡ true
      → condition h ≡ true
      → has_removal k (callback h) ≡ true
      → (later : List ℕ) × ((loop condition callback (h ∷ hs) s).0 ≡ h ∷ later)
        × (is_called k later ≡ false)
  unfolding loop
  removed-uncalled h hs s spared r active wanted removal =
      let quiet = edit_removes k (callback h) s (spared h) r removal in
      (
        (loop condition callback hs (edit (callback h) s)).0,
        simp (active, wanted),
        inactive-uncalled hs (edit (callback h) s) spared quiet.1 quiet.0,
      )
