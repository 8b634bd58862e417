-- ===== src/Util/Handlers/Tests.antt =====
-- Three handlers, of which the first removes the last.
use logiops.Prelude.{
  ℕ, ◌≡◌, Bool, true, false, List, [], ◌∷◌, ◌==◌, if◌then◌else◌, All, Bool-cases, inl, inr, arith,
  refl,
}
use logiops.Util.Handlers.{Handlers, is_active, Edit, adds, removes, loop, run_all}
use logiops.Util.Handlers.Removed.{Spares, is_called, removed-uncalled}

abbrev handlers : Handlers
handlers = record { list = (1, true) ∷ (2, true) ∷ (3, true) ∷ []; running = 1 }

abbrev callback : ℕ → List Edit
callback h = if h == 1 then removes 3 ∷ adds 4 ∷ [] else []

abbrev all_wanted : ℕ → Bool
all_wanted h = true

callback-Spares : (h : ℕ) → All (Spares 3) (callback h)
callback-Spares h = elim (Bool-cases (h == 1)) [
  | inl first ↦ rw first (tt, (refl, tt))
  | inr other ↦ rw other (tt)
]

-- The list is left with the added handler in front, and the removed one for the next cleanup.
handlers_run : run_all all_wanted callback (record handlers { running = 0 }) ≡ (
  1 ∷ 2 ∷ [],
  record { list = (4, true) ∷ (1, true) ∷ (2, true) ∷ (3, false) ∷ []; running = 0 },
)
unfolding run_all
handlers_run = refl

removed-uncalled_example :
    (later : List ℕ) × ((loop all_wanted callback (1 ∷ 2 ∷ 3 ∷ []) handlers).0 ≡ 1 ∷ later)
    × (is_called 3 later ≡ false)
unfolding is_active
removed-uncalled_example =
    removed-uncalled all_wanted callback 3 1 (2 ∷ 3 ∷ []) handlers callback-Spares (omega arith)
      refl refl refl
