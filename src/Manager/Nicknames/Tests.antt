-- ===== src/Manager/Nicknames/Tests.antt =====
-- The nicknames at concrete sequences.
use logiops.Prelude.{ℕ, ◌≡◌, List, [], ◌∷◌, arith, refl}
use logiops.Prelude.Exn.{ok}
use logiops.Prelude.Sets.{insert, erase}
use logiops.Manager.Nicknames.{new_device_nickname, adjacent_gap, last}
use logiops.Manager.Nicknames.Serving.{run, Op, acquire, release, run-Grants, Grants, device, holds}
use logiops.Prelude.{false}

abbrev ops : List Op
ops = acquire ∷ acquire ∷ acquire ∷ release 1 ∷ release 0 ∷ acquire ∷ acquire ∷ acquire ∷ []

ops-run : run device ops [] ≡ ok (0 ∷ 1 ∷ 2 ∷ 0 ∷ 1 ∷ 3 ∷ [], 0 ∷ 1 ∷ 2 ∷ 3 ∷ [])
unfolding run new_device_nickname adjacent_gap last insert erase
ops-run = refl

run-Grants_example :
    (given : List ℕ) × (end : List ℕ) × (run device ops [] ≡ ok (given, end))
    × Grants (λ k. false) ops given (holds end)
run-Grants_example = run-Grants device ops (omega arith)
