-- ===== src/Manager/Lookups.antt =====
-- What is found in a map after a change.
use logiops.Prelude.{ℕ, ◌≡◌, ◌≢◌, none, some, List, [], ◌∷◌, arith, refl}
use logiops.Manager.Maps.{find, emplace, assign, remove}

module _ {ℓ} {A : Type ℓ} where
  pub find-assign :
      (k : ℕ) (a b : A) (m : List (ℕ × A)) → find k m ≡ some b → find k (assign k a m) ≡ some a
  unfolding find assign
  find-assign k a b [] h = cc
  find-assign k a b ((x, c) ∷ rest) h = ground (arith, find-assign k a b rest)

  pub find-assign_ne :
      (k j : ℕ) (a : A) (m : List (ℕ × A)) → j ≢ k → find j (assign k a m) ≡ find j m
  unfolding find assign
  find-assign_ne k j a [] h = refl
  find-assign_ne k j a ((x, c) ∷ rest) h = ground (arith, find-assign_ne k j a rest)

  pub find-emplace :
      (k : ℕ) (a : A) (m : List (ℕ × A)) → find k m ≡ none → find k (emplace k a m) ≡ some a
  unfolding find emplace
  find-emplace k a [] h = ground arith
  find-emplace k a ((x, c) ∷ rest) h = ground (arith, find-emplace k a rest)

  pub find-emplace_ne :
      (k j : ℕ) (a : A) (m : List (ℕ × A)) → j ≢ k → find j (emplace k a m) ≡ find j m
  unfolding find emplace
  find-emplace_ne k j a [] h = ground arith
  find-emplace_ne k j a ((x, c) ∷ rest) h = ground (arith, find-emplace_ne k j a rest)

  pub find-remove_ne : (k j : ℕ) (m : List (ℕ × A)) → j ≢ k → find j (remove k m) ≡ find j m
  unfolding find remove
  find-remove_ne k j [] h = refl
  find-remove_ne k j ((x, c) ∷ rest) h = ground (arith, find-remove_ne k j rest)
