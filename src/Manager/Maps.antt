-- ===== src/Manager/Maps.antt =====
-- `std::map` with numbers for its keys: a list of entries in the order of the keys.
use logiops.Prelude.{
  ℕ, ◌+◌, ◌≡◌, Option, none, some, List, [], ◌∷◌, ltb, ◌==◌, if◌then◌else◌, arith, refl,
}

module _ {ℓ} {A : Type ℓ} where
  unfoldable pub find : ℕ → List (ℕ × A) → Option A
  find k [] = none
  find k ((x, a) ∷ rest) = let later = find k rest in if k == x then some a else later

  -- `emplace`: an entry that is there stays.
  unfoldable pub emplace : ℕ → A → List (ℕ × A) → List (ℕ × A)
  emplace k a [] = (k, a) ∷ []
  emplace k a ((x, b) ∷ rest) =
      let later = emplace k a rest in
      if ltb k x then (k, a) ∷ (x, b) ∷ rest else (if k == x then (x, b) ∷ rest else (x, b) ∷ later)

  unfoldable pub remove : ℕ → List (ℕ × A) → List (ℕ × A)
  remove k [] = []
  remove k ((x, b) ∷ rest) = let later = remove k rest in if k == x then rest else (x, b) ∷ later

  -- A change of the object that an entry points to.
  unfoldable pub assign : ℕ → A → List (ℕ × A) → List (ℕ × A)
  assign k a [] = []
  assign k a ((x, b) ∷ rest) =
      let later = assign k a rest in if k == x then (x, a) ∷ rest else (x, b) ∷ later

  -- A weight, summed over the entries.
  unfoldable pub total : (A → ℕ) → List (ℕ × A) → ℕ
  total w [] = 0
  total w ((x, a) ∷ rest) = w a + total w rest

  abbrev pub weight_of : (A → ℕ) → Option A → ℕ
  weight_of w none = 0
  weight_of w (some a) = w a

  pub total-emplace :
      (w : A → ℕ) (k : ℕ) (a : A) (m : List (ℕ × A))
      → find k m ≡ none
      → total w (emplace k a m) ≡ w a + total w m
  unfolding find emplace total
  total-emplace w k a [] h = refl
  total-emplace w k a ((x, b) ∷ rest) h = ground (arith, total-emplace w k a rest)

  pub total-remove :
      (w : A → ℕ) (k : ℕ) (m : List (ℕ × A))
      → total w (remove k m) + weight_of w (find k m) ≡ total w m
  unfolding find remove total
  total-remove w k [] = omega arith
  total-remove w k ((x, b) ∷ rest) = ground (arith, total-remove w k rest)

  pub total-assign :
      (w : A → ℕ) (k : ℕ) (a b : A) (m : List (ℕ × A))
      → find k m ≡ some b
      → total w (assign k a m) + w b ≡ total w m + w a
  unfolding find assign total
  total-assign w k a b [] h = cc
  total-assign w k a b ((x, c) ∷ rest) h = ground (arith, total-assign w k a b rest)

  pub total_found :
      (w : A → ℕ) (k : ℕ) (a : A) (m : List (ℕ × A))
      → find k m ≡ some a
      → total w (remove k m) + w a ≡ total w m
  total_found w k a m h = let e = total-remove w k m in rw h at e
