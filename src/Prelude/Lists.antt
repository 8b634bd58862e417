-- ===== src/Prelude/Lists.antt =====
-- Lists measured and indexed by native numbers, under the library's names, and what the C++
-- standard library does on vectors.
use Prim.Native.Nat.{ℕ, zero, suc, ◌+◌, ◌-◌, ◌≤◌, ◌<◌, min}
use mathlib.Core.Path.{◌≡◌, refl, sym, ap, ◌∙◌}
use mathlib.Core.Logic.{◌≢◌, ◌⊎◌, inl, inr}
use mathlib.Core.List.{List, [], ◌∷◌, ◌++◌}
use mathlib.Core.Option.{Option, none, some}
use native.Mathlib.Omega.{arith}

module _ {ℓ} {A : Type ℓ} where
  abbrev pub length : List A → ℕ
  length [] = 0
  length (x ∷ xs) = suc (length xs)

  abbrev pub get_elem? : List A → ℕ → Option A
  get_elem? [] i = none
  get_elem? (x ∷ xs) zero = some x
  get_elem? (x ∷ xs) (suc i) = get_elem? xs i

  abbrev pub get_or : List A → ℕ → A → A
  get_or [] i d = d
  get_or (x ∷ xs) zero d = x
  get_or (x ∷ xs) (suc i) d = get_or xs i d

  -- A write out of bounds changes nothing.
  abbrev pub set : List A → ℕ → A → List A
  set [] i v = []
  set (x ∷ xs) zero v = v ∷ xs
  set (x ∷ xs) (suc i) v = x ∷ set xs i v

  abbrev pub take : ℕ → List A → List A
  take zero xs = []
  take (suc n) [] = []
  take (suc n) (x ∷ xs) = x ∷ take n xs

  abbrev pub drop : ℕ → List A → List A
  drop zero xs = xs
  drop (suc n) [] = []
  drop (suc n) (x ∷ xs) = drop n xs

  abbrev pub replicate : ℕ → A → List A
  replicate zero a = []
  replicate (suc n) a = a ∷ replicate n a

  -- `std::vector::resize`: cut, or fill up with `a`.
  abbrev pub resize : ℕ → A → List A → List A
  resize zero a xs = []
  resize (suc n) a [] = a ∷ resize n a []
  resize (suc n) a (x ∷ xs) = x ∷ resize n a xs

  -- `std::copy` of the second list over the front of the first.
  abbrev pub copy : List A → List A → List A
  copy [] ys = []
  copy (x ∷ xs) [] = x ∷ xs
  copy (x ∷ xs) (y ∷ ys) = y ∷ copy xs ys

  abbrev pub All {κ} : (A → Type κ) → List A → Type κ
  All P [] = Unit
  All P (x ∷ xs) = P x × All P xs

module _ {ℓ} {A : Type ℓ} where
  pub length-append : (xs ys : List A) → length (xs ++ ys) ≡ length xs + length ys
  length-append [] ys = omega arith
  length-append (x ∷ xs) ys = omega (arith, length-append xs ys)

  pub length-set : (xs : List A) (i : ℕ) (v : A) → length (set xs i v) ≡ length xs
  length-set [] i v = refl
  length-set (x ∷ xs) zero v = refl
  length-set (x ∷ xs) (suc i) v = ap suc (length-set xs i v)

  pub get_or-set_self :
      (xs : List A) (i : ℕ) (v d : A) → i < length xs → get_or (set xs i v) i d ≡ v
  get_or-set_self [] i v d h = elim h [ ]
  get_or-set_self (x ∷ xs) zero v d h = refl
  get_or-set_self (x ∷ xs) (suc i) v d h = get_or-set_self xs i v d (omega arith)

  pub get_or-set_ne :
      (xs : List A) (i j : ℕ) (v d : A) → i ≢ j → get_or (set xs i v) j d ≡ get_or xs j d
  get_or-set_ne [] i j v d h = refl
  get_or-set_ne (x ∷ xs) zero zero v d h = absurd (h refl)
  get_or-set_ne (x ∷ xs) zero (suc j) v d h = refl
  get_or-set_ne (x ∷ xs) (suc i) zero v d h = refl
  get_or-set_ne (x ∷ xs) (suc i) (suc j) v d h = get_or-set_ne xs i j v d (λ e. h (ap suc e))

  pub length-resize : (n : ℕ) (a : A) (xs : List A) → length (resize n a xs) ≡ n
  length-resize zero a xs = refl
  length-resize (suc n) a [] = ap suc (length-resize n a [])
  length-resize (suc n) a (x ∷ xs) = ap suc (length-resize n a xs)

  pub length-copy : (xs ys : List A) → length (copy xs ys) ≡ length xs
  length-copy [] ys = refl
  length-copy (x ∷ xs) [] = refl
  length-copy (x ∷ xs) (y ∷ ys) = ap suc (length-copy xs ys)

  pub length-take : (n : ℕ) (xs : List A) → length (take n xs) ≡ min n (length xs)
  length-take zero xs = omega arith
  length-take (suc n) [] = omega arith
  length-take (suc n) (x ∷ xs) = omega (arith, length-take n xs)

  pub length-drop : (n : ℕ) (xs : List A) → length (drop n xs) ≡ length xs - n
  length-drop zero xs = omega arith
  length-drop (suc n) [] = omega arith
  length-drop (suc n) (x ∷ xs) = omega (arith, length-drop n xs)

  -- What is read back after a copy is the data, then what stood there before.
  pub take-copy : (xs ys : List A) → length ys ≤ length xs → take (length ys) (copy xs ys) ≡ ys
  take-copy [] [] h = refl
  take-copy [] (y ∷ ys) h = absurd (omega arith)
  take-copy (x ∷ xs) [] h = refl
  take-copy (x ∷ xs) (y ∷ ys) h = ap (λ t. y ∷ t) (take-copy xs ys (omega arith))

module _ {ℓ κ} {A : Type ℓ} (P : A → Type κ) where
  pub All-set : (xs : List A) (i : ℕ) (v : A) → All P xs → P v → All P (set xs i v)
  All-set [] i v h p = h
  All-set (x ∷ xs) zero v h p = (p, h.1)
  All-set (x ∷ xs) (suc i) v h p = (h.0, All-set xs i v h.1 p)

  pub All-resize : (n : ℕ) (a : A) (xs : List A) → P a → All P xs → All P (resize n a xs)
  All-resize zero a xs p h = tt
  All-resize (suc n) a [] p h = (p, All-resize n a [] p h)
  All-resize (suc n) a (x ∷ xs) p h = (h.0, All-resize n a xs p h.1)

  pub All-copy : (xs ys : List A) → All P xs → All P ys → All P (copy xs ys)
  All-copy [] ys h k = h
  All-copy (x ∷ xs) [] h k = h
  All-copy (x ∷ xs) (y ∷ ys) h k = (k.0, All-copy xs ys h.1 k.1)

  pub All-drop : (n : ℕ) (xs : List A) → All P xs → All P (drop n xs)
  All-drop zero xs h = h
  All-drop (suc n) [] h = h
  All-drop (suc n) (x ∷ xs) h = All-drop n xs h.1

  pub All-get_or : (xs : List A) (i : ℕ) (d : A) → P d → All P xs → P (get_or xs i d)
  All-get_or [] i d p h = p
  All-get_or (x ∷ xs) zero d p h = h.0
  All-get_or (x ∷ xs) (suc i) d p h = All-get_or xs i d p h.1

module _ {ℓ} {A : Type ℓ} where
  pub resize-resize :
      (n m : ℕ) (a b : A) (xs : List A) → length xs ≡ n → n ≤ m → resize n a (resize m b xs) ≡ xs
  resize-resize zero m a b [] e h = refl
  resize-resize zero m a b (x ∷ xs) e h = absurd (omega arith)
  resize-resize (suc n) m a b [] e h = absurd (omega arith)
  resize-resize (suc n) zero a b (x ∷ xs) e h = absurd (omega arith)
  resize-resize (suc n) (suc m) a b (x ∷ xs) e h =
      ap (λ t. x ∷ t) (resize-resize n m a b xs (omega arith) (omega arith))

  pub get_or-resize :
      (n i : ℕ) (a : A) (xs : List A) → i < n → get_or (resize n a xs) i a ≡ get_or xs i a
  get_or-resize zero i a xs h = elim h [ ]
  get_or-resize (suc n) zero a [] h = refl
  get_or-resize (suc n) (suc i) a [] h = get_or-resize n i a [] (omega arith)
  get_or-resize (suc n) zero a (x ∷ xs) h = refl
  get_or-resize (suc n) (suc i) a (x ∷ xs) h = get_or-resize n i a xs (omega arith)

  pub get_or-replicate : (n i : ℕ) (a : A) → get_or (replicate n a) i a ≡ a
  get_or-replicate zero i a = refl
  get_or-replicate (suc n) zero a = refl
  get_or-replicate (suc n) (suc i) a = get_or-replicate n i a

  -- A write at one index, seen at any index.
  pub get_or-set :
      (xs : List A) (i j : ℕ) (v d : A)
      → ((i ≡ j) × (i < length xs) × (get_or (set xs i v) j d ≡ v))
        ⊎ ((i ≢ j) × (get_or (set xs i v) j d ≡ get_or xs j d))
        ⊎ ((length xs ≤ i) × (set xs i v ≡ xs))
  get_or-set [] i j v d = inr (inr (omega arith, refl))
  get_or-set (x ∷ xs) zero zero v d = inl (refl, omega arith, refl)
  get_or-set (x ∷ xs) zero (suc j) v d = inr (inl (omega arith, refl))
  get_or-set (x ∷ xs) (suc i) zero v d = inr (inl (omega arith, refl))
  get_or-set (x ∷ xs) (suc i) (suc j) v d = elim (get_or-set xs i j v d) [
    | inl (e, h, p) ↦ inl (ap suc e, omega arith, p)
    | inr (inl (n, p)) ↦ inr (inl (omega arith, p))
    | inr (inr (h, p)) ↦ inr (inr (omega arith, ap (λ t. x ∷ t) p))
  ]

  pub set-set : (xs : List A) (i : ℕ) (v w : A) → set (set xs i v) i w ≡ set xs i w
  set-set [] i v w = refl
  set-set (x ∷ xs) zero v w = refl
  set-set (x ∷ xs) (suc i) v w = ap (λ t. x ∷ t) (set-set xs i v w)

  -- A list read through its first n entries.
  pub get_or-take : (n i : ℕ) (xs : List A) (d : A) → i < n → get_or (take n xs) i d ≡ get_or xs i d
  get_or-take zero i xs d h = elim h [ ]
  get_or-take (suc n) i [] d h = refl
  get_or-take (suc n) zero (x ∷ xs) d h = refl
  get_or-take (suc n) (suc i) (x ∷ xs) d h = get_or-take n i xs d (omega arith)

  pub get_or-of_take :
      (n i : ℕ) (xs ys : List A) (d : A)
      → take n xs ≡ take n ys
      → i < n
      → get_or xs i d ≡ get_or ys i d
  get_or-of_take n i xs ys d e h =
      sym (get_or-take n i xs d h) ∙ ap (λ t. get_or t i d) e ∙ get_or-take n i ys d h

pub List-cases {ℓ} :
    {A : Type ℓ} (l : List A) → (l ≡ []) ⊎ ((x : A) × (rest : List A) × (l ≡ x ∷ rest))
List-cases [] = inl refl
List-cases (x ∷ rest) = inr (x, rest, refl)
