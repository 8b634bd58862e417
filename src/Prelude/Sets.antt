-- ===== src/Prelude/Sets.antt =====
-- `std::set` of numbers: the list of its elements in ascending order, and what insertion and removal do
-- to the order and to the elements.
use logiops.Prelude.{
  ℕ, suc, ◌≤◌, ◌<◌, ◌≡◌, Bool, true, false, List, [], ◌∷◌, ltb, ◌==◌, if◌then◌else◌, arith, refl,
}

-- `std::set::insert`, which keeps the order.
unfoldable pub insert : ℕ → List ℕ → List ℕ
insert x [] = x ∷ []
insert x (y ∷ ys) =
    let rest = insert x ys in if ltb x y then x ∷ y ∷ ys else (if x == y then y ∷ ys else y ∷ rest)

-- `std::set::erase`.
unfoldable pub erase : ℕ → List ℕ → List ℕ
erase x [] = []
erase x (y ∷ ys) = let rest = erase x ys in if x == y then ys else y ∷ rest

-- `std::set::contains`.
unfoldable pub contains : ℕ → List ℕ → Bool
contains x [] = false
contains x (y ∷ ys) = if x == y then true else contains x ys

-- The elements ascend, from `lo` on.
abbrev pub AscendsFrom : ℕ → List ℕ → Type 0
AscendsFrom lo [] = Unit {0}
AscendsFrom lo (x ∷ xs) = (lo ≤ x) × AscendsFrom (suc x) xs

abbrev pub AllBelow : ℕ → List ℕ → Type 0
AllBelow b [] = Unit {0}
AllBelow b (x ∷ xs) = (x < b) × AllBelow b xs

pub AscendsFrom-weaken : (lo lo' : ℕ) (s : List ℕ) → lo' ≤ lo → AscendsFrom lo s → AscendsFrom lo' s
AscendsFrom-weaken lo lo' [] h a = tt
AscendsFrom-weaken lo lo' (x ∷ xs) h a = (omega arith, a.1)

pub AllBelow-weaken : (b b' : ℕ) (s : List ℕ) → b ≤ b' → AllBelow b s → AllBelow b' s
AllBelow-weaken b b' [] h a = tt
AllBelow-weaken b b' (x ∷ xs) h a = (omega arith, AllBelow-weaken b b' xs h a.1)

pub insert-AscendsFrom :
    (lo x : ℕ) (s : List ℕ) → lo ≤ x → AscendsFrom lo s → AscendsFrom lo (insert x s)
unfolding insert
insert-AscendsFrom lo x [] h a = (h, tt)
insert-AscendsFrom lo x (y ∷ ys) h a = ground (arith, insert-AscendsFrom (suc y) x ys)

pub erase-AscendsFrom : (lo x : ℕ) (s : List ℕ) → AscendsFrom lo s → AscendsFrom lo (erase x s)
unfolding erase
erase-AscendsFrom lo x [] a = tt
erase-AscendsFrom lo x (y ∷ ys) a =
    ground (arith, erase-AscendsFrom (suc y) x ys, AscendsFrom-weaken (suc y) lo ys)

pub insert-AllBelow : (b x : ℕ) (s : List ℕ) → x < b → AllBelow b s → AllBelow b (insert x s)
unfolding insert
insert-AllBelow b x [] h a = (h, tt)
insert-AllBelow b x (y ∷ ys) h a = ground (arith, insert-AllBelow b x ys)

pub erase-AllBelow : (b x : ℕ) (s : List ℕ) → AllBelow b s → AllBelow b (erase x s)
unfolding erase
erase-AllBelow b x [] a = tt
erase-AllBelow b x (y ∷ ys) a = ground (arith, erase-AllBelow b x ys)

pub contains-insert :
    (k x : ℕ) (s : List ℕ) → contains k (insert x s) ≡ (if k == x then true else contains k s)
unfolding contains insert
contains-insert k x [] = refl
contains-insert k x (y ∷ ys) = ground (arith, contains-insert k x ys)

-- What lies below an ascending list is not in it.
pub contains_below : (k lo : ℕ) (s : List ℕ) → k < lo → AscendsFrom lo s → contains k s ≡ false
unfolding contains
contains_below k lo [] h a = refl
contains_below k lo (x ∷ xs) h a = ground (arith, contains_below k (suc x) xs)

pub contains-erase :
    (k x lo : ℕ) (s : List ℕ)
    → AscendsFrom lo s
    → contains k (erase x s) ≡ (if k == x then false else contains k s)
unfolding contains erase
contains-erase k x lo [] a = ground arith
contains-erase k x lo (y ∷ ys) a =
    ground (arith, contains-erase k x (suc y) ys, contains_below k (suc y) ys)
