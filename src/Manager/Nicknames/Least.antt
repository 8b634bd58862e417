-- ===== src/Manager/Nicknames/Least.antt =====
-- The nickname that is chosen: the least number that is not in the set.
use logiops.Prelude.{
  ℕ, zero, suc, ◌+◌, ◌≤◌, ◌<◌, ◌≡◌, ◌≢◌, true, false, none, some, List, [], ◌∷◌, ◌==◌,
  if◌then◌else◌, arith, refl, inl, inr, Option-cases,
}
use logiops.Prelude.Exn.{ok}
use logiops.Prelude.Sets.{insert, contains}
use logiops.Manager.Nicknames.{
  adjacent_gap, last, new_device_nickname, new_receiver_nickname, int_max,
}
use logiops.Prelude.Sets.{AscendsFrom, AllBelow, contains_below}

-- The least number from `lo` on that the ascending list misses.
unfoldable pub first_missing : ℕ → List ℕ → ℕ
first_missing lo [] = lo
first_missing lo (x ∷ xs) = let next = first_missing (suc x) xs in if x == lo then next else lo

-- What the search for a gap, and the last element without one, amount to.
pub after_gap : ℕ → List ℕ → ℕ
after_gap x xs = elim (adjacent_gap (x ∷ xs)) [
  | some i ↦ i + 1
  | none ↦ elim (last (x ∷ xs)) [ some end ↦ end + 1 | none ↦ 0 ]
]

pub after_gap-first_missing :
    (x : ℕ) (xs : List ℕ) → AscendsFrom (suc x) xs → after_gap x xs ≡ first_missing (suc x) xs
unfolding after_gap first_missing adjacent_gap last
after_gap-first_missing x [] a = omega arith
after_gap-first_missing x (y ∷ ys) a = ground (arith, after_gap-first_missing y ys)

pub first_missing-le : (lo b : ℕ) (s : List ℕ) → lo ≤ b → AllBelow b s → first_missing lo s ≤ b
unfolding first_missing
first_missing-le lo b [] h a = h
first_missing-le lo b (x ∷ xs) h a = ground (arith, first_missing-le (suc x) b xs)

pub first_missing_from : (lo : ℕ) (s : List ℕ) → AscendsFrom lo s → lo ≤ first_missing lo s
unfolding first_missing
first_missing_from lo [] a = omega arith
first_missing_from lo (x ∷ xs) a = ground (arith, first_missing_from (suc x) xs)

pub first_missing_free :
    (lo : ℕ) (s : List ℕ) → AscendsFrom lo s → contains (first_missing lo s) s ≡ false
unfolding first_missing contains
first_missing_free lo [] a = refl
first_missing_free lo (x ∷ xs) a = ground (
  arith,
  first_missing_free (suc x) xs,
  first_missing_from (suc x) xs,
  contains_below lo (suc x) xs,
)

pub first_missing_least :
    (lo m : ℕ) (s : List ℕ)
    → AscendsFrom lo s
    → lo ≤ m
    → m < first_missing lo s
    → contains m s ≡ true
unfolding first_missing contains
first_missing_least lo m [] a l h = absurd (omega arith)
first_missing_least lo m (x ∷ xs) a l h = ground (arith, first_missing_least (suc x) m xs)

pub last-ne-none : (x : ℕ) (xs : List ℕ) → last (x ∷ xs) ≢ none
unfolding last
last-ne-none x [] e = cc
last-ne-none x (y ∷ ys) e = last-ne-none y ys e

-- A gap or the last element, of a set that holds 0.
pub gap_or_last :
    (xs : List ℕ) {r : ℕ}
    → r ≤ int_max
    → after_gap 0 xs ≡ r
    → new_device_nickname (0 ∷ xs) ≡ ok (r, insert r (0 ∷ xs))
unfolding new_device_nickname after_gap
gap_or_last xs h e = elim (Option-cases (adjacent_gap (0 ∷ xs))) [
  | inl none_there ↦ elim (Option-cases (last (0 ∷ xs))) [
    | inl empty ↦ absurd (last-ne-none 0 xs empty)
    | inr (end, found) ↦ ground arith
  ]
  | inr (i, found) ↦ ground arith
]

-- The code, as one choice.
pub new_device_nickname_lem :
    (b : ℕ) (s : List ℕ)
    → AscendsFrom 0 s
    → AllBelow b s
    → b ≤ int_max
    → new_device_nickname s ≡ ok (first_missing 0 s, insert (first_missing 0 s) s)
unfolding new_device_nickname adjacent_gap last first_missing
new_device_nickname_lem b [] a l h = refl
new_device_nickname_lem b (zero ∷ xs) a l h =
    gap_or_last xs (omega (arith, first_missing-le 1 b xs)) (after_gap-first_missing zero xs a.1)
new_device_nickname_lem b (suc x ∷ xs) a l h = ground arith

-- The two functions do the same on their sets.
pub new_receiver_nickname_lem : (s : List ℕ) → new_receiver_nickname s ≡ new_device_nickname s
unfolding new_device_nickname new_receiver_nickname
new_receiver_nickname_lem s = refl

after_gap_lem :
    (x : ℕ) (xs : List ℕ)
    → after_gap x xs ≡ elim (adjacent_gap (x ∷ xs)) [
      | some i ↦ i + 1
      | none ↦ elim (last (x ∷ xs)) [ some end ↦ end + 1 | none ↦ 0 ]
    ]
unfolding after_gap
after_gap_lem x xs = refl

-- Whatever it gives was free.
pub new_device_nickname-free :
    (s : List ℕ) {n : ℕ} {s' : List ℕ}
    → AscendsFrom 0 s
    → new_device_nickname s ≡ ok (n, s')
    → (n ≡ first_missing 0 s) × (s' ≡ insert n s)
unfolding new_device_nickname first_missing adjacent_gap last
new_device_nickname-free [] a e = ground arith
new_device_nickname-free (suc x ∷ xs) a e = ground arith
new_device_nickname-free (zero ∷ xs) a e =
    ground (arith, after_gap-first_missing zero xs a.1, after_gap_lem zero xs, last-ne-none zero xs)
