-- ===== src/Hidpp/Descriptor.antt =====
-- `getSupportedReports` of src/logid/backend/hidpp/Report.cpp: which report sizes a raw device has,
-- found by searching its report descriptor.
mod Tests
use logiops.Prelude.{
  ℕ, ◌<◌, ◌↔◌, ◌≡◌, refl, sym, ap, ◌⊎◌, inl, inr, Bool, true, false, ◌||◌, List, [], ◌∷◌, ◌++◌,
  from_bool, ap₂, ◌%◌, ◌/◌, ℕ_discrete, bit_or, ◌==◌, ==_iff, if◌then◌else◌, Bool-cases, arith,
}
use logiops.Hidpp.Defs.{short_report_supported, long_report_supported}

abbrev pub short_report_desc : List ℕ
short_report_desc =
    0xA1 ∷ 0x01 ∷ 0x85 ∷ 0x10 ∷ 0x75 ∷ 0x08 ∷ 0x95 ∷ 0x06 ∷ 0x15 ∷ 0x00 ∷ 0x26 ∷ 0xFF ∷ 0x00 ∷ 0x09
    ∷ 0x01 ∷ 0x81 ∷ 0x00 ∷ 0x09 ∷ 0x01 ∷ 0x91 ∷ 0x00 ∷ 0xC0 ∷ []

abbrev pub long_report_desc : List ℕ
long_report_desc =
    0xA1 ∷ 0x01 ∷ 0x85 ∷ 0x11 ∷ 0x75 ∷ 0x08 ∷ 0x95 ∷ 0x13 ∷ 0x15 ∷ 0x00 ∷ 0x26 ∷ 0xFF ∷ 0x00 ∷ 0x09
    ∷ 0x02 ∷ 0x81 ∷ 0x00 ∷ 0x09 ∷ 0x02 ∷ 0x91 ∷ 0x00 ∷ 0xC0 ∷ []

abbrev pub short_report_desc2 : List ℕ
short_report_desc2 =
    0xA1 ∷ 0x01 ∷ 0x85 ∷ 0x10 ∷ 0x95 ∷ 0x06 ∷ 0x75 ∷ 0x08 ∷ 0x15 ∷ 0x00 ∷ 0x26 ∷ 0xFF ∷ 0x00 ∷ 0x09
    ∷ 0x01 ∷ 0x81 ∷ 0x00 ∷ 0x09 ∷ 0x01 ∷ 0x91 ∷ 0x00 ∷ 0xC0 ∷ []

abbrev pub long_report_desc2 : List ℕ
long_report_desc2 =
    0xA1 ∷ 0x01 ∷ 0x85 ∷ 0x11 ∷ 0x95 ∷ 0x13 ∷ 0x75 ∷ 0x08 ∷ 0x15 ∷ 0x00 ∷ 0x26 ∷ 0xFF ∷ 0x00 ∷ 0x09
    ∷ 0x02 ∷ 0x81 ∷ 0x00 ∷ 0x09 ∷ 0x02 ∷ 0x91 ∷ 0x00 ∷ 0xC0 ∷ []

unfoldable pub starts_with : List ℕ → List ℕ → Bool
starts_with [] ys = true
starts_with (x ∷ xs) [] = false
starts_with (x ∷ xs) (y ∷ ys) = let rest = starts_with xs ys in if x == y then rest else false

-- `std::search` finds the second list in the first: it does not return `end`. (No pattern is empty.)
unfoldable pub search_in : List ℕ → List ℕ → Bool
search_in [] pattern' = starts_with pattern' []
search_in (y ∷ ys) pattern' =
    let rest = search_in ys pattern' in if starts_with pattern' (y ∷ ys) then true else rest

unfoldable pub get_supported_reports : List ℕ → ℕ
get_supported_reports report_desc =
    let a =
      if search_in report_desc short_report_desc || search_in report_desc short_report_desc2
      then bit_or 0 short_report_supported
      else 0 in
    if search_in report_desc long_report_desc || search_in report_desc long_report_desc2
    then bit_or a long_report_supported
    else a

-- What the search looks for.
abbrev pub Contains : List ℕ → List ℕ → Type 0
Contains xs p = (before : List ℕ) × (after : List ℕ) × (xs ≡ before ++ (p ++ after))

starts_with_sound : (p ys : List ℕ) → starts_with p ys ≡ true → (after : List ℕ) × (ys ≡ p ++ after)
unfolding starts_with
starts_with_sound [] ys h = (ys, refl)
starts_with_sound (x ∷ p) [] h = cc
starts_with_sound (x ∷ p) (y ∷ ys) h = elim (ℕ_discrete x y) [
  | yes e ↦ let w = starts_with_sound p ys (ground arith) in (w.0, ap₂ (λ a b. a ∷ b) (sym e) w.1)
  | no n ↦ absurd (ground arith)
]

starts_with_complete : (p after : List ℕ) → starts_with p (p ++ after) ≡ true
unfolding starts_with
starts_with_complete [] after = refl
starts_with_complete (x ∷ p) after = ground (arith, starts_with_complete p after)

search_in_sound : (xs p : List ℕ) → search_in xs p ≡ true → Contains xs p
unfolding search_in
search_in_sound [] p h = let w = starts_with_sound p [] h in ([], w.0, w.1)
search_in_sound (y ∷ ys) p h = elim (Bool-cases (starts_with p (y ∷ ys))) [
  | inl e ↦ let w = starts_with_sound p (y ∷ ys) e in ([], w.0, w.1)
  | inr n ↦ let w = search_in_sound ys p (ground arith) in (y ∷ w.0, w.1, ap (λ t. y ∷ t) w.2)
]

search_in_complete :
    (before : List ℕ) (x : ℕ) (p after : List ℕ)
    → search_in (before ++ (x ∷ p ++ after)) (x ∷ p) ≡ true
unfolding search_in
search_in_complete [] x p after = rw (starts_with_complete (x ∷ p) after)
search_in_complete (y ∷ before) x p after = ground (arith, search_in_complete before x p after)

search_in-Contains :
    (xs : List ℕ) (x : ℕ) (p : List ℕ) → Contains xs (x ∷ p) → search_in xs (x ∷ p) ≡ true
search_in-Contains xs x p (before, after, e) = rw e (search_in_complete before x p after)

reports_of_search :
    (a b c d : Bool)
    → let n = if c || d then bit_or (if a || b then 1 else 0) 2 else (if a || b then 1 else 0) in
      (n % 2 ≡ from_bool (a || b)) × (n / 2 ≡ from_bool (c || d)) × (n < 4)
reports_of_search a b c d = ground arith

either_Contains :
    (xs : List ℕ) (x y : ℕ) (p q : List ℕ) (n : ℕ)
    → n ≡ from_bool (search_in xs (x ∷ p) || search_in xs (y ∷ q))
    → (n ≡ 1) ↔ (Contains xs (x ∷ p) ⊎ Contains xs (y ∷ q))
either_Contains xs x y p q n e = (found, back)
  where
    found : n ≡ 1 → Contains xs (x ∷ p) ⊎ Contains xs (y ∷ q)
    found h = elim (Bool-cases (search_in xs (x ∷ p))) [
      | inl a ↦ inl (search_in_sound xs (x ∷ p) a)
      | inr a ↦ inr (search_in_sound xs (y ∷ q) (ground arith))
    ]

    back : Contains xs (x ∷ p) ⊎ Contains xs (y ∷ q) → n ≡ 1
    back (inl c) = ground (arith, search_in-Contains xs x p c)
    back (inr c) = ground (arith, search_in-Contains xs y q c)

-- The low bit of the result says exactly whether a short report descriptor, in either version, is a
-- contiguous part of the device's descriptor, the next bit the same of a long one, and no other bit
-- is set.
pub get_supported_reports_lem :
    (xs : List ℕ)
    → ((get_supported_reports xs % 2 ≡ 1)
        ↔ (Contains xs short_report_desc ⊎ Contains xs short_report_desc2))
      × ((get_supported_reports xs / 2 ≡ 1)
          ↔ (Contains xs long_report_desc ⊎ Contains xs long_report_desc2))
      × (get_supported_reports xs < 4)
unfolding get_supported_reports
get_supported_reports_lem xs =
    let w =
      reports_of_search (search_in xs short_report_desc) (search_in xs short_report_desc2)
        (search_in xs long_report_desc) (search_in xs long_report_desc2) in
    (either_Contains xs _ _ _ _ _ w.0, either_Contains xs _ _ _ _ _ w.1, w.2)
