-- ===== src/Features/Battery/Publishing.antt =====
-- Which reading src/logid/features/BatteryStatus.cpp selects among those of its readers.
use logiops.Prelude.{
  ℕ, ◌+◌, ◌*◌, ◌<◌, ◌≤◌, ◌≡◌, ◌⊎◌, refl, sym, subst, ◌∙◌, Bool, Bool-cases, true, false, inl, inr,
  ◌&&◌, ◌||◌, not, Option, Option-cases, none, some, List, [], ◌∷◌, All, ltb, ◌==◌, if◌then◌else◌,
  arith,
}
use logiops.Features.Battery.{Reader, Selected, better, select, offer, charging, read_all}

abbrev pub offers : List Reader → List Selected
offers [] = []
offers (r ∷ readers) =
    let rest = offers readers in elim (offer r) [ none ↦ rest | some o ↦ o ∷ rest ]

-- The rank of a reading: by whether its capacity is reported, then by its priority, then by its
-- capacity.
abbrev pub rank : Selected → ℕ
rank s = (if s.reported then 0x10000 else 0) + s.priority * 0x100 + s.capacity

abbrev pub IsSmall : Selected → Type 0
IsSmall s = (s.priority < 0x100) × (s.capacity < 0x100)

abbrev pub Among : Selected → List Selected → Type 0
Among s [] = ⊥
Among s (o ∷ os) = (s ≡ o) ⊎ Among s os

better_cases :
    (b c : Bool) (p q m n : ℕ)
    → m < 0x100
    → n < 0x100
    → p < 0x100
    → q < 0x100
    → ((b && not c) || ((if b then c else not c) && (ltb q p || ((p == q) && ltb n m))))
      ≡ ltb
          ((if c then 0x10000 else 0) + q * 0x100 + n)
          ((if b then 0x10000 else 0) + p * 0x100 + m)
better_cases true true p q m n hm hn hp hq = ground arith
better_cases true false p q m n hm hn hp hq = ground arith
better_cases false true p q m n hm hn hp hq = ground arith
better_cases false false p q m n hm hn hp hq = ground arith

better-rank : (r s : Selected) → IsSmall r → IsSmall s → better r s ≡ ltb (rank s) (rank r)
better-rank r s h k =
    better_cases r.reported s.reported r.priority s.priority r.capacity s.capacity h.1 k.1 h.0 k.0

fold : Option Selected → List Selected → Option Selected
fold s [] = s
fold s (o ∷ os) = fold (select s o) os

read_all-fold :
    (readers : List Reader) (s : Option Selected) (c : Bool)
    → (read_all readers s c).0 ≡ fold s (offers readers)
unfolding read_all fold
read_all-fold [] s c = refl
read_all-fold (r ∷ readers) s c = elim (Option-cases (offer r)) [
  | inl e ↦ rw (e, read_all, offers) (read_all-fold readers s c)
  | inr (o, e) ↦
      rw (e, read_all, offers) (read_all-fold readers (select s o) (c || charging o.status.state))
]

lt_le : {a b c : ℕ} → ltb a b ≡ true → b ≤ c → a ≤ c
lt_le h k = ground arith

ge_le : {a b c : ℕ} → ltb a b ≡ false → a ≤ c → b ≤ c
ge_le h k = ground arith

weaken :
    {t s o : Selected} (os : List Selected)
    → (t ≡ s) ⊎ Among t os
    → (t ≡ s) ⊎ ((t ≡ o) ⊎ Among t os)
weaken os (inl e) = inl e
weaken os (inr m) = inr (inr m)

-- The selection from `s` on.
fold-best :
    (s : Selected) (os : List Selected)
    → IsSmall s
    → All IsSmall os
    → (t : Selected) × (fold (some s) os ≡ some t)
      × ((t ≡ s) ⊎ Among t os)
      × (rank s ≤ rank t)
      × All (λ o. rank o ≤ rank t) os
unfolding fold
fold-best s [] h k = (s, refl, inl refl, omega arith, tt)
fold-best s (o ∷ os) h k = elim (Bool-cases (better o s)) [
  | inl e ↦
      let (t, run, where', le, all) = fold-best o os k.0 k.1 in
      let lt : ltb (rank s) (rank o) ≡ true = sym (better-rank o s k.0 h) ∙ e in
      (t, rw e run, inr where', lt_le lt le, (le, all))
  | inr e ↦
      let (t, run, where', le, all) = fold-best s os h k.1 in
      let ge : ltb (rank s) (rank o) ≡ false = sym (better-rank o s k.0 h) ∙ e in
      (t, rw e run, weaken os where', le, (ge_le ge le, all))
]

Best : List Selected → Option Selected → Type 0
Best os r =
    ((os ≡ []) × (r ≡ none))
    ⊎ ((t : Selected) × (r ≡ some t) × Among t os × All (λ o. rank o ≤ rank t) os)

fold-Best : (os : List Selected) → All IsSmall os → Best os (fold none os)
unfolding Best fold
fold-Best [] h = inl (refl, refl)
fold-Best (o ∷ os) h =
    let (t, run, where', le, all) = fold-best o os h.0 h.1 in inr (t, run, where', (le, all))

-- If no reader has a reading with a capacity, none is selected. Else one of these readings is, and no
-- other has a higher rank: a reported capacity goes before an inferred one, then the reader of higher
-- priority, then the larger capacity. Priorities and capacities are below 256.
pub read_all-best :
    (readers : List Reader) (charging : Bool)
    → All IsSmall (offers readers)
    → ((offers readers ≡ []) × ((read_all readers none charging).0 ≡ none))
      ⊎ ((t : Selected) × ((read_all readers none charging).0 ≡ some t)
          × Among t (offers readers)
          × All (λ o. rank o ≤ rank t) (offers readers))
unfolding Best
read_all-best readers charging h =
    subst (λ r. Best (offers readers) r) (sym (read_all-fold readers none charging))
      (fold-Best (offers readers) h)
