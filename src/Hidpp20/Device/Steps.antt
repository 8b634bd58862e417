-- ===== src/Hidpp20/Device/Steps.antt =====
-- Each step on the response slots of src/logid/backend/hidpp20/Device.cpp keeps their invariant.
use logiops.Prelude.{
  ℕ, ◌<◌, ◌≡◌, refl, sym, ap, subst, ◌∙◌, ◌≢◌, ◌⊎◌, inl, inr, true, Option, none, some, List, [],
  ◌∷◌, ◌++◌, set, length-set, get_or-set_self, get_or-set_ne, get_or-replicate, ℕ_discrete,
  Option-cases, Bool-cases, arith,
}
use mathlib.Core.Option.{some-injective}
use logiops.Prelude.Exn.{Result, err, timeout_error}
use logiops.Hidpp.Report.{Report, feature, address}
use logiops.Hidpp20.Device.{
  Response, ResponseSlot, free, index_of, slot_of, holds, start, finish, expire, respond,
  read_response, outcome,
}
use logiops.Hidpp20.Device.Slots.{initial, answers, Serves, Held, Inv, at}

pub initial-Inv : Inv initial
unfolding at
initial-Inv = record { sized = refl; served = λ i h. get_or-replicate 16 i free }

pub at-append : (i : ℕ) (xs ys : List Report) → at i (xs ++ ys) ≡ at i xs ++ at i ys
unfolding at
at-append i [] ys = refl
at-append i (r ∷ xs) ys = ground (arith, at-append i xs ys)

pub at_self :
    (r : Report) (rs : List Report)
    → at (index_of (feature r)) (r ∷ rs) ≡ r ∷ at (index_of (feature r)) rs
unfolding at
at_self r rs = ground arith

at_other :
    (i : ℕ) (r : Report) (rs : List Report) → index_of (feature r) ≢ i → at i (r ∷ rs) ≡ at i rs
unfolding at
at_other i r rs n = ground arith

pub Serves-free :
    (slot : ResponseSlot) (rs : List Report)
    → Serves slot rs
    → slot.feature ≡ none
    → (rs ≡ []) × (slot ≡ free)
Serves-free slot [] h e = (refl, h)
Serves-free slot (r ∷ []) h e = absurd (cc)
Serves-free slot (r ∷ q ∷ rs) h e = absurd h

-- A slot that serves a thread among others serves only that one.
pub Serves-one :
    (slot : ResponseSlot) (xs ys : List Report) (r : Report)
    → Serves slot (xs ++ (r ∷ ys))
    → (xs ≡ []) × (ys ≡ []) × Serves slot (r ∷ [])
Serves-one slot [] [] r h = (refl, refl, h)
Serves-one slot [] (q ∷ ys) r h = absurd h
Serves-one slot (x ∷ []) ys r h = absurd h
Serves-one slot (x ∷ y ∷ xs) ys r h = absurd h

-- Replacing slot i, where the holders of the other slots stay, keeps the invariant.
put-Held :
    (slots : List ResponseSlot) (holders : List Report) (i : ℕ) (slot : ResponseSlot)
    (holders' : List Report)
    → Held slots holders
    → i < 16
    → Serves slot (at i holders')
    → ((j : ℕ) → i ≢ j → at j holders' ≡ at j holders)
    → Held (set slots i slot) holders'
put-Held slots holders i slot holders' inv h now rest = record {
  sized = length-set slots i slot ∙ inv.sized;
  served = λ j hj. elim (ℕ_discrete i j) [
    | yes e ↦ rw (← e, get_or-set_self slots i slot free (omega (arith, inv.sized))) now
    | no n ↦ rw (get_or-set_ne slots i j slot free n, rest j n) (inv.served j hj)
  ];
}

pub start_lem :
    (written : Result (Unit {0})) (r : Report) (slots slots' : List ResponseSlot)
    → start written r slots ≡ some (written, slots')
    → ((slot_of slots (feature r)).feature ≡ none)
      × (slots'
          ≡ set slots (index_of (feature r)) (record (slot_of slots (feature r)) {
            feature = some (feature r);
            address = some (address r);
          }))
unfolding start
start_lem written r slots slots' e = ground arith

append-empty : (xs ys : List Report) → xs ++ ys ≡ [] → (xs ≡ []) × (ys ≡ [])
append-empty [] ys e = (refl, e)
append-empty (x ∷ xs) ys e = absurd (cc)

-- The holders of slot i with one more among them, at its own slot and at another one.
at_among :
    (r : Report) (xs ys : List Report)
    → at (index_of (feature r)) (xs ++ (r ∷ ys))
      ≡ at (index_of (feature r)) xs ++ (r ∷ at (index_of (feature r)) ys)
at_among r xs ys =
    at-append (index_of (feature r)) xs (r ∷ ys)
    ∙ ap (λ t. at (index_of (feature r)) xs ++ t) (at_self r ys)

at_among_other :
    (j : ℕ) (r : Report) (xs ys : List Report)
    → index_of (feature r) ≢ j
    → at j (xs ++ (r ∷ ys)) ≡ at j (xs ++ ys)
at_among_other j r xs ys n =
    at-append j xs (r ∷ ys) ∙ ap (λ t. at j xs ++ t) (at_other j r ys n) ∙ sym (at-append j xs ys)

-- A request that claims a slot holds it, whether it is written or not.
pub claim-Held :
    (slots : List ResponseSlot) (written : Result (Unit {0})) (r : Report) (xs ys : List Report)
    (slots' : List ResponseSlot)
    → Held slots (xs ++ ys)
    → start written r slots ≡ some (written, slots')
    → Held slots' (xs ++ (r ∷ ys))
claim-Held slots written r xs ys slots' inv e =
    let i = index_of (feature r) in
    let small : index_of (feature r) < 16 = omega arith in
    let w = start_lem written r slots slots' e in
    let old = Serves-free _ _ (inv.served i small) w.0 in
    let nobody = append-empty (at i xs) (at i ys) (sym (at-append i xs ys) ∙ old.0) in
    rw w.1 (
      put-Held slots (xs ++ ys) i _ (xs ++ (r ∷ ys)) inv small
        (rw (at_among r xs ys, nobody.0, nobody.1) (refl, refl, rw old.1 tt))
        (λ j n. at_among_other j r xs ys n))

holds-some : (o : Option ℕ) (v : ℕ) → holds o v ≡ true → o ≡ some v
holds-some none v h = cc
holds-some (some w) v h = ground arith

respond_cases :
    (r : Report) (slots : List ResponseSlot)
    → ((respond r slots).0 ≡ slots)
      ⊎ (((slot_of slots (read_response r).0).feature ≡ some (read_response r).0)
          × ((slot_of slots (read_response r).0).address ≡ some (read_response r).1)
          × ((respond r slots).0
              ≡ set slots
                  (index_of (read_response r).0)
                  (record (slot_of slots (read_response r).0) {
                    response = some (read_response r).2;
                  })))
unfolding respond
respond_cases r slots =
    let (f, a, x) = read_response r in
    let slot = slot_of slots f in
    elim (Bool-cases (holds slot.feature f)) [
      | inr n ↦ inl (rw n)
      | inl h ↦ elim (Bool-cases (holds slot.address a)) [
        | inr n ↦ inl (rw (h, n))
        | inl k ↦ inr (holds-some slot.feature f h, holds-some slot.address a k, rw (h, k))
      ]
    ]

pub Serves-taken :
    (slot : ResponseSlot) (rs : List Report) (f : ℕ)
    → Serves slot rs
    → slot.feature ≡ some f
    → (q : Report) × (rs ≡ q ∷ []) × (feature q ≡ f) × (slot.address ≡ some (address q))
Serves-taken slot [] f h e = absurd (cc)
Serves-taken slot (q ∷ []) f h e = (q, refl, cc, h.1)
Serves-taken slot (q ∷ p ∷ rs) f h e = absurd h

pub receives-Held :
    (slots : List ResponseSlot) (holders : List Report) (r : Report)
    → Held slots holders
    → Held (respond r slots).0 holders
receives-Held slots holders r inv = elim (respond_cases r slots) [
  | inl e ↦ rw e inv
  | inr (ef, ea, e) ↦
      let f = (read_response r).0 in
      let small : index_of (read_response r).0 < 16 = omega arith in
      let (q, one, eq, aq) = Serves-taken _ _ f (inv.served (index_of f) small) ef in
      rw e (
        put-Held slots holders (index_of f) _ holders inv small
          (rw one (
            ef ∙ ap some (sym eq),
            aq,
            answers r (read_response r).1 (rw eq) (some-injective _ _ (sym ea ∙ aq)),
          ))
          (λ j n. refl))
]

pub finish_lem :
    (r : Report) (slots slots' : List ResponseSlot) (result : Result Report)
    → finish r slots ≡ some (result, slots')
    → (slots' ≡ set slots (index_of (feature r)) free)
      × (x : Response) × ((slot_of slots (feature r)).response ≡ some x)
      × (result ≡ outcome x)
unfolding finish
finish_lem r slots slots' result e = elim (Option-cases (slot_of slots (feature r)).response) [
  | inl n ↦ absurd (ground arith)
  | inr (x, h) ↦ (ground arith, x, h, ground arith)
]

pub expire_lem :
    (r : Report) (slots slots' : List ResponseSlot) (result : Result Report)
    → expire r slots ≡ some (result, slots')
    → (slots' ≡ set slots (index_of (feature r)) free) × (result ≡ err timeout_error)
unfolding expire
expire_lem r slots slots' result e = ground arith

-- A request that holds a slot is the only one there, and the slot serves it.
pub holder-Serves :
    (slots : List ResponseSlot) (before : List Report) (r : Report) (after : List Report)
    → Held slots (before ++ (r ∷ after))
    → (at (index_of (feature r)) before ≡ [])
      × (at (index_of (feature r)) after ≡ [])
      × Serves (slot_of slots (feature r)) (r ∷ [])
holder-Serves slots before r after inv =
    let i = index_of (feature r) in
    Serves-one (slot_of slots (feature r)) (at i before) (at i after) r (
      subst (Serves (slot_of slots (feature r))) (at_among r before after)
        (inv.served i (omega arith)))

pub leaves-Held :
    (slots : List ResponseSlot) (before : List Report) (r : Report) (after : List Report)
    → Held slots (before ++ (r ∷ after))
    → Held (set slots (index_of (feature r)) free) (before ++ after)
leaves-Held slots before r after inv =
    let i = index_of (feature r) in
    let w = holder-Serves slots before r after inv in
    put-Held slots (before ++ (r ∷ after)) i free (before ++ after) inv (omega arith)
      (rw (at-append i before after, w.0, w.1) refl)
      (λ j n. sym (at_among_other j r before after n))
