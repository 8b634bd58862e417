-- ===== src/Hidpp10/ReceiverMonitor/Retries.antt =====
-- How long src/logid/backend/hidpp10/ReceiverMonitor.cpp tries to add a device, and which slots of
-- the receiver it adds.
use logiops.Prelude.{
  ℕ, suc, zero, ◌+◌, ◌*◌, ◌-◌, ◌^◌, ◌≤◌, ◌≡◌, ◌⊎◌, refl, sym, ap, ◌∙◌, subst, Bool-cases, inl, inr,
  false, ◌&&◌, none, some, List, [], ◌∷◌, ◌++◌, ◌==◌, leb, if◌then◌else◌, take, length, All, arith,
}
use logiops.Hidpp10.Receiver.{DeviceConnectionEvent}
use logiops.Hidpp10.Receiver.Registers.{PairingInfo}
use logiops.Hidpp10.ReceiverMonitor.Adding.{
  Task, Adder, Attempt, added, not_ready, failed, try_add, add_handler, fire, fire_all, contains,
  Slot, paired, unpaired, slot_event, enumerate_slots,
}

-- The tries that are left to the scheduled tasks.
abbrev pub left : List Task → ℕ
left [] = 0
left (t ∷ ts) = 6 - t.tries + left ts

-- A scheduled task is a retry, and no more than the last one.
abbrev pub IsRetry : Task → Type 0
IsRetry t = (1 ≤ t.tries) × (t.tries ≤ 5)

abbrev pub Retrying : Adder → Type 0
Retrying s = All IsRetry s.scheduled

left-append : (ts us : List Task) → left (ts ++ us) ≡ left ts + left us
left-append [] us = omega arith
left-append (t ∷ ts) us = omega (arith, left-append ts us)

All-append : (ts us : List Task) → All IsRetry ts → All IsRetry us → All IsRetry (ts ++ us)
All-append [] us h k = k
All-append (t ∷ ts) us h k = (h.0, All-append ts us h.1 k)

try_add-left :
    (a : Attempt) (event : DeviceConnectionEvent) (tries : ℕ) (s : Adder)
    → tries ≤ 5
    → Retrying s
    → Retrying (try_add a event tries s)
      × (left (try_add a event tries s).scheduled + 1 ≤ left s.scheduled + (6 - tries))
unfolding try_add
try_add-left added event tries s h r = (r, omega arith)
try_add-left failed event tries s h r = (r, omega arith)
try_add-left not_ready event tries s h r = elim (Bool-cases (tries == 5)) [
  | inl e ↦ elim (Bool-cases event.from_timeout_check) [
    | inl f ↦ rw (e, f) (r, omega arith)
    | inr f ↦ rw (e, f) (r, omega arith)
  ]
  | inr e ↦ rw e (
    All-append s.scheduled _ r ((omega arith, ground arith), tt),
    omega (
      arith,
      left-append s.scheduled
          (record { event = event; tries = tries + 1; wait = 2 ^ tries * 250 } ∷ []),
    ),
  )
]

add_handler-left :
    (a : Attempt) (event : DeviceConnectionEvent) (tries : ℕ) (s : Adder)
    → tries ≤ 5
    → Retrying s
    → Retrying (add_handler a event tries s)
      × (left (add_handler a event tries s).scheduled ≤ left s.scheduled + (5 - tries))
unfolding add_handler
add_handler-left a event tries s h r =
    elim (Bool-cases (event.from_timeout_check && (tries == 0))) [
      | inr e ↦ let w = try_add-left a event tries s h r in rw e (w.0, omega (arith, w))
      | inl e ↦ elim (Bool-cases (contains event.index s.pending_adds)) [
        | inl f ↦ rw (e, f) (r, omega arith)
        | inr f ↦
            let s' = record s { pending_adds = event.index ∷ s.pending_adds } in
            let w = try_add-left a event tries s' h r in rw (e, f) (w.0, omega (arith, w))
      ]
    ]

fire_runs :
    (a : Attempt) (s : Adder) (t : Task) (ts : List Task)
    → s.scheduled ≡ t ∷ ts
    → fire a s ≡ some (add_handler a t.event t.tries (record s { scheduled = ts }))
unfolding fire
fire_runs a s t ts e = rw (e, fire) refl

fire-none : (a : Attempt) (s : Adder) → s.scheduled ≡ [] → fire a s ≡ none
unfolding fire
fire-none a s e = rw (e, fire) refl

tasks-cases : (ts : List Task) → (ts ≡ []) ⊎ ((t : Task) × (us : List Task) × (ts ≡ t ∷ us))
tasks-cases [] = inl refl
tasks-cases (t ∷ ts) = inr (t, ts, refl)

fire_all_stop : (attempts : List Attempt) (s : Adder) → s.scheduled ≡ [] → fire_all attempts s ≡ s
unfolding fire_all
fire_all_stop [] s e = refl
fire_all_stop (a ∷ rest) s e = rw (fire-none a s e, fire_all) refl

fire_all_next :
    (a : Attempt) (rest : List Attempt) (s s' : Adder)
    → fire a s ≡ some s'
    → fire_all (a ∷ rest) s ≡ fire_all rest s'
unfolding fire_all
fire_all_next a rest s s' e = rw (e, fire_all) refl

fire_all-ends :
    (attempts : List Attempt) (s : Adder)
    → Retrying s
    → left s.scheduled ≤ length attempts
    → (fire_all attempts s).scheduled ≡ []
fire_all-ends [] s r h = elim (tasks-cases s.scheduled) [
  | inl e ↦ ap (λ (u : Adder). u.scheduled) (fire_all_stop [] s e) ∙ e
  | inr (t, ts, e) ↦
      let w = subst (All IsRetry) e r in absurd (omega (arith, w.0, subst (λ l. left l ≤ 0) e h))
]
fire_all-ends (a ∷ rest) s r h = elim (tasks-cases s.scheduled) [
  | inl e ↦ ap (λ (u : Adder). u.scheduled) (fire_all_stop (a ∷ rest) s e) ∙ e
  | inr (t, ts, e) ↦
      let w = subst (All IsRetry) e r in
      let next =
        add_handler-left a t.event t.tries (record s { scheduled = ts }) (omega (arith, w.0)) w.1 in
      ap (λ (u : Adder). u.scheduled) (fire_all_next a rest s _ (fire_runs a s t ts e))
      ∙ fire_all-ends rest (add_handler a t.event t.tries (record s { scheduled = ts })) next.0
          (omega (arith, next.1, w.0, subst (λ l. left l ≤ suc (length rest)) e h))
]

-- Adding a device, whatever the attempts come to, leads to at most five more attempts: after these and
-- the retries that were left before, nothing is scheduled.
pub add_handler-ends :
    (a : Attempt) (event : DeviceConnectionEvent) (attempts : List Attempt) (s : Adder)
    → Retrying s
    → left s.scheduled + 5 ≤ length attempts
    → (fire_all attempts (add_handler a event 0 s)).scheduled ≡ []
add_handler-ends a event attempts s r h =
    let w = add_handler-left a event 0 s (omega arith) r in
    fire_all-ends attempts (add_handler a event 0 s) w.0 (omega (arith, w.1))

-- The events of all paired slots, in order.
abbrev pub paired_slots : (ℕ → Slot) → ℕ → ℕ → List DeviceConnectionEvent
paired_slots slots zero i = []
paired_slots slots (suc n) i =
    let rest = paired_slots slots n (suc i) in
    elim (slots i) [ unpaired ↦ rest | paired info ↦ slot_event i info ∷ rest ]

slot-cases : (s : Slot) → (s ≡ unpaired) ⊎ ((info : PairingInfo) × (s ≡ paired info))
slot-cases unpaired = inl refl
slot-cases (paired info) = inr (info, refl)

enumerate_all :
    (slots : ℕ → Slot) (found n i : ℕ) → enumerate_slots slots 0 found n i ≡ paired_slots slots n i
unfolding enumerate_slots
enumerate_all slots found zero i = refl
enumerate_all slots found (suc n) i = elim (slot-cases (slots i)) [
  | inl e ↦ rw (e, enumerate_slots, paired_slots) (enumerate_all slots found n (suc i))
  | inr (info, e) ↦
      rw (e, enumerate_slots, paired_slots)
        (ap (λ t. slot_event i info ∷ t) (enumerate_all slots (suc found) n (suc i)))
]

suc_nonzero : (n : ℕ) → (suc n == 0) ≡ false
suc_nonzero n = ground arith

take_nil : (n : ℕ) → take {A = DeviceConnectionEvent} n [] ≡ []
take_nil zero = refl
take_nil (suc n) = refl

enumerate_some :
    (slots : ℕ → Slot) (count found n i : ℕ)
    → found ≤ suc count
    → enumerate_slots slots (suc count) found n i
      ≡ take (suc count - found) (paired_slots slots n i)
unfolding enumerate_slots
enumerate_some slots count found zero i h = sym (take_nil (suc count - found))
enumerate_some slots count found (suc n) i h = elim (Bool-cases (leb (suc count) found)) [
  | inl f ↦
      rw (suc_nonzero count, f, enumerate_slots)
        (ap (λ k. take k (paired_slots slots (suc n) i)) {x = 0} {y = suc count - found}
          (ground arith))
  | inr f ↦ elim (slot-cases (slots i)) [
    | inl e ↦
        rw (suc_nonzero count, f, e, enumerate_slots, paired_slots)
          (enumerate_some slots count found n (suc i) h)
    | inr (info, e) ↦
        rw (suc_nonzero count, f, e, enumerate_slots, paired_slots)
          (ap (λ t. slot_event i info ∷ t)
              (enumerate_some slots count (suc found) n (suc i) (ground arith))
            ∙ ap (λ k. take k (slot_event i info ∷ paired_slots slots n (suc i)))
                {x = suc (suc count - suc found)} {y = suc count - found} (ground arith))
  ]
]

-- The devices of the six slots that are added: every paired one if the number of devices is unknown,
-- and else the first ones, up to that number, in the order of their slots.
pub enumerate_slots_lem :
    (slots : ℕ → Slot) (count : ℕ)
    → enumerate_slots slots count 0 6 1
      ≡ (if count == 0 then paired_slots slots 6 1 else take count (paired_slots slots 6 1))
enumerate_slots_lem slots zero = enumerate_all slots 0 6 1
enumerate_slots_lem slots (suc count) =
    enumerate_some slots count 0 6 1 (omega arith)
    ∙ ap (λ k. take k (paired_slots slots 6 1)) {x = suc count - 0} {y = suc count} (omega arith)
    ∙ rw (suc_nonzero count) refl
