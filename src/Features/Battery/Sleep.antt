-- ===== src/Features/Battery/Sleep.antt =====
-- When src/logid/features/BatteryStatus.cpp withdraws the battery of a device that sleeps. The
-- generation is an atomic number of 64 bits; a timer runs fifteen seconds after it was made, at any
-- time in an order of steps.
use logiops.Prelude.{
  ℕ, suc, ◌+◌, ◌%◌, ◌^◌, ◌<◌, ◌≡◌, ◌≢◌, refl, ap, ◌∙◌, Bool, true, false, Option, none, some, List,
  [], ◌∷◌, Option-cases, inl, inr, ℕ_discrete, ◌==◌, if◌then◌else◌, arith,
}
use logiops.Features.Battery.{Status, capacity, charging}

-- The battery of uhid, by the capacity and the charging that it shows, and the generation.
pub record Published : Type 0 where
  pub battery : Option (ℕ × Bool)
  pub generation : ℕ

-- `_publish`, where uhid works; it makes the battery or updates it.
unfoldable pub publish : Status → Published → Published
publish status s = elim (capacity status) [
  | none ↦ s
  | some c ↦ record s { battery = some (c, charging status.state) }
]

-- `++_sleep_generation`.
unfoldable pub next : ℕ → ℕ
next g = (g + 1) % 2 ^ 64

-- `onSleep`: the generation of the timer, and the state.
unfoldable pub on_sleep : Published → ℕ × Published
unfolding next
on_sleep s = (next s.generation, record s { generation = next s.generation })

unfoldable pub on_wakeup : Published → Published
unfolding next
on_wakeup s = record s { generation = next s.generation }

-- The timer of a generation.
unfoldable pub on_timer : ℕ → Published → Published
on_timer generation s = if s.generation == generation then record s { battery = none } else s

-- What may happen before the timer runs.
pub data Event : Type 0 where
  sleeps wakes : Event
  publishes : Status → Event

unfoldable pub step : Event → Published → Published
unfolding on_sleep on_wakeup publish
step sleeps s = (on_sleep s).1
step wakes s = on_wakeup s
step (publishes status) s = publish status s

unfoldable pub run : List Event → Published → Published
unfolding step
run [] s = s
run (e ∷ es) s = run es (step e s)

-- The number of sleeps and wakeups.
abbrev pub changes : List Event → ℕ
changes [] = 0
changes (sleeps ∷ es) = suc (changes es)
changes (wakes ∷ es) = suc (changes es)
changes (publishes status ∷ es) = changes es

publish-generation :
    (status : Status) (s : Published) → (publish status s).generation ≡ s.generation
unfolding publish
publish-generation status s = elim (Option-cases (capacity status)) [
  | inl e ↦ rw (e, publish) refl
  | inr (c, e) ↦ rw (e, publish) refl
]

next_sum : (g c : ℕ) → (next g + c) % 2 ^ 64 ≡ (g + suc c) % 2 ^ 64
unfolding next
next_sum g c = omega arith

next-lt : (g : ℕ) → next g < 2 ^ 64
unfolding next
next-lt g = omega arith

run-generation :
    (es : List Event) (s : Published)
    → s.generation < 2 ^ 64
    → (run es s).generation ≡ (s.generation + changes es) % 2 ^ 64
unfolding run step on_sleep on_wakeup
run-generation [] s h = omega arith
run-generation (sleeps ∷ es) s h =
    run-generation es (step sleeps s) (next-lt s.generation) ∙ next_sum s.generation (changes es)
run-generation (wakes ∷ es) s h =
    run-generation es (step wakes s) (next-lt s.generation) ∙ next_sum s.generation (changes es)
run-generation (publishes status ∷ es) s h =
    let e = publish-generation status s in
    run-generation es (publish status s) (omega (arith, e))
    ∙ ap (λ (g : ℕ). (g + changes es) % 2 ^ 64) e

timer_hit : (g : ℕ) (s : Published) → s.generation ≡ g → (on_timer g s).battery ≡ none
unfolding on_timer
timer_hit g s e = let f : (s.generation == g) ≡ true = ground arith in rw f refl

timer_miss : (g : ℕ) (s : Published) → s.generation ≢ g → on_timer g s ≡ s
unfolding on_timer
timer_miss g s n = let f : (s.generation == g) ≡ false = ground arith in rw f refl

-- Whatever is published in between, and with fewer than 2^64 sleeps and wakeups, the timer of a sleep
-- withdraws the battery if the device neither woke up nor slept since, and else leaves it as it is.
pub on_sleep-on_timer :
    (es : List Event) (s : Published)
    → s.generation < 2 ^ 64
    → changes es < 2 ^ 64
    → (on_timer (on_sleep s).0 (run es (on_sleep s).1)).battery
      ≡ (if changes es == 0 then none else (run es (on_sleep s).1).battery)
unfolding on_sleep
on_sleep-on_timer es s h k =
    let g : ℕ = next s.generation in
    let r = run-generation es (record s { generation = g }) (next-lt s.generation) in
    elim (ℕ_discrete (changes es) 0) [
      | yes e ↦ timer_hit g _ (r ∙ omega (arith, e, next-lt s.generation)) ∙ rw e refl
      | no n ↦
          let f : (changes es == 0) ≡ false = ground arith in
          ap (λ (t : Published). t.battery)
            (timer_miss g (run es (record s { generation = g }))
              (λ q. absurd (omega (arith, r, q, n, next-lt s.generation))))
          ∙ rw f refl
    ]
