-- ===== src/Features/SmartShift/Serving.antt =====
-- What the configuration says is what the device has, whatever is set on the bus.
use logiops.Prelude.{
  ℕ, ◌≡◌, Bool, true, false, Option, some, List, [], ◌∷◌, refl, Option-cases, Bool-cases, subst,
  inl, inr,
}
use logiops.Features.SmartShift.{
  Config, NewStatus, no_status, or_no_config, clip_threshold, clip_torque, set_active,
  set_threshold, set_torque,
}
use logiops.Features.SmartShift.Configured.{clip_threshold-ne-zero, clip_torque-ne-zero}
use logiops.Features.SmartShift.Values.{
  State, after_status, Has, HasMode, HasValue, Value, active_value, threshold_value, torque_value,
  Sent, returned, threw, Request, active_to, threshold_to, torque_to, Limits, apply, apply_if,
  serve, unsure_after, unsure_all, Matches, mode_kept, threshold_kept, torque_kept,
  replaced_nonzero,
}

-- A value of a configuration, if there is one, as a value of the state.
as_mode :
    {config : Option Config} {c : Config} (b : ℕ)
    → config ≡ some c
    → HasMode (or_no_config config).on b
    → HasMode c.on b
as_mode b e h = subst (λ (x : Option Config). HasMode (or_no_config x).on b) e h

as_threshold :
    {config : Option Config} {c : Config} (b : ℕ)
    → config ≡ some c
    → Has (or_no_config config).threshold b
    → Has c.threshold b
as_threshold b e h = subst (λ (x : Option Config). Has (or_no_config x).threshold b) e h

as_torque :
    {config : Option Config} {c : Config} (b : ℕ)
    → config ≡ some c
    → Has (or_no_config config).torque b
    → Has c.torque b
as_torque b e h = subst (λ (x : Option Config). Has (or_no_config x).torque b) e h

active-HasValue :
    (l : Limits) (active clear : Bool) (sent : Sent) (s : State) (u : Value → Bool) (v : Value)
    → Matches u s
    → unsure_after l (active_to active clear sent) u v ≡ false
    → HasValue v (apply (set_active active clear s.config) sent s.bytes)
unfolding set_active after_status
active-HasValue l active true sent s u active_value m h = elim (Option-cases s.config) [
  | inl c ↦ rw c tt
  | inr (c, e) ↦ rw e tt
]
active-HasValue l active true sent s u threshold_value m h = elim (Option-cases s.config) [
  | inl c ↦ rw c tt
  | inr (c, e) ↦ rw e (as_threshold s.bytes.threshold e (m.has threshold_value h))
]
active-HasValue l active true sent s u torque_value m h = elim (Option-cases s.config) [
  | inl c ↦ rw c tt
  | inr (c, e) ↦ rw e (as_torque s.bytes.torque e (m.has torque_value h))
]
active-HasValue l true false returned s u active_value m h = refl
active-HasValue l false false returned s u active_value m h = refl
active-HasValue l active false (threw taken) s u active_value m h = absurd (cc)
active-HasValue l active false sent s u threshold_value m h =
    threshold_kept sent (record no_status { active = some active })
      (or_no_config s.config).threshold s.bytes refl (m.has threshold_value h)
active-HasValue l active false sent s u torque_value m h =
    torque_kept sent (record no_status { active = some active }) (or_no_config s.config).torque
      s.bytes refl (m.has torque_value h)

threshold-HasValue :
    (l : Limits) (threshold : ℕ) (clear : Bool) (sent : Sent) (s : State) (u : Value → Bool)
    (v : Value)
    → Matches u s
    → unsure_after l (threshold_to threshold clear sent) u v ≡ false
    → HasValue v (apply (set_threshold l.threshold threshold clear s.config) sent s.bytes)
unfolding set_threshold after_status
threshold-HasValue l threshold true sent s u active_value m h =
    let status : NewStatus = record no_status { auto_disengage = some l.threshold } in
    elim (Option-cases s.config) [
      | inl c ↦ rw c tt
      | inr (c, e) ↦
          rw e (
            mode_kept sent status c.on s.bytes refl (as_mode s.bytes.mode e (m.has active_value h)))
    ]
threshold-HasValue l threshold true sent s u threshold_value m h = elim (Option-cases s.config) [
  | inl c ↦ rw c tt
  | inr (c, e) ↦ rw e tt
]
threshold-HasValue l threshold true sent s u torque_value m h =
    let status : NewStatus = record no_status { auto_disengage = some l.threshold } in
    elim (Option-cases s.config) [
      | inl c ↦ rw c tt
      | inr (c, e) ↦ rw e (
          torque_kept sent status c.torque s.bytes refl
            (as_torque s.bytes.torque e (m.has torque_value h)))
    ]
threshold-HasValue l threshold false returned s u threshold_value m h =
    replaced_nonzero (clip_threshold threshold) s.bytes.threshold (clip_threshold-ne-zero threshold)
threshold-HasValue l threshold false (threw taken) s u threshold_value m h = absurd (cc)
threshold-HasValue l threshold false sent s u active_value m h =
    mode_kept sent (record no_status { auto_disengage = some (clip_threshold threshold) })
      (or_no_config s.config).on s.bytes refl (m.has active_value h)
threshold-HasValue l threshold false sent s u torque_value m h =
    torque_kept sent (record no_status { auto_disengage = some (clip_threshold threshold) })
      (or_no_config s.config).torque s.bytes refl (m.has torque_value h)

-- A wheel with a torque.
torque-HasValue :
    (l : Limits) (torque : ℕ) (clear : Bool) (sent : Sent) (s : State) (u : Value → Bool)
    (v : Value)
    → l.has_torque ≡ true
    → Matches u s
    → unsure_after l (torque_to torque clear sent) u v ≡ false
    → HasValue v (apply_if (set_torque true l.torque torque clear s.config) sent s)
unfolding set_torque after_status
torque-HasValue l torque true sent s u active_value t m h =
    let status : NewStatus = record no_status { torque = some l.torque } in
    elim (Option-cases s.config) [
      | inl c ↦ rw c tt
      | inr (c, e) ↦
          rw e (
            mode_kept sent status c.on s.bytes refl (as_mode s.bytes.mode e (m.has active_value h)))
    ]
torque-HasValue l torque true sent s u threshold_value t m h =
    let status : NewStatus = record no_status { torque = some l.torque } in
    elim (Option-cases s.config) [
      | inl c ↦ rw c tt
      | inr (c, e) ↦ rw e (
          threshold_kept sent status c.threshold s.bytes refl
            (as_threshold s.bytes.threshold e (m.has threshold_value h)))
    ]
torque-HasValue l torque true sent s u torque_value t m h = elim (Option-cases s.config) [
  | inl c ↦ rw c tt
  | inr (c, e) ↦ rw e tt
]
torque-HasValue l torque false returned s u torque_value t m h =
    replaced_nonzero (clip_torque torque) s.bytes.torque (clip_torque-ne-zero torque)
torque-HasValue l torque false (threw taken) s u torque_value t m h = absurd (cc)
torque-HasValue l torque false sent s u active_value t m h =
    mode_kept sent (record no_status { torque = some (clip_torque torque) })
      (or_no_config s.config).on s.bytes refl (m.has active_value h)
torque-HasValue l torque false sent s u threshold_value t m h =
    threshold_kept sent (record no_status { torque = some (clip_torque torque) })
      (or_no_config s.config).threshold s.bytes refl (m.has threshold_value h)

-- Without a torque nothing is changed.
no_torque-HasValue :
    (l : Limits) (torque : ℕ) (clear : Bool) (sent : Sent) (s : State) (u : Value → Bool)
    (v : Value)
    → l.has_torque ≡ false
    → Matches u s
    → unsure_after l (torque_to torque clear sent) u v ≡ false
    → HasValue v s
no_torque-HasValue l torque clear sent s u active_value t m h = m.has active_value h
no_torque-HasValue l torque clear sent s u threshold_value t m h = m.has threshold_value h
no_torque-HasValue l torque clear sent s u torque_value t m h = m.has torque_value (rw t at h)

pub serve-Matches :
    (l : Limits) (r : Request) (s : State) (u : Value → Bool)
    → Matches u s
    → Matches (unsure_after l r u) (serve l r s)
unfolding serve
serve-Matches l (active_to active clear sent) s u m = record {
  has = λ v h. active-HasValue l active clear sent s u v m h;
}
serve-Matches l (threshold_to threshold clear sent) s u m = record {
  has = λ v h. threshold-HasValue l threshold clear sent s u v m h;
}
serve-Matches l (torque_to torque clear sent) s u m = record {
  has = λ v h. elim (Bool-cases l.has_torque) [
    | inl t ↦ rw t (torque-HasValue l torque clear sent s u v t m h)
    | inr t ↦ rw (t, set_torque) (no_torque-HasValue l torque clear sent s u v t m h)
  ];
}

unfoldable pub serve_all : Limits → List Request → State → State
unfolding serve
serve_all l [] s = s
serve_all l (r ∷ rest) s = serve_all l rest (serve l r s)

-- A device that leaves what a parameter of 0 stands for, and has each value that is configured and not
-- unsure, has each such value after any requests to set or to clear values too, of which calls to the
-- device may throw. Unsure is then each value that was unsure before or for whose last request a call
-- threw, until it is set or cleared again.
pub serve_all-Matches :
    (l : Limits) (requests : List Request) (s : State) (u : Value → Bool)
    → Matches u s
    → Matches (unsure_all l requests u) (serve_all l requests s)
unfolding serve_all
serve_all-Matches l [] s u m = m
serve_all-Matches l (r ∷ rest) s u m =
    serve_all-Matches l rest (serve l r s) (unsure_after l r u) (serve-Matches l r s u m)
