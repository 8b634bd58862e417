-- ===== src/Features/SmartShift/Tests.antt =====
-- A wheel with the status bytes 2, 16 and 50.
use logiops.Prelude.{Bool, ◌≡◌, true, false, none, some, List, [], ◌∷◌, refl}
use logiops.Prelude.Exn.{ok}
use logiops.Features.SmartShift.{Config, clip, configured, status_params, read_status, value_or}
use logiops.Features.SmartShift.Configured.{
  Firmware, Documented, replaced, bool_or, clip-read_status,
}
use logiops.Features.SmartShift.Values.{
  State, Limits, Request, active_to, threshold_to, torque_to, returned, threw, Value, active_value,
  threshold_value, torque_value, HasValue, unsure_all, Matches,
}
use logiops.Features.SmartShift.Serving.{serve_all, serve_all-Matches}

abbrev wheel_set : Firmware
wheel_set (a ∷ b ∷ c ∷ _) (x ∷ y ∷ z ∷ _) = replaced a x ∷ replaced b y ∷ replaced c z ∷ []
wheel_set _ old = old

wheel_set-Documented : Documented wheel_set
wheel_set-Documented = record { sets = λ a b c x y z. refl }

abbrev too_high : Config
too_high = record { on = some false; threshold = none; torque = some 200 }

clip-read_status_example :
    read_status (wheel_set (status_params (configured (clip too_high))) (2 ∷ 16 ∷ 50 ∷ []))
    ≡ ok (record {
      active = bool_or (some false) true;
      auto_disengage = value_or (clip too_high).threshold 16;
      torque = value_or (clip too_high).torque 50;
    })
clip-read_status_example = clip-read_status wheel_set too_high 2 16 50 wheel_set-Documented

abbrev limits : Limits
limits = record { threshold = 16; torque = 50; has_torque = true }

-- The threshold 0 and the torque 200 are clipped, and the call that sets the mode throws.
abbrev requests : List Request
requests =
    threshold_to 0 false returned
    ∷ active_to false false (threw false)
    ∷ torque_to 200 false returned
    ∷ threshold_to 0 true returned
    ∷ []

abbrev fresh : State
fresh = record { config = none; bytes = record { mode = 2; threshold = 16; torque = 50 } }

abbrev sure : Value → Bool
sure v = false

fresh-Matches : Matches sure fresh
fresh-Matches = record { has = λ v h. nothing v }
  where
    nothing : (v : Value) → HasValue v fresh
    nothing active_value = tt
    nothing threshold_value = tt
    nothing torque_value = tt

torque_clipped : (serve_all limits requests fresh).bytes.torque ≡ 100
unfolding serve_all
torque_clipped = refl

serve_all-Matches_example :
    Matches (unsure_all limits requests sure) (serve_all limits requests fresh)
serve_all-Matches_example = serve_all-Matches limits requests fresh sure fresh-Matches
