-- ===== src/Features/SmartShift/Values.antt =====
-- The values that are configured and that the device has, and what requests on the bus do to them.
use logiops.Prelude.{
  ℕ, ◌+◌, ◌≡◌, ◌≢◌, Bool, true, false, Option, none, some, List, [], ◌∷◌, from_bool, arith,
  if◌then◌else◌,
}
use logiops.Prelude.Exn.{Result, ok, err}
use logiops.Features.SmartShift.{
  Config, NewStatus, Served, or_no_config, active_byte, byte_or_zero, set_active, set_threshold,
  set_torque,
}
use logiops.Features.SmartShift.Configured.{replaced}

-- The three status bytes of the device.
pub record Bytes : Type 0 where
  pub mode : ℕ
  pub threshold : ℕ
  pub torque : ℕ

-- The device after a status was set, if one was.
unfoldable pub after_status : Option NewStatus → Bytes → Bytes
after_status none b = b
after_status (some s) b = record {
  mode = replaced (active_byte s.active) b.mode;
  threshold = replaced (byte_or_zero s.auto_disengage) b.threshold;
  torque = replaced (byte_or_zero s.torque) b.torque;
}

pub record State : Type 0 where
  pub config : Option Config
  pub bytes : Bytes

-- A value that is configured is the one that the device has.
abbrev pub Has : Option ℕ → ℕ → Type 0
Has none b = Unit {0}
Has (some x) b = x ≡ b

abbrev pub HasMode : Option Bool → ℕ → Type 0
HasMode none b = Unit {0}
HasMode (some active) b = from_bool active + 1 ≡ b

pub data Value : Type 0 where
  active_value threshold_value torque_value : Value

abbrev pub HasValue : Value → State → Type 0
HasValue active_value s = HasMode (or_no_config s.config).on s.bytes.mode
HasValue threshold_value s = Has (or_no_config s.config).threshold s.bytes.threshold
HasValue torque_value s = Has (or_no_config s.config).torque s.bytes.torque

-- How the calls to the device end: they return, or one throws, and the device has or has not taken
-- what was to be set.
pub data Sent : Type 0 where
  returned : Sent
  threw : Bool → Sent

-- What is asked for: a value, or that it is cleared.
pub data Request : Type 0 where
  active_to : Bool → Bool → Sent → Request
  threshold_to : ℕ → Bool → Sent → Request
  torque_to : ℕ → Bool → Sent → Request

-- The defaults of the device, and whether it has a torque.
pub record Limits : Type 0 where
  pub threshold : ℕ
  pub torque : ℕ
  pub has_torque : Bool

-- The device after a status was to be set, if one was.
abbrev pub landed : Sent → Option NewStatus → Bytes → Bytes
landed sent none b = b
landed returned (some status) b = after_status (some status) b
landed (threw true) (some status) b = after_status (some status) b
landed (threw false) (some status) b = b

abbrev pub apply : Served → Sent → Bytes → State
apply (config, status) sent b = record { config = config; bytes = landed sent status b }

abbrev pub apply_if : Result Served → Sent → State → State
apply_if (ok served) sent s = apply served sent s.bytes
apply_if (err exn) sent s = s

-- The configuration is changed before the device is called, and stays so if the call throws.
unfoldable pub serve : Limits → Request → State → State
unfolding set_active set_threshold set_torque after_status
serve l (active_to active clear sent) s = apply (set_active active clear s.config) sent s.bytes
serve l (threshold_to threshold clear sent) s =
    apply (set_threshold l.threshold threshold clear s.config) sent s.bytes
serve l (torque_to torque clear sent) s =
    apply_if (set_torque l.has_torque l.torque torque clear s.config) sent s

-- A value is unsure after it was to be set and a call threw; one that is cleared is not configured.
abbrev pub not_sent : Bool → Sent → Bool
not_sent true sent = false
not_sent false returned = false
not_sent false (threw taken) = true

-- The values that are unsure after a request, from those before.
abbrev pub unsure_after : Limits → Request → (Value → Bool) → Value → Bool
unsure_after l (active_to active clear sent) u active_value = not_sent clear sent
unsure_after l (threshold_to threshold clear sent) u threshold_value = not_sent clear sent
unsure_after l (torque_to torque clear sent) u torque_value =
    (if l.has_torque then not_sent clear sent else u torque_value)
unsure_after l r u v = u v

abbrev pub unsure_all : Limits → List Request → (Value → Bool) → Value → Bool
unsure_all l [] u = u
unsure_all l (r ∷ rest) u = unsure_all l rest (unsure_after l r u)

-- Each value that is configured and not unsure is what the device has.
pub record Matches (u : Value → Bool) (s : State) : Type 0 where
  pub has : (v : Value) → u v ≡ false → HasValue v s

pub replaced_nonzero : (x old : ℕ) → x ≢ 0 → x ≡ replaced x old
replaced_nonzero x old h = ground arith

-- A status leaves the values that it does not give.
pub mode_kept :
    (sent : Sent) (status : NewStatus) (o : Option Bool) (b : Bytes)
    → status.active ≡ none
    → HasMode o b.mode
    → HasMode o (landed sent (some status) b).mode
unfolding after_status
mode_kept returned status o b e h = rw e h
mode_kept (threw true) status o b e h = rw e h
mode_kept (threw false) status o b e h = h

pub threshold_kept :
    (sent : Sent) (status : NewStatus) (o : Option ℕ) (b : Bytes)
    → status.auto_disengage ≡ none
    → Has o b.threshold
    → Has o (landed sent (some status) b).threshold
unfolding after_status
threshold_kept returned status o b e h = rw e h
threshold_kept (threw true) status o b e h = rw e h
threshold_kept (threw false) status o b e h = h

pub torque_kept :
    (sent : Sent) (status : NewStatus) (o : Option ℕ) (b : Bytes)
    → status.torque ≡ none
    → Has o b.torque
    → Has o (landed sent (some status) b).torque
unfolding after_status
torque_kept returned status o b e h = rw e h
torque_kept (threw true) status o b e h = rw e h
torque_kept (threw false) status o b e h = h
