-- ===== src/Features/SmartShift/Configured.antt =====
-- What the device has after it is configured.
use logiops.Prelude.{
  ℕ, ◌≡◌, ◌≢◌, Bool, true, false, not, Option, none, some, List, [], ◌∷◌, ◌==◌, if◌then◌else◌,
  arith, refl, ap, ap₂, ◌∙◌,
}
use logiops.Prelude.Exn.{ok}
use logiops.Prelude.Bytes.{byte_at}
use logiops.Features.SmartShift.{
  Config, clip, clip_threshold, clip_torque, clip_if, configured, status_params, read_status,
  active_byte, byte_or_zero, value_or,
}

-- A device: the status bytes after a call of `setStatus`, for its parameters and the bytes before.
abbrev pub Firmware : Type 0
Firmware = List ℕ → List ℕ → List ℕ

-- A parameter of 0 leaves the byte, any other replaces it.
abbrev pub replaced : ℕ → ℕ → ℕ
replaced new old = if new == 0 then old else new

pub record Documented (set : Firmware) : Type 0 where
  pub sets :
      (a b c x y z : ℕ)
      → set (a ∷ b ∷ c ∷ []) (x ∷ y ∷ z ∷ []) ≡ replaced a x ∷ replaced b y ∷ replaced c z ∷ []

abbrev pub bool_or : Option Bool → Bool → Bool
bool_or none b = b
bool_or (some a) b = a

clipped-replaced :
    (clip_one : ℕ → ℕ) (o : Option ℕ) (old : ℕ)
    → ((x : ℕ) → clip_one x ≢ 0)
    → replaced (byte_or_zero (clip_if clip_one o)) old ≡ value_or (clip_if clip_one o) old
clipped-replaced clip_one none old h = refl
clipped-replaced clip_one (some x) old h = ground (arith, h x)

pub clip_threshold-ne-zero : (x : ℕ) → clip_threshold x ≢ 0
unfolding clip_threshold
clip_threshold-ne-zero x e = ground arith

pub clip_torque-ne-zero : (x : ℕ) → clip_torque x ≢ 0
unfolding clip_torque
clip_torque-ne-zero x e = ground arith

active-replaced :
    (o : Option Bool) (old : ℕ)
    → not (replaced (active_byte o) old == 1) ≡ bool_or o (not (old == 1))
active-replaced none old = refl
active-replaced (some true) old = refl
active-replaced (some false) old = refl

-- After a configuration that the constructor clipped is sent, the device has each value that the
-- configuration gives, and keeps those that it does not give, for a device that leaves what a
-- parameter of 0 stands for.
pub clip-read_status :
    (set : Firmware) (c : Config) (mode threshold torque : ℕ)
    → Documented set
    → read_status (set (status_params (configured (clip c))) (mode ∷ threshold ∷ torque ∷ []))
      ≡ ok (record {
        active = bool_or c.on (not (mode == 1));
        auto_disengage = value_or (clip c).threshold threshold;
        torque = value_or (clip c).torque torque;
      })
unfolding status_params configured clip read_status byte_at
clip-read_status set c mode threshold torque d =
    let a = active_byte c.on in
    let b = byte_or_zero (clip_if clip_threshold c.threshold) in
    let t = byte_or_zero (clip_if clip_torque c.torque) in
    ap read_status (d.sets a b t mode threshold torque)
    ∙ ap₂ (λ x y. ok (record { active = x; auto_disengage = y; torque = replaced t torque }))
        (active-replaced c.on mode)
        (clipped-replaced clip_threshold c.threshold threshold clip_threshold-ne-zero)
    ∙ ap
        (λ x. ok (record {
          active = bool_or c.on (not (mode == 1));
          auto_disengage = value_or (clip_if clip_threshold c.threshold) threshold;
          torque = x;
        }))
        (clipped-replaced clip_torque c.torque torque clip_torque-ne-zero)
