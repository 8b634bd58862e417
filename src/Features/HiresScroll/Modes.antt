-- ===== src/Features/HiresScroll/Modes.antt =====
-- The mode that is written agrees with the configuration, whatever was set before.
use logiops.Prelude.{
  ℕ, zero, suc, ◌≤◌, ◌<◌, ◌≡◌, Bool, true, false, Option, none, some, List, [], ◌∷◌, bit_or,
  from_bool, arith, refl, ◌∙◌,
}
use logiops.Prelude.Bits.{bit}
use logiops.Features.HiresScroll.{
  Config, unset, only_hires, settings, Wheel, make_config, written_mode, parent_config, set_bit,
  set_hires, set_invert, set_target, target_bit, hires_bit, inverted_bit,
}
use logiops.Features.HiresScroll.Bits.{bit_above, bit-written_mode, set_bit_other, set_bit_self}

-- A setting and its bit in the mask and the mode.
abbrev InSync : ℕ → Option Bool → Wheel → Type 0
InSync k none w = bit k w.mask ≡ 0
InSync k (some b) w = (bit k w.mask ≡ 1) × (bit k w.mode ≡ from_bool b)

record IsValid (w : Wheel) : Type 0 where
  pub hires : InSync 1 (parent_config w.config).hires w
  pub invert : InSync 2 (parent_config w.config).invert w
  pub target : InSync 0 (parent_config w.config).target w
  pub small : w.mask < 8

small_or : (m : ℕ) → m < 8 → (bit_or m 1 < 8) × (bit_or m 2 < 8) × (bit_or m 4 < 8)
small_or zero h = omega arith
small_or (suc zero) h = omega arith
small_or (suc (suc zero)) h = omega arith
small_or (suc (suc (suc zero))) h = omega arith
small_or (suc (suc (suc (suc zero)))) h = omega arith
small_or (suc (suc (suc (suc (suc zero))))) h = omega arith
small_or (suc (suc (suc (suc (suc (suc zero)))))) h = omega arith
small_or (suc (suc (suc (suc (suc (suc (suc zero))))))) h = omega arith
small_or (suc (suc (suc (suc (suc (suc (suc (suc m)))))))) h = absurd (omega arith)

-- What is not set keeps its bit.
other-InSync :
    (k bits : ℕ) (o : Option Bool) (b : Bool) (w w0 : Wheel)
    → (bit k (set_bit bits b w).mask ≡ bit k w.mask)
      × (bit k (set_bit bits b w).mode ≡ bit k w.mode)
    → bit k w.mask ≡ bit k w0.mask
    → bit k w.mode ≡ bit k w0.mode
    → InSync k o w0
    → InSync k o (set_bit bits b w)
other-InSync k bits none b w w0 e m n h = e.0 ∙ m ∙ h
other-InSync k bits (some c) b w w0 e m n h = (e.0 ∙ m ∙ h.0, e.1 ∙ n ∙ h.1)

set_hires-IsValid : (b : Bool) (w : Wheel) → IsValid w → IsValid (set_hires b w)
unfolding set_hires parent_config bit
set_hires-IsValid true w v =
    let s = parent_config w.config in
    let w0 : Wheel = record w { config = settings (record s { hires = some true }) } in
    record {
      hires = set_bit_self 1 hires_bit true w0 refl refl;
      invert =
          other-InSync 2 hires_bit s.invert true w0 w (set_bit_other 2 hires_bit true w0 refl refl)
            refl refl v.invert;
      target =
          other-InSync 0 hires_bit s.target true w0 w (set_bit_other 0 hires_bit true w0 refl refl)
            refl refl v.target;
      small = (small_or w.mask v.small).1;
    }
set_hires-IsValid false w v =
    let s = parent_config w.config in
    let w0 : Wheel = record w { config = settings (record s { hires = some false }) } in
    record {
      hires = set_bit_self 1 hires_bit false w0 refl refl;
      invert =
          other-InSync 2 hires_bit s.invert false w0 w
            (set_bit_other 2 hires_bit false w0 refl refl) refl refl v.invert;
      target =
          other-InSync 0 hires_bit s.target false w0 w
            (set_bit_other 0 hires_bit false w0 refl refl) refl refl v.target;
      small = (small_or w.mask v.small).1;
    }

set_invert-IsValid : (b : Bool) (w : Wheel) → IsValid w → IsValid (set_invert b w)
unfolding set_invert parent_config bit
set_invert-IsValid true w v =
    let s = parent_config w.config in
    let w0 : Wheel = record w { config = settings (record s { invert = some true }) } in
    record {
      hires =
          other-InSync 1 inverted_bit s.hires true w0 w
            (set_bit_other 1 inverted_bit true w0 refl refl) refl refl v.hires;
      invert = set_bit_self 2 inverted_bit true w0 refl refl;
      target =
          other-InSync 0 inverted_bit s.target true w0 w
            (set_bit_other 0 inverted_bit true w0 refl refl) refl refl v.target;
      small = (small_or w.mask v.small).2;
    }
set_invert-IsValid false w v =
    let s = parent_config w.config in
    let w0 : Wheel = record w { config = settings (record s { invert = some false }) } in
    record {
      hires =
          other-InSync 1 inverted_bit s.hires false w0 w
            (set_bit_other 1 inverted_bit false w0 refl refl) refl refl v.hires;
      invert = set_bit_self 2 inverted_bit false w0 refl refl;
      target =
          other-InSync 0 inverted_bit s.target false w0 w
            (set_bit_other 0 inverted_bit false w0 refl refl) refl refl v.target;
      small = (small_or w.mask v.small).2;
    }

set_target-IsValid : (b : Bool) (w : Wheel) → IsValid w → IsValid (set_target b w)
unfolding set_target parent_config bit
set_target-IsValid true w v =
    let s = parent_config w.config in
    let w0 : Wheel = record w { config = settings (record s { target = some true }) } in
    record {
      hires =
          other-InSync 1 target_bit s.hires true w0 w (set_bit_other 1 target_bit true w0 refl refl)
            refl refl v.hires;
      invert =
          other-InSync 2 target_bit s.invert true w0 w
            (set_bit_other 2 target_bit true w0 refl refl) refl refl v.invert;
      target = set_bit_self 0 target_bit true w0 refl refl;
      small = (small_or w.mask v.small).0;
    }
set_target-IsValid false w v =
    let s = parent_config w.config in
    let w0 : Wheel = record w { config = settings (record s { target = some false }) } in
    record {
      hires =
          other-InSync 1 target_bit s.hires false w0 w
            (set_bit_other 1 target_bit false w0 refl refl) refl refl v.hires;
      invert =
          other-InSync 2 target_bit s.invert false w0 w
            (set_bit_other 2 target_bit false w0 refl refl) refl refl v.invert;
      target = set_bit_self 0 target_bit false w0 refl refl;
      small = (small_or w.mask v.small).0;
    }

settings-IsValid :
    (h i t : Option Bool)
    → IsValid (make_config (settings (record { hires = h; invert = i; target = t })))
unfolding make_config parent_config bit
settings-IsValid none none none = record {
  hires = refl;
  invert = refl;
  target = refl;
  small = omega arith;
}
settings-IsValid (some true) (some true) (some true) = record {
  hires = (refl, refl);
  invert = (refl, refl);
  target = (refl, refl);
  small = omega arith;
}
settings-IsValid h i t = record {
  hires = ground arith;
  invert = ground arith;
  target = ground arith;
  small = ground arith;
}

make_config-IsValid : (c : Config) → IsValid (make_config c)
unfolding make_config parent_config bit
make_config-IsValid unset = record {
  hires = refl;
  invert = refl;
  target = refl;
  small = omega arith;
}
make_config-IsValid (only_hires true) = record {
  hires = (refl, refl);
  invert = (refl, refl);
  target = (refl, refl);
  small = omega arith;
}
make_config-IsValid (only_hires false) = record {
  hires = (refl, refl);
  invert = (refl, refl);
  target = (refl, refl);
  small = omega arith;
}
make_config-IsValid (settings s) = settings-IsValid s.hires s.invert s.target

-- What is asked for on the bus.
pub data Request : Type 0 where
  hires_to invert_to target_to : Bool → Request

unfoldable pub serve_all : List Request → Wheel → Wheel
unfolding set_hires set_invert set_target
serve_all [] w = w
serve_all (hires_to b ∷ rest) w = serve_all rest (set_hires b w)
serve_all (invert_to b ∷ rest) w = serve_all rest (set_invert b w)
serve_all (target_to b ∷ rest) w = serve_all rest (set_target b w)

serve_all-IsValid :
    (requests : List Request) (w : Wheel) → IsValid w → IsValid (serve_all requests w)
unfolding serve_all
serve_all-IsValid [] w v = v
serve_all-IsValid (hires_to b ∷ rest) w v =
    serve_all-IsValid rest (set_hires b w) (set_hires-IsValid b w v)
serve_all-IsValid (invert_to b ∷ rest) w v =
    serve_all-IsValid rest (set_invert b w) (set_invert-IsValid b w v)
serve_all-IsValid (target_to b ∷ rest) w v =
    serve_all-IsValid rest (set_target b w) (set_target-IsValid b w v)

-- A bit after a write: the setting, or what was there.
abbrev pub Follows : Option Bool → ℕ → ℕ → Type 0
Follows none before after = after ≡ before
Follows (some b) before after = after ≡ from_bool b

follows :
    (k mode : ℕ) (o : Option Bool) (w : Wheel)
    → k < 8
    → w.mask < 8
    → InSync k o w
    → Follows o (bit k mode) (bit k (written_mode mode w))
follows k mode none w h l sync = (bit-written_mode k mode w h l).0 sync
follows k mode (some b) w h l sync = (bit-written_mode k mode w h l).1 sync.0 ∙ sync.1

-- For any configuration and after any requests, the byte that is written has the bits of resolution,
-- direction and target as the configuration says, and as they are on the device where it says
-- nothing; its other bits stay as they are on the device.
pub written_mode-Follows :
    (c : Config) (requests : List Request) (mode k : ℕ)
    → 3 ≤ k
    → k < 8
    → Follows
        (parent_config (serve_all requests (make_config c)).config).hires
        (bit 1 mode)
        (bit 1 (written_mode mode (serve_all requests (make_config c))))
      × Follows
          (parent_config (serve_all requests (make_config c)).config).invert
          (bit 2 mode)
          (bit 2 (written_mode mode (serve_all requests (make_config c))))
      × Follows
          (parent_config (serve_all requests (make_config c)).config).target
          (bit 0 mode)
          (bit 0 (written_mode mode (serve_all requests (make_config c))))
      × (bit k (written_mode mode (serve_all requests (make_config c))) ≡ bit k mode)
written_mode-Follows c requests mode k l h =
    let w = serve_all requests (make_config c) in
    let s = parent_config w.config in
    let v = serve_all-IsValid requests (make_config c) (make_config-IsValid c) in
    (
      follows 1 mode s.hires w (omega arith) v.small v.hires,
      follows 2 mode s.invert w (omega arith) v.small v.invert,
      follows 0 mode s.target w (omega arith) v.small v.target,
      (bit-written_mode k mode w h v.small).0 (bit_above k w.mask l v.small),
    )
