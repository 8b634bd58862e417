-- ===== src/Features/HiresScroll.antt =====
-- src/logid/features/HiresScroll.cpp: the mode of the wheel, as it is configured and as it is set on the
-- bus, and the gestures of scrolling. `getMode` and `setMode` of the device are a byte that is read
-- and the byte that is written.
pub mod Bits
pub mod Modes
pub mod Scrolling
pub mod Tests
use logiops.Prelude.{
  ℕ, zero, suc, ◌-◌, Bool, true, false, not, ◌&&◌, Option, none, some, List, [], ◌∷◌, ◌++◌, ◌==◌,
  leb, bit_and, bit_or, if◌then◌else◌,
}
use logiops.Prelude.Int.{ℤ, pos, negsuc, neg, int16}

-- `HiresScroll::Mode`.
abbrev pub target_bit : ℕ
target_bit = 1

abbrev pub hires_bit : ℕ
hires_bit = 2

abbrev pub inverted_bit : ℕ
inverted_bit = 4

-- `config::HiresScroll`, without the gestures.
pub record Settings : Type 0 where
  pub hires : Option Bool
  pub invert : Option Bool
  pub target : Option Bool

abbrev pub no_settings : Settings
no_settings = record { hires = none; invert = none; target = none }

-- `std::optional<std::variant<bool, HiresScroll>>`.
pub data Config : Type 0 where
  unset : Config
  only_hires : Bool → Config
  settings : Settings → Config

pub record Wheel : Type 0 where
  pub config : Config
  pub mode : ℕ
  pub mask : ℕ

-- `~bit` of a byte.
abbrev pub complement : ℕ → ℕ
complement bits = 255 - bits

-- `_mask |= bit; if (value) _mode |= bit;`, if there is a value.
abbrev pub configure_bit : ℕ → Option Bool → Wheel → Wheel
configure_bit bit none w = w
configure_bit bit (some false) w = record w { mask = bit_or w.mask bit }
configure_bit bit (some true) w = record w { mask = bit_or w.mask bit; mode = bit_or w.mode bit }

-- The settings that a config is turned into.
abbrev pub settings_of : Bool → Settings
settings_of hires = record { hires = some hires; invert = some false; target = some false }

abbrev pub configure_bits : Settings → Wheel → Wheel
configure_bits s w =
    configure_bit target_bit s.target
      (configure_bit inverted_bit s.invert (configure_bit hires_bit s.hires w))

-- `_makeConfig`.
unfoldable pub make_config : Config → Wheel
make_config unset = record { config = unset; mode = 0; mask = 0 }
make_config (only_hires hires) =
    configure_bits (settings_of hires)
      (record { config = settings (settings_of hires); mode = 0; mask = bit_or 0 hires_bit })
make_config (settings s) = configure_bits s (record { config = settings s; mode = 0; mask = 0 })

-- `_configure`: the byte that is written, for the byte that is read.
unfoldable pub written_mode : ℕ → Wheel → ℕ
written_mode mode w = bit_or (bit_and mode (complement w.mask)) (bit_and w.mode w.mask)

-- `IPC::_parentConfig`.
unfoldable pub parent_config : Config → Settings
parent_config unset = no_settings
parent_config (only_hires hires) = record no_settings { hires = some hires }
parent_config (settings s) = s

-- `_mask |= bit; if (value) _mode |= bit; else _mode &= ~bit;`.
abbrev pub set_bit : ℕ → Bool → Wheel → Wheel
set_bit bit true w = record w { mask = bit_or w.mask bit; mode = bit_or w.mode bit }
set_bit bit false w = record w { mask = bit_or w.mask bit; mode = bit_and w.mode (complement bit) }

-- `IPC::setHires`, `setInvert` and `setTarget`, up to `_configure`.
unfoldable pub set_hires : Bool → Wheel → Wheel
unfolding parent_config
set_hires hires w =
    set_bit hires_bit hires
      (record w { config = settings (record (parent_config w.config) { hires = some hires }) })

unfoldable pub set_invert : Bool → Wheel → Wheel
unfolding parent_config
set_invert invert w =
    set_bit inverted_bit invert
      (record w { config = settings (record (parent_config w.config) { invert = some invert }) })

unfoldable pub set_target : Bool → Wheel → Wheel
unfolding parent_config
set_target target w =
    set_bit target_bit target
      (record w { config = settings (record (parent_config w.config) { target = some target }) })

abbrev pub value_or : Option Bool → Bool → Bool
value_or none b = b
value_or (some b) _ = b

-- `IPC::getConfig`.
unfoldable pub get_config : Config → Bool × Bool × Bool
get_config unset = (true, false, false)
get_config (only_hires hires) = (hires, false, false)
get_config (settings s) = (value_or s.hires true, value_or s.invert false, value_or s.target false)

-- What the gestures of the two directions are told: `release(false); press(true);`, and `move`.
pub data Effect : Type 0 where
  restart_up restart_down : Effect
  move_up move_down : ℤ → Effect

-- `_last_direction`.
pub data Direction : Type 0 where
  down still up : Direction

-- Which gestures there are.
pub record Gestures : Type 0 where
  pub has_up : Bool
  pub has_down : Bool

abbrev pub effect_if : Bool → Effect → List Effect
effect_if true e = e ∷ []
effect_if false e = []

-- `_handleScroll` for `deltaV`, with the whole seconds since the last event.
abbrev pub after_pause : Gestures → ℕ → Direction → List Effect × Direction
after_pause g seconds last =
    if leb 1 seconds
    then (effect_if g.has_up restart_up ++ effect_if g.has_down restart_down, still)
    else ([], last)

abbrev pub is_down : Direction → Bool
is_down down = true
is_down _ = false

abbrev pub is_up : Direction → Bool
is_up up = true
is_up _ = false

-- The move of a delta, once the pause was looked at.
abbrev pub scroll : Gestures → ℤ → Direction → List Effect × Direction
scroll g (pos zero) last = ([], last)
scroll g (pos (suc n)) last = (
  effect_if (is_down last && g.has_down) restart_down ++ effect_if g.has_up (move_up (pos (suc n))),
  up,
)
scroll g (negsuc n) last = (
  effect_if (is_up last && g.has_up) restart_up
      ++ effect_if g.has_down (move_down (int16 (neg (negsuc n)))),
  down,
)

unfoldable pub handle_scroll : Gestures → ℕ → ℤ → Direction → List Effect × Direction
handle_scroll g seconds delta last =
    let paused = after_pause g seconds last in
    let moved = scroll g delta paused.1 in (paused.0 ++ moved.0, moved.1)
