-- ===== src/Device/Config.antt =====
-- The configuration of a device, of src/logid/config/schema.h, and `Device::_getConfig` of
-- src/logid/Device.cpp. A name is a number, in the order of the names; `settings` stands for what a
-- profile says of the features.
pub mod Migration
use logiops.Prelude.{ℕ, Bool, true, false, Option, none, some, List, [], ◌∷◌, if◌then◌else◌}
use logiops.Manager.Maps.{find, emplace, assign}

-- `config::ConnectionCommand`, with the words by their characters.
pub record ConnectionCommand : Type 0 where
  pub command : List ℕ
  pub args : Option (List (List ℕ))

pub record Profile : Type 0 where
  pub settings : ℕ
  pub on_connect : Option ConnectionCommand
  pub on_disconnect : Option ConnectionCommand

-- `config::Profile()`, with no settings.
abbrev pub no_profile : Profile
no_profile = record { settings = 0; on_connect = none; on_disconnect = none }

-- `config::Device`.
pub record DeviceConfig : Type 0 where
  pub default_profile : ℕ
  pub profiles : List (ℕ × Profile)
  pub on_connect : Option ConnectionCommand
  pub on_disconnect : Option ConnectionCommand

-- `""` and `"default"`.
abbrev pub empty_name : ℕ
empty_name = 0

abbrev pub default_name : ℕ
default_name = 1

abbrev pub no_config : DeviceConfig
no_config = record {
  default_profile = empty_name;
  profiles = [];
  on_connect = none;
  on_disconnect = none;
}

-- `std::variant<Device, Profile>`.
pub data Entry : Type 0 where
  whole : DeviceConfig → Entry
  flat : Profile → Entry

-- A flat entry becomes the profile "default" of a device, which takes its hooks.
unfoldable pub migrate : Entry → DeviceConfig
migrate (whole d) = d
migrate (flat p) = record {
  default_profile = default_name;
  profiles = (default_name, record p { on_connect = none; on_disconnect = none }) ∷ [];
  on_connect = p.on_connect;
  on_disconnect = p.on_disconnect;
}

unfoldable pub fill_empty : DeviceConfig → DeviceConfig
fill_empty d = elim d.profiles [
  | [] ↦ record d { profiles = (default_name, no_profile) ∷ []; default_profile = default_name }
  | p ∷ rest ↦ d
]

-- What `_getConfig` makes of the entry.
abbrev pub settle : Entry → DeviceConfig
settle entry = fill_empty (migrate entry)

-- `_getConfig` on `devices`: the configuration, and the map with the entry that it refers to.
unfoldable pub get_config : ℕ → List (ℕ × Entry) → DeviceConfig × List (ℕ × Entry)
unfolding migrate fill_empty
get_config name devices = elim (find name devices) [
  | none ↦ let config = settle (whole no_config) in (config, emplace name (whole config) devices)
  | some entry ↦ let config = settle entry in (config, assign name (whole config) devices)
]
