-- ===== src/Device/Profiles/Tests.antt =====
-- A device with two features and two profiles.
use logiops.Prelude.{◌≡◌, true, some, List, [], ◌∷◌, refl}
use logiops.Prelude.Exn.{ok}
use logiops.Manager.Maps.{find, emplace, remove, assign}
use logiops.Device.Config.{Profile, no_profile, DeviceConfig, no_config}
use logiops.Device.Profiles.{Hardware, Request, set_to, remove_of, clear_of, init, serve_all}
use logiops.Device.Profiles.Active.{serve_all-active}

abbrev fast : Profile
fast = record no_profile { settings = 5 }

abbrev config : DeviceConfig
config = record no_config { default_profile = 1; profiles = (1, fast) ∷ [] }

abbrev hardware : Hardware
hardware = record { features = 10 ∷ 11 ∷ []; has_reset = true; outcome = λ c. ok tt }

abbrev requests : List Request
requests = set_to 2 ∷ remove_of 2 ∷ remove_of 1 ∷ clear_of 1 ∷ []

-- Neither profile can be removed, and the second is cleared while the new one is active.
requests_served : serve_all hardware requests (init config) ≡ record {
  config = record config { profiles = (1, no_profile) ∷ (2, no_profile) ∷ [] };
  profile = 2;
  profile_name = 2;
}
unfolding serve_all init find emplace remove assign
requests_served = refl

serve_all-active_example :
    (p : Profile) × (find
        (serve_all hardware requests (init config)).profile_name
        (serve_all hardware requests (init config)).config.profiles
      ≡ some p)
serve_all-active_example = serve_all-active hardware config requests
