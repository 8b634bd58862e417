-- ===== src/Device/Profiles.antt =====
-- src/logid/Device.cpp: the profiles of a device. The iterator `_profile` is the name of the entry that
-- it stands at. The configuration, a reference that devices of one name share, is that of one device
-- here. What the features do is a call that is made, and an outcome that is an argument.
pub mod Active
pub mod Tests
use logiops.Prelude.{
  ℕ, Bool, true, false, not, ◌&&◌, Option, none, some, List, [], ◌∷◌, ◌++◌, map, ◌==◌,
  if◌then◌else◌,
}
use logiops.Prelude.Exn.{Result, ok, err, ◌>>=◌, ◌>>◌, throw_if, invalid_argument}
use logiops.Manager.Maps.{find, emplace, remove, assign}
use logiops.Device.Config.{Profile, no_profile, DeviceConfig}

pub record State : Type 0 where
  pub config : DeviceConfig
  -- `_profile`, and `_profile_name`.
  pub profile : ℕ
  pub profile_name : ℕ

-- Calls of the features, by their number in `_features`, and of the reset mechanism.
pub data Call : Type 0 where
  feature_set_profile : ℕ → Profile → Call
  reset_device : Call
  feature_configure : ℕ → Call

-- The features of a device, whether it can be reset, and how each call ends.
pub record Hardware : Type 0 where
  pub features : List ℕ
  pub has_reset : Bool
  pub outcome : Call → Result (Unit {0})

-- Calls in their order, up to the first that throws: those that were made, and the end.
unfoldable pub make_calls : (Call → Result (Unit {0})) → List Call → List Call × Result (Unit {0})
make_calls outcome [] = ([], ok tt)
make_calls outcome (c ∷ rest) =
    let later = make_calls outcome rest in
    elim (outcome c) [ err exn ↦ (c ∷ [], err exn) | ok _ ↦ (c ∷ later.0, later.1) ]

-- `reset`, then `reconfigure`.
abbrev pub reset_calls : Hardware → List Call
reset_calls h = if h.has_reset then reset_device ∷ [] else []

abbrev pub reconfigure_calls : Hardware → List Call
reconfigure_calls h = reset_calls h ++ map feature_configure h.features

-- What `setProfile` and `clearProfile` do after the change.
abbrev pub profile_calls : Hardware → Profile → List Call
profile_calls h p = map (λ f. feature_set_profile f p) h.features ++ reconfigure_calls h

-- `*_profile` of a valid iterator.
unfoldable pub active_profile : State → Option Profile
active_profile s = find s.profile s.config.profiles

-- `find`, or `insert` of an empty profile, and the name.
unfoldable pub select : ℕ → State → State
select name s = elim (find name s.config.profiles) [
  | some p ↦ record s { profile = name; profile_name = name }
  | none ↦ record {
    config = record (s.config) { profiles = emplace name no_profile s.config.profiles };
    profile = name;
    profile_name = name;
  }
]

-- The block of `_init` that sets the profile.
unfoldable pub init : DeviceConfig → State
unfolding select
init config =
    select config.default_profile (record { config = config; profile = 0; profile_name = 0 })

-- The profile that the features are given: the one that the iterator stands at.
abbrev pub given_profile : State → Profile
given_profile s = elim (active_profile s) [ some p ↦ p | none ↦ no_profile ]

-- `setProfile`.
unfoldable pub set_profile : Hardware → ℕ → State → State × List Call × Result (Unit {0})
unfolding select make_calls active_profile
set_profile h name s =
    let s' = select name s in
    let made = make_calls h.outcome (profile_calls h (given_profile s')) in (s', made.0, made.1)

-- `removeProfile`.
unfoldable pub remove_profile : ℕ → State → Result State
remove_profile name s = do
  throw_if (name == s.profile_name) invalid_argument
  throw_if (name == s.config.default_profile) invalid_argument
  ok (record s { config = record (s.config) { profiles = remove name s.config.profiles } })

abbrev pub write_profile : ℕ → Profile → State → State
write_profile name p s = record s {
  config = record (s.config) { profiles = assign name p s.config.profiles };
}

-- `clearProfile`.
unfoldable pub clear_profile : Hardware → ℕ → State → State × List Call × Result (Unit {0})
unfolding make_calls
clear_profile h name s =
    let made = make_calls h.outcome (profile_calls h no_profile) in
    let other : State × List Call × Result (Unit {0}) = elim (find name s.config.profiles) [
      | some p ↦ (write_profile name no_profile s, [], ok tt)
      | none ↦ (s, [], err invalid_argument)
    ] in
    if name == s.profile_name then (write_profile s.profile no_profile s, made.0, made.1) else other

-- `getProfiles`.
unfoldable pub get_profiles : State → List ℕ
get_profiles s = map (λ e. e.0) s.config.profiles

-- What is asked of a device on the bus. DefaultProfile may be written.
pub data Request : Type 0 where
  set_to remove_of clear_of default_to : ℕ → Request

-- The state after a request, which may have thrown.
unfoldable pub serve : Hardware → Request → State → State
unfolding set_profile remove_profile clear_profile
serve h (set_to name) s = (set_profile h name s).0
serve h (remove_of name) s = elim (remove_profile name s) [ ok s' ↦ s' | err exn ↦ s ]
serve h (clear_of name) s = (clear_profile h name s).0
serve h (default_to name) s = record s { config = record (s.config) { default_profile = name } }

unfoldable pub serve_all : Hardware → List Request → State → State
unfolding serve
serve_all h [] s = s
serve_all h (r ∷ rest) s = serve_all h rest (serve h r s)
