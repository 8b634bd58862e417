-- ===== src/Device/Profiles/Active.antt =====
-- The active profile: it is there whatever is asked for, and the features get what stands in it.
use logiops.Prelude.{
  ℕ, ◌≡◌, ◌≢◌, true, false, Option, none, some, List, [], ◌∷◌, ◌==◌, Option-cases, Bool-cases,
  ==_iff, arith, refl, ap, sym, ◌∙◌, inl, inr, subst,
}
use logiops.Prelude.Exn.{Result, ok, Result-cases}
use logiops.Manager.Maps.{find, remove, assign}
use logiops.Manager.Lookups.{
  find-assign, find-assign_ne, find-emplace, find-emplace_ne, find-remove_ne,
}
use logiops.Device.Config.{Profile, no_profile, DeviceConfig}
use logiops.Device.Profiles.{
  State, Hardware, Request, set_to, remove_of, clear_of, default_to, select, init, active_profile,
  set_profile, remove_profile, clear_profile, write_profile, serve, serve_all, make_calls,
  profile_calls, Call, given_profile,
}

select-others :
    (name other : ℕ) (s : State)
    → other ≢ name
    → find other (select name s).config.profiles ≡ find other s.config.profiles
unfolding select
select-others name other s ne = elim (Option-cases (find name s.config.profiles)) [
  | inl missing ↦ rw (missing, select) (find-emplace_ne name other no_profile s.config.profiles ne)
  | inr (p, there) ↦ ground arith
]

-- The iterator stands at an entry, which the name on the bus names.
pub record IsValid (s : State) : Type 0 where
  pub stands : (p : Profile) × (active_profile s ≡ some p)
  pub named : s.profile ≡ s.profile_name

-- Another name selects the profile that it had, or an empty new one.
abbrev pub or_empty : Option Profile → Profile
or_empty none = no_profile
or_empty (some p) = p

select-active :
    (name : ℕ) (s : State)
    → active_profile (select name s) ≡ some (or_empty (find name s.config.profiles))
unfolding select active_profile
select-active name s = elim (Option-cases (find name s.config.profiles)) [
  | inl missing ↦ rw (missing, select) (find-emplace name no_profile s.config.profiles missing)
  | inr (p, there) ↦ ground arith
]

select-IsValid : (name : ℕ) (s : State) → IsValid (select name s)
unfolding select
select-IsValid name s = record {
  stands = (or_empty (find name s.config.profiles), select-active name s);
  named = elim (Option-cases (find name s.config.profiles)) [
    | inl missing ↦ rw (missing, select)
    | inr (p, there) ↦ rw (there, select)
  ];
}

-- An entry that is still there keeps the iterator.
keeps :
    {s : State} (profiles : List (ℕ × Profile)) (p : Profile)
    → IsValid s
    → find s.profile profiles ≡ some p
    → IsValid (record s { config = record (s.config) { profiles = profiles } })
unfolding active_profile
keeps profiles p v there = record { stands = (p, there); named = v.named }

write-IsValid : (name : ℕ) (p : Profile) (s : State) → IsValid s → IsValid (write_profile name p s)
unfolding active_profile
write-IsValid name p s v =
    let (old, stands) = v.stands in
    elim (Bool-cases (s.profile == name)) [
      | inl same ↦
          let e = (==_iff s.profile name).0 same in
          keeps (assign name p s.config.profiles) p v (
            subst (λ k. find s.profile (assign k p s.config.profiles) ≡ some p) e
              (find-assign s.profile p old s.config.profiles stands))
      | inr other ↦
          keeps (assign name p s.config.profiles) old v
            (find-assign_ne name s.profile p s.config.profiles (λ e. ground arith) ∙ stands)
    ]

removed_active :
    (name : ℕ) (s s' : State) → (name == s.profile_name) ≡ true → remove_profile name s ≡ ok s' → ⊥
unfolding remove_profile
removed_active name s s' active e = ground arith

removed_default :
    (name : ℕ) (s s' : State)
    → (name == s.profile_name) ≡ false
    → (name == s.config.default_profile) ≡ true
    → remove_profile name s ≡ ok s'
    → ⊥
unfolding remove_profile
removed_default name s s' other is_default e = ground arith

removed :
    (name : ℕ) (s s' : State)
    → (name == s.profile_name) ≡ false
    → (name == s.config.default_profile) ≡ false
    → remove_profile name s ≡ ok s'
    → record s { config = record (s.config) { profiles = remove name s.config.profiles } } ≡ s'
unfolding remove_profile
removed name s s' other free e = ground arith

remove-IsValid : (name : ℕ) (s s' : State) → remove_profile name s ≡ ok s' → IsValid s → IsValid s'
unfolding active_profile remove_profile
remove-IsValid name s s' e v = elim (Bool-cases (name == s.profile_name)) [
  | inl active ↦ absurd (removed_active name s s' active e)
  | inr other ↦ elim (Bool-cases (name == s.config.default_profile)) [
    | inl is_default ↦ absurd (removed_default name s s' other is_default e)
    | inr free ↦ subst IsValid (removed name s s' other free e) (
        keeps (remove name s.config.profiles) v.stands.0 v
          (find-remove_ne name s.profile s.config.profiles (λ same. ground arith) ∙ v.stands.1))
  ]
]

serve-IsValid : (h : Hardware) (r : Request) (s : State) → IsValid s → IsValid (serve h r s)
unfolding serve set_profile clear_profile active_profile
serve-IsValid h (set_to name) s v = select-IsValid name s
serve-IsValid h (default_to name) s v = record { stands = v.stands; named = v.named }
serve-IsValid h (remove_of name) s v = elim (Result-cases (remove_profile name s)) [
  | inl (exn, e) ↦ rw (e, serve) v
  | inr (s', e) ↦ rw (e, serve) (remove-IsValid name s s' e v)
]
serve-IsValid h (clear_of name) s v = elim (Bool-cases (name == s.profile_name)) [
  | inl active ↦ rw (active, serve, clear_profile) (write-IsValid s.profile no_profile s v)
  | inr other ↦ elim (Option-cases (find name s.config.profiles)) [
    | inl missing ↦
        let to : serve h (clear_of name) s ≡ s = ground arith in subst IsValid (sym to) v
    | inr (p, there) ↦
        let to : serve h (clear_of name) s ≡ write_profile name no_profile s = ground arith in
        subst IsValid (sym to) (write-IsValid name no_profile s v)
  ]
]

serve_all-IsValid :
    (h : Hardware) (requests : List Request) (s : State)
    → IsValid s
    → IsValid (serve_all h requests s)
unfolding serve_all
serve_all-IsValid h [] s v = v
serve_all-IsValid h (r ∷ rest) s v = serve_all-IsValid h rest (serve h r s) (serve-IsValid h r s v)

-- After any requests, whether they throw or not, the active profile is an entry of the profiles, and it
-- is the one that ActiveProfile names.
pub serve_all-active :
    (h : Hardware) (config : DeviceConfig) (requests : List Request)
    → (p : Profile) × (find
          (serve_all h requests (init config)).profile_name
          (serve_all h requests (init config)).config.profiles
        ≡ some p)
unfolding init active_profile
serve_all-active h config requests =
    let s0 : State = record { config = config; profile = 0; profile_name = 0 } in
    let v = serve_all-IsValid h requests (init config) (select-IsValid config.default_profile s0) in
    let s = serve_all h requests (init config) in
    (v.stands.0, ap (λ k. find k s.config.profiles) (sym v.named) ∙ v.stands.1)

all_made :
    (outcome : Call → Result (Unit {0})) (calls : List Call)
    → ((c : Call) → outcome c ≡ ok tt)
    → make_calls outcome calls ≡ (calls, ok tt)
unfolding make_calls
all_made outcome [] h = refl
all_made outcome (c ∷ rest) h = rw (h c, make_calls, all_made outcome rest h)

given-active : (s : State) (p : Profile) → active_profile s ≡ some p → given_profile s ≡ p
given-active s p e = rw (e, given_profile)

-- Where no call throws, `setProfile` gives each feature what stands in the profile of that name, which
-- is an empty one if there was none, resets the device and configures each feature; the profile is
-- then active, and the others stay as they are.
pub set_profile-told :
    (h : Hardware) (name other : ℕ) (s : State)
    → ((c : Call) → h.outcome c ≡ ok tt)
    → other ≢ name
    → (p : Profile) × (p ≡ or_empty (find name s.config.profiles))
      × (active_profile (set_profile h name s).0 ≡ some p)
      × ((set_profile h name s).1 ≡ profile_calls h p)
      × ((set_profile h name s).2 ≡ ok tt)
      × (find other (set_profile h name s).0.config.profiles ≡ find other s.config.profiles)
unfolding set_profile
set_profile-told h name other s fine ne =
    let p = or_empty (find name s.config.profiles) in
    let active = select-active name s in
    let given = given-active (select name s) p active in
    let made =
      ap (λ x. make_calls h.outcome (profile_calls h x)) given
      ∙ all_made h.outcome (profile_calls h p) fine in
    (p, refl, active, ap (λ x. x.0) made, ap (λ x. x.1) made, select-others name other s ne)
