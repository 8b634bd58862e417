-- ===== src/Device/Config/Migration.antt =====
-- What `_getConfig` makes of an entry, and that it makes no more of it the second time.
use logiops.Prelude.{
  ℕ, ◌≡◌, ◌≢◌, some, List, [], arith, ap, sym, ◌∙◌, Option-cases, inl, inr, List-cases, subst,
}
use logiops.Manager.Maps.{find, emplace, assign}
use logiops.Manager.Lookups.{find-assign, find-assign_ne, find-emplace, find-emplace_ne}
use logiops.Device.Config.{
  DeviceConfig, no_config, Entry, whole, migrate, fill_empty, settle, get_config,
}

fill_empty-fill_empty : (d : DeviceConfig) → fill_empty (fill_empty d) ≡ fill_empty d
unfolding fill_empty
fill_empty-fill_empty d = elim (List-cases d.profiles) [
  | inl empty ↦ ground arith
  | inr (p, rest, more) ↦ ground arith
]

fill_empty-profiles : (d : DeviceConfig) → (fill_empty d).profiles ≢ []
unfolding fill_empty
fill_empty-profiles d = ground arith

settle-settle : (entry : Entry) → settle (whole (settle entry)) ≡ settle entry
unfolding migrate
settle-settle entry = fill_empty-fill_empty (migrate entry)

-- A configuration that was found or made stands in the map.
record Stands (name : ℕ) (devices : List (ℕ × Entry)) : Type 0 where
  pub there : find name (get_config name devices).1 ≡ some (whole (get_config name devices).0)
  pub settled : (entry : Entry) × ((get_config name devices).0 ≡ settle entry)
  pub others :
      (other : ℕ) → other ≢ name → find other (get_config name devices).1 ≡ find other devices

get_config-Stands : (name : ℕ) (devices : List (ℕ × Entry)) → Stands name devices
unfolding get_config
get_config-Stands name devices = elim (Option-cases (find name devices)) [
  | inl missing ↦
      let config = settle (whole no_config) in
      let eq : get_config name devices ≡ (config, emplace name (whole config) devices) =
        rw (missing, get_config) in
      record {
        there = rw eq (find-emplace name (whole config) devices missing);
        settled = (whole no_config, ap (λ x. x.0) eq);
        others = λ other ne. rw eq (find-emplace_ne name other (whole config) devices ne);
      }
  | inr (entry, found) ↦
      let config = settle entry in
      let eq : get_config name devices ≡ (config, assign name (whole config) devices) =
        rw (found, get_config) in
      record {
        there = rw eq (find-assign name (whole config) entry devices found);
        settled = (entry, ap (λ x. x.0) eq);
        others = λ other ne. rw eq (find-assign_ne name other (whole config) devices ne);
      }
]

found_again :
    (name : ℕ) (devices : List (ℕ × Entry)) (config : DeviceConfig)
    → find name devices ≡ some (whole config)
    → (get_config name devices).0 ≡ settle (whole config)
unfolding get_config
found_again name devices config found = rw (found, get_config)

-- The configuration of a name has a profile; asking for it again gives the same one; and the entries of
-- the other names stay as they are.
pub get_config-again :
    (name other : ℕ) (devices : List (ℕ × Entry))
    → other ≢ name
    → ((get_config name (get_config name devices).1).0 ≡ (get_config name devices).0)
      × ((get_config name devices).0.profiles ≢ [])
      × (find other (get_config name devices).1 ≡ find other devices)
get_config-again name other devices ne =
    let s = get_config-Stands name devices in
    let (entry, of_entry) = s.settled in
    let config = (get_config name devices).0 in
    (
      found_again name (get_config name devices).1 config s.there
          ∙ ap (λ x. settle (whole x)) of_entry
          ∙ settle-settle entry
          ∙ sym of_entry,
      subst (λ x. x.profiles ≢ []) (sym of_entry) (fill_empty-profiles (migrate entry)),
      s.others other ne,
    )
