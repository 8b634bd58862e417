-- ===== src/Features/Dpi/Closest.antt =====
-- Which resolution src/logid/features/DPI.cpp picks, and what its settings remember.
use logiops.Prelude.{
  ℕ, suc, zero, ◌+◌, ◌-◌, ◌*◌, ◌/◌, ◌%◌, ◌<◌, ◌≤◌, ◌≡◌, refl, sym, ap, ◌∙◌, Bool-cases, true, false,
  inl, inr, some, List, [], ◌∷◌, ltb, leb, ◌==◌, if◌then◌else◌, length, set, length-set,
  get_or-set_self, get_or-set_ne, replicate, arith,
}
use native.Mathlib.Nat.{div-add-mod', mod-lt, mul-mod_left}
use logiops.Prelude.Exn.{ok}
use logiops.Features.Dpi.{
  SensorDpiList, min_of, max_of, contains, closer, closest_of, snap, get_closest_dpi, DpiConfig,
  not_set, one, each, pad, set_dpi_config, get_dpi_config,
}

closest_of-max_of : (dpi a : ℕ) (bs : List ℕ) → closest_of dpi a bs ≡ max_of a bs
closest_of-max_of dpi a [] = refl
closest_of-max_of dpi a (b ∷ bs) =
    closest_of-max_of dpi (if closer dpi b a then b else a) bs
    ∙ ap (λ t. max_of t bs) {x = if closer dpi b a then b else a} {y = if ltb a b then b else a}
        (ground arith)

-- From a list without the wanted resolution, the largest one is picked, however far it is from the
-- wanted one.
pub get_closest_dpi-max_of :
    (list : SensorDpiList) (a dpi : ℕ) (bs : List ℕ)
    → list.dpis ≡ a ∷ bs
    → list.is_range ≡ false
    → contains dpi (a ∷ bs) ≡ false
    → get_closest_dpi list dpi ≡ ok (max_of a bs)
unfolding get_closest_dpi
get_closest_dpi-max_of list a dpi bs e r c =
    rw (e, get_closest_dpi, r, c) (ap ok (closest_of-max_of dpi a bs))

-- Rounding to a multiple of the step, for a step that is not 0.
round_near :
    (d step : ℕ)
    → 0 < step
    → let r = (2 * d + step) / (2 * step) * step in (2 * r ≤ 2 * d + step) × (2 * d ≤ 2 * r + step)
round_near d step hs =
    let q : ℕ = (2 * d + step) / (2 * step) in
    let e : 2 * d + step ≡ q * (2 * step) + (2 * d + step) % (2 * step) =
      sym (div-add-mod' (2 * d + step) (2 * step)) in
    let m : (2 * d + step) % (2 * step) < 2 * step = mod-lt (2 * d + step) (omega arith) in
    let c : q * (2 * step) ≡ 2 * (q * step) = omega arith in
    (omega (arith, e, m, c), omega (arith, e, m, c))

-- A range with a step that is not 0 gives, for a resolution between its ends, one of its steps, at most
-- half a step away; and a resolution that is a step is given back.
pub get_closest_dpi-near :
    (list : SensorDpiList) (a dpi : ℕ) (bs : List ℕ)
    → list.dpis ≡ a ∷ bs
    → list.is_range ≡ true
    → 0 < list.dpi_step
    → min_of a bs ≤ dpi
    → dpi ≤ max_of a bs
    → dpi + list.dpi_step < 0x10000
    → (r : ℕ) × (get_closest_dpi list dpi ≡ ok r)
      × ((r - min_of a bs) % list.dpi_step ≡ 0)
      × (2 * r ≤ 2 * dpi + list.dpi_step)
      × (2 * dpi ≤ 2 * r + list.dpi_step)
unfolding get_closest_dpi snap
get_closest_dpi-near list a dpi bs e r hs hl hh hi =
    let low : ℕ = min_of a bs in
    let q : ℕ = (2 * (dpi - low) + list.dpi_step) / (2 * list.dpi_step) * list.dpi_step in
    let near = round_near (dpi - low) list.dpi_step hs in
    let z : (list.dpi_step == 0) ≡ false = ground arith in
    let l : leb low dpi ≡ true = ground arith in
    let h : leb dpi (max_of a bs) ≡ true = ground arith in
    let lt : ltb (max_of a bs) dpi ≡ false = ground arith in
    let gt : ltb dpi low ≡ false = ground arith in
    elim (Bool-cases ((dpi - low) % list.dpi_step == 0)) [
      | inl m ↦
          (dpi, rw (e, get_closest_dpi, r, z, l, h, m) refl, ground arith, omega arith, omega arith)
      | inr m ↦
          let fits : (low + q) % 0x10000 ≡ low + q = omega (arith, near) in
          (
            low + q,
            rw (e, get_closest_dpi, r, z, l, h, m, lt, gt) (ap ok fits),
            ap (λ t. t % list.dpi_step) {x = low + q - low} {y = q} (omega arith)
                ∙ mul-mod_left ((2 * (dpi - low) + list.dpi_step) / (2 * list.dpi_step))
                    list.dpi_step,
            omega (arith, near),
            omega (arith, near),
          )
    ]

length-pad : (n : ℕ) (list : List ℕ) → n ≤ length (pad n list)
length-pad zero list = omega arith
length-pad (suc n) [] = omega (arith, length-pad n [])
length-pad (suc n) (d ∷ list) = omega (arith, length-pad n list)

length_zeros : (n : ℕ) → length {A = ℕ} (replicate n 0) ≡ n
length_zeros zero = refl
length_zeros (suc n) = ap suc (length_zeros n)

ltb-true : {a b : ℕ} → a < b → ltb a b ≡ true
ltb-true h = ground arith

-- What is set in a list long enough is what is configured.
get-set :
    (list : List ℕ) (sensor dpi : ℕ)
    → sensor < length list
    → get_dpi_config sensor (each (set list sensor dpi)) ≡ some dpi
unfolding get_dpi_config
get-set list sensor dpi h =
    let e : ltb sensor (length (set list sensor dpi)) ≡ true =
      ltb-true (omega (arith, length-set list sensor dpi)) in
    rw e (ap some (get_or-set_self list sensor dpi 0 h))

-- A list whose first entry is set last.
get-set-set :
    (sensor dpi : ℕ)
    → (sensor == 0) ≡ false
    → get_dpi_config sensor (each (set (set (replicate (suc sensor) 0) sensor dpi) 0 dpi))
      ≡ some dpi
unfolding get_dpi_config
get-set-set sensor dpi n =
    let list : List ℕ = replicate (suc sensor) 0 in
    let l : sensor < length list = omega (arith, length_zeros (suc sensor)) in
    let e : ltb sensor (length (set (set list sensor dpi) 0 dpi)) ≡ true =
      ltb-true
        (omega (arith, length-set (set list sensor dpi) 0 dpi, length-set list sensor dpi)) in
    rw e (
      ap some (
        get_or-set_ne (set list sensor dpi) 0 sensor dpi 0 (ground arith)
        ∙ get_or-set_self list sensor dpi 0 l))

get_dpi-set_dpi :
    (sensor dpi : ℕ) (config : DpiConfig)
    → get_dpi_config sensor (set_dpi_config dpi sensor config) ≡ some dpi
unfolding set_dpi_config get_dpi_config
get_dpi-set_dpi sensor dpi not_set =
    get-set (pad (suc sensor) []) sensor dpi (omega (arith, length-pad (suc sensor) []))
get_dpi-set_dpi sensor dpi (each list) =
    get-set (pad (suc sensor) list) sensor dpi (omega (arith, length-pad (suc sensor) list))
get_dpi-set_dpi sensor dpi (one d) = elim (Bool-cases (sensor == 0)) [
  | inl e ↦ rw (e, get_dpi_config) (rw e refl)
  | inr e ↦ rw (e, get_dpi_config) (get-set-set sensor dpi e)
]

first-set_dpi :
    (sensor dpi d : ℕ) → get_dpi_config 0 (set_dpi_config dpi (suc sensor) (one d)) ≡ some dpi
unfolding set_dpi_config
first-set_dpi sensor dpi d =
    let n : (suc sensor == 0) ≡ false = ground arith in
    let list : List ℕ = replicate (suc (suc sensor)) 0 in
    rw n (
      get-set (set list (suc sensor) dpi) 0 dpi
        (omega (arith, length-set list (suc sensor) dpi, length_zeros (suc (suc sensor)))))

-- The resolution that is set for a sensor is the one that is configured for it then. But where one
-- resolution was configured, setting that of another sensor sets that of sensor 0 too.
pub get_dpi_config-set_dpi_config :
    (sensor dpi d : ℕ) (config : DpiConfig)
    → (get_dpi_config sensor (set_dpi_config dpi sensor config) ≡ some dpi)
      × (get_dpi_config 0 (set_dpi_config dpi (suc sensor) (one d)) ≡ some dpi)
get_dpi_config-set_dpi_config sensor dpi d config =
    (get_dpi-set_dpi sensor dpi config, first-set_dpi sensor dpi d)
