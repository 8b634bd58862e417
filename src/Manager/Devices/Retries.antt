-- ===== src/Manager/Devices/Retries.antt =====
-- `DeviceMonitor::_addHandler` of src/logid/backend/raw/DeviceMonitor.cpp: a path is tried again while
-- its device is not ready. A visit is what one try finds.
use logiops.Prelude.{
  ℕ, zero, suc, ◌+◌, ◌*◌, ◌^◌, ◌≤◌, ◌<◌, ◌≡◌, Bool, true, false, Option, none, some, List, [], ◌∷◌,
  ◌==◌, if◌then◌else◌, arith, refl, inl, inr, ◌⊎◌, ◌-◌, subst, sym, Bool-cases,
}
use logiops.Prelude.Exn.{Result, ok, err, ◌>>=◌}
use logiops.Manager.Devices.{
  Manager, Fault, Outcome, made, failed, Probe, Ending, returned, thrown, add_device,
  not_ready_fault, invalid_device, hidpp20_fault, hidpp10_fault, system_fault, timeout_fault,
  other_fault,
}
use logiops.Manager.Devices.Failures.{add_device-thrown}
use logiops.Manager.Devices.Steps.{Outcome-cases}
use native.Mathlib.Nat.{pow-suc, zero-add}

abbrev pub max_tries : ℕ
max_tries = 5

abbrev pub ready_backoff : ℕ
ready_backoff = 500

-- Whether the report descriptor of the path has HID++ reports, and what `addDevice` finds.
pub record Visit : Type 0 where
  pub supported : Outcome Bool
  pub probe : Probe

-- After a try: it is over, it runs again after some milliseconds, or an exception that is no
-- `std::exception`, as `InvalidDevice`, leaves the handler.
pub data Next : Type 0 where
  settled escaped : Next
  retry : ℕ → Next

unfoldable pub after_fault : Fault → ℕ → Next
after_fault not_ready_fault tries =
    if tries == max_tries then settled else retry (2 ^ tries * ready_backoff)
after_fault (invalid_device reason) tries = escaped
after_fault fault tries = settled

abbrev pub after_ending : Ending → ℕ → Next
after_ending returned tries = settled
after_ending (thrown fault) tries = after_fault fault tries

-- One call of `_addHandler(device, tries)`.
unfoldable pub add_handler : Option (List ℕ) → ℕ → Visit → ℕ → Manager → Result (Next × Manager)
unfolding after_fault
add_handler ignore path v tries m = elim v.supported [
  | failed fault ↦ ok (after_fault fault tries, m)
  | made false ↦ ok (settled, m)
  | made true ↦ do
    (ending, m') ← add_device ignore path v.probe m
    ok (after_ending ending tries, m')
]

abbrev pub Handled : Type 0
Handled = Option (Result (List ℕ × Manager))

abbrev pub after_wait : ℕ → Handled → Handled
after_wait wait none = none
after_wait wait (some (err exn)) = some (err exn)
after_wait wait (some (ok (waits, m))) = some (ok (wait ∷ waits, m))

abbrev pub go_on : Result (Next × Manager) → (Manager → Handled) → Handled
go_on (err exn) again = some (err exn)
go_on (ok (settled, m)) again = some (ok ([], m))
go_on (ok (escaped, m)) again = some (ok ([], m))
go_on (ok (retry wait, m)) again = after_wait wait (again m)

-- The tries of a path, with nothing else in between: the waits, and the manager at the end. `none`
-- is the end of the fuel.
unfoldable pub handle_all : Option (List ℕ) → ℕ → (ℕ → Visit) → ℕ → ℕ → Manager → Handled
unfolding add_handler
handle_all ignore path visits zero tries m = none
handle_all ignore path visits (suc fuel) tries m =
    go_on (add_handler ignore path (visits tries) tries m)
      (λ m'. handle_all ignore path visits fuel (suc tries) m')

abbrev pub sum : List ℕ → ℕ
sum [] = 0
sum (x ∷ xs) = x + sum xs

pow_grows : (k t : ℕ) → 2 ^ t ≤ 2 ^ (k + t)
pow_grows zero t = rw (zero-add) (omega arith)
pow_grows (suc k) t =
    let next : suc k + t ≡ suc (k + t) = omega arith in
    rw next (omega (arith, pow_grows k t, pow-suc 2 (k + t)))

pow_below : (t : ℕ) → t ≤ max_tries → 2 ^ t ≤ 2 ^ max_tries
pow_below t h =
    subst (λ (k : ℕ). 2 ^ t ≤ 2 ^ k) {x = max_tries - t + t} {y = max_tries} (omega arith)
      (pow_grows (max_tries - t) t)

module _ (ignore : Option (List ℕ)) (path : ℕ) (visits : ℕ → Visit) where
  -- Nothing was added, or one try went well and the others did nothing.
  abbrev pub Once : Manager → Manager → Type 0
  Once m m' = (m' ≡ m) ⊎ ((i : ℕ) × (add_device ignore path (visits i).probe m ≡ ok (returned, m')))

  -- The handling came to an end; a failed assertion is one.
  abbrev pub Ends : ℕ → Manager → Handled → Type 0
  Ends tries m none = ⊥
  Ends tries m (some (err exn)) = Unit {0}
  Ends tries m (some (ok (waits, m'))) =
      (sum waits + 2 ^ tries * ready_backoff ≤ 2 ^ max_tries * ready_backoff) × Once m m'

  -- One more try after a wait.
  wait-Ends :
      (tries : ℕ) (m : Manager) (result : Handled)
      → Ends (suc tries) m result
      → Ends tries m (after_wait (2 ^ tries * ready_backoff) result)
  wait-Ends tries m none h = h
  wait-Ends tries m (some (err exn)) h = tt
  wait-Ends tries m (some (ok (waits, m'))) h = (omega (arith, h.0, pow-suc 2 tries), h.1)

  settled-Ends :
      (tries : ℕ) (m m' : Manager)
      → tries ≤ max_tries
      → Once m m'
      → Ends tries m (some (ok ([], m')))
  settled-Ends tries m m' h once = (omega (arith, pow_below tries h), once)

  -- What a fault leads to, with the manager as it was.
  fault-Ends :
      (fault : Fault) (tries : ℕ) (m : Manager) (again : Manager → Handled)
      → tries ≤ max_tries
      → (tries < max_tries → Ends (suc tries) m (again m))
      → Ends tries m (go_on (ok (after_fault fault tries, m)) again)
  unfolding after_fault
  fault-Ends not_ready_fault tries m again h k = elim (Bool-cases (tries == max_tries)) [
    | inl last ↦ rw (last, go_on) (settled-Ends tries m m h (inl refl))
    | inr more ↦ rw (more, go_on) (wait-Ends tries m (again m) (k (ground arith)))
  ]
  fault-Ends (invalid_device reason) tries m again h k = settled-Ends tries m m h (inl refl)
  fault-Ends (hidpp20_fault code) tries m again h k = settled-Ends tries m m h (inl refl)
  fault-Ends (hidpp10_fault code) tries m again h k = settled-Ends tries m m h (inl refl)
  fault-Ends system_fault tries m again h k = settled-Ends tries m m h (inl refl)
  fault-Ends timeout_fault tries m again h k = settled-Ends tries m m h (inl refl)
  fault-Ends other_fault tries m again h k = settled-Ends tries m m h (inl refl)

  -- What the result of a try leads to.
  ending-Ends :
      (tries : ℕ) (m : Manager) (again : Manager → Handled) (result : Result (Ending × Manager))
      → add_device ignore path (visits tries).probe m ≡ result
      → tries ≤ max_tries
      → (tries < max_tries → Ends (suc tries) m (again m))
      → Ends tries m (go_on (result >>= λ given. ok (after_ending given.0 tries, given.1)) again)
  ending-Ends tries m again (err exn) e h k = tt
  ending-Ends tries m again (ok (returned, m')) e h k = settled-Ends tries m m' h (inr (tries, e))
  ending-Ends tries m again (ok (thrown fault, m')) e h k =
      let same = (add_device-thrown ignore path (visits tries).probe m e).0 in
      subst (λ x. Ends tries m (go_on (ok (after_fault fault tries, x)) again)) (sym same)
        (fault-Ends fault tries m again h k)

  visit-Ends :
      (tries : ℕ) (m : Manager) (again : Manager → Handled)
      → tries ≤ max_tries
      → (tries < max_tries → Ends (suc tries) m (again m))
      → Ends tries m (go_on (add_handler ignore path (visits tries) tries m) again)
  unfolding add_handler
  visit-Ends tries m again h k = elim (Outcome-cases (visits tries).supported) [
    | inr (fault, x) ↦ rw (x, add_handler) (fault-Ends fault tries m again h k)
    | inl (true, x) ↦
        rw (x, add_handler)
          (ending-Ends tries m again (add_device ignore path (visits tries).probe m) refl h k)
    | inl (false, x) ↦ rw (x, add_handler) (settled-Ends tries m m h (inl refl))
  ]

  -- Six tries are enough. The path is given up or added after waits of 15.5 s in all at most, and
  -- the manager is then as it was, or as one `addDevice` that returned left it.
  pub handle_all-Ends :
      (fuel tries : ℕ) (m : Manager)
      → tries ≤ max_tries
      → max_tries < fuel + tries
      → Ends tries m (handle_all ignore path visits fuel tries m)
  unfolding handle_all
  handle_all-Ends zero tries m h f = absurd (omega arith)
  handle_all-Ends (suc fuel) tries m h f =
      visit-Ends tries m (λ m'. handle_all ignore path visits fuel (suc tries) m') h
        (λ more. handle_all-Ends fuel (suc tries) m (omega arith) (omega arith))
