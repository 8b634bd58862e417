-- ===== src/Manager/Devices/Failures.antt =====
-- `addDevice` that throws: the manager stays as it was, and whose fault it is.
use logiops.Prelude.{
  ℕ, ◌≡◌, Bool, true, false, Option, List, ◌==◌, if◌then◌else◌, ◌&&◌, refl, Bool-cases, inl, inr,
  ◌⊎◌, subst, sym,
}
use logiops.Prelude.Exn.{Result, ok, Result-cases}
use logiops.Manager.Devices.{
  Manager, Fault, Outcome, made, failed, Probe, Ending, returned, thrown, Found, receiver_there,
  default_there, corded_maybe, leave, make_device, add_made_device, add_made_receiver, add_found,
  add_device, classify, corded_handlers, is_ignored, logitech_vendor_id, not_ready_fault,
  other_fault, hidpp20_fault, hidpp10_fault, invalid_device, system_fault, timeout_fault,
  unknown_device10, unknown_device20, asleep, no_hidpp_report, invalid_raw_device, virtual_node,
}
use logiops.Manager.Devices.Steps.{Outcome-cases}
use logiops.Manager.Nicknames.{new_receiver_nickname}

-- The throw that `addDevice` passes on: a wait for the device, or a fault that no handler is round.
abbrev pub Passes : Probe → Fault → Type 0
Passes p fault =
    (fault ≡ not_ready_fault)
    ⊎ (fault ≡ other_fault)
    ⊎ (p.raw ≡ failed fault)
    ⊎ (p.receiver ≡ failed fault)
    ⊎ (p.default_device ≡ failed fault)

-- A result that throws has changed nothing, and passes its fault on.
abbrev pub Harmless : Probe → Manager → Result (Ending × Manager) → Type 0
Harmless p m (ok (thrown fault, m')) = (m' ≡ m) × Passes p fault
Harmless p m _ = Unit {0}

-- The same of a decision about the default device.
abbrev Settled : Probe → Manager → Found → Type 0
Settled p m (leave ending) = Harmless p m (ok (ending, m))
Settled p m _ = Unit {0}

-- An unknown device is passed over, any other error means that the device is not ready.
unknown_or-passes :
    (p : Probe) (m : Manager) (b : Bool)
    → Harmless p m (ok (if b then returned else thrown not_ready_fault, m))
unknown_or-passes p m true = tt
unknown_or-passes p m false = (refl, inl refl)

corded_handlers-passes :
    (p : Probe) (m : Manager) (fault : Fault) → Harmless p m (ok (corded_handlers fault, m))
unfolding corded_handlers
corded_handlers-passes p m (hidpp20_fault code) = unknown_or-passes p m (code == unknown_device20)
corded_handlers-passes p m (hidpp10_fault code) = unknown_or-passes p m (code == unknown_device10)
corded_handlers-passes p m (invalid_device asleep) = (refl, inl refl)
corded_handlers-passes p m (invalid_device no_hidpp_report) = tt
corded_handlers-passes p m (invalid_device invalid_raw_device) = tt
corded_handlers-passes p m (invalid_device virtual_node) = tt
corded_handlers-passes p m system_fault = tt
corded_handlers-passes p m timeout_fault = (refl, inl refl)
corded_handlers-passes p m not_ready_fault = (refl, inl refl)
corded_handlers-passes p m other_fault = (refl, inr (inl refl))

-- Once an object is made nothing throws.
add_made_device-passes :
    (path : ℕ) (p : Probe) (m : Manager) → Harmless p m (add_made_device path m)
unfolding add_made_device
add_made_device-passes path p m = elim (Result-cases (make_device m)) [
  | inl (exn, x) ↦ rw (x, add_made_device) (tt)
  | inr (given, x) ↦ rw (x, add_made_device) (tt)
]

add_made_receiver-passes :
    (path : ℕ) (p : Probe) (m : Manager) → Harmless p m (add_made_receiver path m)
unfolding add_made_receiver
add_made_receiver-passes path p m =
    elim (Result-cases (new_receiver_nickname m.receiver_nicknames)) [
      | inl (exn, x) ↦ rw (x, add_made_receiver) (tt)
      | inr (given, x) ↦ rw (x, add_made_receiver) (tt)
    ]

add_found-passes :
    (path : ℕ) (p : Probe) (m : Manager) (found : Found)
    → Settled p m found
    → Harmless p m (add_found path p found m)
unfolding add_found
add_found-passes path p m receiver_there h = elim (Outcome-cases p.receiver) [
  | inl (u, x) ↦
      let e : add_found path p receiver_there m ≡ add_made_receiver path m = rw (x, add_found) in
      subst (Harmless p m) (sym e) (add_made_receiver-passes path p m)
  | inr (fault, x) ↦
      let e : add_found path p receiver_there m ≡ ok (thrown fault, m) = rw (x, add_found) in
      subst (Harmless p m) (sym e) (refl, inr (inr (inr (inl x))))
]
add_found-passes path p m default_there h = elim (Outcome-cases p.default_device) [
  | inl (u, x) ↦
      let e : add_found path p default_there m ≡ add_made_device path m = rw (x, add_found) in
      subst (Harmless p m) (sym e) (add_made_device-passes path p m)
  | inr (fault, x) ↦
      let e : add_found path p default_there m ≡ ok (thrown fault, m) = rw (x, add_found) in
      subst (Harmless p m) (sym e) (refl, inr (inr (inr (inr x))))
]
add_found-passes path p m corded_maybe h = elim (Outcome-cases p.corded_device) [
  | inl (u, x) ↦
      let e : add_found path p corded_maybe m ≡ add_made_device path m = rw (x, add_found) in
      subst (Harmless p m) (sym e) (add_made_device-passes path p m)
  | inr (fault, x) ↦
      let e : add_found path p corded_maybe m ≡ ok (corded_handlers fault, m) = rw (x, add_found) in
      subst (Harmless p m) (sym e) (corded_handlers-passes p m fault)
]
add_found-passes path p m (leave ending) h = h

-- An unknown default device leaves the corded one to try.
unknown_default-passes :
    (p : Probe) (m : Manager) (b : Bool)
    → Settled p m (if b then corded_maybe else leave (thrown not_ready_fault))
unknown_default-passes p m true = tt
unknown_default-passes p m false = (refl, inl refl)

version-passes :
    (p : Probe) (m : Manager) (b : Bool) → Settled p m (if b then receiver_there else default_there)
version-passes p m true = tt
version-passes p m false = tt

-- The handlers round the default device.
classify-passes : (p : Probe) (m : Manager) (v : Outcome (ℕ × ℕ)) → Settled p m (classify v)
unfolding classify
classify-passes p m (made (major, minor)) = version-passes p m ((major == 1) && (minor == 0))
classify-passes p m (failed (hidpp20_fault code)) =
    unknown_default-passes p m (code == unknown_device20)
classify-passes p m (failed (hidpp10_fault code)) =
    unknown_default-passes p m (code == unknown_device10)
classify-passes p m (failed (invalid_device asleep)) = (refl, inl refl)
classify-passes p m (failed (invalid_device no_hidpp_report)) = tt
classify-passes p m (failed (invalid_device invalid_raw_device)) = tt
classify-passes p m (failed (invalid_device virtual_node)) = tt
classify-passes p m (failed system_fault) = tt
classify-passes p m (failed timeout_fault) = (refl, inl refl)
classify-passes p m (failed not_ready_fault) = (refl, inl refl)
classify-passes p m (failed other_fault) = (refl, inr (inl refl))

add_device-passes :
    (ignore : Option (List ℕ)) (path : ℕ) (p : Probe) (m : Manager)
    → Harmless p m (add_device ignore path p m)
unfolding add_device
add_device-passes ignore path p m = elim (Outcome-cases p.raw) [
  | inr (fault, x) ↦
      let e : add_device ignore path p m ≡ ok (thrown fault, m) = rw (x, add_device) in
      subst (Harmless p m) (sym e) (refl, inr (inr (inl x)))
  | inl ((vendor, product), x) ↦ elim (Bool-cases (vendor == logitech_vendor_id)) [
    | inr other ↦
        let e : add_device ignore path p m ≡ ok (returned, m) = rw (x, add_device, other) in
        subst (Harmless p m) (sym e) (tt)
    | inl ours ↦ elim (Bool-cases (is_ignored ignore product)) [
      | inl skip ↦
          let e : add_device ignore path p m ≡ ok (returned, m) = rw (x, add_device, ours, skip) in
          subst (Harmless p m) (sym e) (tt)
      | inr try ↦
          let e : add_device ignore path p m ≡ add_found path p (classify p.version) m =
            rw (x, add_device, ours, try) in
          subst (Harmless p m) (sym e)
            (add_found-passes path p m (classify p.version) (classify-passes p m p.version))
    ]
  ]
]

-- An attempt that throws leaves the manager as it was. What it throws is DeviceNotReady, an
-- exception of no kind that is handled, or the fault of an object whose making no handler is round:
-- the raw device, the receiver or the default device.
pub add_device-thrown :
    (ignore : Option (List ℕ)) (path : ℕ) (p : Probe) (m : Manager) {fault : Fault} {m' : Manager}
    → add_device ignore path p m ≡ ok (thrown fault, m')
    → (m' ≡ m) × Passes p fault
add_device-thrown ignore path p m e = subst (Harmless p m) e (add_device-passes ignore path p m)
