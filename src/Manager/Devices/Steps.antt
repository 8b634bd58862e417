-- ===== src/Manager/Devices/Steps.antt =====
-- The agreement of the views is kept when a device or a receiver is added.
use logiops.Prelude.{
  ℕ, ◌≡◌, true, false, Option, none, List, [], ◌==◌, arith, refl, ◌∙◌, ap, Option-cases, inl, inr,
  subst, ◌⊎◌, Bool-cases,
}
use logiops.Prelude.Exn.{Result, ok, err, >>=-eq-ok}
use logiops.Prelude.Sets.{insert, contains}
use logiops.Manager.Nicknames.{new_device_nickname, new_receiver_nickname}
use logiops.Prelude.Sets.{AscendsFrom}
use logiops.Manager.Nicknames.Least.{first_missing_free, new_device_nickname-free}
use logiops.Manager.Maps.{find, emplace, total, total-emplace}
use logiops.Manager.Devices.{
  Entry, Manager, Fault, Outcome, made, failed, Probe, Ending, Found, receiver_there, default_there,
  corded_maybe, leave, device_added, make_device, keep_device, keep_receiver, add_made_device,
  add_made_receiver, add_found, add_device, emit, classify, is_ignored, returned,
  logitech_vendor_id,
}
use logiops.Manager.Devices.Agreement.{
  Agrees, Gains, Gains-Agrees, Keeps, Keeps-Agrees, known, is_entry, in_hub,
}

-- A device that was made: its nickname was free.
pub record Fresh (d : Entry) (m m' : Manager) : Type 0 where
  pub free : contains d.nickname m.device_nicknames ≡ false
  pub names : m'.device_nicknames ≡ insert d.nickname m.device_nicknames
  pub same_devices : m'.devices ≡ m.devices
  pub same_receivers : m'.receivers ≡ m.receivers
  pub same_signals : m'.signals ≡ m.signals

after_nickname : Manager → (ℕ × List ℕ) → Result (Entry × Manager)
after_nickname m given =
    ok (record { nickname = given.0; awake = true }, record m { device_nicknames = given.1 })

pub make_device-Fresh :
    (m : Manager) {d : Entry} {m' : Manager}
    → AscendsFrom 0 m.device_nicknames
    → make_device m ≡ ok (d, m')
    → Fresh d m m'
unfolding make_device after_nickname
make_device-Fresh m a e =
    let ((n, names), chosen, done) =
      >>=-eq-ok (new_device_nickname m.device_nicknames) (after_nickname m) e in
    ground (
      arith,
      new_device_nickname-free m.device_nicknames a chosen,
      first_missing_free 0 m.device_nicknames a,
    )

pub kept_new :
    (path : ℕ) (d : Entry) (m : Manager)
    → find path m.devices ≡ none
    → keep_device path d m
      ≡ emit (device_added d.nickname) (record m { devices = emplace path d m.devices })
unfolding keep_device
kept_new path d m h = rw (h, keep_device)

-- The device takes its entry and is announced.
pub keep_device-Gains :
    (path : ℕ) (m : Manager) {d : Entry} {m' : Manager}
    → Fresh d m m'
    → find path m.devices ≡ none
    → Gains d.nickname m (keep_device path d m')
unfolding known
keep_device-Gains path m {d} {m'} f h =
    rw (kept_new path d m' (ap (find path) f.same_devices ∙ h)) (record {
      free = f.free;
      names = f.names;
      more_held = λ k.
          rw (f.same_devices, f.same_receivers)
            (omega (arith, total-emplace (is_entry k) path d m.devices h));
      more_known = λ k. rw f.same_signals (refl);
    })

pub after_device : ℕ → (Entry × Manager) → Result (Ending × Manager)
after_device path given = ok (returned, keep_device path given.0 given.1)

end_of : Manager → Result (Ending × Manager) → Manager
end_of m (ok (ending, m')) = m'
end_of m (err e) = m

add_made_device-Agrees :
    (path : ℕ) (m : Manager) {ending : Ending} {m' : Manager} {unlisted apart : ℕ → ℕ}
    → find path m.devices ≡ none
    → add_made_device path m ≡ ok (ending, m')
    → Agrees unlisted apart m
    → Agrees unlisted apart m'
unfolding add_made_device after_device end_of
add_made_device-Agrees path m h e a =
    let ((d, m1), made_it, done) = >>=-eq-ok (make_device m) (after_device path) e in
    subst (Agrees _ _) (ap (end_of m) done)
      (Gains-Agrees (keep_device-Gains path m (make_device-Fresh m a.ascending made_it) h) a)

-- A new receiver holds no devices.
keep_receiver-Keeps :
    (path n : ℕ) (m : Manager) (names : List ℕ)
    → Keeps m (
        keep_receiver path
          (record { nickname = n; children = [] })
          (record m { receiver_nicknames = names }))
unfolding keep_receiver known total
keep_receiver-Keeps path n m names = elim (Option-cases (find path m.receivers)) [
  | inl new ↦
      rw (new, keep_receiver)
        (record {
          names = refl;
          same_held = λ k. omega (
            arith,
            total-emplace (in_hub k) path (record { nickname = n; children = [] }) m.receivers new,
          );
          same_known = λ k. refl;
        })
  | inr (r, old) ↦
      rw (old, keep_receiver)
        (record { names = refl; same_held = λ k. refl; same_known = λ k. refl })
]

pub after_receiver : ℕ → Manager → (ℕ × List ℕ) → Result (Ending × Manager)
after_receiver path m given = ok (
  returned,
  keep_receiver path (record { nickname = given.0; children = [] })
      (record m { receiver_nicknames = given.1 }),
)

add_made_receiver-Agrees :
    (path : ℕ) (m : Manager) {ending : Ending} {m' : Manager} {unlisted apart : ℕ → ℕ}
    → add_made_receiver path m ≡ ok (ending, m')
    → Agrees unlisted apart m
    → Agrees unlisted apart m'
unfolding add_made_receiver after_receiver end_of
add_made_receiver-Agrees path m e a =
    let ((n, names), made_it, done) =
      >>=-eq-ok (new_receiver_nickname m.receiver_nicknames) (after_receiver path m) e in
    subst (Agrees _ _) (ap (end_of m) done) (Keeps-Agrees (keep_receiver-Keeps path n m names) a)

pub Outcome-cases {ℓ} :
    {A : Type ℓ} (o : Outcome A) → ((a : A) × (o ≡ made a)) ⊎ ((fault : Fault) × (o ≡ failed fault))
Outcome-cases (made a) = inl (a, refl)
Outcome-cases (failed fault) = inr (fault, refl)

add_found-Agrees :
    (path : ℕ) (p : Probe) (found : Found) (m : Manager) {ending : Ending} {m' : Manager}
    {unlisted apart : ℕ → ℕ}
    → find path m.devices ≡ none
    → add_found path p found m ≡ ok (ending, m')
    → Agrees unlisted apart m
    → Agrees unlisted apart m'
unfolding end_of add_found
add_found-Agrees path p receiver_there m h e a = elim (Outcome-cases p.receiver) [
  | inl (u, x) ↦ add_made_receiver-Agrees path m (rw (x, add_found) at e) a
  | inr (fault, x) ↦ subst (Agrees _ _) (ap (end_of m) (rw (x, add_found) at e)) a
]
add_found-Agrees path p default_there m h e a = elim (Outcome-cases p.default_device) [
  | inl (u, x) ↦ add_made_device-Agrees path m h (rw (x, add_found) at e) a
  | inr (fault, x) ↦ subst (Agrees _ _) (ap (end_of m) (rw (x, add_found) at e)) a
]
add_found-Agrees path p corded_maybe m h e a = elim (Outcome-cases p.corded_device) [
  | inl (u, x) ↦ add_made_device-Agrees path m h (rw (x, add_found) at e) a
  | inr (fault, x) ↦ subst (Agrees _ _) (ap (end_of m) (rw (x, add_found) at e)) a
]
add_found-Agrees path p (leave ending) m h e a = subst (Agrees _ _) (ap (end_of m) e) a

-- An attempt at a path that has no device keeps the agreement, however it ends.
pub add_device-Agrees :
    (ignore : Option (List ℕ)) (path : ℕ) (p : Probe) (m : Manager) {ending : Ending} {m' : Manager}
    {unlisted apart : ℕ → ℕ}
    → find path m.devices ≡ none
    → add_device ignore path p m ≡ ok (ending, m')
    → Agrees unlisted apart m
    → Agrees unlisted apart m'
unfolding end_of add_device
add_device-Agrees ignore path p m h e a = elim (Outcome-cases p.raw) [
  | inr (fault, x) ↦ subst (Agrees _ _) (ap (end_of m) (rw (x, add_device) at e)) a
  | inl ((vendor, product), x) ↦ elim (Bool-cases (vendor == logitech_vendor_id)) [
    | inr other ↦ subst (Agrees _ _) (ap (end_of m) (rw (x, add_device, other) at e)) a
    | inl ours ↦ elim (Bool-cases (is_ignored ignore product)) [
      | inl skip ↦ subst (Agrees _ _) (ap (end_of m) (rw (x, add_device, ours, skip) at e)) a
      | inr try ↦
          add_found-Agrees path p (classify p.version) m h (rw (x, add_device, ours, try) at e) a
    ]
  ]
]
