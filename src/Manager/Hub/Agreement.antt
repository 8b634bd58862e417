-- ===== src/Manager/Hub/Agreement.antt =====
-- The agreement of the views is kept by what a receiver does with its devices.
use logiops.Prelude.{
  ℕ, ◌+◌, ◌≡◌, Bool, true, false, Option, none, some, List, [], ◌∷◌, ltb, arith, refl, ap, subst,
  Option-cases, Bool-cases, inl, inr, ◌⊎◌,
}
use logiops.Prelude.Exn.{Result, ok, err, >>=-eq-ok}
use logiops.Hidpp10.Receiver.{DeviceConnectionEvent}
use logiops.Prelude.Sets.{insert, contains}
use logiops.Manager.Maps.{
  find, emplace, remove, assign, total, total-emplace, total-assign, total_found,
}
use logiops.Manager.Devices.{
  Entry, Hub, Manager, device_added, emit, make_device, release_all, is_ignored, sleep_signals,
  Signal,
}
use logiops.Manager.Devices.Agreement.{
  Agrees, Gains, Gains-Agrees, Loses-Agrees, Keeps, Keeps-Agrees, known, is_entry, in_hub,
  known-sleep_signals, is_nickname,
}
use logiops.Manager.Devices.Steps.{Fresh, make_device-Fresh, Outcome-cases}
use logiops.Manager.Hub.{
  ChildProbe, ChildEnding, returned, wakeup_signals, known_child, make_child, new_child, add_child,
  remove_child, child_added, child_removed,
}

-- The receiver and the rest after a step that makes no device.
pub record Stays (r r' : Hub) (m m' : Manager) : Type 0 where
  pub names : m'.device_nicknames ≡ m.device_nicknames
  pub same_devices : m'.devices ≡ m.devices
  pub same_receivers : m'.receivers ≡ m.receivers
  pub same_children : (k : ℕ) → in_hub k r' ≡ in_hub k r
  pub same_known : (k : ℕ) → known k m'.signals ≡ known k m.signals

Stays-refl : (r : Hub) (m : Manager) → Stays r r m m
Stays-refl r m = record {
  names = refl;
  same_devices = refl;
  same_receivers = refl;
  same_children = λ k. refl;
  same_known = λ k. refl;
}

-- The receiver and the rest after a step that makes a device for it.
pub record Grows (n : ℕ) (r r' : Hub) (m m' : Manager) : Type 0 where
  pub free : contains n m.device_nicknames ≡ false
  pub names : m'.device_nicknames ≡ insert n m.device_nicknames
  pub same_devices : m'.devices ≡ m.devices
  pub same_receivers : m'.receivers ≡ m.receivers
  pub more_children : (k : ℕ) → in_hub k r' ≡ is_nickname k n + in_hub k r
  pub more_known : (k : ℕ) → known k m'.signals ≡ known k m.signals + is_nickname k n

-- The receiver is written back.
abbrev put_back : ℕ → Hub → Manager → Manager
put_back path r m = record m { receivers = assign path r m.receivers }

put_back-Keeps :
    (path : ℕ) {r r' : Hub} {m m' : Manager}
    → find path m.receivers ≡ some r
    → Stays r r' m m'
    → Keeps m (put_back path r' m')
put_back-Keeps path {r} {r'} {m} {m'} there s = record {
  names = s.names;
  same_held = λ k.
      rw (s.same_devices, s.same_receivers)
        (omega (arith, total-assign (in_hub k) path r' r m.receivers there, s.same_children k));
  same_known = s.same_known;
}

put_back-Gains :
    (path n : ℕ) {r r' : Hub} {m m' : Manager}
    → find path m.receivers ≡ some r
    → Grows n r r' m m'
    → Gains n m (put_back path r' m')
put_back-Gains path n {r} {r'} {m} {m'} there g = record {
  free = g.free;
  names = g.names;
  more_held = λ k.
      rw (g.same_devices, g.same_receivers)
        (omega (arith, total-assign (in_hub k) path r' r m.receivers there, g.more_children k));
  more_known = g.more_known;
}

assign-Stays :
    (index : ℕ) (d : Entry) (b : Bool) (r : Hub) (m : Manager) (signals : List Signal)
    → find index r.children ≡ some d
    → ((k : ℕ) → known k signals ≡ known k m.signals)
    → Stays r
        (record r { children = assign index (record d { awake = b }) r.children })
        m
        (record m { signals = signals })
assign-Stays index d b r m signals there h = record {
  names = refl;
  same_devices = refl;
  same_receivers = refl;
  same_children = λ k.
      omega (arith, total-assign (is_entry k) index (record d { awake = b }) d r.children there);
  same_known = h;
}

known-wakeup_signals :
    (k : ℕ) (d : Entry) (s : List Signal) → known k (wakeup_signals d s) ≡ known k s
unfolding known wakeup_signals
known-wakeup_signals k d s = ground arith

known_child-Stays :
    (event : DeviceConnectionEvent) (p : ChildProbe) (d : Entry) (r : Hub) (m : Manager)
    → find event.index r.children ≡ some d
    → Stays r (known_child event p d r m).1 m (known_child event p d r m).2
unfolding known_child
known_child-Stays event p d r m there = elim (Bool-cases event.from_timeout_check) [
  | inl yes_it ↦ rw (yes_it, known_child) (Stays-refl r m)
  | inr no_it ↦ elim (Bool-cases event.link_established) [
    | inl up ↦
        rw (no_it, up, known_child)
          (assign-Stays event.index d true r m (wakeup_signals d m.signals) there
            (λ k. known-wakeup_signals k d m.signals))
    | inr down ↦
        rw (no_it, down, known_child)
          (assign-Stays event.index d false r m (sleep_signals d m.signals) there
            (λ k. known-sleep_signals k d m.signals))
  ]
]

-- What `addDevice` of a receiver can do.
abbrev pub Changes : Hub → Hub → Manager → Manager → Type 0
Changes r r' m m' = Stays r r' m m' ⊎ ((n : ℕ) × Grows n r r' m m')

after_child : DeviceConnectionEvent → Hub → (Entry × Manager) → Result (ChildEnding × Hub × Manager)
after_child event r given = ok (
  returned,
  record r { children = emplace event.index given.0 r.children },
  emit (device_added given.0.nickname) given.1,
)

made_child-Grows :
    (event : DeviceConnectionEvent) (r : Hub) (d : Entry) (m m' : Manager)
    → find event.index r.children ≡ none
    → Fresh d m m'
    → Grows d.nickname r
        (record r { children = emplace event.index d r.children })
        m
        (emit (device_added d.nickname) m')
unfolding known
made_child-Grows event r d m m' new f = record {
  free = f.free;
  names = f.names;
  same_devices = f.same_devices;
  same_receivers = f.same_receivers;
  more_children = λ k. total-emplace (is_entry k) event.index d r.children new;
  more_known = λ k. rw f.same_signals (refl);
}

-- The parts of a result that is there.
hub_of : Hub → Result (ChildEnding × Hub × Manager) → Hub
hub_of r (ok (ending, r', m')) = r'
hub_of r (err e) = r

manager_of : Manager → Result (ChildEnding × Hub × Manager) → Manager
manager_of m (ok (ending, r', m')) = m'
manager_of m (err e) = m

-- A result that is known decides the change.
Changes-of :
    (r : Hub) (m : Manager) {result : Result (ChildEnding × Hub × Manager)} {ending : ChildEnding}
    {r' : Hub} {m' : Manager}
    → result ≡ ok (ending, r', m')
    → Changes r (hub_of r result) m (manager_of m result)
    → Changes r r' m m'
unfolding hub_of manager_of
Changes-of r m {result} {ending} {r'} {m'} e c =
    subst (λ x. Changes r (hub_of r x) m (manager_of m x)) e c

make_child-Changes :
    (event : DeviceConnectionEvent) (r : Hub) (m : Manager) {ending : ChildEnding} {r' : Hub}
    {m' : Manager} {unlisted apart : ℕ → ℕ}
    → find event.index r.children ≡ none
    → Agrees unlisted apart m
    → make_child event r m ≡ ok (ending, r', m')
    → Changes r r' m m'
unfolding make_child after_child hub_of manager_of
make_child-Changes event r m new a e =
    let ((d, m1), made_it, done) = >>=-eq-ok (make_device m) (after_child event r) e in
    Changes-of r m done (
      inr
        (d.nickname, made_child-Grows event r d m m1 new (make_device-Fresh m a.ascending made_it)))

new_child-Changes :
    (event : DeviceConnectionEvent) (p : ChildProbe) (r : Hub) (m : Manager) {ending : ChildEnding}
    {r' : Hub} {m' : Manager} {unlisted apart : ℕ → ℕ}
    → find event.index r.children ≡ none
    → Agrees unlisted apart m
    → new_child event p r m ≡ ok (ending, r', m')
    → Changes r r' m m'
unfolding new_child hub_of manager_of
new_child-Changes event p r m new a e = elim (Bool-cases event.link_established) [
  | inr down ↦ Changes-of r m (rw (down, new_child) at e) (inl (Stays-refl r m))
  | inl up ↦ elim (Outcome-cases p.version) [
    | inr (fault, x) ↦ Changes-of r m (rw (up, x, new_child) at e) (inl (Stays-refl r m))
    | inl ((major, minor), x) ↦ elim (Bool-cases (ltb major 2)) [
      | inl old ↦ Changes-of r m (rw (up, x, old, new_child) at e) (inl (Stays-refl r m))
      | inr modern ↦ elim (Outcome-cases p.device) [
        | inr (fault, y) ↦
            Changes-of r m (rw (up, x, modern, y, new_child) at e) (inl (Stays-refl r m))
        | inl (u, y) ↦ make_child-Changes event r m new a (rw (up, x, modern, y, new_child) at e)
      ]
    ]
  ]
]

pub add_child-Changes :
    (ignore : Option (List ℕ)) (event : DeviceConnectionEvent) (p : ChildProbe) (r : Hub)
    (m : Manager) {ending : ChildEnding} {r' : Hub} {m' : Manager} {unlisted apart : ℕ → ℕ}
    → Agrees unlisted apart m
    → add_child ignore event p r m ≡ ok (ending, r', m')
    → Changes r r' m m'
unfolding add_child hub_of manager_of
add_child-Changes ignore event p r m a e = elim (Bool-cases (is_ignored ignore event.pid)) [
  | inl skip ↦ Changes-of r m (rw (skip, add_child) at e) (inl (Stays-refl r m))
  | inr try ↦ elim (Option-cases (find event.index r.children)) [
    | inr (d, there) ↦
        Changes-of r m (rw (try, there, add_child) at e)
          (inl (known_child-Stays event p d r m there))
    | inl new ↦ new_child-Changes event p r m new a (rw (try, new, add_child) at e)
  ]
]

after_added : ℕ → (ChildEnding × Hub × Manager) → Result (ChildEnding × Manager)
after_added path given = ok (given.0, put_back path given.1 given.2)

end_of : Manager → Result (ChildEnding × Manager) → Manager
end_of m (ok (ending, m')) = m'
end_of m (err e) = m

-- `Receiver::addDevice`, however it ends.
pub child_added-Agrees :
    (ignore : Option (List ℕ)) (path : ℕ) (event : DeviceConnectionEvent) (p : ChildProbe)
    (m : Manager) {ending : ChildEnding} {m' : Manager} {unlisted apart : ℕ → ℕ}
    → child_added ignore path event p m ≡ ok (ending, m')
    → Agrees unlisted apart m
    → Agrees unlisted apart m'
unfolding child_added after_added end_of
child_added-Agrees ignore path event p m e a = elim (Option-cases (find path m.receivers)) [
  | inl no_receiver ↦ subst (Agrees _ _) (ap (end_of m) (rw (no_receiver, child_added) at e)) a
  | inr (r, there) ↦
      let ((ending, r', m1), added, done) =
        >>=-eq-ok (add_child ignore event p r m) (after_added path)
          (rw (there, child_added) at e) in
      subst (Agrees _ _) (ap (end_of m) done) (elim (add_child-Changes ignore event p r m a added) [
        | inl stays ↦ Keeps-Agrees (put_back-Keeps path there stays) a
        | inr (n, grows) ↦ Gains-Agrees (put_back-Gains path n there grows) a
      ])
]

-- `Receiver::removeDevice`.
pub child_removed-Agrees :
    (path index : ℕ) (m : Manager) {unlisted apart : ℕ → ℕ}
    → Agrees unlisted apart m
    → Agrees unlisted apart (child_removed path index m)
unfolding child_removed remove_child known release_all total
child_removed-Agrees path index m a = elim (Option-cases (find path m.receivers)) [
  | inl no_receiver ↦ rw (no_receiver, child_removed) a
  | inr (r, there) ↦ elim (Option-cases (find index r.children)) [
    | inl no_child ↦
        rw (there, no_child, child_removed, remove_child)
          (Keeps-Agrees (put_back-Keeps path there (Stays-refl r m)) a)
    | inr (d, child) ↦
        rw (there, child, child_removed, remove_child)
          (Loses-Agrees {ds = (index, d) ∷ []}
            (record {
              names = refl;
              less_held = λ k. omega (
                arith,
                total-assign (in_hub k) path (record r { children = remove index r.children }) r
                    m.receivers there,
                total_found (is_entry k) index d r.children child,
              );
              less_known = λ k. omega (arith, known-sleep_signals k d m.signals);
            })
            a)
  ]
]
