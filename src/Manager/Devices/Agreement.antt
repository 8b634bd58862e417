-- ===== src/Manager/Devices/Agreement.antt =====
-- Three views of the devices: the list that `Enumerate` gives, the nicknames that are taken, and
-- what a listener on the bus has left after the signals it heard. Each is counted by the nickname.
use logiops.Prelude.{
  ℕ, ◌+◌, ◌-◌, ◌≡◌, false, List, [], ◌∷◌, ◌++◌, ◌==◌, if◌then◌else◌, from_bool, arith, refl, ◌∙◌,
}
use logiops.Prelude.Sets.{insert, erase, contains}
use logiops.Prelude.Sets.{
  AscendsFrom, insert-AscendsFrom, contains-insert, erase-AscendsFrom, contains-erase,
}
use logiops.Manager.Maps.{total}
use logiops.Manager.Devices.{
  Entry, Hub, Manager, Signal, device_added, device_removed, receiver_added, receiver_removed,
  status_changed, sleep_signals, sleep_all, removed_signals, release_all, nicknames_of, children_of,
  list_devices,
}

abbrev pub is_nickname : ℕ → ℕ → ℕ
is_nickname k n = if k == n then 1 else 0

abbrev pub is_entry : ℕ → Entry → ℕ
is_entry k d = is_nickname k d.nickname

abbrev pub in_hub : ℕ → Hub → ℕ
in_hub k r = total (is_entry k) r.children

-- How often a list names `k`.
abbrev pub count : ℕ → List ℕ → ℕ
count k [] = 0
count k (n ∷ rest) = is_nickname k n + count k rest

-- Devices of the nickname that a listener knows of.
unfoldable pub known : ℕ → List Signal → ℕ
known k [] = 0
known k (device_added n ∷ rest) = known k rest + is_nickname k n
known k (device_removed n ∷ rest) = known k rest - is_nickname k n
known k (receiver_added n ∷ rest) = known k rest
known k (receiver_removed n ∷ rest) = known k rest
known k (status_changed n b ∷ rest) = known k rest

-- Devices of the nickname that the manager holds.
abbrev pub held : ℕ → Manager → ℕ
held k m = total (is_entry k) m.devices + total (in_hub k) m.receivers

-- The views agree, where `unlisted` counts the devices that have a nickname but are in no map yet, and
-- `apart` those of receivers that are in no map yet: each nickname is that of one device or of none,
-- which is there exactly if the nickname is taken; those that are in the maps or of such receivers
-- are known.
pub record Agrees (unlisted apart : ℕ → ℕ) (m : Manager) : Type 0 where
  pub ascending : AscendsFrom 0 m.device_nicknames
  pub taken :
      (k : ℕ) → held k m + (unlisted k + apart k) ≡ from_bool (contains k m.device_nicknames)
  pub announced : (k : ℕ) → known k m.signals ≡ held k m + apart k

count-append : (k : ℕ) (xs ys : List ℕ) → count k (xs ++ ys) ≡ count k xs + count k ys
count-append k [] ys = omega arith
count-append k (x ∷ xs) ys = omega (arith, count-append k xs ys)

count-nicknames_of :
    (k : ℕ) (ds : List (ℕ × Entry)) → count k (nicknames_of ds) ≡ total (is_entry k) ds
unfolding nicknames_of total
count-nicknames_of k [] = refl
count-nicknames_of k ((i, d) ∷ rest) = omega (arith, count-nicknames_of k rest)

count-children_of : (k : ℕ) (rs : List (ℕ × Hub)) → count k (children_of rs) ≡ total (in_hub k) rs
unfolding children_of total
count-children_of k [] = refl
count-children_of k ((i, r) ∷ rest) = omega (
  arith,
  count-append k (nicknames_of r.children) (children_of rest),
  count-nicknames_of k r.children,
  count-children_of k rest,
)

pub count-list_devices : (k : ℕ) (m : Manager) → count k (list_devices m) ≡ held k m
unfolding list_devices
count-list_devices k m = omega (
  arith,
  count-append k (nicknames_of m.devices) (children_of m.receivers),
  count-nicknames_of k m.devices,
  count-children_of k m.receivers,
)

-- Sleeping is not a removal.
pub known-sleep_signals :
    (k : ℕ) (d : Entry) (s : List Signal) → known k (sleep_signals d s) ≡ known k s
unfolding known sleep_signals
known-sleep_signals k d s = ground arith

pub known-sleep_all :
    (k : ℕ) (ds : List (ℕ × Entry)) (s : List Signal) → known k (sleep_all ds s) ≡ known k s
unfolding sleep_all
known-sleep_all k [] s = refl
known-sleep_all k ((i, d) ∷ rest) s =
    known-sleep_all k rest (sleep_signals d s) ∙ known-sleep_signals k d s

pub known-removed_signals :
    (k : ℕ) (ds : List (ℕ × Entry)) (s : List Signal)
    → known k (removed_signals ds s) ≡ known k s - total (is_entry k) ds
unfolding removed_signals known total
known-removed_signals k [] s = omega arith
known-removed_signals k ((i, d) ∷ rest) s =
    omega (arith, known-removed_signals k rest (device_removed d.nickname ∷ s))

pub release_all-AscendsFrom :
    (ds : List (ℕ × Entry)) (names : List ℕ)
    → AscendsFrom 0 names
    → AscendsFrom 0 (release_all ds names)
unfolding release_all
release_all-AscendsFrom [] names a = a
release_all-AscendsFrom ((i, d) ∷ rest) names a =
    release_all-AscendsFrom rest (erase d.nickname names) (erase-AscendsFrom 0 d.nickname names a)

pub erased :
    (k n : ℕ) (names : List ℕ)
    → AscendsFrom 0 names
    → from_bool (contains k (erase n names)) ≡ from_bool (contains k names) - is_nickname k n
erased k n names a = ground (arith, contains-erase k n 0 names a)

pub released :
    (k : ℕ) (ds : List (ℕ × Entry)) (names : List ℕ)
    → AscendsFrom 0 names
    → from_bool (contains k (release_all ds names))
      ≡ from_bool (contains k names) - total (is_entry k) ds
unfolding release_all total
released k [] names a = omega arith
released k ((i, d) ∷ rest) names a = omega (
  arith,
  released k rest (erase d.nickname names) (erase-AscendsFrom 0 d.nickname names a),
  erased k d.nickname names a,
)

pub taken_more :
    (k n : ℕ) (names : List ℕ)
    → contains n names ≡ false
    → from_bool (contains k (insert n names)) ≡ is_nickname k n + from_bool (contains k names)
taken_more k n names h = ground (arith, contains-insert k n names)

-- What a step that adds a device does to the views.
pub record Gains (n : ℕ) (m m' : Manager) : Type 0 where
  pub free : contains n m.device_nicknames ≡ false
  pub names : m'.device_nicknames ≡ insert n m.device_nicknames
  pub more_held : (k : ℕ) → held k m' ≡ is_nickname k n + held k m
  pub more_known : (k : ℕ) → known k m'.signals ≡ known k m.signals + is_nickname k n

pub Gains-Agrees :
    {n : ℕ} {m m' : Manager} {unlisted apart : ℕ → ℕ}
    → Gains n m m'
    → Agrees unlisted apart m
    → Agrees unlisted apart m'
Gains-Agrees {n} {m} {m'} g a = record {
  ascending = rw g.names (insert-AscendsFrom 0 n m.device_nicknames (omega arith) a.ascending);
  taken = λ k.
      rw g.names
        (omega (arith, g.more_held k, a.taken k, taken_more k n m.device_nicknames g.free));
  announced = λ k. omega (arith, g.more_known k, g.more_held k, a.announced k);
}

-- What a step does that takes devices away; `ds` are those that went.
pub record Loses (ds : List (ℕ × Entry)) (m m' : Manager) : Type 0 where
  pub names : m'.device_nicknames ≡ release_all ds m.device_nicknames
  pub less_held : (k : ℕ) → held k m' + total (is_entry k) ds ≡ held k m
  pub less_known : (k : ℕ) → known k m'.signals ≡ known k m.signals - total (is_entry k) ds

pub Loses-Agrees :
    {ds : List (ℕ × Entry)} {m m' : Manager} {unlisted apart : ℕ → ℕ}
    → Loses ds m m'
    → Agrees unlisted apart m
    → Agrees unlisted apart m'
Loses-Agrees {ds} {m} {m'} l a = record {
  ascending = rw l.names (release_all-AscendsFrom ds m.device_nicknames a.ascending);
  taken = λ k.
      rw l.names
        (omega (arith, l.less_held k, a.taken k, released k ds m.device_nicknames a.ascending));
  announced = λ k. omega (arith, l.less_known k, l.less_held k, a.announced k);
}

-- A step that leaves the devices and what is known of them.
pub record Keeps (m m' : Manager) : Type 0 where
  pub names : m'.device_nicknames ≡ m.device_nicknames
  pub same_held : (k : ℕ) → held k m' ≡ held k m
  pub same_known : (k : ℕ) → known k m'.signals ≡ known k m.signals

pub Keeps-Agrees :
    {m m' : Manager} {unlisted apart : ℕ → ℕ}
    → Keeps m m'
    → Agrees unlisted apart m
    → Agrees unlisted apart m'
Keeps-Agrees {m} {m'} s a = record {
  ascending = rw s.names a.ascending;
  taken = λ k. rw s.names (omega (arith, s.same_held k, a.taken k));
  announced = λ k. omega (arith, s.same_known k, s.same_held k, a.announced k);
}
