-- ===== src/Manager/Runs.antt =====
-- Devices and receivers that come and go, in any order, from the start of src/logid/DeviceManager.cpp.
-- `addDevice` is cut where other threads may come between: an object is made, with its nickname, and is
-- put in its map, under `_map_lock`, later. A receiver that is being made handles its devices already.
pub mod Kept
pub mod Apart
pub mod Views
pub mod Tests
use logiops.Prelude.{
  ℕ, ◌+◌, ◌≡◌, Bool, true, false, Option, none, some, List, [], ◌∷◌, arith, refl, from_bool, ◌∙◌,
  sym,
}
use logiops.Prelude.Exn.{Result, ok}
use logiops.Prelude.Sets.{erase, contains}
use logiops.Hidpp10.Receiver.{DeviceConnectionEvent}
use logiops.Manager.Nicknames.{new_receiver_nickname}
use logiops.Manager.Maps.{find, emplace, remove, assign, total}
use logiops.Manager.Devices.{
  Entry, Hub, Manager, Probe, Ending, add_device, remove_device, no_devices, make_device,
  keep_device, keep_receiver, removed_signals, release_all, emit, device_added,
}
use logiops.Manager.Hub.{
  ChildProbe, ChildEnding, add_child, remove_child, child_added, child_removed,
}

-- The manager, with the devices and the receivers that are made but in no map yet, by the calls that
-- make them.
pub record System : Type 0 where
  pub manager : Manager
  pub unlisted : List (ℕ × Entry)
  pub apart : List (ℕ × Hub)

abbrev pub nothing : System
nothing = record { manager = no_devices; unlisted = []; apart = [] }

-- `_devices.emplace(index, device); addExternalDevice(device);` of a receiver.
abbrev pub with_child : ℕ → Entry → Hub → Hub
with_child index d r = record r { children = emplace index d r.children }

-- The end of a receiver that is in no map: `~Receiver`, and the nicknames of its objects.
abbrev pub end_hub : Hub → Manager → Manager
end_hub r m = record m {
  device_nicknames = release_all r.children m.device_nicknames;
  receiver_nicknames = erase r.nickname m.receiver_nicknames;
  signals = removed_signals r.children m.signals;
}

pub data Step : System → System → Type 0 where
  -- `Device::make` in a call of `addDevice`, of the manager or of a receiver.
  make :
      {s : System} {d : Entry} {m : Manager} (call : ℕ)
      → find call s.unlisted ≡ none
      → make_device s.manager ≡ ok (d, m)
      → Step s (record s { manager = m; unlisted = emplace call d s.unlisted })
  -- The call puts the device at a path that has none.
  keep :
      {s : System} (call path : ℕ) (d : Entry)
      → find call s.unlisted ≡ some d
      → find path s.manager.devices ≡ none
      → Step s
          (record s { manager = keep_device path d s.manager; unlisted = remove call s.unlisted })
  -- It puts the device in the receiver at a path, under an index that has none.
  keep_in :
      {s : System} (call path index : ℕ) (d : Entry) (r : Hub)
      → find call s.unlisted ≡ some d
      → find path s.manager.receivers ≡ some r
      → find index r.children ≡ none
      → Step s (record s {
        manager = emit (device_added d.nickname) (record (s.manager) {
          receivers = assign path (with_child index d r) s.manager.receivers;
        });
        unlisted = remove call s.unlisted;
      })
  -- It puts the device in a receiver that is still being made.
  keep_apart :
      {s : System} (call hub index : ℕ) (d : Entry) (r : Hub)
      → find call s.unlisted ≡ some d
      → find hub s.apart ≡ some r
      → find index r.children ≡ none
      → Step s (record {
        manager = emit (device_added d.nickname) s.manager;
        unlisted = remove call s.unlisted;
        apart = assign hub (with_child index d r) s.apart;
      })
  -- The construction of a receiver.
  make_hub :
      {s : System} {n : ℕ} {names : List ℕ} (hub : ℕ)
      → find hub s.apart ≡ none
      → new_receiver_nickname s.manager.receiver_nicknames ≡ ok (n, names)
      → Step s (record s {
        manager = record (s.manager) { receiver_nicknames = names };
        apart = emplace hub (record { nickname = n; children = [] }) s.apart;
      })
  -- A receiver that is being made handles a connection, or loses a device.
  adds_apart :
      {s : System} {ending : ChildEnding} {r' : Hub} {m : Manager} (hub : ℕ)
      (ignore : Option (List ℕ)) (event : DeviceConnectionEvent) (p : ChildProbe) (r : Hub)
      → find hub s.apart ≡ some r
      → add_child ignore event p r s.manager ≡ ok (ending, r', m)
      → Step s (record s { manager = m; apart = assign hub r' s.apart })
  drops_apart :
      {s : System} (hub index : ℕ) (r : Hub)
      → find hub s.apart ≡ some r
      → Step s (record s {
        manager = (remove_child index r s.manager).1;
        apart = assign hub (remove_child index r s.manager).0 s.apart;
      })
  -- Its making throws.
  fails :
      {s : System} (hub : ℕ) (r : Hub)
      → find hub s.apart ≡ some r
      → Step s (record s { manager = end_hub r s.manager; apart = remove hub s.apart })
  -- It is put at a path that has none.
  keep_hub :
      {s : System} (hub path : ℕ) (r : Hub)
      → find hub s.apart ≡ some r
      → find path s.manager.receivers ≡ none
      → Step s (record s { manager = keep_receiver path r s.manager; apart = remove hub s.apart })
  -- `addDevice` at a path that has no device yet, where nothing comes between.
  add :
      {s : System} {m : Manager} {ending : Ending} (ignore : Option (List ℕ)) (path : ℕ) (p : Probe)
      → find path s.manager.devices ≡ none
      → add_device ignore path p s.manager ≡ ok (ending, m)
      → Step s (record s { manager = m })
  -- `removeDevice`.
  drop : {s : System} (path : ℕ) → Step s (record s { manager = remove_device path s.manager })
  -- The receiver at a path handles a connection, or loses a device.
  add_to :
      {s : System} {m : Manager} {ending : ChildEnding} (ignore : Option (List ℕ)) (path : ℕ)
      (event : DeviceConnectionEvent) (p : ChildProbe)
      → child_added ignore path event p s.manager ≡ ok (ending, m)
      → Step s (record s { manager = m })
  drop_from :
      {s : System} (path index : ℕ)
      → Step s (record s { manager = child_removed path index s.manager })

-- The states that the manager can come to.
pub data Reaches : System → Type 0 where
  start : Reaches nothing
  next : {s s' : System} → Reaches s → Step s s' → Reaches s'
