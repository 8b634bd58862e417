-- ===== src/Manager/Devices.antt =====
-- src/logid/DeviceManager.cpp: which devices and receivers are there, and what is announced of them on
-- the bus. A path is a number, in the order of the paths. A device is its nickname and whether it is
-- awake; a receiver holds a map of devices by their index. An object dies with its entry.
pub mod Agreement
pub mod Steps
pub mod Removal
pub mod Failures
pub mod Retries
pub mod Tests
use logiops.Prelude.{
  ℕ, suc, ◌+◌, ◌*◌, ◌^◌, Bool, true, false, not, ◌&&◌, Option, none, some, List, [], ◌∷◌, ◌++◌, map,
  ◌==◌, ltb, if◌then◌else◌,
}
use logiops.Prelude.Exn.{Result, ok, err, ◌>>=◌}
use logiops.Prelude.Sets.{erase, contains}
use logiops.Manager.Nicknames.{new_device_nickname, new_receiver_nickname}
use logiops.Manager.Maps.{find, emplace, remove}

abbrev pub logitech_vendor_id : ℕ
logitech_vendor_id = 0x046d

-- `hidpp10::Error::UnknownDevice` and `hidpp20::Error::UnknownDevice`.
abbrev pub unknown_device10 : ℕ
unknown_device10 = 8

abbrev pub unknown_device20 : ℕ
unknown_device20 = 10

-- `hidpp::Device::InvalidDevice::Reason`.
pub data Reason : Type 0 where
  no_hidpp_report invalid_raw_device asleep virtual_node : Reason

-- What the making of an object may throw.
pub data Fault : Type 0 where
  hidpp20_fault : ℕ → Fault
  hidpp10_fault : ℕ → Fault
  invalid_device : Reason → Fault
  system_fault : Fault
  timeout_fault : Fault
  -- `DeviceNotReady`.
  not_ready_fault : Fault
  other_fault : Fault

pub data Outcome {ℓ} (A : Type ℓ) : Type ℓ where
  made : A → Outcome A
  failed : Fault → Outcome A

pub record Entry : Type 0 where
  pub nickname : ℕ
  pub awake : Bool

-- A receiver, with `_devices`.
pub record Hub : Type 0 where
  pub nickname : ℕ
  pub children : List (ℕ × Entry)

-- The signals on the bus, by the nicknames of the nodes.
pub data Signal : Type 0 where
  device_added : ℕ → Signal
  device_removed : ℕ → Signal
  receiver_added : ℕ → Signal
  receiver_removed : ℕ → Signal
  status_changed : ℕ → Bool → Signal

-- `signals` holds the latest first.
pub record Manager : Type 0 where
  pub devices : List (ℕ × Entry)
  pub receivers : List (ℕ × Hub)
  pub device_nicknames : List ℕ
  pub receiver_nicknames : List ℕ
  pub signals : List Signal

abbrev pub no_devices : Manager
no_devices = record {
  devices = [];
  receivers = [];
  device_nicknames = [];
  receiver_nicknames = [];
  signals = [];
}

abbrev pub emit : Signal → Manager → Manager
emit signal m = record m { signals = signal ∷ m.signals }

-- `Device::make` that succeeds: the device takes a nickname.
unfoldable pub make_device : Manager → Result (Entry × Manager)
make_device m = do
  (n, names) ← new_device_nickname m.device_nicknames
  ok (record { nickname = n; awake = true }, record m { device_nicknames = names })

-- `_devices.emplace(path, device); deviceAdded(device);`, and the end of the device if it has no
-- entry.
unfoldable pub keep_device : ℕ → Entry → Manager → Manager
keep_device path d m = elim (find path m.devices) [
  | none ↦ emit (device_added d.nickname) (record m { devices = emplace path d m.devices })
  | some old ↦
      emit (device_added d.nickname)
        (record m { device_nicknames = erase d.nickname m.device_nicknames })
]

unfoldable pub keep_receiver : ℕ → Hub → Manager → Manager
keep_receiver path r m = elim (find path m.receivers) [
  | none ↦ emit (receiver_added r.nickname) (record m { receivers = emplace path r m.receivers })
  | some old ↦
      emit (receiver_added r.nickname)
        (record m { receiver_nicknames = erase r.nickname m.receiver_nicknames })
]

-- What `addDevice` learns of a path: the vendor and product of the raw device, the version of the
-- default device, and how the making of each object ends.
pub record Probe : Type 0 where
  pub raw : Outcome (ℕ × ℕ)
  pub version : Outcome (ℕ × ℕ)
  pub receiver : Outcome (Unit {0})
  pub default_device : Outcome (Unit {0})
  pub corded_device : Outcome (Unit {0})

-- How `addDevice` ends: it returns, or it throws.
pub data Ending : Type 0 where
  returned : Ending
  thrown : Fault → Ending

-- After the `try` block of the default device.
pub data Found : Type 0 where
  receiver_there default_there corded_maybe : Found
  leave : Ending → Found

unfoldable pub classify : Outcome (ℕ × ℕ) → Found
classify (made (major, minor)) =
    if (major == 1) && (minor == 0) then receiver_there else default_there
classify (failed (hidpp20_fault code)) =
    if code == unknown_device20 then corded_maybe else leave (thrown not_ready_fault)
classify (failed (hidpp10_fault code)) =
    if code == unknown_device10 then corded_maybe else leave (thrown not_ready_fault)
classify (failed (invalid_device asleep)) = leave (thrown not_ready_fault)
classify (failed (invalid_device reason)) = leave returned
classify (failed system_fault) = leave returned
classify (failed timeout_fault) = leave (thrown not_ready_fault)
classify (failed fault) = leave (thrown fault)

-- The handlers round the device with the index of a corded device.
unfoldable pub corded_handlers : Fault → Ending
corded_handlers (hidpp10_fault code) =
    if code == unknown_device10 then returned else thrown not_ready_fault
corded_handlers (hidpp20_fault code) =
    if code == unknown_device20 then returned else thrown not_ready_fault
corded_handlers (invalid_device asleep) = thrown not_ready_fault
corded_handlers (invalid_device reason) = returned
corded_handlers system_fault = returned
corded_handlers timeout_fault = thrown not_ready_fault
corded_handlers fault = thrown fault

unfoldable pub add_made_device : ℕ → Manager → Result (Ending × Manager)
unfolding make_device keep_device
add_made_device path m = do (d, m') ← make_device m; ok (returned, keep_device path d m')

unfoldable pub add_made_receiver : ℕ → Manager → Result (Ending × Manager)
unfolding keep_receiver
add_made_receiver path m = do
  (n, names) ← new_receiver_nickname m.receiver_nicknames
  ok (
    returned,
    keep_receiver path (record { nickname = n; children = [] })
        (record m { receiver_nicknames = names }),
  )

unfoldable pub add_found : ℕ → Probe → Found → Manager → Result (Ending × Manager)
unfolding add_made_device add_made_receiver corded_handlers
add_found path p receiver_there m = elim p.receiver [
  | made _ ↦ add_made_receiver path m
  | failed fault ↦ ok (thrown fault, m)
]
add_found path p default_there m = elim p.default_device [
  | made _ ↦ add_made_device path m
  | failed fault ↦ ok (thrown fault, m)
]
add_found path p corded_maybe m = elim p.corded_device [
  | made _ ↦ add_made_device path m
  | failed fault ↦ ok (corded_handlers fault, m)
]
add_found path p (leave ending) m = ok (ending, m)

-- `config()->ignore`.
abbrev pub is_ignored : Option (List ℕ) → ℕ → Bool
is_ignored none pid = false
is_ignored (some pids) pid = contains pid pids

-- `DeviceManager::addDevice`, where nothing comes between the making of an object and its entry.
unfoldable pub add_device : Option (List ℕ) → ℕ → Probe → Manager → Result (Ending × Manager)
unfolding classify add_found contains
add_device ignore path p m = elim p.raw [
  | failed fault ↦ ok (thrown fault, m)
  | made (vendor, product) ↦
      if not (vendor == logitech_vendor_id)
      then ok (returned, m)
      else (if is_ignored ignore product
          then ok (returned, m)
          else add_found path p (classify p.version) m)
]

-- `Device::sleep`, as far as it shows: a device that is awake says that it is not.
unfoldable pub sleep_signals : Entry → List Signal → List Signal
sleep_signals d signals = if d.awake then status_changed d.nickname false ∷ signals else signals

unfoldable pub sleep_all : List (ℕ × Entry) → List Signal → List Signal
unfolding sleep_signals
sleep_all [] signals = signals
sleep_all ((i, d) ∷ rest) signals = sleep_all rest (sleep_signals d signals)

-- `~Receiver`, and the end of the devices that it held.
unfoldable pub removed_signals : List (ℕ × Entry) → List Signal → List Signal
removed_signals [] signals = signals
removed_signals ((i, d) ∷ rest) signals = removed_signals rest (device_removed d.nickname ∷ signals)

unfoldable pub release_all : List (ℕ × Entry) → List ℕ → List ℕ
release_all [] names = names
release_all ((i, d) ∷ rest) names = release_all rest (erase d.nickname names)

-- `DeviceManager::removeDevice`.
unfoldable pub remove_device : ℕ → Manager → Manager
unfolding sleep_signals sleep_all removed_signals release_all
remove_device path m = elim (find path m.receivers) [
  | some r ↦ record m {
    receivers = remove path m.receivers;
    device_nicknames = release_all r.children m.device_nicknames;
    receiver_nicknames = erase r.nickname m.receiver_nicknames;
    signals =
        removed_signals r.children (receiver_removed r.nickname ∷ sleep_all r.children m.signals);
  }
  | none ↦ elim (find path m.devices) [
    | some d ↦ record m {
      devices = remove path m.devices;
      device_nicknames = erase d.nickname m.device_nicknames;
      signals = device_removed d.nickname ∷ sleep_signals d m.signals;
    }
    | none ↦ m
  ]
]

unfoldable pub nicknames_of : List (ℕ × Entry) → List ℕ
nicknames_of [] = []
nicknames_of ((i, d) ∷ rest) = d.nickname ∷ nicknames_of rest

unfoldable pub children_of : List (ℕ × Hub) → List ℕ
unfolding nicknames_of
children_of [] = []
children_of ((i, r) ∷ rest) = nicknames_of r.children ++ children_of rest

-- `DeviceManager::listDevices` and `listReceivers`, by the nicknames.
unfoldable pub list_devices : Manager → List ℕ
unfolding nicknames_of children_of
list_devices m = nicknames_of m.devices ++ children_of m.receivers

unfoldable pub list_receivers : Manager → List ℕ
list_receivers m = map (λ e. e.1.nickname) m.receivers
