-- ===== src/Manager/Hub.antt =====
-- src/logid/Receiver.cpp: the devices of a receiver, and what becomes of an attempt to add one in
-- src/logid/backend/hidpp10/ReceiverMonitor.cpp.
pub mod Agreement
pub mod Waiting
pub mod Tests
use logiops.Prelude.{
  ℕ, ◌+◌, Bool, true, false, not, ◌&&◌, Option, none, some, List, [], ◌∷◌, ◌++◌, ◌==◌, ltb,
  if◌then◌else◌,
}
use logiops.Prelude.Exn.{Result, ok, err, ◌>>=◌}
use logiops.Hidpp10.Receiver.{DeviceConnectionEvent}
use logiops.Hidpp10.ReceiverMonitor.Adding.{
  Adder, Attempt, added, not_ready, failed, add_handler, wait_for_device,
}
use logiops.Manager.Maps.{find, emplace, remove, assign}
use logiops.Prelude.Sets.{erase}
use logiops.Manager.Devices.{
  Entry, Hub, Manager, Fault, Outcome, made, Signal, device_added, device_removed, status_changed,
  emit, make_device, sleep_signals, is_ignored, unknown_device10, unknown_device20, hidpp10_fault,
  hidpp20_fault, timeout_fault, not_ready_fault, invalid_device,
}
use logiops.Manager.Devices

-- What `addDevice` learns of a device: its version, how the making of the device ends, and how the
-- configuration ends that `wakeup` sends.
pub record ChildProbe : Type 0 where
  pub version : Outcome (ℕ × ℕ)
  pub device : Outcome (Unit {0})
  pub wakeup : Outcome (Unit {0})

-- How `Receiver::addDevice` ends: it returns, returns after `waitForDevice`, or throws.
pub data ChildEnding : Type 0 where
  returned waiting : ChildEnding
  thrown : Fault → ChildEnding

-- The handlers of `Receiver::addDevice`.
unfoldable pub child_handlers : DeviceConnectionEvent → Fault → ChildEnding
child_handlers event (hidpp10_fault code) =
    if event.from_timeout_check && (code == unknown_device10)
    then thrown not_ready_fault
    else returned
child_handlers event (hidpp20_fault code) =
    if event.from_timeout_check && (code == unknown_device20)
    then thrown not_ready_fault
    else returned
child_handlers event timeout_fault =
    if event.from_timeout_check then thrown not_ready_fault else waiting
child_handlers event fault = thrown fault

-- `Device::sleep` and `Device::wakeup` of an entry, as far as they show.
abbrev pub sleep_entry : Entry → Entry
sleep_entry d = record d { awake = false }

abbrev pub wakeup_entry : Entry → Entry
wakeup_entry d = record d { awake = true }

unfoldable pub wakeup_signals : Entry → List Signal → List Signal
wakeup_signals d signals = if d.awake then signals else status_changed d.nickname true ∷ signals

-- The device of the event is known.
unfoldable pub known_child :
    DeviceConnectionEvent → ChildProbe → Entry → Hub → Manager → ChildEnding × Hub × Manager
unfolding child_handlers wakeup_signals sleep_signals
known_child event p d r m =
    if event.from_timeout_check
    then (returned, r, m)
    else (if event.link_established
        then (
          elim p.wakeup [ made _ ↦ returned | Outcome.failed fault ↦ child_handlers event fault ],
          record r { children = assign event.index (wakeup_entry d) r.children },
          record m { signals = wakeup_signals d m.signals },
        )
        else (
          returned,
          record r { children = assign event.index (sleep_entry d) r.children },
          record m { signals = sleep_signals d m.signals },
        ))

-- `Device::make`, the entry, and `addExternalDevice`.
unfoldable pub make_child :
    DeviceConnectionEvent → Hub → Manager → Result (ChildEnding × Hub × Manager)
unfolding make_device
make_child event r m = do
  (d, m') ← make_device m
  ok (
    returned,
    record r { children = emplace event.index d r.children },
    emit (device_added d.nickname) m',
  )

-- The device of the event is not known.
unfoldable pub new_child :
    DeviceConnectionEvent → ChildProbe → Hub → Manager → Result (ChildEnding × Hub × Manager)
unfolding make_child child_handlers
new_child event p r m = if not event.link_established then ok (returned, r, m) else elim p.version [
  | Outcome.failed fault ↦ ok (child_handlers event fault, r, m)
  | made (major, minor) ↦ if ltb major 2 then ok (returned, r, m) else elim p.device [
    | Outcome.failed fault ↦ ok (child_handlers event fault, r, m)
    | made _ ↦ make_child event r m
  ]
]

-- `Receiver::addDevice`.
unfoldable pub add_child :
    Option (List ℕ)
    → DeviceConnectionEvent
    → ChildProbe
    → Hub
    → Manager
    → Result (ChildEnding × Hub × Manager)
unfolding known_child new_child
add_child ignore event p r m =
    if is_ignored ignore event.pid
    then ok (returned, r, m)
    else elim (find event.index r.children) [
      | some d ↦ ok (known_child event p d r m)
      | none ↦ new_child event p r m
    ]

-- `Receiver::removeDevice`.
unfoldable pub remove_child : ℕ → Hub → Manager → Hub × Manager
unfolding sleep_signals
remove_child index r m = elim (find index r.children) [
  | none ↦ (r, m)
  | some d ↦ (
    record r { children = remove index r.children },
    record m {
      device_nicknames = erase d.nickname m.device_nicknames;
      signals = device_removed d.nickname ∷ sleep_signals d m.signals;
    },
  )
]

-- The receiver at a path does this.
unfoldable pub child_added :
    Option (List ℕ)
    → ℕ
    → DeviceConnectionEvent
    → ChildProbe
    → Manager
    → Result (ChildEnding × Manager)
unfolding add_child
child_added ignore path event p m = elim (find path m.receivers) [
  | none ↦ ok (returned, m)
  | some r ↦ do
    (ending, r', m') ← add_child ignore event p r m
    ok (ending, record m' { receivers = assign path r' m'.receivers })
]

unfoldable pub child_removed : ℕ → ℕ → Manager → Manager
unfolding remove_child
child_removed path index m = elim (find path m.receivers) [
  | none ↦ m
  | some r ↦
      let after = remove_child index r m in
      record after.1 { receivers = assign path after.0 after.1.receivers }
]

-- What `_addHandler` of the monitor makes of it. `InvalidDevice` derives from `std::exception` in
-- private, so no handler takes it: `none` is the end of the program.
unfoldable pub attempt_of : ChildEnding → Option Attempt
attempt_of returned = some added
attempt_of waiting = some added
attempt_of (thrown not_ready_fault) = some not_ready
attempt_of (thrown (invalid_device reason)) = none
attempt_of (thrown fault) = some failed

-- `waitForDevice`, where the ending says that it ran.
abbrev pub before_ending : ChildEnding → ℕ → Adder → Adder
before_ending waiting index s = wait_for_device index s
before_ending ending index s = s

-- `ReceiverMonitor::_addHandler` with the `addDevice` of `Receiver`, which ended so.
unfoldable pub handle_ending : ChildEnding → DeviceConnectionEvent → ℕ → Adder → Option Adder
unfolding attempt_of
handle_ending ending event tries s = elim (attempt_of ending) [
  | none ↦ none
  | some attempt ↦ some (add_handler attempt event tries (before_ending ending event.index s))
]
