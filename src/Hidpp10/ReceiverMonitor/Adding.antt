-- ===== src/Hidpp10/ReceiverMonitor/Adding.antt =====
-- src/logid/backend/hidpp10/ReceiverMonitor.cpp: adding devices, with retries. `_waiters` and
-- `_pending_adds` are sets of device indices, and `scheduled` holds the tasks of `run_task_after`
-- in the order they were made. What `addDevice` of the client does is an argument of a step.
use logiops.Prelude.{
  ℕ, suc, zero, ◌+◌, ◌*◌, ◌^◌, Bool, true, false, not, ◌&&◌, Option, none, some, List, [], ◌∷◌,
  ◌++◌, ◌==◌, leb, if◌then◌else◌,
}
use logiops.Prelude.Exn.{Result, ok, err, hidpp10_error, timeout_error}
use logiops.Hidpp.Defs.{wireless_device1}
use logiops.Hidpp.Report.{Report, sub_id, device_index}
use logiops.Hidpp10.Defs.{device_disconnection, device_connection}
use logiops.Hidpp10.Receiver.{DeviceConnectionEvent, no_connection}
use logiops.Hidpp10.Receiver.Registers.{PairingInfo}

abbrev pub max_tries : ℕ
max_tries = 5

abbrev pub ready_backoff : ℕ
ready_backoff = 250

-- A task that calls `_addHandler(event, tries)` after `wait` milliseconds.
pub record Task : Type 0 where
  pub event : DeviceConnectionEvent
  pub tries : ℕ
  pub wait : ℕ

pub record Adder : Type 0 where
  pub waiters : List ℕ
  pub pending_adds : List ℕ
  pub scheduled : List Task

abbrev pub contains : ℕ → List ℕ → Bool
contains x [] = false
contains x (y ∷ ys) = if x == y then true else contains x ys

abbrev pub insert : ℕ → List ℕ → List ℕ
insert x ys = if contains x ys then ys else x ∷ ys

abbrev pub erase : ℕ → List ℕ → List ℕ
erase x [] = []
erase x (y ∷ ys) = let rest = erase x ys in if x == y then rest else y ∷ rest

-- How `addDevice(event)` ends.
pub data Attempt : Type 0 where
  added not_ready failed : Attempt

-- `waitForDevice`.
unfoldable pub wait_for_device : ℕ → Adder → Adder
wait_for_device index s = record s { waiters = insert index s.waiters }

-- `_addHandler` after its first block.
unfoldable pub try_add : Attempt → DeviceConnectionEvent → ℕ → Adder → Adder
unfolding wait_for_device
try_add added event tries s = record s {
  waiters = erase event.index s.waiters;
  pending_adds = erase event.index s.pending_adds;
}
try_add not_ready event tries s =
    if tries == max_tries
    then (if event.from_timeout_check
        then wait_for_device event.index
            (record s { pending_adds = erase event.index s.pending_adds })
        else s)
    else record s {
      scheduled =
          s.scheduled
          ++ (record { event = event; tries = tries + 1; wait = 2 ^ tries * ready_backoff } ∷ []);
    }
try_add failed event tries s = record s { pending_adds = erase event.index s.pending_adds }

-- `_addHandler(event, tries)`.
unfoldable pub add_handler : Attempt → DeviceConnectionEvent → ℕ → Adder → Adder
unfolding try_add
add_handler attempt event tries s =
    if event.from_timeout_check && (tries == 0)
    then (if contains event.index s.pending_adds
        then s
        else try_add attempt event tries
            (record s { pending_adds = insert event.index s.pending_adds }))
    else try_add attempt event tries s

-- The task that was made first runs.
unfoldable pub fire : Attempt → Adder → Option Adder
unfolding add_handler
fire attempt s = elim s.scheduled [
  | [] ↦ none
  | t ∷ ts ↦ some (add_handler attempt t.event t.tries (record s { scheduled = ts }))
]

unfoldable pub fire_all : List Attempt → Adder → Adder
unfolding fire
fire_all [] s = s
fire_all (a ∷ rest) s = elim (fire a s) [ none ↦ s | some s' ↦ fire_all rest s' ]

-- The event that a report of a device which is waited for makes.
abbrev pub waited_event : ℕ → DeviceConnectionEvent
waited_event index = record no_connection {
  with_payload = false;
  link_established = true;
  index = index;
  from_timeout_check = true;
}

-- The handler that `waitForDevice` adds, with its condition: the event to add, if there is one.
unfoldable pub wait_handler : ℕ → Report → Option DeviceConnectionEvent
wait_handler index r =
    if (device_index r == index)
      && not (sub_id r == device_connection)
      && not (sub_id r == device_disconnection)
    then some (waited_event index)
    else none

-- How `getPairingInfo` ends for a slot of the receiver.
pub data Slot : Type 0 where
  paired : PairingInfo → Slot
  -- Any exception: each is logged or passed over, and the loop goes on.
  unpaired : Slot

-- The event of a paired slot.
abbrev pub slot_event : ℕ → PairingInfo → DeviceConnectionEvent
slot_event i info = record no_connection {
  index = i;
  pid = info.pid;
  device_type = info.device_type;
  link_established = true;
  with_payload = false;
  from_timeout_check = true;
}

-- The loop of `_enumeratePairedDevices` over `n` slots from `i` on: the events that are added.
unfoldable pub enumerate_slots : (ℕ → Slot) → ℕ → ℕ → ℕ → ℕ → List DeviceConnectionEvent
enumerate_slots slots paired_devices found zero i = []
enumerate_slots slots paired_devices found (suc n) i =
    let without = enumerate_slots slots paired_devices found n (suc i) in
    let with_one = enumerate_slots slots paired_devices (suc found) n (suc i) in
    if not (paired_devices == 0) && leb paired_devices found
    then []
    else elim (slots i) [ unpaired ↦ without | paired info ↦ slot_event i info ∷ with_one ]

-- `_enumeratePairedDevices`, for the result of `getDeviceCount`.
unfoldable pub enumerate_paired_devices :
    Result ℕ → (ℕ → Slot) → Result (List DeviceConnectionEvent)
unfolding enumerate_slots
enumerate_paired_devices (ok count) slots = ok (enumerate_slots slots count 0 6 wireless_device1)
enumerate_paired_devices (err (hidpp10_error code index)) slots =
    ok (enumerate_slots slots 0 0 6 wireless_device1)
enumerate_paired_devices (err timeout_error) slots =
    ok (enumerate_slots slots 0 0 6 wireless_device1)
enumerate_paired_devices (err e) slots = err e
