-- ===== src/Lib.antt =====
-- logiops: a model of logid, the daemon that drives Logitech devices over HID++, with the theorems
-- on it. Paths are from the repository's root; logid's sources are under src/logid.
--
-- The parts and how they interact. logid talks to a device in HID++ reports of 7 or 20 bytes. A
-- request waits in a response slot of its device until a report answers it, or until its time is
-- over; reports that answer nothing are events, which handlers read. HID++ 1.0 devices are
-- receivers, with registers, with notifications of devices that connect, and with pairing. HID++
-- 2.0 devices have features with functions. On top of the features stand the actions of buttons,
-- among them gestures. The manager keeps the devices and receivers that are found, gives them nicknames,
-- and announces them on the bus; a device keeps its profiles, hands them to its features, and runs
-- commands when it falls asleep and wakes up.
--
-- Which file models which part.
-- - Prelude: numbers, lists, bits, bytes and exceptions that the rest shares. A byte is a number;
--   `int16` and `int32` of Prelude/Int are the conversions to signed integers of 16 and 32 bits, with
--   their wrap-around. Result of Prelude/Exn is the outcome of code that may throw: an exception is a
--   value, and a failed assertion, a division by 0 and an access out of bounds are exceptions too.
-- - Hidpp/Defs, Hidpp/Report: src/logid/backend/hidpp/defs.h and
--   src/logid/backend/hidpp/Report.cpp, one function for each constructor, getter and setter of
--   Report; the buffer is a list of bytes.
-- - Hidpp/Descriptor: getSupportedReports of src/logid/backend/hidpp/Report.cpp.
-- - Hidpp20/Device: src/logid/backend/hidpp20/Device.cpp. sendReport is cut at its waits: `start`
--   claims a slot, `finish` and `expire` end the second wait; responseReport is `respond`. A mutex
--   guards the slots, so each is one step; Hidpp20/Device/Slots has the relation of these steps under
--   any interleaving, with writes that throw.
-- - Hidpp10/Device: src/logid/backend/hidpp10/Device.cpp in the same way, with register requests on
--   top; Hidpp10/Device/Wakeup writes the condition variable out, with the threads asleep and awake.
-- - Hidpp10/Receiver: src/logid/backend/hidpp10/Receiver.cpp. Its notifications are read by
--   functions of a report; Registers has one function for each register access, over what sendReport
--   does with a request; Names has getDeviceName with its loops.
-- - Hidpp10/ReceiverMonitor: src/logid/backend/hidpp10/ReceiverMonitor.cpp. The handlers of _ready,
--   _startPair and _stopPair are steps on the pairing state, and what they ask of the receiver and of
--   the client are effects. Adding has _addHandler with its retries, waitForDevice and
--   _enumeratePairedDevices.
-- - Features/Dpi: src/logid/backend/hidpp20/features/AdjustableDPI.cpp and
--   src/logid/features/DPI.cpp, the resolutions that a sensor has, the one that is picked for a
--   wanted one, and the configured ones.
-- - Features/Battery: src/logid/backend/hidpp20/features/BatteryStatus.cpp and
--   src/logid/features/BatteryStatus.cpp. The `double` interpolation between voltages is a parameter;
--   Sleep has the battery that is published and the timers that withdraw it.
-- - Hidpp/Device: src/logid/backend/hidpp/Device.cpp, the request of the device base with its one slot,
--   what comes in, and how the initialisation finds the version.
-- - Manager: src/logid/DeviceManager.cpp and src/logid/Receiver.cpp. Nicknames has the numbers of devices
--   and receivers; Devices has addDevice and removeDevice, over what an attempt to open a path comes
--   to (Probe); Hub has the devices of a receiver, with the handler of the monitor that adds them;
--   Runs has the relation of
--   their steps, where addDevice is cut between the making of an object and its entry in a map, and
--   other steps may come between; add_device itself is a call that runs alone. Maps and Lookups are std::map. Devices/Retries has
--   _addHandler of src/logid/backend/raw/DeviceMonitor.cpp.
-- - Device: src/logid/Device.cpp. Config has the configuration of a device, Profiles the profiles and
--   what is asked for on the bus, Awake sleep and wakeup with their commands.
-- - Util: src/logid/util/CommandQueue.cpp, src/logid/util/task.cpp and
--   src/logid/backend/EventHandlerList.h. A thread is what it is at between two locks; in Handlers a
--   callback is the list of changes that it makes to the handlers while they run.
-- - Hidpp20/ReprogControls: src/logid/backend/hidpp20/features/ReprogControls.cpp, over what a call of
--   a function returns.
-- - Features/RemapButton, Features/HiresScroll, Features/SmartShift, Features/ThumbWheel: the files of
--   these names in src/logid/features, with SmartShift.cpp and ThumbWheel.cpp of
--   src/logid/backend/hidpp20/features. What actions and gestures are told is a list of effects.
-- - Actions/Gesture: src/logid/actions/gesture, the gestures OnRelease, threshold, OnInterval and
--   None, each with press, release, move and metThreshold; what a gesture does with its action is a
--   list of effects.
-- - Actions/GestureAction: src/logid/actions/GestureAction.cpp, over any gestures, since they are
--   behind virtual calls; Moves states what the theorems ask of a gesture: that it adds up what it is
--   moved by.
--
-- Bounds and fuel. The loops of the source go over a list or count down a number, and are
-- structural recursion. One counts its rounds: read_dpis of Features/Dpi makes at most as many
-- rounds as the response has bytes, which is enough since each round passes two of them. Retries
-- of _addHandler are events of a task queue: `fire_all` of Adding takes one attempt for each task
-- that runs, and a theorem gives a number of attempts after which no task is left. handle_all of
-- Manager/Devices/Retries takes as fuel the tries of a path, and a theorem says that six are
-- enough. Nicknames end at the largest `int`. Movements are bounded where a theorem says so, since
-- the source takes sums in 32 bits and hands them on in 16.
--
-- Not modelled: raw devices, udev and epoll (src/logid/backend/raw), but for _addHandler;
-- libconfig, ipcgull, libevdev and uhid, and the classes that only call them; texts of exceptions
-- and logging; the objects that actions and features are made of from the configuration. What
-- sendReport does with a request is a parameter where only its answer matters. A time limit is an
-- event that may happen whenever its wait goes on.
pub mod Prelude
pub mod Hidpp
pub mod Manager
pub mod Util
pub mod Device
pub mod Hidpp10
pub mod Hidpp20
pub mod Features
pub mod Actions
