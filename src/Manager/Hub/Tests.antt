-- ===== src/Manager/Hub/Tests.antt =====
-- A device that times out when it connects.
use logiops.Prelude.{◌≡◌, true, false, none, some, [], refl}
use logiops.Prelude.Exn.{ok}
use logiops.Hidpp10.Receiver.{no_connection, DeviceConnectionEvent}
use logiops.Hidpp10.ReceiverMonitor.Adding.{Adder, contains}
use logiops.Manager.Maps.{find}
use logiops.Manager.Devices.{Hub, Outcome, made, no_devices, timeout_fault}
use logiops.Manager.Hub.{ChildProbe, waiting, add_child, handle_ending}
use logiops.Manager.Hub.Waiting.{timed_out-forgotten}

abbrev event : DeviceConnectionEvent
event = record no_connection { index = 2; link_established = true }

abbrev late : ChildProbe
late = record { version = Outcome.failed timeout_fault; device = made tt; wakeup = made tt }

abbrev empty_hub : Hub
empty_hub = record { nickname = 0; children = [] }

abbrev idle : Adder
idle = record { waiters = []; pending_adds = []; scheduled = [] }

timed_out-forgotten_example :
    (s' : Adder) × (add_child none event late empty_hub no_devices
      ≡ ok (waiting, empty_hub, no_devices))
    × (handle_ending waiting event 0 idle ≡ some s')
    × (contains 2 s'.waiters ≡ false)
    × (s'.scheduled ≡ [])
unfolding find
timed_out-forgotten_example =
    timed_out-forgotten event late empty_hub no_devices 0 idle refl refl refl refl
