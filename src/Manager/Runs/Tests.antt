-- ===== src/Manager/Runs/Tests.antt =====
-- A mouse and a receiver are being added at a time: the keyboard of the receiver comes before it is listed.
use logiops.Prelude.{◌≡◌, true, [], ◌∷◌, refl}
use logiops.Hidpp10.Receiver.{no_connection, DeviceConnectionEvent}
use logiops.Manager.Devices.{Entry, Hub, made, no_devices, list_devices, device_added}
use logiops.Manager.Hub.{ChildProbe}
use logiops.Manager.Runs.{System}

abbrev mouse : Entry
mouse = record { nickname = 0; awake = true }

abbrev after_mouse : System
after_mouse = record {
  manager = record no_devices { device_nicknames = 0 ∷ [] };
  unlisted = (7, mouse) ∷ [];
  apart = [];
}

abbrev bolt : Hub
bolt = record { nickname = 0; children = [] }

abbrev after_bolt : System
after_bolt = record after_mouse {
  manager = record (after_mouse.manager) { receiver_nicknames = 0 ∷ [] };
  apart = (8, bolt) ∷ [];
}

abbrev keyboard_event : DeviceConnectionEvent
keyboard_event = record no_connection { index = 1; link_established = true }

abbrev keyboard : ChildProbe
keyboard = record { version = made (4, 5); device = made tt; wakeup = made tt }

abbrev with_keyboard : Hub
with_keyboard = record { nickname = 0; children = (1, record { nickname = 1; awake = true }) ∷ [] }

abbrev after_keyboard : System
after_keyboard = record after_bolt {
  manager = record (after_bolt.manager) {
    device_nicknames = 0 ∷ 1 ∷ [];
    signals = device_added 1 ∷ [];
  };
  apart = (8, with_keyboard) ∷ [];
}

nothing_listed : list_devices after_keyboard.manager ≡ []
unfolding list_devices
nothing_listed = refl
