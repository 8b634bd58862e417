-- ===== src/Manager/Devices/Tests.antt =====
-- The manager at concrete devices.
use logiops.Prelude.{ℕ, ◌≡◌, true, none, some, [], ◌∷◌, arith, refl}
use logiops.Prelude.Exn.{ok}
use logiops.Prelude.Sets.{insert}
use logiops.Manager.Nicknames.{new_device_nickname, adjacent_gap, last}
use logiops.Manager.Maps.{find, emplace}
use logiops.Manager.Devices.{
  Probe, made, failed, no_devices, add_device, timeout_fault, not_ready_fault, thrown,
  logitech_vendor_id, returned, device_added,
}
use logiops.Manager.Devices.Failures.{add_device-thrown, Passes}
use logiops.Manager.Devices.Retries.{Visit, handle_all, handle_all-Ends, Ends}

-- A mouse on a cable: the default device is there.
abbrev pub mouse : Probe
mouse = record {
  raw = made (logitech_vendor_id, 0xc08b);
  version = made (4, 2);
  receiver = made tt;
  default_device = made tt;
  corded_device = made tt;
}

abbrev silent : Probe
silent = record mouse { version = failed timeout_fault }

mouse_added :
    add_device none 3 mouse no_devices
    ≡ ok (
      returned,
      record no_devices {
        devices = (3, record { nickname = 0; awake = true }) ∷ [];
        device_nicknames = 0 ∷ [];
        signals = device_added 0 ∷ [];
      },
    )
unfolding add_device new_device_nickname adjacent_gap last insert find emplace
mouse_added = refl

silent_not_ready : add_device none 3 silent no_devices ≡ ok (thrown not_ready_fault, no_devices)
unfolding add_device
silent_not_ready = refl

add_device-thrown_example : (no_devices ≡ no_devices) × Passes silent not_ready_fault
add_device-thrown_example = add_device-thrown none 3 silent no_devices silent_not_ready

abbrev visits : ℕ → Visit
visits i = record { supported = made true; probe = silent }

-- Five waits, and the path is given up.
visits_end :
    handle_all none 3 visits 6 0 no_devices
    ≡ some (ok (500 ∷ 1000 ∷ 2000 ∷ 4000 ∷ 8000 ∷ [], no_devices))
unfolding handle_all add_device
visits_end = refl

handle_all-Ends_example : Ends none 3 visits 0 no_devices (handle_all none 3 visits 6 0 no_devices)
handle_all-Ends_example = handle_all-Ends none 3 visits 6 0 no_devices (omega arith) (omega arith)
