-- ===== src/Hidpp/Device/Tests.antt =====
-- Requests for the version of a device, and what comes in.
use logiops.Prelude.{◌≡◌, true, false, none, some, [], ◌∷◌, refl}
use logiops.Prelude.Exn.{ok, err, timeout_error, device_not_ready}
use logiops.Hidpp.Report.{Report, sub_id, address, is_error10, is_error20}
use logiops.Hidpp.Device.{unused, begin, finish, expire, respond, handle_event, init_version}
use logiops.Hidpp.Device.Waiting.{State, begins, expires, Reaches, start, next, idle-events}
use logiops.Hidpp.Device.Stale.{failed_write-stale, error20-returned}

abbrev request : Report
request = record { bytes = 0x10 ∷ 0xff ∷ 0 ∷ 0x1d ∷ 0 ∷ 0 ∷ 0 ∷ [] }

abbrev event : Report
event = record { bytes = 0x10 ∷ 0xff ∷ 0 ∷ 0x1d ∷ 4 ∷ 2 ∷ 0 ∷ [] }

abbrev other_request : Report
other_request = record { bytes = 0x10 ∷ 0xff ∷ 9 ∷ 0x2d ∷ 0 ∷ 0 ∷ 0 ∷ [] }

abbrev error : Report
error = record { bytes = 0x11 ∷ 0xff ∷ 0xff ∷ 0 ∷ 0x1d ∷ 8 ∷ [] }

abbrev timed_out : State
timed_out = record { slot = record unused { sent_address = some 0x1d }; waiting = false }

timed_out-Reaches : Reaches timed_out
unfolding begin expire sub_id address
timed_out-Reaches = next (next start (begins request refl refl)) (
    expires {slot = record unused { sent_address = some 0x1d }} {result = err timeout_error} refl
      refl refl)

-- The answer comes too late.
idle-events_example :
    (handle_event event timed_out.slot ≡ (timed_out.slot, true)) × (timed_out.slot.response ≡ none)
idle-events_example = idle-events event timed_out-Reaches refl

failed_write-stale_example :
    finish
      (begin other_request (ok tt) (respond event (begin request (err timeout_error) unused).0).0).0
    ≡ some (unused, ok event)
unfolding sub_id address is_error10 is_error20
failed_write-stale_example =
    failed_write-stale request event other_request timeout_error refl refl refl refl

error20-returned_example :
    finish (respond error (begin request (ok tt) unused).0).0 ≡ some (unused, ok error)
unfolding sub_id address is_error10 is_error20
error20-returned_example =
    error20-returned request error
      (record {
        device_index = 0xff;
        feature_index = 0;
        function = 1;
        software_id = 0xd;
        error_code = 8;
      })
      refl refl refl refl

unstable :
    init_version (ok (4, 2)) ((104, ok 104) ∷ (101, err timeout_error) ∷ []) ≡ err device_not_ready
unfolding init_version
unstable = refl
