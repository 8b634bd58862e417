-- ===== src/Hidpp20/ReprogControls/Tests.antt =====
-- A device with two controls.
use logiops.Prelude.{ℕ, ◌+◌, ◌≡◌, [], ◌∷◌, ◌++◌, ◌==◌, if◌then◌else◌, replicate, arith, refl}
use logiops.Prelude.Exn.{ok, err, timeout_error}
use logiops.Hidpp20.ReprogControls.{Call, ControlInfo, no_control, get_control_id_info}
use logiops.Hidpp20.ReprogControls.CidMap.{Serves, control_bytes, unread, get_control_id_info-found}

abbrev controls : ℕ → ControlInfo
controls i = record no_control { control_id = 0xc0 + i; task_id = 0x9c; flags = 0x31 }

-- It answers the calls of `getControlCount` and `getControlInfo`, in long reports.
abbrev call : Call
call function params =
    if function == 0
    then ok (2 ∷ replicate 15 0)
    else (if function == 1
        then elim params [
          | [] ↦ err timeout_error
          | i ∷ rest ↦ ok (control_bytes (controls i) ++ replicate 7 0)
        ]
        else err timeout_error)

call-Serves : Serves call 2 controls
call-Serves = record {
  after_count = replicate 15 0;
  counted = refl;
  after_control = λ i. replicate 7 0;
  sent = λ i h. refl;
}

-- The device is gone after the first call.
abbrev gone : Call
gone function params = err timeout_error

get_control_id_info-found_example :
    ((get_control_id_info call 1 0xc1 unread).1 ≡ ok (controls 1))
    × (get_control_id_info gone 1 0xc0 (get_control_id_info call 1 0xc1 unread).0
        ≡ ((get_control_id_info call 1 0xc1 unread).0, ok (controls 0)))
get_control_id_info-found_example =
    get_control_id_info-found call 2 controls call-Serves (λ a b l u. omega arith) gone 1 1 0
      (omega arith) (omega arith)
