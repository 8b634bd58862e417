-- ===== src/Hidpp/Device/Stale.antt =====
-- Two faults of the request of the device base.
use logiops.Prelude.{◌*◌, ◌≡◌, none, some, bit_and, bit_or, arith}
use logiops.Prelude.Exn.{ok, err, Exn}
use logiops.Hidpp.Report.{Report, Hidpp20Error, sub_id, address, is_error10, is_error20}
use logiops.Hidpp.Device.{unused, begin, outcome, finish, respond, read_response}

-- A request that cannot be written throws, but what was sent stays: an event with the same first bytes is
-- then taken for its response, and the next request, whatever it is, gets that event at once.
pub failed_write-stale :
    (r event later : Report) (exn : Exn)
    → is_error10 event ≡ none
    → is_error20 event ≡ none
    → sub_id event ≡ sub_id r
    → address event ≡ address r
    → finish (begin later (ok tt) (respond event (begin r (err exn) unused).0).0).0
      ≡ some (unused, ok event)
unfolding begin respond read_response finish outcome
failed_write-stale r event later exn no10 no20 same_id same_address = ground arith

-- A HID++ 2.0 error that answers the request is returned as if it were the answer, and not thrown.
pub error20-returned :
    (r event : Report) (e : Hidpp20Error)
    → is_error10 event ≡ none
    → is_error20 event ≡ some e
    → e.feature_index ≡ sub_id r
    → bit_or (e.function * 16) (bit_and e.software_id 0x0f) ≡ address r
    → finish (respond event (begin r (ok tt) unused).0).0 ≡ some (unused, ok event)
unfolding begin respond read_response finish outcome
error20-returned r event e no10 is20 same_id same_address = ground arith
