-- ===== src/Hidpp10/Device/Tests.antt =====
-- Register requests of src/logid/backend/hidpp10/Device.cpp on concrete values.
use logiops.Prelude.{◌≡◌, refl, some, [], ◌∷◌}
use logiops.Hidpp.Defs.{short}
use logiops.Hidpp.Report.{Report, is_error10, sub_id}
use logiops.Hidpp10.Device.Wakeup.{
  idle, arrives, receives, retries, returns, run, receive_all, run-asleep,
}

-- Two requests that read registers, the answer to the first, and a notification.
abbrev first_request : Report
first_request = record { bytes = short ∷ 0xff ∷ 0x81 ∷ 0x02 ∷ 0 ∷ 0 ∷ 0 ∷ [] }

abbrev second_request : Report
second_request = record { bytes = short ∷ 0xff ∷ 0x81 ∷ 0x00 ∷ 0 ∷ 0 ∷ 0 ∷ [] }

abbrev first_answer : Report
first_answer = record { bytes = short ∷ 0xff ∷ 0x81 ∷ 0x02 ∷ 0 ∷ 3 ∷ 0 ∷ [] }

abbrev notification : Report
notification = record { bytes = short ∷ 0x01 ∷ 0x41 ∷ 0x04 ∷ 0x52 ∷ 0x41 ∷ 0x40 ∷ [] }

run-asleep_example :
    run
      (arrives first_request
        ∷ arrives second_request
        ∷ receives first_answer
        ∷ retries
        ∷ returns
        ∷ receive_all (notification ∷ []))
      idle
    ≡ some (record idle { asleep = second_request ∷ [] })
unfolding is_error10 sub_id
run-asleep_example =
    run-asleep first_request second_request first_answer refl refl refl (notification ∷ [])
