-- ===== src/Hidpp10/Receiver/Tests.antt =====
-- Notifications and names of src/logid/backend/hidpp10/Receiver.cpp on concrete values.
use logiops.Prelude.{ℕ, ◌≡◌, refl, false, inr, List, [], ◌∷◌, arith, replicate, take, drop, get_or}
use logiops.Prelude.Exn.{ok, err, out_of_bounds}
use logiops.Hidpp.Defs.{long}
use logiops.Hidpp.Report.{Report, IsValid, params, sub_id, type_of}
use logiops.Hidpp10.Receiver.{DeviceDiscoveryEvent, no_discovery, fill_device_discovery_event}
use logiops.Hidpp10.Receiver.Registers.{bolt_pairing_bytes}
use logiops.Hidpp10.Receiver.Pairing.{fill-bolt_pairing_bytes}
use logiops.Hidpp10.Receiver.Names.{read_bolt_name, read_bolt_name-overrun}

-- The first notification of a discovered device, and the part 1 of its name, of 5 characters.
abbrev found : Report
found = record {
  bytes =
      long ∷ 0xff ∷ 0x4f ∷ 7 ∷ 0 ∷ 0 ∷ 0 ∷ 2 ∷ 0x34 ∷ 0xb0 ∷ 1 ∷ 2 ∷ 3 ∷ 4 ∷ 5 ∷ 6 ∷ 0 ∷ 0 ∷ 0x51
      ∷ 0 ∷ [];
}

found-IsValid : IsValid found
unfolding type_of
found-IsValid = record { typed = inr refl; sized = refl; bytes = omega arith }

fill-bolt_pairing_bytes_example :
    (event : DeviceDiscoveryEvent) × (fill_device_discovery_event no_discovery found
      ≡ ok (event, false))
    × (take 6 (drop 2 (bolt_pairing_bytes event))
        ≡ get_or (params found) 6 0
          ∷ get_or (params found) 7 0
          ∷ get_or (params found) 8 0
          ∷ get_or (params found) 9 0
          ∷ get_or (params found) 10 0
          ∷ get_or (params found) 11 0
          ∷ [])
    × (get_or (bolt_pairing_bytes event) 8 0 ≡ get_or (params found) 14 0)
unfolding sub_id params
fill-bolt_pairing_bytes_example = fill-bolt_pairing_bytes no_discovery found found-IsValid refl refl

-- A name of 16 characters, in answers of 16 bytes.
abbrev answer : ℕ → List ℕ
answer part = 0x61 ∷ part ∷ 16 ∷ replicate 13 0x4d

read_bolt_name-overrun_example : read_bolt_name (λ part. ok (answer part)) ≡ err out_of_bounds
read_bolt_name-overrun_example =
    read_bolt_name-overrun answer 16 (λ part. refl) refl (omega arith) (omega arith) (omega arith)
