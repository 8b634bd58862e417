-- ===== src/Hidpp10/ReceiverMonitor/Tests.antt =====
-- Pairing and adding devices (src/logid/backend/hidpp10/ReceiverMonitor.cpp) on concrete runs.
use logiops.Prelude.{◌≡◌, List, [], ◌∷◌, arith, replicate}
use logiops.Hidpp.Defs.{long}
use logiops.Hidpp10.ReceiverMonitor.{Input, receives, starts, stops}
use logiops.Hidpp10.ReceiverMonitor.Adding.{Adder, not_ready, waited_event, add_handler, fire_all}
use logiops.Hidpp10.ReceiverMonitor.Retries.{add_handler-ends}

-- A device is discovered and named, and its passkey is requested.
abbrev pairing_inputs : List Input
pairing_inputs =
    starts 30
    ∷ receives (record { bytes = long ∷ 0xff ∷ 0x4f ∷ 7 ∷ 0 ∷ 0 ∷ replicate 14 0 })
    ∷ receives (record { bytes = long ∷ 0xff ∷ 0x4f ∷ 7 ∷ 0 ∷ 1 ∷ 1 ∷ 0x4d ∷ replicate 12 0 })
    ∷ receives (record { bytes = long ∷ 0xff ∷ 0x4d ∷ 0 ∷ replicate 16 0x31 })
    ∷ stops
    ∷ []

abbrev nothing_added : Adder
nothing_added = record { waiters = []; pending_adds = []; scheduled = [] }

add_handler-ends_example :
    (fire_all
      (replicate 5 not_ready)
      (add_handler not_ready (waited_event 2) 0 nothing_added)).scheduled
    ≡ []
add_handler-ends_example =
    add_handler-ends not_ready (waited_event 2) (replicate 5 not_ready) nothing_added tt
      (omega arith)
