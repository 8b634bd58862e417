-- ===== src/Hidpp10/ReceiverMonitor/PairingRuns.antt =====
-- Runs of the pairing state machine of src/logid/backend/hidpp10/ReceiverMonitor.cpp.
use logiops.Prelude.{◌≡◌, true, Option, none, some, List, [], ◌∷◌}
use logiops.Prelude.Exn.{Result, ok, ◌>>=◌}
use logiops.Hidpp.Report.{Report}
use logiops.Hidpp10.Receiver.{DeviceDiscoveryEvent}
use logiops.Hidpp10.ReceiverMonitor.{
  Effect, start_bolt_pairing, pair_ready, Monitor, is_finding_passkey,
}

-- The Bolt pairing that waits for its passkey after an effect, if there is one.
abbrev pub after_effect : Option DeviceDiscoveryEvent → Effect → Option DeviceDiscoveryEvent
after_effect last (start_bolt_pairing e) = some e
after_effect last _ = none

abbrev pub after : Option DeviceDiscoveryEvent → List Effect → Option DeviceDiscoveryEvent
after last [] = last
after last (e ∷ es) = after (after_effect last e) es

-- Every passkey is for the device whose Bolt pairing was started last, with nothing in between.
abbrev pub Allowed : Option DeviceDiscoveryEvent → Effect → Type 0
Allowed last (pair_ready e passkey) = last ≡ some e
Allowed last _ = Unit

abbrev pub Ordered : Option DeviceDiscoveryEvent → List Effect → Type 0
Ordered last [] = Unit
Ordered last (e ∷ es) = Allowed last e × Ordered (after_effect last e) es

-- A monitor that waits for a passkey waits for that of the pairing it started last.
unfoldable pub Waits : Option DeviceDiscoveryEvent → Monitor → Type 0
Waits last s = is_finding_passkey s.pair_state ≡ true → last ≡ some s.discovery_event

pub record Goes (last : Option DeviceDiscoveryEvent) (r : Result (Monitor × List Effect))
    : Type 0 where
  pub state : Monitor
  pub effects : List Effect
  pub runs : r ≡ ok (state, effects)
  pub ordered : Ordered last effects
  pub waits : Waits (after last effects) state
