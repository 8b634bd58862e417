-- ===== src/Hidpp10/ReceiverMonitor.antt =====
-- src/logid/backend/hidpp10/ReceiverMonitor.cpp: pairing. Each handler and each call is one step,
-- since `_pair_mutex` guards the state; what the receiver and the client are asked to do are
-- effects, in order. The module Adding models how devices are added.
pub mod PairingRuns
pub mod Adding
pub mod Retries
pub mod Tests
use logiops.Prelude.{
  ℕ, ◌≡◌, Bool, true, false, not, ◌&&◌, ◌||◌, Option, none, some, List, [], ◌∷◌, ◌++◌, ◌==◌,
  if◌then◌else◌,
}
use logiops.Prelude.Exn.{Result, ok, err, ◌>>=◌}
use logiops.Hidpp.Defs.{long}
use logiops.Hidpp.Report.{Report, sub_id, type_of}
use logiops.Hidpp10.Defs.{
  device_discovered, passkey_request, discovery_status, pair_status, bolt_pair_status,
}
use logiops.Hidpp10.Receiver.{
  DeviceDiscoveryEvent, no_discovery, fill_device_discovery_event, passkey_event,
  discovery_status_event, pair_status_event, bolt_pair_status_event,
}

pub data PairState : Type 0 where
  not_pairing discovering finding_passkey pairing : PairState

pub data Effect : Type 0 where
  start_discover : ℕ → Effect
  stop_discover : Effect
  start_pairing : ℕ → Effect
  stop_pairing : Effect
  start_bolt_pairing : DeviceDiscoveryEvent → Effect
  pair_ready : DeviceDiscoveryEvent → List ℕ → Effect

pub record Monitor : Type 0 where
  pub bolt : Bool
  pub pair_state : PairState
  pub discovery_event : DeviceDiscoveryEvent

abbrev pub is_discovering : PairState → Bool
is_discovering discovering = true
is_discovering _ = false

abbrev pub is_finding_passkey : PairState → Bool
is_finding_passkey finding_passkey = true
is_finding_passkey _ = false

abbrev pub is_pairing : PairState → Bool
is_pairing pairing = true
is_pairing _ = false

-- The handler of `_discover_ev_handler`, with its condition.
unfoldable pub discover_handler : Report → Monitor → Result (Monitor × List Effect)
discover_handler r s =
    let filled = fill_device_discovery_event s.discovery_event r in
    if (sub_id r == device_discovered) && (type_of r == long) && is_discovering s.pair_state
    then (do
      (event, complete) ← filled
      ok (
          if complete
          then (
            record s { pair_state = finding_passkey; discovery_event = event },
            start_bolt_pairing event ∷ [],
          )
          else (record s { discovery_event = event }, [])))
    else ok (s, [])

-- The handler of `_passkey_ev_handler`, with its condition.
unfoldable pub passkey_handler : Report → Monitor → Result (Monitor × List Effect)
passkey_handler r s =
    if (sub_id r == passkey_request) && (type_of r == long) && is_finding_passkey s.pair_state
    then (do
      passkey ← passkey_event r
      ok (record s { pair_state = pairing }, pair_ready s.discovery_event passkey ∷ []))
    else ok (s, [])

-- `_pair_state` after a status that says whether the pairing goes on.
abbrev pub after_pair_status : Bool → Monitor → Monitor
after_pair_status going s =
    if (is_finding_passkey s.pair_state || is_pairing s.pair_state) && not going
    then record s { pair_state = not_pairing }
    else s

-- The handler of `_pair_status_handler`, with its condition.
unfoldable pub pair_status_handler : Report → Monitor → Result (Monitor × List Effect)
pair_status_handler r s =
    if sub_id r == discovery_status
    then (do
      event ← discovery_status_event r
      ok (
        if is_discovering s.pair_state && not event.discovering
            then record s { pair_state = not_pairing }
            else s,
        [],
      ))
    else (if sub_id r == pair_status
        then (do event ← pair_status_event r; ok (after_pair_status event.pairing s, []))
        else (if sub_id r == bolt_pair_status
            then (do event ← bolt_pair_status_event r; ok (after_pair_status event.pairing s, []))
            else ok (s, [])))

-- The three handlers of a received report.
unfoldable pub receive : Report → Monitor → Result (Monitor × List Effect)
unfolding discover_handler passkey_handler pair_status_handler
receive r s = do
  (s1, first) ← discover_handler r s
  (s3, rest) ← (do
    (s2, second) ← passkey_handler r s1
    (s3, third) ← pair_status_handler r s2
    ok (s3, second ++ third))
  ok (s3, first ++ rest)

unfoldable pub start_pair : ℕ → Monitor → Monitor × List Effect
start_pair timeout s = (
  record s { pair_state = if s.bolt then discovering else pairing; discovery_event = no_discovery },
  (if s.bolt then start_discover timeout else start_pairing timeout) ∷ [],
)

unfoldable pub stop_pair : Monitor → Monitor × List Effect
stop_pair s = (
  record s { pair_state = not_pairing },
  if is_discovering s.pair_state
      then stop_discover ∷ []
      else (if is_pairing s.pair_state || is_finding_passkey s.pair_state
          then stop_pairing ∷ []
          else []),
)

pub data Input : Type 0 where
  receives : Report → Input
  starts : ℕ → Input
  stops : Input

unfoldable pub step : Input → Monitor → Result (Monitor × List Effect)
unfolding receive start_pair stop_pair
step (receives r) s = receive r s
step (starts timeout) s = ok (start_pair timeout s)
step stops s = ok (stop_pair s)

unfoldable pub run : List Input → Monitor → Result (Monitor × List Effect)
unfolding step
run [] s = ok (s, [])
run (i ∷ is) s = do (s', now) ← step i s; (s'', later) ← run is s'; ok (s'', now ++ later)

-- The monitor at the start.
abbrev pub idle : Bool → Monitor
idle bolt = record { bolt = bolt; pair_state = not_pairing; discovery_event = no_discovery }
