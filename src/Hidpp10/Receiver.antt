-- ===== src/Hidpp10/Receiver.antt =====
-- src/logid/backend/hidpp10/Receiver.cpp: what the receiver's notifications say. A notification of
-- a pairing is read from its parameters; those of a discovered device and of a passkey are long
-- reports.
pub mod Registers
pub mod Pairing
pub mod Names
pub mod Events
pub mod Tests
use logiops.Prelude.{
  ℕ, suc, zero, ◌^◌, ◌+◌, ◌-◌, ◌*◌, ◌/◌, ◌%◌, ◌<◌, ◌≡◌, Bool, true, false, not, ◌&&◌, Option, none,
  some, List, [], ◌∷◌, bit_and, bit_or, ltb, leb, ◌==◌, if◌then◌else◌, length, get_or, set, resize,
  take,
}
use logiops.Prelude.Exn.{Result, ok, err, ◌>>=◌, ◌>>◌, assert}
use logiops.Hidpp.Defs.{device_unknown, long_param_length}
use logiops.Hidpp.Report.{Report, device_index, sub_id, address, params}
use logiops.Hidpp10.Defs.{
  device_disconnection, device_connection, pair_status, passkey_request, device_discovered,
  discovery_status, bolt_pair_status,
}

-- `byte & (1 << k)` as a condition, with the mask `1 << k`.
abbrev pub has_bit : ℕ → ℕ → Bool
has_bit mask byte = not (bit_and byte mask == 0)

pub record DeviceConnectionEvent : Type 0 where
  pub index : ℕ
  pub pid : ℕ
  pub device_type : ℕ
  pub unifying : Bool
  pub software_present : Bool
  pub encrypted : Bool
  pub link_established : Bool
  pub with_payload : Bool
  pub from_timeout_check : Bool

-- `DeviceConnectionEvent event{}`.
abbrev pub no_connection : DeviceConnectionEvent
no_connection = record {
  index = 0;
  pid = 0;
  device_type = device_unknown;
  unifying = false;
  software_present = false;
  encrypted = false;
  link_established = false;
  with_payload = false;
  from_timeout_check = false;
}

unfoldable pub device_disconnection_event : Report → Result ℕ
device_disconnection_event r = assert (sub_id r == device_disconnection) >> ok (device_index r)

unfoldable pub device_connection_event : Report → Result DeviceConnectionEvent
device_connection_event r = do
  assert (sub_id r == device_connection)
  let info = get_or (params r) 0 0
  ok (record {
    index = device_index r;
    pid = bit_or (get_or (params r) 2 0 * 256) (get_or (params r) 1 0);
    device_type = bit_and info 0x0f;
    unifying = bit_and (address r) 7 == 4;
    software_present = has_bit 16 info;
    encrypted = has_bit 32 info;
    link_established = not (has_bit 64 info);
    with_payload = has_bit 128 info;
    from_timeout_check = false;
  })

pub record DeviceDiscoveryEvent : Type 0 where
  pub device_type : ℕ
  pub seq_num : ℕ
  pub address : ℕ
  pub pid : ℕ
  pub authentication : ℕ
  pub name : List ℕ

abbrev pub no_discovery : DeviceDiscoveryEvent
no_discovery = record {
  device_type = device_unknown;
  seq_num = 0;
  address = 0;
  pid = 0;
  authentication = 0;
  name = [];
}

-- `address |= (uint64_t)(data[6 + i]) << (8*i)`, for `i` from `i` on.
unfoldable pub or_address : ℕ → ℕ → List ℕ → ℕ → ℕ
or_address zero i data' sum = sum
or_address (suc n) i data' sum =
    or_address n (suc i) data' (bit_or sum (get_or data' (6 + i) 0 * 2 ^ (8 * i)))

abbrev pub block_size : ℕ
block_size = long_param_length - 3

-- The loop over a block of the name: the name, and whether the block went past its end.
unfoldable pub fill_block : ℕ → ℕ → ℕ → List ℕ → List ℕ → List ℕ × Bool
fill_block zero i start data' name = (name, false)
fill_block (suc n) i start data' name =
    let rest = fill_block n (suc i) start data' (set name (start + i) (get_or data' (i + 3) 0)) in
    if ltb (start + i) (length name) then rest else (name, true)

-- `fillDeviceDiscoveryEvent`: the event, and whether it is complete.
unfoldable pub fill_device_discovery_event :
    DeviceDiscoveryEvent → Report → Result (DeviceDiscoveryEvent × Bool)
unfolding or_address fill_block
fill_device_discovery_event event r = do
  assert (sub_id r == device_discovered)
  let data' = params r
  let part = get_or data' 1 0
  (if part == 0
      then ok (
        record {
          device_type = get_or data' 3 0;
          seq_num = address r;
          address = or_address 6 0 data' 0;
          pid = bit_or (get_or data' 5 0 * 256) (get_or data' 4 0);
          authentication = get_or data' 14 0;
          name = [];
        },
        false,
      )
      else (if not (event.seq_num == address r)
          then ok (event, false)
          else (let name =
                if part == 1 then resize (get_or data' 2 0) 0x20 event.name else event.name in
              let (name', filled) = fill_block block_size 0 ((part - 1) * block_size) data' name in
              ok (record event { name = name' }, filled))))

pub record PairStatusEvent : Type 0 where
  pub pairing : Bool
  pub error : ℕ

unfoldable pub pair_status_event : Report → Result PairStatusEvent
pair_status_event r = do
  assert (sub_id r == pair_status)
  ok (record { pairing = has_bit 1 (get_or (params r) 0 0); error = get_or (params r) 1 0 })

unfoldable pub bolt_pair_status_event : Report → Result PairStatusEvent
bolt_pair_status_event r = do
  assert (sub_id r == bolt_pair_status)
  ok (record { pairing = address r == 0; error = get_or (params r) 1 0 })

pub record DiscoveryStatusEvent : Type 0 where
  pub discovering : Bool
  pub error : ℕ

unfoldable pub discovery_status_event : Report → Result DiscoveryStatusEvent
discovery_status_event r = do
  assert (sub_id r == discovery_status)
  ok (record { discovering = address r == 0; error = get_or (params r) 1 0 })

unfoldable pub passkey_event : Report → Result (List ℕ)
passkey_event r = assert (sub_id r == passkey_request) >> ok (take 6 (params r))
