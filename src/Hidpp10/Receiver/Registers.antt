-- ===== src/Hidpp10/Receiver/Registers.antt =====
-- src/logid/backend/hidpp10/Receiver.cpp: the registers of a receiver, over what
-- `Device::sendReport` does with a request. Reads of a response are checked, since its length is
-- what the receiver sent.
use logiops.Prelude.{
  ℕ, suc, zero, ◌+◌, ◌*◌, ◌/◌, ◌%◌, ◌^◌, Bool, true, false, not, List, [], ◌∷◌, ◌++◌, bit_and,
  bit_or, ltb, ◌==◌, if◌then◌else◌,
}
use logiops.Prelude.Exn.{
  Result, ok, err, ◌>>=◌, ◌>>◌, invalid_receiver, invalid_argument, hidpp10_error, throw_if,
}
use logiops.Prelude.Bytes.{byte_at}
use logiops.Hidpp.Defs.{short, long, default_device, device_keyboard, wireless_device1}
use logiops.Hidpp.Report.{Report}
use logiops.Hidpp10.Defs.{
  enable_hidpp_notifications, connection_state, device_pairing, device_activity,
  pairing_info_register, bolt_device_discovery, bolt_device_pairing,
}
use logiops.Hidpp10.Device.{get_register, set_register, set_register_no_response}
use logiops.Hidpp10.Receiver.{DeviceDiscoveryEvent, has_bit}

pub record NotificationFlags : Type 0 where
  pub device_battery_status : Bool
  pub receiver_wireless_notifications : Bool
  pub receiver_software_present : Bool

pub record PairingInfo : Type 0 where
  pub destination_id : ℕ
  pub report_interval : ℕ
  pub pid : ℕ
  pub device_type : ℕ

pub record ExtendedPairingInfo : Type 0 where
  pub serial_number : ℕ
  pub report_types : List ℕ
  pub power_switch_location : ℕ

-- The two flag bytes of `getNotificationFlags`.
unfoldable pub read_flags : List ℕ → Result NotificationFlags
read_flags response = do
  first ← byte_at response 0
  second ← byte_at response 1
  ok (record {
    device_battery_status = has_bit 16 first;
    receiver_wireless_notifications = has_bit 1 second;
    receiver_software_present = has_bit 8 second;
  })

-- The request of `setNotifications`.
unfoldable pub flag_bytes : NotificationFlags → List ℕ
flag_bytes flags =
    let first = if flags.device_battery_status then bit_or 0 16 else 0 in
    let second = if flags.receiver_wireless_notifications then bit_or 0 1 else 0 in
    first ∷ (if flags.receiver_software_present then bit_or second 8 else second) ∷ 0 ∷ []

-- `(address >> (i*8)) & 0xff` for `i` from `i` on.
unfoldable pub address_bytes : ℕ → ℕ → ℕ → List ℕ
address_bytes zero i address = []
address_bytes (suc n) i address =
    bit_and (address / 2 ^ (i * 8)) 0xff ∷ address_bytes n (suc i) address

-- The request of `startBoltPairing`.
unfoldable pub bolt_pairing_bytes : DeviceDiscoveryEvent → List ℕ
unfolding address_bytes
bolt_pairing_bytes discovery =
    1
    ∷ 0
    ∷ (address_bytes 6 0 discovery.address
        ++ (discovery.authentication
            ∷ (if discovery.device_type == device_keyboard then 10 else 20)
            ∷ []))

-- The bytes of a response from `i` on, least significant first.
unfoldable pub or_bytes_at : ℕ → ℕ → ℕ → List ℕ → ℕ → Result ℕ
or_bytes_at zero i start response sum = ok sum
or_bytes_at (suc n) i start response sum = do
  byte ← byte_at response (i + start)
  or_bytes_at n (suc i) start response (bit_or sum (byte * 2 ^ (8 * i)))

unfoldable pub bytes_at : ℕ → ℕ → List ℕ → Result (List ℕ)
bytes_at zero start response = ok []
bytes_at (suc n) start response = do
  byte ← byte_at response start
  rest ← bytes_at n (suc start) response
  ok (byte ∷ rest)

unfoldable pub read_pairing_info : Bool → List ℕ → Result PairingInfo
read_pairing_info true response = do
  high ← byte_at response 3
  low ← byte_at response 2
  type ← byte_at response 1
  ok (record {
    destination_id = 0;
    report_interval = 0;
    pid = bit_or (high * 256) low;
    device_type = type;
  })
read_pairing_info false response = do
  id ← byte_at response 1
  interval ← byte_at response 2
  high ← byte_at response 3
  low ← byte_at response 4
  type ← byte_at response 7
  ok (record {
    destination_id = id;
    report_interval = interval;
    pid = bit_or (high * 256) low;
    device_type = type;
  })

unfoldable pub read_extended_pairing_info : Bool → List ℕ → Result ExtendedPairingInfo
unfolding or_bytes_at bytes_at
read_extended_pairing_info bolt response = do
  serial ← or_bytes_at 4 0 (if bolt then 4 else 1) response 0
  types ← bytes_at 4 (if bolt then 8 else 5) response
  location ← byte_at response (if bolt then 12 else 8)
  let psl = bit_and location 0xf
  ok (record {
    serial_number = serial;
    report_types = types;
    power_switch_location = if ltb 0xc psl then 0 else psl;
  })

module _ (send : Report → Result Report) where
  unfoldable pub get_notification_flags : Result NotificationFlags
  unfolding read_flags
  get_notification_flags = do
    response ← get_register send default_device enable_hidpp_notifications [] short
    read_flags response

  -- `_receiverCheck` for a product id: whether it is a Bolt receiver.
  unfoldable pub receiver_check : ℕ → Result Bool
  unfolding get_notification_flags
  receiver_check pid = elim get_notification_flags [
    | ok flags ↦ ok (pid == 0xc548)
    | err (hidpp10_error code index) ↦
        if code == 0x02 then err invalid_receiver else ok (pid == 0xc548)
    | err e ↦ err e
  ]

  unfoldable pub set_notifications : NotificationFlags → Result (List ℕ)
  unfolding flag_bytes
  set_notifications flags =
      set_register send default_device enable_hidpp_notifications (flag_bytes flags) short

  unfoldable pub get_connection_state : ℕ → Result ℕ
  get_connection_state index = do
    response ← get_register send default_device connection_state (index ∷ []) short
    byte_at response 0

  unfoldable pub get_device_count : Result ℕ
  get_device_count = do
    response ← get_register send default_device connection_state [] short
    byte_at response 1

  unfoldable pub start_pairing : Bool → ℕ → Result (List ℕ)
  start_pairing bolt timeout =
      throw_if bolt invalid_argument
      >> set_register send default_device device_pairing (1 ∷ default_device ∷ timeout ∷ []) short

  unfoldable pub start_bolt_pairing : DeviceDiscoveryEvent → Result (List ℕ)
  unfolding bolt_pairing_bytes
  start_bolt_pairing discovery =
      set_register send default_device bolt_device_pairing (bolt_pairing_bytes discovery) long

  unfoldable pub stop_pairing : Bool → Result (List ℕ)
  stop_pairing bolt =
      let request = 2 ∷ default_device ∷ 0 ∷ [] in
      if bolt
      then set_register send default_device bolt_device_pairing request long
      else set_register send default_device device_pairing request short

  unfoldable pub start_discover : Bool → ℕ → Result (List ℕ)
  start_discover bolt timeout =
      throw_if (not bolt) invalid_argument
      >> set_register send default_device bolt_device_discovery (timeout ∷ 1 ∷ []) short

  unfoldable pub stop_discover : Bool → Result (List ℕ)
  stop_discover bolt =
      throw_if (not bolt) invalid_argument
      >> set_register send default_device bolt_device_discovery (0 ∷ 2 ∷ []) short

  unfoldable pub disconnect : Bool → ℕ → Result (List ℕ)
  disconnect bolt index =
      let request = (if bolt then 3 else 2) ∷ index ∷ [] in
      if bolt
      then set_register send default_device bolt_device_pairing request long
      else set_register send default_device device_pairing request short

  -- The activity of the devices 1 to 6, in order.
  unfoldable pub get_device_activity : Result (List ℕ)
  unfolding bytes_at
  get_device_activity = do
    response ← get_register send default_device device_activity [] long
    bytes_at 6 wireless_device1 response

  unfoldable pub get_pairing_info : Bool → ℕ → Result PairingInfo
  unfolding read_pairing_info
  get_pairing_info bolt index = do
    response ←
        get_register send default_device pairing_info_register
          ((index + (if bolt then 0x50 else 0x1f)) % 256 ∷ []) long
    read_pairing_info bolt response

  unfoldable pub get_extended_pairing_info : Bool → ℕ → Result ExtendedPairingInfo
  unfolding read_extended_pairing_info
  get_extended_pairing_info bolt index = do
    response ←
        get_register send default_device pairing_info_register
          ((index + (if bolt then 0x50 else 0x2f)) % 256 ∷ []) long
    read_extended_pairing_info bolt response

-- `enumerate`: the report that is sent without an answer.
unfoldable pub enumerate : Result Report
enumerate = set_register_no_response default_device connection_state (2 ∷ []) short
