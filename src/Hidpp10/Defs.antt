-- ===== src/Hidpp10/Defs.antt =====
-- The constants of src/logid/backend/hidpp10/defs.h and of src/logid/backend/hidpp10/Receiver.h.
use logiops.Prelude.{ℕ}

-- `SubID`.
abbrev pub set_register_short : ℕ
set_register_short = 0x80

abbrev pub get_register_short : ℕ
get_register_short = 0x81

abbrev pub set_register_long : ℕ
set_register_long = 0x82

abbrev pub get_register_long : ℕ
get_register_long = 0x83

abbrev pub sub_id_count : ℕ
sub_id_count = 4

-- `Receiver::Events`.
abbrev pub device_disconnection : ℕ
device_disconnection = 0x40

abbrev pub device_connection : ℕ
device_connection = 0x41

abbrev pub pair_status : ℕ
pair_status = 0x4a

abbrev pub passkey_request : ℕ
passkey_request = 0x4d

abbrev pub device_discovered : ℕ
device_discovered = 0x4f

abbrev pub discovery_status : ℕ
discovery_status = 0x53

abbrev pub bolt_pair_status : ℕ
bolt_pair_status = 0x54

-- `Receiver::Registers`.
abbrev pub enable_hidpp_notifications : ℕ
enable_hidpp_notifications = 0x00

abbrev pub connection_state : ℕ
connection_state = 0x02

abbrev pub device_pairing : ℕ
device_pairing = 0xb2

abbrev pub device_activity : ℕ
device_activity = 0xb3

abbrev pub pairing_info_register : ℕ
pairing_info_register = 0xb5

abbrev pub bolt_device_discovery : ℕ
bolt_device_discovery = 0xc0

abbrev pub bolt_device_pairing : ℕ
bolt_device_pairing = 0xc1
