-- ===== src/Hidpp/Defs.antt =====
-- The constants of src/logid/backend/hidpp/defs.h and of the namespace `Offset` in
-- src/logid/backend/hidpp/Report.h. An enumeration over `uint8_t` is its byte, since the code casts
-- received bytes to it without a check.
use logiops.Prelude.{ℕ}

-- `ReportType`.
abbrev pub short : ℕ
short = 0x10

abbrev pub long : ℕ
long = 0x11

-- `DeviceIndex`.
abbrev pub default_device : ℕ
default_device = 0xff

abbrev pub wireless_device1 : ℕ
wireless_device1 = 1

abbrev pub wireless_device6 : ℕ
wireless_device6 = 6

-- `DeviceType`.
abbrev pub device_unknown : ℕ
device_unknown = 0x00

abbrev pub device_keyboard : ℕ
device_keyboard = 0x01

abbrev pub software_id : ℕ
software_id = 2

abbrev pub no_ack_software_id : ℕ
no_ack_software_id = 3

abbrev pub short_param_length : ℕ
short_param_length = 3

abbrev pub long_param_length : ℕ
long_param_length = 16

abbrev pub header_length : ℕ
header_length = 4

abbrev pub short_report_supported : ℕ
short_report_supported = 1

abbrev pub long_report_supported : ℕ
long_report_supported = 2

-- `hidpp10::ErrorID` and `hidpp20::ErrorID`.
abbrev pub error_id10 : ℕ
error_id10 = 0x8f

abbrev pub error_id20 : ℕ
error_id20 = 0xff
