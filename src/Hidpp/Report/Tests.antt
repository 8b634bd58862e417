-- ===== src/Hidpp/Report/Tests.antt =====
-- Reports as the devices send them, and the theorems on src/logid/backend/hidpp/Report.cpp at
-- these.
use logiops.Prelude.{◌≡◌, refl, inl, inr, some, [], ◌∷◌, arith}
use logiops.Prelude.Exn.{ok}
use logiops.Hidpp.Defs.{short}
use logiops.Hidpp.Report.{
  Report, Hidpp10Error, Hidpp20Error, IsValid, make_feature, function_byte, from_data, type_of,
  is_error10, is_error20,
}
use logiops.Hidpp.Report.Parse.{from_data-raw}

-- A ping to a wired device, and the error that refuses feature index 5.
abbrev pub ping : Report
ping = record { bytes = 0x10 ∷ 0xff ∷ 0x00 ∷ 0x12 ∷ 0 ∷ 0 ∷ 0x68 ∷ [] }

abbrev pub refused : Report
refused = record {
  bytes =
      0x11 ∷ 0x01 ∷ 0xff ∷ 0x05 ∷ 0x12 ∷ 0x06 ∷ 0 ∷ 0 ∷ 0 ∷ 0 ∷ 0 ∷ 0 ∷ 0 ∷ 0 ∷ 0 ∷ 0 ∷ 0 ∷ 0 ∷ 0
      ∷ 0 ∷ [];
}

abbrev pub refused10 : Report
refused10 = record { bytes = 0x10 ∷ 0xff ∷ 0x8f ∷ 0x81 ∷ 0xb5 ∷ 0x02 ∷ 0 ∷ [] }

pub ping-IsValid : IsValid ping
unfolding type_of
ping-IsValid = record { typed = inl refl; sized = refl; bytes = omega arith }

pub refused-IsValid : IsValid refused
unfolding type_of
refused-IsValid = record { typed = inr refl; sized = refl; bytes = omega arith }

make_feature_ping :
    make_feature short 0xff 0 1 2
    ≡ ok (record { bytes = 0x10 ∷ 0xff ∷ 0x00 ∷ 0x12 ∷ 0 ∷ 0 ∷ 0 ∷ [] })
unfolding make_feature function_byte
make_feature_ping = refl

from_data_cuts :
    from_data (0x10 ∷ 1 ∷ 2 ∷ 3 ∷ 4 ∷ 5 ∷ 6 ∷ 7 ∷ 8 ∷ [])
    ≡ ok (record { bytes = 0x10 ∷ 1 ∷ 2 ∷ 3 ∷ 4 ∷ 5 ∷ 6 ∷ [] })
unfolding from_data
from_data_cuts = refl

from_data-raw_example : from_data ping.bytes ≡ ok ping
from_data-raw_example = from_data-raw ping ping-IsValid

abbrev pub refusal : Hidpp20Error
refusal = record {
  device_index = 1;
  feature_index = 5;
  function = 1;
  software_id = 2;
  error_code = 6;
}

pub refused-refusal : is_error20 refused ≡ some refusal
unfolding is_error20
refused-refusal = refl

abbrev refusal10 : Hidpp10Error
refusal10 = record { device_index = 0xff; sub_id = 0x81; address = 0xb5; error_code = 2 }

refused10-refusal : is_error10 refused10 ≡ some refusal10
unfolding is_error10
refused10-refusal = refl
