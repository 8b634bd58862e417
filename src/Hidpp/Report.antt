-- ===== src/Hidpp/Report.antt =====
-- src/logid/backend/hidpp/Report.cpp: the report buffer, its constructors, getters and setters. A
-- byte is a number below 256; `IsValid` states what the constructors establish. Every access lies
-- inside the buffer of a valid report, so reads are `get_or` and writes are `set`.
pub mod Valid
pub mod Build
pub mod Parse
pub mod Update
pub mod Fields
pub mod Errors
pub mod Tests
use logiops.Prelude.{
  ℕ, ◌+◌, ◌*◌, ◌/◌, ◌%◌, ◌<◌, ◌≡◌, ◌⊎◌, not, ◌||◌, Option, none, some, List, [], ◌∷◌, bit_and,
  bit_or, leb, ◌==◌, if◌then◌else◌, length, get_or, set, resize, copy, drop, replicate, All,
}
use logiops.Prelude.Exn.{Exn, Result, ok, err, ◌>>=◌, ◌>>◌, assert, invalid_report_id}
use logiops.Hidpp.Defs.{
  short, long, short_param_length, long_param_length, header_length, error_id10, error_id20,
}

pub record Report : Type 0 where
  pub bytes : List ℕ

-- The `switch (type)` of the constructors and of `setType`.
unfoldable pub resize_for : ℕ → List ℕ → Result (List ℕ)
resize_for type bytes =
    if type == short
    then ok (resize (header_length + short_param_length) 0 bytes)
    else (if type == long
        then ok (resize (header_length + long_param_length) 0 bytes)
        else err invalid_report_id)

-- `Report(type, device_index, sub_id, address)`.
unfoldable pub make : ℕ → ℕ → ℕ → ℕ → Result Report
unfolding resize_for
make type device_index sub_id address = do
  bytes ← resize_for type []
  ok (record { bytes = set (set (set (set bytes 0 type) 1 device_index) 2 sub_id) 3 address })

-- `(function & 0x0f) << 4 | (sw_id & 0x0f)`.
unfoldable pub function_byte : ℕ → ℕ → ℕ
function_byte function sw_id = bit_or (bit_and function 0x0f * 16) (bit_and sw_id 0x0f)

-- `Report(type, device_index, feature_index, function, sw_id)`.
unfoldable pub make_feature : ℕ → ℕ → ℕ → ℕ → ℕ → Result Report
unfolding resize_for
make_feature type device_index feature_index function sw_id = do
  assert (leb function 0x0f)
  assert (leb sw_id 0x0f)
  bytes ← resize_for type []
  ok (record {
    bytes =
        set (set (set (set bytes 0 type) 1 device_index) 2 feature_index) 3
          (function_byte function sw_id);
  })

-- `Report(data)`: the buffer is filled up to the long size, then cut to the size that its type asks.
unfoldable pub from_data : List ℕ → Result Report
unfolding resize_for
from_data data' = do
  let bytes = resize (header_length + long_param_length) 0 data'
  sized ← resize_for (get_or bytes 0 0) bytes
  ok (record { bytes = sized })

unfoldable pub type_of : Report → ℕ
type_of r = get_or r.bytes 0 0

unfoldable pub set_type : ℕ → Report → Result Report
unfolding resize_for
set_type type r = do bytes ← resize_for type r.bytes; ok (record { bytes = set bytes 0 type })

unfoldable pub device_index : Report → ℕ
device_index r = get_or r.bytes 1 0

unfoldable pub set_device_index : ℕ → Report → Report
set_device_index index r = record { bytes = set r.bytes 1 index }

unfoldable pub feature : Report → ℕ
feature r = get_or r.bytes 2 0

-- `setFeature` writes at `Offset::Parameters`, as the source does.
unfoldable pub set_feature : ℕ → Report → Report
set_feature f r = record { bytes = set r.bytes 4 f }

unfoldable pub sub_id : Report → ℕ
sub_id r = get_or r.bytes 2 0

unfoldable pub set_sub_id : ℕ → Report → Report
set_sub_id s r = record { bytes = set r.bytes 2 s }

-- `(_data[Function] >> 4) & 0x0f`.
unfoldable pub function : Report → ℕ
function r = bit_and (get_or r.bytes 3 0 / 16) 0x0f

-- `&= 0x0f`, then `|= (function & 0x0f) << 4`.
unfoldable pub set_function : ℕ → Report → Report
set_function f r = record {
  bytes = set r.bytes 3 (bit_or (bit_and (get_or r.bytes 3 0) 0x0f) (bit_and f 0x0f * 16));
}

unfoldable pub sw_id : Report → ℕ
sw_id r = bit_and (get_or r.bytes 3 0) 0x0f

-- `&= 0xf0`, then `|= sw_id & 0x0f`.
unfoldable pub set_sw_id : ℕ → Report → Report
set_sw_id s r = record {
  bytes = set r.bytes 3 (bit_or (bit_and (get_or r.bytes 3 0) 0xf0) (bit_and s 0x0f));
}

unfoldable pub address : Report → ℕ
address r = get_or r.bytes 3 0

unfoldable pub set_address : ℕ → Report → Report
set_address a r = record { bytes = set r.bytes 3 a }

-- The bytes from `paramBegin` to `paramEnd`.
unfoldable pub params : Report → List ℕ
params r = drop header_length r.bytes

-- The header stays, and the parameters are copied over the front of what stands behind it.
unfoldable pub write_params : List ℕ → List ℕ → List ℕ
write_params ps (a ∷ b ∷ c ∷ d ∷ rest) = a ∷ b ∷ c ∷ d ∷ copy rest ps
write_params ps bytes = bytes

unfoldable pub set_params : List ℕ → Report → Result Report
unfolding write_params
set_params ps r = do
  assert (leb (length ps + header_length) (length r.bytes))
  ok (record { bytes = write_params ps r.bytes })

pub record Hidpp10Error : Type 0 where
  pub device_index : ℕ
  pub sub_id : ℕ
  pub address : ℕ
  pub error_code : ℕ

unfoldable pub is_error10 : Report → Option Hidpp10Error
unfolding device_index
is_error10 r =
    if not (get_or r.bytes 0 0 == short) || not (get_or r.bytes 2 0 == error_id10)
    then none
    else some (record {
      device_index = device_index r;
      sub_id = get_or r.bytes 3 0;
      address = get_or r.bytes 4 0;
      error_code = get_or r.bytes 5 0;
    })

pub record Hidpp20Error : Type 0 where
  pub device_index : ℕ
  pub feature_index : ℕ
  pub function : ℕ
  pub software_id : ℕ
  pub error_code : ℕ

unfoldable pub is_error20 : Report → Option Hidpp20Error
unfolding device_index
is_error20 r =
    if not (get_or r.bytes 0 0 == long) || not (get_or r.bytes 2 0 == error_id20)
    then none
    else some (record {
      device_index = device_index r;
      feature_index = get_or r.bytes 3 0;
      function = bit_and (get_or r.bytes 4 0 / 16) 0x0f;
      software_id = bit_and (get_or r.bytes 4 0) 0x0f;
      error_code = get_or r.bytes 5 0;
    })

-- The size that the type in the first byte asks for, and bytes everywhere.
abbrev pub IsByte : ℕ → Type 0
IsByte b = b < 256

abbrev pub size_of : ℕ → ℕ
size_of type =
    if type == short then header_length + short_param_length else header_length + long_param_length

pub record IsValid (r : Report) : Type 0 where
  pub typed : (type_of r ≡ short) ⊎ (type_of r ≡ long)
  pub sized : length r.bytes ≡ size_of (type_of r)
  pub bytes : All IsByte r.bytes
