-- ===== src/Hidpp/Report/Errors.antt =====
-- Error reports (`isError10` and `isError20` of src/logid/backend/hidpp/Report.cpp).
use logiops.Prelude.{
  ◌+◌, ◌*◌, ◌/◌, ◌<◌, ◌≡◌, ◌⊎◌, inl, inr, ℕ_discrete, none, some, get_or, All-get_or, arith,
}
use logiops.Prelude.Bits.{nibble_lo}
use logiops.Hidpp.Defs.{short, long, error_id10, error_id20}
use logiops.Hidpp.Report.{
  Report, IsValid, IsByte, is_error10, is_error20, Hidpp10Error, Hidpp20Error, device_index,
  type_of, sub_id, address, feature,
}

-- No report is an error of both protocols.
pub is_error_exclusive : (r : Report) → (is_error10 r ≡ none) ⊎ (is_error20 r ≡ none)
unfolding is_error10 is_error20
is_error_exclusive r = elim (ℕ_discrete (get_or r.bytes 0 0) short) [
  | yes e ↦ inr (ground arith)
  | no n ↦ inl (ground arith)
]

-- A HID++ 1.0 error is a short report with the sub-id 0x8f, and names the sub-id and the address of
-- the request that it answers.
pub is_error10-request :
    (r : Report) (e : Hidpp10Error)
    → is_error10 r ≡ some e
    → (type_of r ≡ short)
      × (sub_id r ≡ error_id10)
      × (e.device_index ≡ device_index r)
      × (e.sub_id ≡ address r)
      × (e.address ≡ get_or r.bytes 4 0)
      × (e.error_code ≡ get_or r.bytes 5 0)
unfolding is_error10 type_of sub_id device_index address
is_error10-request r e q = ground arith

-- A HID++ 2.0 error names the call that it answers: its feature index and the address byte of the
-- request, which the parser splits into function and software id without loss.
pub is_error20-request :
    (r : Report) (e : Hidpp20Error)
    → IsValid r
    → is_error20 r ≡ some e
    → (type_of r ≡ long)
      × (feature r ≡ error_id20)
      × (e.device_index ≡ device_index r)
      × (e.feature_index ≡ address r)
      × (e.function * 16 + e.software_id ≡ get_or r.bytes 4 0)
      × (e.software_id < 16)
      × (e.error_code ≡ get_or r.bytes 5 0)
unfolding is_error20 device_index type_of feature address
is_error20-request r e h q =
    let b : get_or r.bytes 4 0 < 256 = All-get_or IsByte r.bytes 4 0 (omega arith) h.bytes in
    ground (arith, nibble_lo (get_or r.bytes 4 0), nibble_lo (get_or r.bytes 4 0 / 16))
