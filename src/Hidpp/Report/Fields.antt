-- ===== src/Hidpp/Report/Fields.antt =====
-- The packed fourth byte of a report: function in the high half, software id in the low half
-- (src/logid/backend/hidpp/Report.cpp).
use logiops.Prelude.{
  ℕ, ◌+◌, ◌*◌, ◌/◌, ◌%◌, ◌<◌, ◌≡◌, refl, sym, ap, ◌∙◌, List, [], ◌∷◌, drop, bit_and, bit_or, get_or,
  set, length, get_or-set_self, get_or-set_ne, All-get_or, arith,
}
use logiops.Prelude.Bits.{nibble_lo, nibble_hi, or_nibbles, bit_or_comm}
use logiops.Prelude.Exn.{ok}
use logiops.Hidpp.Report.{
  Report, IsValid, IsByte, make, make_feature, function_byte, function, sw_id, address, feature,
  set_function, set_sw_id, set_feature, params,
}
use logiops.Hidpp.Report.Build.{make_feature-make}

valid-length : (r : Report) → IsValid r → 6 < length r.bytes
valid-length r h = ground arith

function_byte_lem : (f s : ℕ) → f < 16 → s < 16 → function_byte f s ≡ f * 16 + s
unfolding function_byte
function_byte_lem f s hf hs = omega (
  arith,
  nibble_lo f,
  nibble_lo s,
  ap (λ (t : ℕ). bit_or (t * 16) (bit_and s 15)) (nibble_lo f),
  or_nibbles (f % 16) (bit_and s 15),
)

-- The getters split the address byte into two halves.
pub address_halves : (r : Report) → IsValid r → address r ≡ function r * 16 + sw_id r
unfolding address function sw_id
address_halves r h =
    let b : get_or r.bytes 3 0 < 256 = All-get_or IsByte r.bytes 3 0 (omega arith) h.bytes in
    omega (arith, nibble_lo (get_or r.bytes 3 0), nibble_lo (get_or r.bytes 3 0 / 16))

low_half : (b v : ℕ) → bit_or (bit_and b 0x0f) (bit_and v 0x0f * 16) ≡ v % 16 * 16 + b % 16
low_half b v = omega (
  arith,
  nibble_lo b,
  nibble_lo v,
  bit_or_comm (bit_and b 0x0f) (bit_and v 0x0f * 16),
  or_nibbles (bit_and v 0x0f) (bit_and b 0x0f),
)

high_half : (b v : ℕ) → b < 256 → bit_or (bit_and b 0xf0) (bit_and v 0x0f) ≡ b / 16 * 16 + v % 16
high_half b v h = omega (
  arith,
  nibble_lo v,
  ap (λ (t : ℕ). bit_or t (bit_and v 0x0f)) (nibble_hi b h),
  or_nibbles (b / 16) (bit_and v 0x0f),
)

-- `setFunction` and `setSwId` write their own half, cut to four bits, and leave the other half.
pub set_halves :
    (v : ℕ) (r : Report)
    → IsValid r
    → (function (set_function v r) ≡ v % 16)
      × (sw_id (set_function v r) ≡ sw_id r)
      × (sw_id (set_sw_id v r) ≡ v % 16)
      × (function (set_sw_id v r) ≡ function r)
unfolding function sw_id set_function set_sw_id
set_halves v r h =
    let b : ℕ = get_or r.bytes 3 0 in
    let hb : get_or r.bytes 3 0 < 256 = All-get_or IsByte r.bytes 3 0 (omega arith) h.bytes in
    let wide = valid-length r h in
    rw
      (
        get_or-set_self r.bytes 3 (bit_or (bit_and b 15) (bit_and v 15 * 16)) 0 (omega arith),
        get_or-set_self r.bytes 3 (bit_or (bit_and b 240) (bit_and v 15)) 0 (omega arith),
        low_half b v,
        high_half b v hb,
      )
      (
        omega (arith, nibble_lo ((v % 16 * 16 + b % 16) / 16)),
        omega (arith, nibble_lo (v % 16 * 16 + b % 16), nibble_lo b),
        omega (arith, nibble_lo (b / 16 * 16 + v % 16)),
        omega (arith, nibble_lo ((b / 16 * 16 + v % 16) / 16), nibble_lo (b / 16)),
      )

make_header :
    (t d s a : ℕ) (r : Report)
    → make t d s a ≡ ok r
    → (get_or r.bytes 2 0 ≡ s) × (get_or r.bytes 3 0 ≡ a)
unfolding make
make_header t d s a r e = ground arith

-- The feature constructor's function and software id are read back.
pub make_feature-fields :
    (t d i f s : ℕ) (r : Report)
    → f < 16
    → s < 16
    → make_feature t d i f s ≡ ok r
    → (function r ≡ f) × (sw_id r ≡ s) × (feature r ≡ i)
unfolding function sw_id feature
make_feature-fields t d i f s r hf hs e =
    let w = make_header t d i (function_byte f s) r (sym (make_feature-make t d i f s hf hs) ∙ e) in
    let v = function_byte_lem f s hf hs in
    rw (w.1, v)
      (omega (arith, nibble_lo ((f * 16 + s) / 16)), omega (arith, nibble_lo (f * 16 + s)), w.0)

-- The first parameter is byte 4.
get_or-params : (bs : List ℕ) → get_or (drop 4 bs) 0 0 ≡ get_or bs 4 0
get_or-params [] = refl
get_or-params (a ∷ []) = refl
get_or-params (a ∷ b ∷ []) = refl
get_or-params (a ∷ b ∷ c ∷ []) = refl
get_or-params (a ∷ b ∷ c ∷ d ∷ []) = refl
get_or-params (a ∷ b ∷ c ∷ d ∷ e ∷ rest) = refl

-- `setFeature` does not set the feature: it leaves the feature index of every report as it was, and
-- overwrites the first parameter.
pub set_feature-feature :
    (v : ℕ) (r : Report)
    → IsValid r
    → (feature (set_feature v r) ≡ feature r) × (get_or (params (set_feature v r)) 0 0 ≡ v)
unfolding feature set_feature params
set_feature-feature v r h = (
  get_or-set_ne r.bytes 4 2 v 0 (λ e. absurd (omega arith)),
  get_or-params (set r.bytes 4 v) ∙ get_or-set_self r.bytes 4 v 0 (omega (arith, valid-length r h)),
)
