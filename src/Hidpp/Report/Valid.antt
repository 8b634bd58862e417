-- ===== src/Hidpp/Report/Valid.antt =====
-- When a report of src/logid/backend/hidpp/Report.cpp is well-formed: facts shared by the
-- constructors and the setters.
use logiops.Prelude.{
  ℕ, suc, ◌<◌, ◌≡◌, refl, ◌≢◌, ◌⊎◌, inl, inr, List, bit_and, length, get_or, set, resize,
  length-set, length-resize, get_or-set_ne, All, All-set, All-resize, arith,
}
use logiops.Prelude.Bits.{nibble_lo, or_nibbles}
use logiops.Prelude.Exn.{ok, err, invalid_report_id}
use logiops.Hidpp.Defs.{short, long}
use logiops.Hidpp.Report.{Report, IsValid, IsByte, size_of, type_of, function_byte, resize_for}

-- Writing a byte anywhere but at the type keeps a report well-formed.
pub set-IsValid :
    (r : Report) (i v : ℕ)
    → v < 256
    → IsValid r
    → IsValid (record { bytes = set r.bytes (suc i) v })
unfolding type_of
set-IsValid r i v b h =
    let same : get_or (set r.bytes (suc i) v) 0 0 ≡ get_or r.bytes 0 0 =
      get_or-set_ne r.bytes (suc i) 0 v 0 (λ e. cc) in
    record {
      typed = rw same h.typed;
      sized = rw (same, length-set) h.sized;
      bytes = All-set IsByte r.bytes (suc i) v h.bytes b;
    }

resize_for_cases :
    (t : ℕ) (bs cs : List ℕ)
    → resize_for t bs ≡ ok cs
    → ((t ≡ short) × (cs ≡ resize 7 0 bs)) ⊎ ((t ≡ long) × (cs ≡ resize 20 0 bs))
unfolding resize_for
resize_for_cases t bs cs e = ground arith

pub resize_for_sized :
    (t : ℕ) (bs cs : List ℕ)
    → resize_for t bs ≡ ok cs
    → ((t ≡ short) ⊎ (t ≡ long)) × (length cs ≡ size_of t) × (All IsByte bs → All IsByte cs)
resize_for_sized t bs cs e = elim (resize_for_cases t bs cs e) [
  | inl (a, b) ↦ rw (a, b) (inl refl, length-resize 7 0 bs, All-resize IsByte 7 0 bs (omega arith))
  | inr (a, b) ↦
      rw (a, b) (inr refl, length-resize 20 0 bs, All-resize IsByte 20 0 bs (omega arith))
]

pub IsValid-intro :
    (t : ℕ) (cs : List ℕ)
    → ((t ≡ short) ⊎ (t ≡ long)) × (length cs ≡ size_of t)
    → get_or cs 0 0 ≡ t
    → All IsByte cs
    → IsValid (record { bytes = cs })
unfolding type_of
IsValid-intro t cs h e b = record { typed = rw e h.0; sized = rw e h.1; bytes = b }

-- `function << 4 | sw_id` is a byte whatever the arguments are.
pub function_byte-lt : (f s : ℕ) → function_byte f s < 256
unfolding function_byte
function_byte-lt f s =
    omega (arith, nibble_lo f, nibble_lo s, or_nibbles (bit_and f 0x0f) (bit_and s 0x0f))

pub resize_for_other :
    (t : ℕ) (bs : List ℕ) → t ≢ short → t ≢ long → resize_for t bs ≡ err invalid_report_id
unfolding resize_for
resize_for_other t bs m n = ground arith
