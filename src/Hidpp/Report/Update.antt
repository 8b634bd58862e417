-- ===== src/Hidpp/Report/Update.antt =====
-- The setters of src/logid/backend/hidpp/Report.cpp keep a report well-formed.
use logiops.Prelude.{
  ℕ, ◌+◌, ◌*◌, ◌/◌, ◌≤◌, ◌<◌, ◌≡◌, refl, sym, ap, ◌≢◌, ◌⊎◌, inl, inr, List, [], ◌∷◌, bit_and,
  bit_or, length, get_or, set, resize, take, drop, take-copy, get_or-set_self, dec_le, length-set,
  length-resize, length-copy, get_or-set_ne, get_or-resize, ℕ_discrete, ◌∙◌, All, All-set,
  All-resize, All-copy, All-get_or, arith,
}
use logiops.Prelude.Bits.{nibble_lo, nibble_hi, or_nibbles, bit_or_comm}
use logiops.Prelude.Exn.{ok, err, invalid_report_id, assertion_failed}
use logiops.Hidpp.Defs.{short, long}
use logiops.Hidpp.Report.{
  Report, IsValid, IsByte, size_of, type_of, set_type, set_device_index, set_feature, set_sub_id,
  set_function, set_sw_id, set_address, set_params, write_params, params,
}
use logiops.Hidpp.Report.Valid.{set-IsValid, IsValid-intro, resize_for_other}

-- Every setter of a header byte keeps a valid report valid, whatever byte it is given.
pub setters-IsValid :
    (r : Report) (v : ℕ)
    → v < 256
    → IsValid r
    → IsValid (set_device_index v r)
      × IsValid (set_feature v r)
      × IsValid (set_sub_id v r)
      × IsValid (set_function v r)
      × IsValid (set_sw_id v r)
      × IsValid (set_address v r)
unfolding set_device_index set_feature set_sub_id set_function set_sw_id set_address
setters-IsValid r v b h =
    let old : get_or r.bytes 3 0 < 256 = All-get_or IsByte r.bytes 3 0 (omega arith) h.bytes in
    (
      set-IsValid r 0 v b h,
      set-IsValid r 3 v b h,
      set-IsValid r 1 v b h,
      set-IsValid r 2 _
          (omega (
            arith,
            nibble_lo (get_or r.bytes 3 0),
            nibble_lo v,
            bit_or_comm (bit_and (get_or r.bytes 3 0) 0x0f) (bit_and v 0x0f * 16),
            or_nibbles (bit_and v 0x0f) (bit_and (get_or r.bytes 3 0) 0x0f),
          ))
          h,
      set-IsValid r 2 _
          (omega (
            arith,
            nibble_lo v,
            nibble_hi (get_or r.bytes 3 0) old,
            ap (λ (t : ℕ). bit_or t (bit_and v 0x0f)) (nibble_hi (get_or r.bytes 3 0) old),
            or_nibbles (get_or r.bytes 3 0 / 16) (bit_and v 0x0f),
          ))
          h,
      set-IsValid r 2 v b h,
    )

retyped :
    (t n : ℕ) (bs : List ℕ) (i : ℕ)
    → 6 < n
    → (t ≡ short) ⊎ (t ≡ long)
    → n ≡ size_of t
    → t < 256
    → All IsByte bs
    → 0 < i
    → i < 7
    → IsValid (record { bytes = set (resize n 0 bs) 0 t })
      × (get_or (set (resize n 0 bs) 0 t) 0 0 ≡ t)
      × (get_or (set (resize n 0 bs) 0 t) i 0 ≡ get_or bs i 0)
retyped t n bs i h k e b l lo hi =
    let own : get_or (set (resize n 0 bs) 0 t) 0 0 ≡ t =
      get_or-set_self (resize n 0 bs) 0 t 0 (omega (arith, length-resize n 0 bs)) in
    (
      IsValid-intro t _ (k, length-set (resize n 0 bs) 0 t ∙ length-resize n 0 bs ∙ e) own
          (All-set IsByte _ 0 t (All-resize IsByte n 0 bs (omega arith) l) b),
      own,
      get_or-set_ne (resize n 0 bs) 0 i t 0 (λ z. absurd (omega arith))
          ∙ get_or-resize n i 0 bs (omega arith),
    )

-- Changing the type resizes the report: it is valid again, and each of the header and parameter bytes
-- that both sizes hold is kept but for the type. Any other type is refused.
pub set_type-IsValid :
    (t : ℕ) (r : Report) (i : ℕ)
    → IsValid r
    → 0 < i
    → i < 7
    → ((r' : Report) × (set_type t r ≡ ok r')
        × IsValid r'
        × (type_of r' ≡ t)
        × (get_or r'.bytes i 0 ≡ get_or r.bytes i 0))
      ⊎ ((t ≢ short) × (t ≢ long) × (set_type t r ≡ err invalid_report_id))
unfolding set_type type_of
set_type-IsValid t r i h lo hi = elim (ℕ_discrete t short) [
  | yes e ↦
      let w = retyped short 7 r.bytes i (omega arith) (inl refl) refl (omega arith) h.bytes lo hi in
      inl (record { bytes = set (resize 7 0 r.bytes) 0 short }, rw e, w.0, w.1 ∙ sym e, w.2)
  | no m ↦ elim (ℕ_discrete t long) [
    | yes e ↦
        let w =
          retyped long 20 r.bytes i (omega arith) (inr refl) refl (omega arith) h.bytes lo hi in
        inl (record { bytes = set (resize 20 0 r.bytes) 0 long }, rw e, w.0, w.1 ∙ sym e, w.2)
    | no n ↦ inr (m, n, rw (resize_for_other t r.bytes m n))
  ]
]

write_params_lem :
    (ps bs : List ℕ)
    → length ps + 4 ≤ length bs
    → (length (write_params ps bs) ≡ length bs)
      × (get_or (write_params ps bs) 0 0 ≡ get_or bs 0 0)
      × (take (length ps) (drop 4 (write_params ps bs)) ≡ ps)
      × (take 4 (write_params ps bs) ≡ take 4 bs)
unfolding write_params
write_params_lem ps (a ∷ b ∷ c ∷ d ∷ rest) h =
    (omega (arith, length-copy rest ps), refl, take-copy rest ps (omega arith), refl)
write_params_lem ps (a ∷ b ∷ c ∷ []) h = absurd (omega arith)
write_params_lem ps (a ∷ b ∷ []) h = absurd (omega arith)
write_params_lem ps (a ∷ []) h = absurd (omega arith)
write_params_lem ps [] h = absurd (omega arith)

All-write_params :
    (ps bs : List ℕ) → All IsByte ps → All IsByte bs → All IsByte (write_params ps bs)
unfolding write_params
All-write_params ps (a ∷ b ∷ c ∷ d ∷ rest) p (ha, (hb, (hc, (hd, hr)))) =
    (ha, (hb, (hc, (hd, All-copy IsByte rest ps hr p))))
All-write_params ps (a ∷ b ∷ c ∷ []) p h = h
All-write_params ps (a ∷ b ∷ []) p h = h
All-write_params ps (a ∷ []) p h = h
All-write_params ps [] p h = h

pub write_params-IsValid :
    (ps : List ℕ) (r : Report)
    → All IsByte ps
    → IsValid r
    → length ps + 4 ≤ length r.bytes
    → IsValid (record { bytes = write_params ps r.bytes })
      × (take (length ps) (params (record { bytes = write_params ps r.bytes })) ≡ ps)
      × (take 4 (write_params ps r.bytes) ≡ take 4 r.bytes)
unfolding type_of params
write_params-IsValid ps r b h fits =
    let w = write_params_lem ps r.bytes fits in
    (
      IsValid-intro (get_or r.bytes 0 0) _ (h.typed, w.0 ∙ h.sized) w.1
          (All-write_params ps r.bytes b h.bytes),
      w.2,
      w.3,
    )

-- Parameters that fit are written over the front of the old ones, and the header stays; longer ones
-- fail the assertion.
pub set_params-IsValid :
    (ps : List ℕ) (r : Report)
    → All IsByte ps
    → IsValid r
    → ((r' : Report) × (set_params ps r ≡ ok r')
        × (length ps + 4 ≤ length r.bytes)
        × IsValid r'
        × (take (length ps) (params r') ≡ ps)
        × (take 4 r'.bytes ≡ take 4 r.bytes))
      ⊎ ((length r.bytes < length ps + 4) × (set_params ps r ≡ err assertion_failed))
unfolding set_params
set_params-IsValid ps r b h = elim (dec_le (length ps + 4) (length r.bytes)) [
  | yes fits ↦
      let w = write_params-IsValid ps r b h fits in
      inl (record { bytes = write_params ps r.bytes }, ground arith, fits, w.0, w.1, w.2)
  | no over ↦ inr (omega arith, ground arith)
]
