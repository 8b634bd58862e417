-- ===== src/Hidpp10/Device/Requests.antt =====
-- The register requests of src/logid/backend/hidpp10/Device.cpp.
use logiops.Prelude.{
  ℕ, ◌+◌, ◌<◌, ◌≤◌, ◌≡◌, refl, ap, ◌∙◌, ◌⊎◌, inl, inr, Bool-cases, List, take, length, All, leb,
  ◌==◌, if◌then◌else◌, arith, get_or-of_take,
}
use logiops.Prelude.Exn.{Result, ok, ◌>>=◌}
use logiops.Hidpp.Defs.{short, long}
use logiops.Hidpp.Report.{
  Report, IsValid, IsByte, size_of, make, device_index, sub_id, address, type_of, params,
  write_params,
}
use logiops.Hidpp.Report.Build.{make-Builds}
use logiops.Hidpp.Report.Update.{write_params-IsValid}
use logiops.Hidpp10.Defs.{set_register_long}
use logiops.Hidpp10.Device.{setup_reg_report}

-- What a register request is: valid, of the type, for the device, the sub id and the register, and
-- with the parameters in front.
abbrev pub IsRegRequest : Result Report → ℕ → ℕ → ℕ → ℕ → List ℕ → Type 0
IsRegRequest result t d s a ps =
    (r : Report) × (result ≡ ok r)
    × IsValid r
    × (type_of r ≡ t)
    × (device_index r ≡ d)
    × (sub_id r ≡ s)
    × (address r ≡ a)
    × (take (length ps) (params r) ≡ ps)

sized_request :
    (t d s a : ℕ) (ps : List ℕ)
    → d < 256
    → s < 256
    → a < 256
    → All IsByte ps
    → (t ≡ short) ⊎ (t ≡ long)
    → length ps + 4 ≤ size_of t
    → IsRegRequest
        (do request ← make t d s a; ok (record { bytes = write_params ps request.bytes }))
        t
        d
        s
        a
        ps
unfolding type_of device_index sub_id address
sized_request t d s a ps hd hs ha hp typed fits = elim (make-Builds t d s a hd hs ha) [
  | inr (m, n, e) ↦ elim typed [ inl b ↦ absurd (m b) | inr b ↦ absurd (n b) ]
  | inl (r, e, valid, ty, dv, sub, ad, par) ↦
      let w = write_params-IsValid ps r hp valid (omega (arith, valid.sized, ap size_of ty)) in
      let kept =
        λ (k : ℕ) (h : k < 4). get_or-of_take 4 k (write_params ps r.bytes) r.bytes 0 w.2 h in
      (
        record { bytes = write_params ps r.bytes },
        rw e,
        w.0,
        kept 0 (omega arith) ∙ ty,
        kept 1 (omega arith) ∙ dv,
        kept 2 (omega arith) ∙ sub,
        kept 3 (omega arith) ∙ ad,
        w.1,
      )
]

-- The type that the number of parameters and the sub id choose.
abbrev pub type_for : ℕ → List ℕ → ℕ
type_for s ps = if s == set_register_long then long else (if leb (length ps) 3 then short else long)

-- Up to 16 parameters make a valid register request that names the device, the sub id and the
-- register and begins with the parameters: it is long if it sets a long register or has more than 3
-- parameters, and short otherwise.
pub setup_reg_report-IsRegRequest :
    (d s a : ℕ) (ps : List ℕ)
    → d < 256
    → s < 256
    → a < 256
    → All IsByte ps
    → length ps ≤ 16
    → IsRegRequest (setup_reg_report d s a ps) (type_for s ps) d s a ps
unfolding setup_reg_report
setup_reg_report-IsRegRequest d s a ps hd hs ha hp fits =
    elim (Bool-cases (s == set_register_long)) [
      | inl e ↦ rw e (sized_request long d s a ps hd hs ha hp (inr refl) (omega arith))
      | inr e ↦ elim (Bool-cases (leb (length ps) 3)) [
        | inl f ↦ rw (e, f) (sized_request short d s a ps hd hs ha hp (inl refl) (ground arith))
        | inr f ↦ rw (e, f) (sized_request long d s a ps hd hs ha hp (inr refl) (omega arith))
      ]
    ]
