-- ===== src/Hidpp/Report/Parse.antt =====
-- The constructor of src/logid/backend/hidpp/Report.cpp that takes received bytes.
use logiops.Prelude.{
  ℕ, ◌≡◌, refl, ap, ◌≢◌, ◌⊎◌, inl, inr, List, get_or, resize, length-resize, resize-resize,
  get_or-resize, ℕ_discrete, ◌∙◌, All, All-resize, arith,
}
use logiops.Prelude.Exn.{ok, err, invalid_report_id}
use logiops.Hidpp.Defs.{short, long}
use logiops.Hidpp.Report.{Report, IsValid, IsByte, size_of, from_data, type_of}
use logiops.Hidpp.Report.Valid.{IsValid-intro, resize_for_other}

-- A valid report is read back from its own bytes.
pub from_data-raw : (r : Report) → IsValid r → from_data r.bytes ≡ ok r
unfolding from_data type_of
from_data-raw r h = elim h.typed [
  | inl e ↦
      rw (get_or-resize 20 0 0 r.bytes (omega arith), e)
        (ap (λ b. ok (record { bytes = b }))
          (resize-resize 7 20 0 0 r.bytes (h.sized ∙ ap size_of e) (omega arith)))
  | inr e ↦
      rw (get_or-resize 20 0 0 r.bytes (omega arith), e)
        (ap (λ b. ok (record { bytes = b }))
          (resize-resize 20 20 0 0 r.bytes (h.sized ∙ ap size_of e) (omega arith)))
]

-- Parsing any bytes gives a valid report, or the exception when the first byte is no report type.
pub from_data-IsValid :
    (ds : List ℕ)
    → All IsByte ds
    → ((r : Report) × (from_data ds ≡ ok r) × IsValid r × (type_of r ≡ get_or ds 0 0))
      ⊎ ((get_or ds 0 0 ≢ short) × (get_or ds 0 0 ≢ long) × (from_data ds ≡ err invalid_report_id))
unfolding from_data type_of
from_data-IsValid ds h =
    let full : All IsByte (resize 20 0 ds) = All-resize IsByte 20 0 ds (omega arith) h in
    let first : get_or (resize 20 0 ds) 0 0 ≡ get_or ds 0 0 =
      get_or-resize 20 0 0 ds (omega arith) in
    elim (ℕ_discrete (get_or ds 0 0) short) [
      | yes e ↦ inl (
        record { bytes = resize 7 0 (resize 20 0 ds) },
        rw (first, e),
        IsValid-intro short _ (inl refl, length-resize 7 0 _)
            (get_or-resize 7 0 0 (resize 20 0 ds) (omega arith) ∙ first ∙ e)
            (All-resize IsByte 7 0 _ (omega arith) full),
        get_or-resize 7 0 0 (resize 20 0 ds) (omega arith) ∙ first,
      )
      | no m ↦ elim (ℕ_discrete (get_or ds 0 0) long) [
        | yes e ↦ inl (
          record { bytes = resize 20 0 (resize 20 0 ds) },
          rw (first, e),
          IsValid-intro long _ (inr refl, length-resize 20 0 _)
              (get_or-resize 20 0 0 (resize 20 0 ds) (omega arith) ∙ first ∙ e)
              (All-resize IsByte 20 0 _ (omega arith) full),
          get_or-resize 20 0 0 (resize 20 0 ds) (omega arith) ∙ first,
        )
        | no n ↦ inr (m, n, rw (first, resize_for_other (get_or ds 0 0) _ m n))
      ]
    ]
