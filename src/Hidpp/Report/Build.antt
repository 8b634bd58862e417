-- ===== src/Hidpp/Report/Build.antt =====
-- The two constructors of src/logid/backend/hidpp/Report.cpp that build a request.
use logiops.Prelude.{
  ℕ, ◌-◌, ◌<◌, ◌≡◌, refl, ◌≢◌, ◌⊎◌, inl, inr, [], ◌∷◌, replicate, ℕ_discrete, arith,
}
use logiops.Prelude.Exn.{Result, ok, err, invalid_report_id}
use logiops.Hidpp.Defs.{short, long}
use logiops.Hidpp.Report.{
  Report, IsValid, size_of, make, make_feature, type_of, function_byte, device_index, sub_id,
  address, params,
}
use logiops.Hidpp.Report.Valid.{function_byte-lt}

-- What a constructor promises of its four header bytes: a valid report with these bytes and
-- parameters of 0, or the exception for every type that is neither short nor long.
abbrev pub Builds : Result Report → ℕ → ℕ → ℕ → ℕ → Type 0
Builds result t d s a =
    ((r : Report) × (result ≡ ok r)
      × IsValid r
      × (type_of r ≡ t)
      × (device_index r ≡ d)
      × (sub_id r ≡ s)
      × (address r ≡ a)
      × (params r ≡ replicate (size_of t - 4) 0))
    ⊎ ((t ≢ short) × (t ≢ long) × (result ≡ err invalid_report_id))

make-Builds-short :
    (d s a : ℕ) → d < 256 → s < 256 → a < 256 → Builds (make short d s a) short d s a
unfolding make type_of device_index sub_id address params
make-Builds-short d s a hd hs ha = inl (
  record { bytes = short ∷ d ∷ s ∷ a ∷ 0 ∷ 0 ∷ 0 ∷ [] },
  refl,
  record { typed = inl refl; sized = refl; bytes = omega arith },
  refl,
  refl,
  refl,
  refl,
  refl,
)

make-Builds-long : (d s a : ℕ) → d < 256 → s < 256 → a < 256 → Builds (make long d s a) long d s a
unfolding make type_of device_index sub_id address params
make-Builds-long d s a hd hs ha = inl (
  record { bytes = long ∷ d ∷ s ∷ a ∷ replicate 16 0 },
  refl,
  record { typed = inr refl; sized = refl; bytes = omega arith },
  refl,
  refl,
  refl,
  refl,
  refl,
)

make_other : (t d s a : ℕ) → t ≢ short → t ≢ long → make t d s a ≡ err invalid_report_id
unfolding make
make_other t d s a m n = ground arith

-- Whatever the type, the register constructor throws or builds a valid report whose getters give
-- back its arguments, with zero parameters.
pub make-Builds : (t d s a : ℕ) → d < 256 → s < 256 → a < 256 → Builds (make t d s a) t d s a
make-Builds t d s a hd hs ha = elim (ℕ_discrete t short) [
  | yes e ↦ rw e (make-Builds-short d s a hd hs ha)
  | no m ↦ elim (ℕ_discrete t long) [
    | yes e ↦ rw e (make-Builds-long d s a hd hs ha)
    | no n ↦ inr (m, n, make_other t d s a m n)
  ]
]

pub make_feature-make :
    (t d i f s : ℕ) → f < 16 → s < 16 → make_feature t d i f s ≡ make t d i (function_byte f s)
unfolding make make_feature
make_feature-make t d i f s hf hs = ground arith

-- The feature constructor does the same for a function and a software id of four bits, whose byte
-- the getters take apart again.
pub make_feature-Builds :
    (t d i f s : ℕ)
    → d < 256
    → i < 256
    → f < 16
    → s < 16
    → Builds (make_feature t d i f s) t d i (function_byte f s)
make_feature-Builds t d i f s hd hi hf hs =
    rw (make_feature-make t d i f s hf hs)
      (make-Builds t d i (function_byte f s) hd hi (function_byte-lt f s))
