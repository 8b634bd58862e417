-- ===== src/Prelude/Exn.antt =====
-- The exceptions that the modelled code throws, and the monad of code that may throw.
use Prim.Native.Nat.{ℕ}
use mathlib.Core.Bool.{Bool, true, false}
use mathlib.Core.Path.{◌≡◌, refl}
use mathlib.Core.Logic.{◌⊎◌, inl, inr}

-- `assertion_failed` is a failed `assert`, and `out_of_bounds` an access past the end of a buffer,
-- which C++ leaves undefined as it does a division by 0: the code could catch none of these.
pub data Exn : Type 0 where
  invalid_report_id : Exn
  timeout_error : Exn
  hidpp10_error : ℕ → ℕ → Exn
  hidpp20_error : ℕ → ℕ → Exn
  unsupported_feature : ℕ → Exn
  device_not_ready : Exn
  invalid_argument : Exn
  invalid_receiver : Exn
  assertion_failed : Exn
  division_by_zero : Exn
  out_of_bounds : Exn

-- The outcome of code that may throw: `ok` with its value, or `err` with the exception.
pub data Result {ℓ} (A : Type ℓ) : Type ℓ where
  err : Exn → Result A
  ok : A → Result A

-- `abbrev`, so that a block computes wherever it stands; it ends at the first exception.
infixl 5 ◌>>=◌ ◌>>◌
abbrev pub ◌>>=◌ {ℓ κ} :
    {Value : Type ℓ} {Next : Type κ} → Result Value → (Value → Result Next) → Result Next
err exn >>= next = err exn
ok value >>= next = next value

abbrev pub ◌>>◌ {ℓ} : {Next : Type ℓ} → Result (Unit {0}) → Result Next → Result Next
first >> second = first >>= λ _. second

-- `assert (b)`.
abbrev pub assert : Bool → Result (Unit {0})
assert true = ok tt
assert false = err assertion_failed

-- `if (b) throw e;`
abbrev pub throw_if : Bool → Exn → Result (Unit {0})
throw_if true e = err e
throw_if false e = ok tt

-- A block that ends well went well at its first step.
pub >>=-eq-ok {ℓ κ} :
    {Value : Type ℓ} {Next : Type κ} (first : Result Value) (next : Value → Result Next)
    {end : Next}
    → (first >>= next) ≡ ok end
    → (value : Value) × (first ≡ ok value) × (next value ≡ ok end)
>>=-eq-ok (err exn) next e = cc
>>=-eq-ok (ok value) next e = (value, refl, e)

pub Result-cases {ℓ} :
    {Value : Type ℓ} (r : Result Value)
    → ((exn : Exn) × (r ≡ err exn)) ⊎ ((value : Value) × (r ≡ ok value))
Result-cases (err exn) = inl (exn, refl)
Result-cases (ok value) = inr (value, refl)
