-- ===== src/Prelude/Bits.antt =====
-- Laws of `&` and `|` on unsigned words, at every width: a bit at a time, masks of low ones, and
-- the disjoint sum that `hi << k | lo` is.
use Prim.Native.Nat.{
  ℕ, zero, suc, ◌+◌, ◌*◌, ◌/◌, ◌%◌, ◌^◌, ◌≤◌, ◌<◌, min, max, bit_and, bit_or, digits,
  bit_and-bitwise, bit_or-bitwise,
}
use mathlib.Core.Path.{◌≡◌, refl, ap, sym, ◌∙◌}
use native.Mathlib.Omega.{arith}
use native.Mathlib.Nat.{pow-suc, div-div-eq-div-mul, mul_comm}

-- The native operations stand for a recursion on binary digits: `op` joins the digits, `rest` is what
-- remains of the second word once the first is 0, and the first word bounds the rounds. More rounds
-- change nothing.
module _ (rest : ℕ → ℕ) (op : ℕ → ℕ → ℕ) where
  rounds_enough :
      (word other more fewer : ℕ)
      → word ≤ fewer
      → fewer ≤ more
      → digits rest op more word other ≡ digits rest op fewer word other
  rounds_enough zero other zero zero wf fm = refl
  rounds_enough zero other zero (suc f) wf fm = absurd (omega arith)
  rounds_enough zero other (suc g) zero wf fm = refl
  rounds_enough zero other (suc g) (suc f) wf fm = refl
  rounds_enough (suc w) other more zero wf fm = absurd (omega arith)
  rounds_enough (suc w) other zero (suc f) wf fm = absurd (omega arith)
  rounds_enough (suc w) other (suc g) (suc f) wf fm =
      let halves = rounds_enough (suc w / 2) (other / 2) g f (omega arith) (omega arith) in
      ap (λ t. t * 2 + op (suc w % 2) (other % 2)) halves

-- The last digit and the others of a conjunction and of a disjunction.
and_digits :
    (a b : ℕ)
    → (bit_and a b % 2 ≡ min (a % 2) (b % 2)) × (bit_and a b / 2 ≡ bit_and (a / 2) (b / 2))
and_digits zero b = rw (bit_and-bitwise 0 b, bit_and-bitwise 0 (b / 2)) (omega arith)
and_digits (suc w) b =
    let stop =
      rounds_enough (λ _. 0) min (suc w / 2) (b / 2) w (suc w / 2) (omega arith) (omega arith) in
    omega (arith, stop, bit_and-bitwise (suc w) b, bit_and-bitwise (suc w / 2) (b / 2))

or_digits :
    (a b : ℕ) → (bit_or a b % 2 ≡ max (a % 2) (b % 2)) × (bit_or a b / 2 ≡ bit_or (a / 2) (b / 2))
or_digits zero b = rw (bit_or-bitwise 0 b, bit_or-bitwise 0 (b / 2)) (omega arith)
or_digits (suc w) b =
    let stop =
      rounds_enough (λ t. t) max (suc w / 2) (b / 2) w (suc w / 2) (omega arith) (omega arith) in
    omega (arith, stop, bit_or-bitwise (suc w) b, bit_or-bitwise (suc w / 2) (b / 2))

pub zero-bit_or : (b : ℕ) → bit_or 0 b ≡ b
zero-bit_or = bit_or-bitwise 0

and_none : (rounds a : ℕ) → digits (λ _. 0) min rounds a 0 ≡ 0
and_none zero zero = refl
and_none (suc m) zero = refl
and_none zero (suc w) = refl
and_none (suc m) (suc w) = omega (arith, and_none m (suc w / 2))

or_none : (rounds a : ℕ) → a ≤ rounds → digits (λ t. t) max rounds a 0 ≡ a
or_none zero zero h = refl
or_none (suc m) zero h = refl
or_none zero (suc w) h = absurd (omega arith)
or_none (suc m) (suc w) h = omega (arith, or_none m (suc w / 2) (omega arith))

pub bit_and-zero : (a : ℕ) → bit_and a 0 ≡ 0
bit_and-zero a = bit_and-bitwise a 0 ∙ and_none a a

pub bit_or-zero : (a : ℕ) → bit_or a 0 ≡ a
bit_or-zero a = bit_or-bitwise a 0 ∙ or_none a a (omega arith)

-- Bit k of a word.
unfoldable pub bit : ℕ → ℕ → ℕ
bit zero a = a % 2
bit (suc k) a = bit k (a / 2)

pub bit-bit_and : (k a b : ℕ) → bit k (bit_and a b) ≡ min (bit k a) (bit k b)
unfolding bit
bit-bit_and zero a b = omega (arith, and_digits a b)
bit-bit_and (suc k) a b = rw ((and_digits a b).1) (bit-bit_and k (a / 2) (b / 2))

pub bit-bit_or : (k a b : ℕ) → bit k (bit_or a b) ≡ max (bit k a) (bit k b)
unfolding bit
bit-bit_or zero a b = omega (arith, or_digits a b)
bit-bit_or (suc k) a b = rw ((or_digits a b).1) (bit-bit_or k (a / 2) (b / 2))

pow-pos : (k : ℕ) → 0 < 2 ^ k
pow-pos zero = omega arith
pow-pos (suc k) = omega (arith, pow-pos k, pow-suc 2 k)

mod-double : (a d : ℕ) → 0 < d → a % (d * 2) ≡ a / 2 % d * 2 + a % 2
mod-double a d h = grind arith

-- A mask of k ones keeps the low k bits.
pub mask : ℕ → ℕ
mask zero = 0
mask (suc k) = mask k * 2 + 1

pub bit_and-mask : (k a : ℕ) → bit_and a (mask k) ≡ a % 2 ^ k
unfolding mask
bit_and-mask zero a = omega (arith, bit_and-zero a)
bit_and-mask (suc k) a =
    let half : (mask k * 2 + 1) / 2 ≡ mask k = omega arith in
    let step : bit_and a (mask k * 2 + 1) ≡ bit_and (a / 2) (mask k) * 2 + a % 2 =
      omega (arith, and_digits a (mask k * 2 + 1), ap (bit_and (a / 2)) half) in
    omega (
      arith,
      step,
      bit_and-mask k (a / 2),
      mod-double a (2 ^ k) (pow-pos k),
      ap (λ (t : ℕ). a % t) (pow-suc 2 k),
    )

-- `hi << k | lo`, for a `lo` of k bits, is a sum.
pub bit_or-shift : (k hi lo : ℕ) → lo < 2 ^ k → bit_or (hi * 2 ^ k) lo ≡ hi * 2 ^ k + lo
bit_or-shift zero hi lo h =
    omega (arith, bit_or-zero (hi * 1), ap (bit_or (hi * 1)) {x = lo} {y = 0} (omega arith))
bit_or-shift (suc k) hi lo h =
    let p : hi * 2 ^ suc k / 2 ≡ hi * 2 ^ k = omega (arith, ap (λ (t : ℕ). hi * t) (pow-suc 2 k)) in
    let step : bit_or (hi * 2 ^ suc k) lo ≡ bit_or (hi * 2 ^ k) (lo / 2) * 2 + lo % 2 = omega (
      arith,
      or_digits (hi * 2 ^ suc k) lo,
      ap (λ (t : ℕ). bit_or t (lo / 2)) p,
      ap (λ (t : ℕ). hi * t) (pow-suc 2 k),
    ) in
    omega (
      arith,
      step,
      bit_or-shift k hi (lo / 2) (omega (arith, pow-suc 2 k)),
      ap (λ (t : ℕ). hi * t) (pow-suc 2 k),
    )

-- A byte keeps its high or its low half under the masks 0xf0 and 0x0f.
pub byte_lo : (a : ℕ) → bit_and a 0xff ≡ a % 256
unfolding mask
byte_lo a = bit_and-mask 8 a

pub nibble_lo : (a : ℕ) → bit_and a 0x0f ≡ a % 16
unfolding mask
nibble_lo a = bit_and-mask 4 a

pub bit_and-shift : (k a b : ℕ) → bit_and a (b * 2 ^ k) ≡ bit_and (a / 2 ^ k) b * 2 ^ k
bit_and-shift zero a b = omega (
  arith,
  ap (λ (t : ℕ). bit_and a t) {x = b * 1} {y = b} (omega arith),
  ap (λ (t : ℕ). bit_and t b) {x = a / 1} {y = a} (omega arith),
)
bit_and-shift (suc k) a b =
    let p : b * 2 ^ suc k / 2 ≡ b * 2 ^ k = omega (arith, ap (λ (t : ℕ). b * t) (pow-suc 2 k)) in
    let q : a / 2 / 2 ^ k ≡ a / 2 ^ suc k =
      div-div-eq-div-mul a 2 (2 ^ k)
      ∙ ap (λ (t : ℕ). a / t) (mul_comm 2 (2 ^ k) ∙ sym (pow-suc 2 k)) in
    omega (
      arith,
      and_digits a (b * 2 ^ suc k),
      ap (bit_and (a / 2)) p,
      bit_and-shift k (a / 2) b,
      ap (λ (t : ℕ). bit_and t b * 2 ^ k) q,
      ap (λ (t : ℕ). b * t) (pow-suc 2 k),
      ap (λ (t : ℕ). bit_and (a / 2 ^ suc k) b * t) (pow-suc 2 k),
    )

pub nibble_hi : (a : ℕ) → a < 256 → bit_and a 0xf0 ≡ a / 16 * 16
unfolding mask
nibble_hi a h = omega (arith, bit_and-shift 4 a 15, bit_and-mask 4 (a / 16))

-- `hi << 4 | lo` and `hi << 8 | lo`.
pub or_nibbles : (hi lo : ℕ) → lo < 16 → bit_or (hi * 16) lo ≡ hi * 16 + lo
or_nibbles hi lo h = bit_or-shift 4 hi lo h

pub or_bytes : (hi lo : ℕ) → lo < 256 → bit_or (hi * 256) lo ≡ hi * 256 + lo
or_bytes hi lo h = bit_or-shift 8 hi lo h

pub bit_or_comm_fuel : (n a b : ℕ) → a ≤ n → bit_or a b ≡ bit_or b a
bit_or_comm_fuel n zero b h = zero-bit_or b ∙ sym (bit_or-zero b)
bit_or_comm_fuel zero (suc a) b h = absurd (omega arith)
bit_or_comm_fuel (suc n) (suc a) b h = omega (
  arith,
  or_digits (suc a) b,
  or_digits b (suc a),
  bit_or_comm_fuel n (suc a / 2) (b / 2) (omega arith),
)

pub bit_or_comm : (a b : ℕ) → bit_or a b ≡ bit_or b a
bit_or_comm a b = bit_or_comm_fuel a a b (omega arith)

pub or_bytes' : (hi lo : ℕ) → lo < 256 → bit_or lo (hi * 256) ≡ hi * 256 + lo
or_bytes' hi lo h = bit_or_comm lo (hi * 256) ∙ or_bytes hi lo h
