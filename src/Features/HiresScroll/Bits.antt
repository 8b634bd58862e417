-- ===== src/Features/HiresScroll/Bits.antt =====
-- Bits of the mode and of the mask.
use logiops.Prelude.{
  ℕ, zero, suc, ◌-◌, ◌/◌, ◌≤◌, ◌<◌, ◌≡◌, Bool, true, false, from_bool, bit_and, arith,
}
use logiops.Prelude.Bits.{bit, bit-bit_and, bit-bit_or}
use logiops.Features.HiresScroll.{Wheel, complement, set_bit, written_mode}

pub bit-le-one : (k a : ℕ) → bit k a ≤ 1
unfolding bit
bit-le-one zero a = omega arith
bit-le-one (suc k) a = bit-le-one k (a / 2)

pub bit-complement : (k m : ℕ) → k < 8 → m < 256 → bit k (complement m) ≡ 1 - bit k m
unfolding bit
bit-complement zero m h l = omega arith
bit-complement (suc zero) m h l = omega arith
bit-complement (suc (suc zero)) m h l = omega arith
bit-complement (suc (suc (suc zero))) m h l = omega arith
bit-complement (suc (suc (suc (suc zero)))) m h l = omega arith
bit-complement (suc (suc (suc (suc (suc zero))))) m h l = omega arith
bit-complement (suc (suc (suc (suc (suc (suc zero)))))) m h l = omega arith
bit-complement (suc (suc (suc (suc (suc (suc (suc zero))))))) m h l = omega arith
bit-complement (suc (suc (suc (suc (suc (suc (suc (suc k)))))))) m h l = absurd (omega arith)

bit_of_zero : (k m : ℕ) → m ≡ 0 → bit k m ≡ 0
unfolding bit
bit_of_zero zero m h = omega arith
bit_of_zero (suc k) m h = bit_of_zero k (m / 2) (omega arith)

-- The bits above the three that a mask may have.
pub bit_above : (k m : ℕ) → 3 ≤ k → m < 8 → bit k m ≡ 0
unfolding bit
bit_above zero m h l = absurd (omega arith)
bit_above (suc zero) m h l = absurd (omega arith)
bit_above (suc (suc zero)) m h l = absurd (omega arith)
bit_above (suc (suc (suc k))) m h l = bit_of_zero k (m / 2 / 2 / 2) (omega arith)

-- A byte that is written takes the configured bits, and keeps the others.
pub bit-written_mode :
    (k mode : ℕ) (w : Wheel)
    → k < 8
    → w.mask < 8
    → ((bit k w.mask ≡ 0) → bit k (written_mode mode w) ≡ bit k mode)
      × ((bit k w.mask ≡ 1) → bit k (written_mode mode w) ≡ bit k w.mode)
unfolding written_mode
bit-written_mode k mode w h l =
    let written = bit-bit_or k (bit_and mode (complement w.mask)) (bit_and w.mode w.mask) in
    let kept = bit-bit_and k mode (complement w.mask) in
    let set = bit-bit_and k w.mode w.mask in
    let inverse = bit-complement k w.mask h (omega arith) in
    let low = bit-le-one k mode in
    let low' = bit-le-one k w.mode in (λ off. omega arith, λ on. omega arith)

pub set_bit_other :
    (k bits : ℕ) (b : Bool) (w : Wheel)
    → bit k bits ≡ 0
    → bit k (complement bits) ≡ 1
    → (bit k (set_bit bits b w).mask ≡ bit k w.mask)
      × (bit k (set_bit bits b w).mode ≡ bit k w.mode)
set_bit_other k bits true w h c = omega (arith, bit-bit_or k w.mask bits, bit-bit_or k w.mode bits)
set_bit_other k bits false w h c =
    omega
      (arith, bit-bit_or k w.mask bits, bit-bit_and k w.mode (complement bits), bit-le-one k w.mode)

pub set_bit_self :
    (k bits : ℕ) (b : Bool) (w : Wheel)
    → bit k bits ≡ 1
    → bit k (complement bits) ≡ 0
    → (bit k (set_bit bits b w).mask ≡ 1) × (bit k (set_bit bits b w).mode ≡ from_bool b)
set_bit_self k bits true w h c = omega (
  arith,
  bit-bit_or k w.mask bits,
  bit-bit_or k w.mode bits,
  bit-le-one k w.mask,
  bit-le-one k w.mode,
)
set_bit_self k bits false w h c =
    omega
      (arith, bit-bit_or k w.mask bits, bit-bit_and k w.mode (complement bits), bit-le-one k w.mask)
