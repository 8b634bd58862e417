-- ===== src/Prelude/Bytes.antt =====
-- Reads and writes of `std::vector` and `std::string` that the source does not guard.
use logiops.Prelude.{
  ℕ, ◌<◌, ◌≤◌, ◌≡◌, ltb, ◌==◌, ◌&&◌, List, get_or, set, length, if◌then◌else◌, arith,
}
use logiops.Prelude.Exn.{Result, ok, err, out_of_bounds}

-- `bytes[i]`.
unfoldable pub byte_at : List ℕ → ℕ → Result ℕ
byte_at bytes i = if ltb i (length bytes) then ok (get_or bytes i 0) else err out_of_bounds

-- `name[i] = c` of a string: a zero may be written over the terminator.
unfoldable pub write_at : List ℕ → ℕ → ℕ → Result (List ℕ)
write_at name i c =
    if ltb i (length name)
    then ok (set name i c)
    else (if (i == length name) && (c == 0) then ok name else err out_of_bounds)

pub byte_at_inside :
    (bytes : List ℕ) (i : ℕ) → i < length bytes → byte_at bytes i ≡ ok (get_or bytes i 0)
unfolding byte_at
byte_at_inside bytes i h = ground arith

pub byte_at_outside :
    (bytes : List ℕ) (i : ℕ) → length bytes ≤ i → byte_at bytes i ≡ err out_of_bounds
unfolding byte_at
byte_at_outside bytes i h = ground arith
