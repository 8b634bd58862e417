-- ===== src/Manager/Nicknames.antt =====
-- src/logid/DeviceManager.cpp, src/logid/Device.cpp and src/logid/Receiver.cpp: the numbers that name
-- the nodes of devices and receivers on the bus. A `std::set<int>` is the list of its elements in
-- ascending order. `int` ends at `int_max`: the addition past it, which C++ leaves open, wraps to a
-- negative number here, so the assertion after it fails.
pub mod Least
pub mod Serving
pub mod Tests
use logiops.Prelude.{
  ℕ, ◌+◌, Bool, true, false, not, ◌&&◌, Option, none, some, List, [], ◌∷◌, ltb, leb, ◌==◌,
  if◌then◌else◌,
}
use logiops.Prelude.Sets.{insert, erase}
use logiops.Prelude.Exn.{Result, ok, ◌>>=◌, ◌>>◌, assert}

abbrev pub int_max : ℕ
int_max = 2147483647

-- What the destructors of `DeviceNickname` and `ReceiverNickname` do.
abbrev pub drop_nickname : ℕ → List ℕ → List ℕ
drop_nickname n names = erase n names

-- The element at `std::adjacent_find` with `l + 1 < r`, `none` for the end.
unfoldable pub adjacent_gap : List ℕ → Option ℕ
adjacent_gap [] = none
adjacent_gap (l ∷ []) = none
adjacent_gap (l ∷ (r ∷ rest)) =
    let later = adjacent_gap (r ∷ rest) in if ltb (l + 1) r then some l else later

-- `*rbegin()`, `none` for `rend()`.
unfoldable pub last : List ℕ → Option ℕ
last [] = none
last (x ∷ []) = some x
last (x ∷ (y ∷ rest)) = last (y ∷ rest)

-- `begin != end() && *begin != 0`.
abbrev pub starts_above : List ℕ → Bool
starts_above [] = false
starts_above (x ∷ rest) = not (x == 0)

-- `auto ret = *i + 1; assert(ret > 0); insert(ret); return ret;`
abbrev pub claim_after : ℕ → List ℕ → Result (ℕ × List ℕ)
claim_after i s = do assert (leb (i + 1) int_max); ok (i + 1, insert (i + 1) s)

-- `DeviceManager::newDeviceNickname`.
unfoldable pub new_device_nickname : List ℕ → Result (ℕ × List ℕ)
new_device_nickname s = if starts_above s then ok (0, insert 0 s) else elim (adjacent_gap s) [
  | none ↦ elim (last s) [ some end ↦ claim_after end s | none ↦ ok (0, insert 0 s) ]
  | some i ↦ claim_after i s
]

-- `DeviceManager::newReceiverNickname`, on the other set.
unfoldable pub new_receiver_nickname : List ℕ → Result (ℕ × List ℕ)
new_receiver_nickname s = if starts_above s then ok (0, insert 0 s) else elim (adjacent_gap s) [
  | none ↦ elim (last s) [ some end ↦ claim_after end s | none ↦ ok (0, insert 0 s) ]
  | some i ↦ claim_after i s
]
