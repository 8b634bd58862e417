-- ===== src/Util/Handlers.antt =====
-- src/logid/backend/EventHandlerList.h: a list of handlers that callbacks may change while it runs. A
-- handler is a number with its flag. `running` counts the calls of `run_all` that hold the mutex.
pub mod Removed
pub mod Tests
use logiops.Prelude.{ℕ, suc, ◌-◌, Bool, true, false, ◌&&◌, List, [], ◌∷◌, ◌==◌, if◌then◌else◌}

pub record Handlers : Type 0 where
  pub list : List (ℕ × Bool)
  pub running : ℕ

abbrev pub handlers_of : List (ℕ × Bool) → List ℕ
handlers_of [] = []
handlers_of ((h, active) ∷ rest) = h ∷ handlers_of rest

-- `iterator->second`.
unfoldable pub is_active : ℕ → List (ℕ × Bool) → Bool
is_active h [] = false
is_active h ((g, active) ∷ rest) = let later = is_active h rest in if h == g then active else later

unfoldable pub deactivate : ℕ → List (ℕ × Bool) → List (ℕ × Bool)
deactivate h [] = []
deactivate h ((g, active) ∷ rest) =
    let later = deactivate h rest in if h == g then (g, false) ∷ rest else (g, active) ∷ later

unfoldable pub erase : ℕ → List (ℕ × Bool) → List (ℕ × Bool)
erase h [] = []
erase h ((g, active) ∷ rest) =
    let later = erase h rest in if h == g then rest else (g, active) ∷ later

-- `cleanup`, if it gets the mutex.
unfoldable pub drop_inactive : List (ℕ × Bool) → List (ℕ × Bool)
drop_inactive [] = []
drop_inactive ((h, true) ∷ rest) = (h, true) ∷ drop_inactive rest
drop_inactive ((h, false) ∷ rest) = drop_inactive rest

unfoldable pub cleanup : Handlers → Handlers
unfolding drop_inactive
cleanup s = if s.running == 0 then record s { list = drop_inactive s.list } else s

-- `add`.
abbrev pub add : ℕ → Handlers → Handlers
add h s = record s { list = (h, true) ∷ s.list }

-- `remove`, which also the end of an `EventHandlerLock` calls.
unfoldable pub remove : ℕ → Handlers → Handlers
unfolding erase deactivate
remove h s =
    if s.running == 0
    then record s { list = erase h s.list }
    else record s { list = deactivate h s.list }

-- What a callback does to the list.
pub data Edit : Type 0 where
  adds removes : ℕ → Edit

unfoldable pub edit : List Edit → Handlers → Handlers
unfolding remove
edit [] s = s
edit (adds h ∷ rest) s = edit rest (add h s)
edit (removes h ∷ rest) s = edit rest (remove h s)

-- The loop of `run_all` from a handler on: the handlers that are called, and the list.
unfoldable pub loop : (ℕ → Bool) → (ℕ → List Edit) → List ℕ → Handlers → List ℕ × Handlers
unfolding edit is_active
loop condition callback [] s = ([], s)
loop condition callback (h ∷ rest) s =
    let skip = loop condition callback rest s in
    let after = loop condition callback rest (edit (callback h) s) in
    if is_active h s.list && condition h then (h ∷ after.0, after.1) else skip

-- `run_all`.
unfoldable pub run_all : (ℕ → Bool) → (ℕ → List Edit) → Handlers → List ℕ × Handlers
unfolding cleanup loop
run_all condition callback s =
    let s0 = cleanup s in
    let locked : Handlers = record s0 { running = suc s0.running } in
    let after = loop condition callback (handlers_of s0.list) locked in
    (after.0, record (after.1) { running = after.1.running - 1 })
