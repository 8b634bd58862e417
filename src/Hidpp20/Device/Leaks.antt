-- ===== src/Hidpp20/Device/Leaks.antt =====
-- The slot of a request whose write threw, in src/logid/backend/hidpp20/Device.cpp.
use logiops.Prelude.{ℕ, ◌≡◌, ◌≢◌, none, List, [], ◌∷◌, ◌++◌, sym, ◌∙◌, Bool-cases, inl, inr, ◌==◌}
use logiops.Prelude.Exn.{Result}
use logiops.Hidpp.Report.{Report, feature}
use logiops.Hidpp20.Device.{index_of, start}
use logiops.Hidpp20.Device.Slots.{
  System, Step, begins, fails, receives, returns, gives_up, Reach, next, Steps, none_left,
  then_step, at,
}
use logiops.Hidpp20.Device.Steps.{at-append}
use logiops.Hidpp20.Device.Matching.{start-none_iff}

pub Steps-Reach : {s t : System} → Steps s t → Reach s → Reach t
Steps-Reach none_left r = r
Steps-Reach (then_step more last) r = next (Steps-Reach more r) last

at-more : (i : ℕ) (r : Report) (rs : List Report) → at i rs ≢ [] → at i (r ∷ rs) ≢ []
unfolding at
at-more i r rs n = elim (Bool-cases (index_of (feature r) == i)) [
  | inl here ↦ rw (here, at) (λ e. cc)
  | inr other ↦ rw (other, at) n
]

Step-failed : {s t : System} (i : ℕ) → Step s t → at i s.failed ≢ [] → at i t.failed ≢ []
Step-failed i (begins r slots' e) n = n
Step-failed {s} i (fails r exn slots' e) n = at-more i r s.failed n
Step-failed i (receives r) n = n
Step-failed i (returns before r after result slots' f e) n = n
Step-failed i (gives_up before r after result slots' f e) n = n

Steps-failed : {s t : System} (i : ℕ) → Steps s t → at i s.failed ≢ [] → at i t.failed ≢ []
Steps-failed i none_left n = n
Steps-failed i (then_step more last) n = Step-failed i last (Steps-failed i more n)

append-nonempty : (xs ys : List Report) → ys ≢ [] → xs ++ ys ≢ []
append-nonempty [] ys n = n
append-nonempty (x ∷ xs) ys n = λ e. cc

-- Once a write has thrown, no later request whose feature has the same index modulo 16 is ever sent,
-- whatever the threads and the device do: it waits for the slot, which is not given back.
pub start-failed :
    {s t : System} (written : Result (Unit {0})) (q : Report)
    → Reach s
    → at (index_of (feature q)) s.failed ≢ []
    → Steps s t
    → start written q t.slots ≡ none
start-failed {s} {t} written q reach n steps =
    (start-none_iff {s = t} written q (Steps-Reach steps reach)).1 (λ e.
      append-nonempty (at (index_of (feature q)) t.flying) (at (index_of (feature q)) t.failed)
        (Steps-failed (index_of (feature q)) steps n)
        (sym (at-append (index_of (feature q)) t.flying t.failed) ∙ e))
