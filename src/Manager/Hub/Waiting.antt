-- ===== src/Manager/Hub/Waiting.antt =====
-- Devices that time out while they are added: what the receiver and its monitor do together.
use logiops.Prelude.{ℕ, ◌≡◌, true, false, none, some, List, [], ◌∷◌, arith, refl}
use logiops.Prelude.Exn.{ok}
use logiops.Hidpp10.Receiver.{DeviceConnectionEvent}
use logiops.Hidpp10.ReceiverMonitor.Adding.{
  Adder, add_handler, try_add, contains, erase, insert, wait_for_device,
}
use logiops.Manager.Maps.{find}
use logiops.Manager.Devices.{Hub, Manager, Outcome, timeout_fault}
use logiops.Manager.Hub.{
  ChildProbe, waiting, child_handlers, new_child, add_child, attempt_of, handle_ending,
}

erased_gone : (x : ℕ) (xs : List ℕ) → contains x (erase x xs) ≡ false
erased_gone x [] = refl
erased_gone x (y ∷ ys) = ground (arith, erased_gone x ys)

-- A device that is connected, is not known yet and does not answer in time: `addDevice` asks to wait
-- for it and returns, and the monitor, which takes the return for success, drops what was asked for.
-- The device is not added, not waited for, and no further try is made.
pub timed_out-forgotten :
    (event : DeviceConnectionEvent) (p : ChildProbe) (r : Hub) (m : Manager) (tries : ℕ) (s : Adder)
    → event.from_timeout_check ≡ false
    → event.link_established ≡ true
    → find event.index r.children ≡ none
    → p.version ≡ Outcome.failed timeout_fault
    → (s' : Adder) × (add_child none event p r m ≡ ok (waiting, r, m))
      × (handle_ending waiting event tries s ≡ some s')
      × (contains event.index s'.waiters ≡ false)
      × (s'.scheduled ≡ s.scheduled)
unfolding add_child new_child child_handlers handle_ending attempt_of add_handler try_add
    wait_for_device
timed_out-forgotten event p r m tries s from_wait up new late = (
  record s {
    waiters = erase event.index (insert event.index s.waiters);
    pending_adds = erase event.index s.pending_adds;
  },
  rw (new, add_child, up, late, from_wait),
  rw (from_wait, add_handler),
  erased_gone event.index (insert event.index s.waiters),
  refl,
)
