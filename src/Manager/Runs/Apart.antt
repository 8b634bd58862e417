-- ===== src/Manager/Runs/Apart.antt =====
-- The agreement with receivers that are in no map yet.
use logiops.Prelude.{ℕ, ◌≡◌, none, some, List, [], arith, Option-cases, inl, inr}
use logiops.Prelude.Sets.{insert-AscendsFrom, erase-AscendsFrom}
use logiops.Manager.Maps.{
  find, emplace, remove, assign, total, total-emplace, total-assign, total_found,
}
use logiops.Manager.Devices.{Hub, Manager, keep_receiver, emit, receiver_added}
use logiops.Manager.Devices.Agreement.{
  known, is_entry, in_hub, taken_more, erased, released, release_all-AscendsFrom,
  known-sleep_signals, known-removed_signals,
}
use logiops.Manager.Hub.{remove_child}
use logiops.Manager.Hub.Agreement.{Stays, Grows}
use logiops.Manager.Runs.{System, end_hub}
use logiops.Manager.Runs.Kept.{IsConsistent}

pub make_hub-IsConsistent :
    (hub n : ℕ) (names : List ℕ) (s : System)
    → find hub s.apart ≡ none
    → IsConsistent s
    → IsConsistent (record s {
      manager = record (s.manager) { receiver_nicknames = names };
      apart = emplace hub (record { nickname = n; children = [] }) s.apart;
    })
unfolding total
make_hub-IsConsistent hub n names s new a =
    let none_yet = λ (k : ℕ).
      total-emplace (in_hub k) hub (record { nickname = n; children = [] }) s.apart new in
    record {
      ascending = a.ascending;
      taken = λ k. omega (arith, a.taken k, none_yet k);
      announced = λ k. omega (arith, a.announced k, none_yet k);
    }

pub Stays-IsConsistent :
    (hub : ℕ) (r r' : Hub) (s : System) (m : Manager)
    → find hub s.apart ≡ some r
    → Stays r r' s.manager m
    → IsConsistent s
    → IsConsistent (record s { manager = m; apart = assign hub r' s.apart })
Stays-IsConsistent hub r r' s m there c a =
    let same = λ (k : ℕ). total-assign (in_hub k) hub r' r s.apart there in
    record {
      ascending = rw c.names a.ascending;
      taken = λ k.
          rw (c.names, c.same_devices, c.same_receivers)
            (omega (arith, a.taken k, same k, c.same_children k));
      announced = λ k.
          rw (c.same_devices, c.same_receivers)
            (omega (arith, a.announced k, same k, c.same_children k, c.same_known k));
    }

pub Grows-IsConsistent :
    (hub n : ℕ) (r r' : Hub) (s : System) (m : Manager)
    → find hub s.apart ≡ some r
    → Grows n r r' s.manager m
    → IsConsistent s
    → IsConsistent (record s { manager = m; apart = assign hub r' s.apart })
Grows-IsConsistent hub n r r' s m there g a =
    let more = λ (k : ℕ). total-assign (in_hub k) hub r' r s.apart there in
    record {
      ascending =
          rw g.names (insert-AscendsFrom 0 n s.manager.device_nicknames (omega arith) a.ascending);
      taken = λ k.
          rw (g.names, g.same_devices, g.same_receivers)
            (omega (
              arith,
              a.taken k,
              more k,
              g.more_children k,
              taken_more k n s.manager.device_nicknames g.free,
            ));
      announced = λ k.
          rw (g.same_devices, g.same_receivers)
            (omega (arith, a.announced k, more k, g.more_children k, g.more_known k));
    }

pub drops_apart-IsConsistent :
    (hub index : ℕ) (r : Hub) (s : System)
    → find hub s.apart ≡ some r
    → IsConsistent s
    → IsConsistent (record s {
      manager = (remove_child index r s.manager).1;
      apart = assign hub (remove_child index r s.manager).0 s.apart;
    })
unfolding remove_child known
drops_apart-IsConsistent hub index r s there a = elim (Option-cases (find index r.children)) [
  | inl no_child ↦
      rw (no_child, remove_child)
        (record {
          ascending = a.ascending;
          taken = λ k. omega (arith, a.taken k, total-assign (in_hub k) hub r r s.apart there);
          announced =
              λ k. omega (arith, a.announced k, total-assign (in_hub k) hub r r s.apart there);
        })
  | inr (d, child) ↦
      let r' : Hub = record r { children = remove index r.children } in
      let less = λ (k : ℕ). total-assign (in_hub k) hub r' r s.apart there in
      let gone = λ (k : ℕ). total_found (is_entry k) index d r.children child in
      rw (child, remove_child)
        (record {
          ascending = erase-AscendsFrom 0 d.nickname s.manager.device_nicknames a.ascending;
          taken = λ k. omega (
            arith,
            a.taken k,
            less k,
            gone k,
            erased k d.nickname s.manager.device_nicknames a.ascending,
          );
          announced = λ k.
              omega
                (arith, a.announced k, less k, gone k, known-sleep_signals k d s.manager.signals);
        })
]

pub fails-IsConsistent :
    (hub : ℕ) (r : Hub) (s : System)
    → find hub s.apart ≡ some r
    → IsConsistent s
    → IsConsistent (record s { manager = end_hub r s.manager; apart = remove hub s.apart })
fails-IsConsistent hub r s there a =
    let less = λ (k : ℕ). total_found (in_hub k) hub r s.apart there in
    record {
      ascending = release_all-AscendsFrom r.children s.manager.device_nicknames a.ascending;
      taken = λ k.
          omega (
            arith,
            a.taken k,
            less k,
            released k r.children s.manager.device_nicknames a.ascending,
          );
      announced = λ k.
          omega
            (arith, a.announced k, less k, known-removed_signals k r.children s.manager.signals);
    }

kept_hub :
    (path : ℕ) (r : Hub) (m : Manager)
    → find path m.receivers ≡ none
    → keep_receiver path r m
      ≡ emit (receiver_added r.nickname) (record m { receivers = emplace path r m.receivers })
unfolding keep_receiver
kept_hub path r m h = rw (h, keep_receiver)

pub keep_hub-IsConsistent :
    (hub path : ℕ) (r : Hub) (s : System)
    → find hub s.apart ≡ some r
    → find path s.manager.receivers ≡ none
    → IsConsistent s
    → IsConsistent
        (record s { manager = keep_receiver path r s.manager; apart = remove hub s.apart })
unfolding known
keep_hub-IsConsistent hub path r s there new a =
    let less = λ (k : ℕ). total_found (in_hub k) hub r s.apart there in
    let more = λ (k : ℕ). total-emplace (in_hub k) path r s.manager.receivers new in
    rw (kept_hub path r s.manager new) (record {
      ascending = a.ascending;
      taken = λ k. omega (arith, a.taken k, less k, more k);
      announced = λ k. omega (arith, a.announced k, less k, more k);
    })
