-- ===== src/Manager/Runs/Kept.antt =====
-- What is listed, what is taken and what is known agree while a device is being added.
use logiops.Prelude.{ℕ, ◌≡◌, none, some, List, arith}
use logiops.Prelude.Sets.{insert-AscendsFrom}
use logiops.Manager.Maps.{
  find, emplace, remove, assign, total, total-emplace, total-assign, total_found,
}
use logiops.Manager.Devices.{Entry, Hub, Manager, keep_device, emit, device_added}
use logiops.Manager.Devices.Agreement.{Agrees, known, is_entry, in_hub, taken_more}
use logiops.Manager.Devices.Steps.{Fresh, kept_new}
use logiops.Manager.Runs.{System, with_child}

-- How many devices of the nickname are made but in no map, and how many are in receivers that are not.
abbrev pub unlisted_of : List (ℕ × Entry) → ℕ → ℕ
unlisted_of ds k = total (is_entry k) ds

abbrev pub apart_of : List (ℕ × Hub) → ℕ → ℕ
apart_of rs k = total (in_hub k) rs

abbrev pub IsConsistent : System → Type 0
IsConsistent s = Agrees (unlisted_of s.unlisted) (apart_of s.apart) s.manager

pub make-IsConsistent :
    (call : ℕ) (s : System) {d : Entry} {m : Manager}
    → find call s.unlisted ≡ none
    → Fresh d s.manager m
    → IsConsistent s
    → IsConsistent (record s { manager = m; unlisted = emplace call d s.unlisted })
make-IsConsistent call s {d} {m} new f a = record {
  ascending =
      rw f.names
        (insert-AscendsFrom 0 d.nickname s.manager.device_nicknames (omega arith) a.ascending);
  taken = λ k.
      rw (f.names, f.same_devices, f.same_receivers)
        (omega (
          arith,
          a.taken k,
          total-emplace (is_entry k) call d s.unlisted new,
          taken_more k d.nickname s.manager.device_nicknames f.free,
        ));
  announced = λ k. rw (f.same_signals, f.same_devices, f.same_receivers) (a.announced k);
}

pub keep-IsConsistent :
    (call path : ℕ) (d : Entry) (s : System)
    → find call s.unlisted ≡ some d
    → find path s.manager.devices ≡ none
    → IsConsistent s
    → IsConsistent
        (record s { manager = keep_device path d s.manager; unlisted = remove call s.unlisted })
unfolding known
keep-IsConsistent call path d s there new a = rw (kept_new path d s.manager new) (record {
  ascending = a.ascending;
  taken = λ k. omega (
    arith,
    a.taken k,
    total-emplace (is_entry k) path d s.manager.devices new,
    total_found (is_entry k) call d s.unlisted there,
  );
  announced =
      λ k. omega (arith, a.announced k, total-emplace (is_entry k) path d s.manager.devices new);
})

pub keep_in-IsConsistent :
    (call path index : ℕ) (d : Entry) (r : Hub) (s : System)
    → find call s.unlisted ≡ some d
    → find path s.manager.receivers ≡ some r
    → find index r.children ≡ none
    → IsConsistent s
    → IsConsistent (record s {
      manager = emit (device_added d.nickname) (record (s.manager) {
        receivers = assign path (with_child index d r) s.manager.receivers;
      });
      unlisted = remove call s.unlisted;
    })
unfolding known
keep_in-IsConsistent call path index d r s there hub new a =
    let more =
      λ (k : ℕ). total-assign (in_hub k) path (with_child index d r) r s.manager.receivers hub in
    let child = λ (k : ℕ). total-emplace (is_entry k) index d r.children new in
    record {
      ascending = a.ascending;
      taken = λ k.
          omega
            (arith, a.taken k, more k, child k, total_found (is_entry k) call d s.unlisted there);
      announced = λ k. omega (arith, a.announced k, more k, child k);
    }

pub keep_apart-IsConsistent :
    (call hub index : ℕ) (d : Entry) (r : Hub) (s : System)
    → find call s.unlisted ≡ some d
    → find hub s.apart ≡ some r
    → find index r.children ≡ none
    → IsConsistent s
    → IsConsistent (record {
      manager = emit (device_added d.nickname) s.manager;
      unlisted = remove call s.unlisted;
      apart = assign hub (with_child index d r) s.apart;
    })
unfolding known
keep_apart-IsConsistent call hub index d r s there made_hub new a =
    let more = λ (k : ℕ). total-assign (in_hub k) hub (with_child index d r) r s.apart made_hub in
    let child = λ (k : ℕ). total-emplace (is_entry k) index d r.children new in
    record {
      ascending = a.ascending;
      taken = λ k.
          omega
            (arith, a.taken k, more k, child k, total_found (is_entry k) call d s.unlisted there);
      announced = λ k. omega (arith, a.announced k, more k, child k);
    }
