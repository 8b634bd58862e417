-- ===== src/Manager/Devices/Removal.antt =====
-- The agreement of the views is kept when a device or a receiver with its devices is removed.
use logiops.Prelude.{ℕ, ◌-◌, ◌≡◌, none, some, [], ◌∷◌, arith, refl, ◌∙◌, ap, Option-cases, inl, inr}
use logiops.Manager.Maps.{find, total, total_found}
use logiops.Manager.Devices.{
  Entry, Hub, Manager, receiver_removed, remove_device, release_all, sleep_all,
}
use logiops.Manager.Devices.Agreement.{
  Agrees, Loses, Loses-Agrees, known, is_entry, in_hub, known-removed_signals, known-sleep_all,
  known-sleep_signals,
}

-- The receiver at the path goes, with its devices.
receiver-Loses :
    (path : ℕ) (m : Manager) (r : Hub)
    → find path m.receivers ≡ some r
    → Loses r.children m (remove_device path m)
unfolding known remove_device
receiver-Loses path m r h =
    rw (h, remove_device)
      (record {
        names = refl;
        less_held = λ k. omega (arith, total_found (in_hub k) path r m.receivers h);
        less_known = λ k.
            known-removed_signals k r.children
              (receiver_removed r.nickname ∷ sleep_all r.children m.signals)
            ∙ ap (λ (t : ℕ). t - total (is_entry k) r.children)
                (known-sleep_all k r.children m.signals);
      })

device-Loses :
    (path : ℕ) (m : Manager) (d : Entry)
    → find path m.receivers ≡ none
    → find path m.devices ≡ some d
    → Loses ((path, d) ∷ []) m (remove_device path m)
unfolding known release_all total remove_device
device-Loses path m d h0 h =
    rw (h0, h, remove_device)
      (record {
        names = refl;
        less_held = λ k. omega (arith, total_found (is_entry k) path d m.devices h);
        less_known = λ k. omega (arith, known-sleep_signals k d m.signals);
      })

-- Whatever is at the path.
pub remove_device-Agrees :
    (path : ℕ) (m : Manager) {unlisted apart : ℕ → ℕ}
    → Agrees unlisted apart m
    → Agrees unlisted apart (remove_device path m)
unfolding remove_device
remove_device-Agrees path m a = elim (Option-cases (find path m.receivers)) [
  | inr (r, there) ↦ Loses-Agrees (receiver-Loses path m r there) a
  | inl no_receiver ↦ elim (Option-cases (find path m.devices)) [
    | inr (d, there) ↦ Loses-Agrees (device-Loses path m d no_receiver there) a
    | inl no_device ↦ rw (no_receiver, no_device, remove_device) a
  ]
]
