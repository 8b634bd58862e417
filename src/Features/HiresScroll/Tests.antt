-- ===== src/Features/HiresScroll/Tests.antt =====
-- A wheel that is turned up and down, and its mode.
use logiops.Prelude.{ℕ, ◌≡◌, true, false, none, some, List, [], ◌∷◌, arith, refl}
use logiops.Prelude.Bits.{bit}
use logiops.Prelude.Int.{ℤ, pos, negsuc, neg, int16}
use logiops.Features.HiresScroll.{
  Config, settings, no_settings, make_config, written_mode, Gestures, still, restart_up, move_up,
  move_down,
}
use logiops.Features.HiresScroll.Modes.{
  Request, hires_to, invert_to, serve_all, Follows, written_mode-Follows,
}
use logiops.Features.HiresScroll.Scrolling.{
  handle_all, handle_all-travel, tell_all, travel_of, streak_of, nowhere,
}

abbrev only_inverted : Config
only_inverted = settings (record no_settings { invert = some true })

abbrev requests : List Request
requests = hires_to true ∷ invert_to false ∷ []

inverted_written : written_mode 0xfd (serve_all requests (make_config only_inverted)) ≡ 0xfb
unfolding written_mode serve_all make_config
inverted_written = refl

written_mode-Follows_example :
    Follows
      (some true)
      (bit 1 0xfd)
      (bit 1 (written_mode 0xfd (serve_all requests (make_config only_inverted))))
    × Follows
        (some false)
        (bit 2 0xfd)
        (bit 2 (written_mode 0xfd (serve_all requests (make_config only_inverted))))
    × Follows none
        (bit 0 0xfd)
        (bit 0 (written_mode 0xfd (serve_all requests (make_config only_inverted))))
    × (bit 4 (written_mode 0xfd (serve_all requests (make_config only_inverted))) ≡ bit 4 0xfd)
unfolding serve_all make_config
written_mode-Follows_example =
    written_mode-Follows only_inverted requests 0xfd 4 (omega arith) (omega arith)

abbrev both : Gestures
both = record { has_up = true; has_down = true }

abbrev events : List (ℕ × ℤ)
events = (0, pos 3) ∷ (0, pos 2) ∷ (0, negsuc 0) ∷ []

events_handled :
    (handle_all both events still).0
    ≡ move_up (pos 3) ∷ move_up (pos 2) ∷ restart_up ∷ move_down (pos 1) ∷ []
unfolding handle_all neg int16
events_handled = refl

handle_all-travel_example :
    tell_all (handle_all both events still).0 nowhere
    ≡ travel_of both (streak_of events (still, pos 0))
handle_all-travel_example = handle_all-travel true true events (still, pos 0)
