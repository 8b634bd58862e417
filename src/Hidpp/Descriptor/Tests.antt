-- ===== src/Hidpp/Descriptor/Tests.antt =====
-- A device with short reports only.
use logiops.Prelude.{ℕ, ◌<◌, ◌%◌, ◌/◌, ◌≡◌, refl, ◌↔◌, ◌⊎◌, List, [], ◌∷◌, ◌++◌}
use logiops.Hidpp.Descriptor.{
  short_report_desc, short_report_desc2, long_report_desc, long_report_desc2, get_supported_reports,
  search_in, starts_with, Contains, get_supported_reports_lem,
}

abbrev mouse_desc : List ℕ
mouse_desc = 0x06 ∷ 0x00 ∷ 0xFF ∷ (short_report_desc2 ++ 0xC0 ∷ [])

mouse-short : get_supported_reports mouse_desc ≡ 1
unfolding get_supported_reports search_in starts_with
mouse-short = refl

get_supported_reports_lem_example :
    ((get_supported_reports mouse_desc % 2 ≡ 1)
      ↔ (Contains mouse_desc short_report_desc ⊎ Contains mouse_desc short_report_desc2))
    × ((get_supported_reports mouse_desc / 2 ≡ 1)
        ↔ (Contains mouse_desc long_report_desc ⊎ Contains mouse_desc long_report_desc2))
    × (get_supported_reports mouse_desc < 4)
get_supported_reports_lem_example = get_supported_reports_lem mouse_desc
