-- ===== src/Features/Dpi/Tests.antt =====
-- The resolutions of src/logid/features/DPI.cpp on concrete values.
use logiops.Prelude.{◌≡◌, refl, true, false, none, [], ◌∷◌}
use logiops.Prelude.Exn.{ok}
use logiops.Prelude.Bytes.{byte_at}
use logiops.Features.Dpi.{SensorDpiList, max_of, get_closest_dpi, configure_list, read_dpi_list}
use logiops.Features.Dpi.Closest.{get_closest_dpi-max_of}

-- A sensor with three resolutions, and one with a range from 200 to 4000 in steps of 50.
abbrev three : SensorDpiList
three = record { dpis = 400 ∷ 800 ∷ 1600 ∷ []; is_range = false; dpi_step = 0 }

abbrev range : SensorDpiList
range = record { dpis = 200 ∷ 4000 ∷ []; is_range = true; dpi_step = 50 }

range-read :
    read_dpi_list (0 ∷ 0 ∷ 200 ∷ 0xe0 ∷ 50 ∷ 15 ∷ 160 ∷ 0 ∷ 0 ∷ 0 ∷ 0 ∷ 0 ∷ 0 ∷ 0 ∷ 0 ∷ 0 ∷ [])
    ≡ ok range
unfolding read_dpi_list byte_at
range-read = refl

-- A resolution of 0 is passed over, and the next one goes to the sensor of the first.
zero-shifts : configure_list (three ∷ three ∷ []) 0 (0 ∷ 800 ∷ []) ≡ ((0, 800) ∷ [], none)
unfolding configure_list
zero-shifts = refl

get_closest_dpi-max_of_example : get_closest_dpi three 450 ≡ ok (max_of 400 (800 ∷ 1600 ∷ []))
get_closest_dpi-max_of_example =
    get_closest_dpi-max_of three 400 450 (800 ∷ 1600 ∷ []) refl refl refl
