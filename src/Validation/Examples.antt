-- ===== src/Validation/Examples.antt =====
-- A step of 0.2 from a minimum of 10: custom_components/hdg_boiler/helpers/validation_utils.py
use hdg_bavaria_homeassistan.Prelude.{◌≡◌, ◌↔◌}
use hdg_bavaria_homeassistan.Models.{pos}
use hdg_bavaria_homeassistan.Integers.{◌+ℤ◌}
use hdg_bavaria_homeassistan.Validation.{finite, ok, validate_step}
use hdg_bavaria_homeassistan.Validation.Step.{IsNear, validate_step_accepts}

validate_step_accepts_example :
    (validate_step 1
        (finite (pos 10_000_000_000 +ℤ pos 400_000_000))
        (pos 10_000_000_000)
        (pos 200_000_000)
      ≡ ok tt)
    ↔ IsNear 1 400_000_000 200_000_000
validate_step_accepts_example = validate_step_accepts 1 (pos 10_000_000_000) 400_000_000 199_999_999
