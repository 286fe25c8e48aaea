-- ===== src/Optimistic/Examples.antt =====
-- A value that is read before and after its grace period: custom_components/hdg_boiler/helpers/optimistic_manager.py
use hdg_bavaria_homeassistan.Prelude.{ℕ, List, ◌≡◌, codes, none, [], ◌∷◌, arith}
use hdg_bavaria_homeassistan.Prelude.Mapping.{empty}
use hdg_bavaria_homeassistan.Optimistic.Refinement.{
  set_call, get_call, cleanup_call, Call, answers, promised, store_refines_promise,
}

abbrev some_calls : List (ℕ × Call)
some_calls =
    (1000, set_call (codes "6022") (codes "21") none)
    ∷ (2000, get_call (codes "6022"))
    ∷ (31_000, cleanup_call)
    ∷ (31_000, get_call (codes "6022"))
    ∷ []

store_refines_promise_example : answers some_calls [] ≡ promised some_calls empty
store_refines_promise_example =
    store_refines_promise some_calls (omega arith, (omega arith, (omega arith, (omega arith, tt))))
