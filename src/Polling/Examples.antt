-- ===== src/Polling/Examples.antt =====
-- Polling of two groups: custom_components/hdg_boiler/coordinator.py
use hdg_bavaria_homeassistan.Prelude.{
  ℕ, ◌*◌, ◌≤◌, ◌≡◌, refl, codes, text_eq, true, false, none, some, ◌||◌, [], ◌∷◌, arith,
}
use hdg_bavaria_homeassistan.Prelude.Dict.{Dict, lookup}
use hdg_bavaria_homeassistan.Polling.{
  init_polling, polling_retry_initial_delay, polling_retry_max_delay, retry_delay, is_listed,
  get_groups_to_fetch, update_polling_status, last_update,
}
use hdg_bavaria_homeassistan.Polling.Backoff.{retry_delay_bounds}
use hdg_bavaria_homeassistan.Polling.Due.{
  due_by, ready_by, listed-get_groups_to_fetch, failed_group_stays_due,
}

retry_delay_bounds_example :
    (d e : ℕ) × (retry_delay 3 ≡ some d)
    × (retry_delay 4 ≡ some e)
    × (polling_retry_initial_delay ≤ d)
    × (d ≤ e)
    × (e ≤ 2 * d)
    × (e ≤ polling_retry_max_delay)
    × (retry_delay 1032 ≡ none)
retry_delay_bounds_example = retry_delay_bounds 2 7 (omega arith)

abbrev scan_intervals : Dict ℕ
scan_intervals = (codes "group_1", 15_000) ∷ (codes "group_2", 304_000) ∷ []

listed-get_groups_to_fetch_example :
    is_listed (codes "group_2") (get_groups_to_fetch 400_000 scan_intervals init_polling) ≡ (
      due_by 400_000 init_polling (codes "group_2") (lookup (codes "group_2") scan_intervals)
      || ready_by 400_000 (lookup (codes "group_2") init_polling.failed_group_retry_info))
unfolding text_eq is_listed lookup
listed-get_groups_to_fetch_example =
    listed-get_groups_to_fetch 400_000 (codes "group_2") scan_intervals init_polling
      (refl, (refl, tt)) tt

failed_group_stays_due_example :
    is_listed (codes "group_1") (
      get_groups_to_fetch 20_001 scan_intervals
        (update_polling_status false 20_000 (codes "group_1" ∷ []) init_polling).1)
    ≡ true
unfolding text_eq is_listed lookup last_update
failed_group_stays_due_example =
    failed_group_stays_due 20_000 20_001 15_000 (codes "group_1") (codes "group_1" ∷ [])
      scan_intervals init_polling (refl, (refl, tt)) refl (omega arith) (omega arith)
