-- ===== src/Refresh/Examples.antt =====
-- A cycle in which one group fails: custom_components/hdg_boiler/coordinator.py
use hdg_bavaria_homeassistan.Prelude.{
  ◌≡◌, Text, codes, text_eq, true, false, [], ◌∷◌, if◌then◌else◌,
}
use hdg_bavaria_homeassistan.Refresh.{
  keys, GroupOutcome, fetched, api_failure, init_coordinator, async_poll_everything,
}
use hdg_bavaria_homeassistan.Refresh.Outcomes.{poll_everything_reports}

-- Only the first group answers.
abbrev first_only : Text → GroupOutcome
first_only group = if text_eq group (codes "group_1") then fetched else api_failure

poll_everything_reports_example :
    ((async_poll_everything 5000
        ((codes "group_1", 15_000) ∷ (codes "group_2", 304_000) ∷ [])
        first_only
        init_coordinator).0
      ≡ true)
    × ((async_poll_everything 5000
          ((codes "group_1", 15_000) ∷ (codes "group_2", 304_000) ∷ [])
          first_only
          init_coordinator).1.poll_all_requested
        ≡ false)
unfolding text_eq keys
poll_everything_reports_example =
    poll_everything_reports 5000 (codes "group_1") 15_000 ((codes "group_2", 304_000) ∷ [])
      first_only init_coordinator
