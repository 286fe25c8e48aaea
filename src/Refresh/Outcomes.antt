-- ===== src/Refresh/Outcomes.antt =====
-- What a refresh cycle reports and records: custom_components/hdg_boiler/coordinator.py
use hdg_bavaria_homeassistan.Prelude.{
  ℕ, ◌≡◌, refl, Text, Bool, true, false, not, ◌&&◌, Option, none, some, List, [], ◌∷◌, any, arith,
  Option-cases, inl, inr, text_eq, if◌then◌else◌,
}
use hdg_bavaria_homeassistan.Prelude.Dict.{Dict, lookup, insert, lookup-insert}
use hdg_bavaria_homeassistan.Polling.{PollingState}
use hdg_bavaria_homeassistan.Refresh.{
  GroupOutcome, skipped, fetched, connection_lost, group_result, note_all, note_outcome, gather,
  record_updates, any_success, concurrently_fetch_groups, Coordinator, keys, async_poll_everything,
}

-- the classes of outcomes, apart from the code
abbrev pub succeeds : GroupOutcome → Bool
succeeds skipped = true
succeeds fetched = true
succeeds _ = false

abbrev loses_connection : GroupOutcome → Bool
loses_connection connection_lost = true
loses_connection _ = false

-- Some group succeeded, and none lost the connection.
abbrev cycle_ok : (Text → GroupOutcome) → List Text → Bool
cycle_ok outcome groups =
    not (any (λ g. loses_connection (outcome g)) groups) && any (λ g. succeeds (outcome g)) groups

-- What `gather` gives, by these classes.
Gathered : (Text → GroupOutcome) → List Text → Option (List (Text × Bool)) → Type 0
Gathered outcome gs none = any (λ g. loses_connection (outcome g)) gs ≡ true
Gathered outcome gs (some rs) =
    (any (λ g. loses_connection (outcome g)) gs ≡ false)
    × (any_success rs ≡ any (λ g. succeeds (outcome g)) gs)

gather_lem :
    (outcome : Text → GroupOutcome) (gs : List Text) → Gathered outcome gs (gather outcome gs)
unfolding Gathered gather any_success group_result
gather_lem outcome [] = (refl, refl)
gather_lem outcome (g ∷ gs) = ground (arith, gather_lem outcome gs)

-- With at least one polling group, polling everything reports success exactly if no group lost
-- the connection and some group was skipped or fetched, and it leaves no request to poll
-- everything behind.
pub poll_everything_reports :
    (now : ℕ) (k : Text) (i : ℕ) (scan : Dict ℕ) (outcome : Text → GroupOutcome) (c : Coordinator)
    → ((async_poll_everything now ((k, i) ∷ scan) outcome c).0 ≡ cycle_ok outcome (k ∷ keys scan))
      × ((async_poll_everything now ((k, i) ∷ scan) outcome c).1.poll_all_requested ≡ false)
unfolding async_poll_everything Gathered
poll_everything_reports now k i scan outcome c = ground (arith, gather_lem outcome (k ∷ keys scan))

-- Did this group succeed in the cycle?
abbrev succeeded_for : (Text → GroupOutcome) → Text → List Text → Bool
succeeded_for outcome k = any (λ g. text_eq g k && succeeds (outcome g))

succeeded_in : Text → List (Text × Bool) → Bool
succeeded_in k = any (λ r. text_eq r.0 k && r.1)

lookup-record_updates :
    (now : ℕ) (k : Text) (rs : List (Text × Bool)) (times : Dict ℕ)
    → lookup k (record_updates now rs times)
      ≡ (if succeeded_in k rs then some now else lookup k times)
unfolding record_updates succeeded_in
lookup-record_updates now k [] times = refl
lookup-record_updates now k ((g, true) ∷ rs) times =
    ground (arith, lookup-record_updates now k rs (insert g now times), lookup-insert g k now times)
lookup-record_updates now k ((g, false) ∷ rs) times =
    ground (arith, lookup-record_updates now k rs times)

GatheredFor : (Text → GroupOutcome) → Text → List Text → Option (List (Text × Bool)) → Type 0
GatheredFor outcome k gs none = any (λ g. loses_connection (outcome g)) gs ≡ true
GatheredFor outcome k gs (some rs) =
    (any (λ g. loses_connection (outcome g)) gs ≡ false)
    × (succeeded_in k rs ≡ succeeded_for outcome k gs)

gather-succeeded :
    (outcome : Text → GroupOutcome) (k : Text) (gs : List Text)
    → GatheredFor outcome k gs (gather outcome gs)
unfolding GatheredFor succeeded_in gather group_result
gather-succeeded outcome k [] = (refl, refl)
gather-succeeded outcome k (g ∷ gs) = ground (arith, gather-succeeded outcome k gs)

times-note_all :
    (outcome : Text → GroupOutcome) (gs : List Text) (s : PollingState)
    → (note_all outcome gs s).last_update_times ≡ s.last_update_times
unfolding note_all
times-note_all outcome [] s = refl
times-note_all outcome (g ∷ gs) s =
    ground (arith, times-note_all outcome gs (note_outcome (outcome g) s))

-- After a cycle the update time of a group is the time of the cycle if no group of the cycle lost
-- the connection and this group is in it and succeeded, and what it was before otherwise.
cycle_records_updates :
    (now : ℕ) (outcome : Text → GroupOutcome) (k : Text) (gs : List Text) (s : PollingState)
    → lookup k (concurrently_fetch_groups now outcome gs s).1.last_update_times ≡ (
        if not (any (λ g. loses_connection (outcome g)) gs) && succeeded_for outcome k gs
        then some now
        else lookup k s.last_update_times)
unfolding concurrently_fetch_groups GatheredFor
cycle_records_updates now outcome k gs s = elim (Option-cases (gather outcome gs)) [
  | inl lost ↦ ground (arith, gather-succeeded outcome k gs, times-note_all outcome gs s)
  | inr (rs, done) ↦ ground (
    arith,
    gather-succeeded outcome k gs,
    times-note_all outcome gs s,
    lookup-record_updates now k rs (note_all outcome gs s).last_update_times,
  )
]
