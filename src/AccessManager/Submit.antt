-- ===== src/AccessManager/Submit.antt =====
-- `submit_request` of custom_components/hdg_boiler/helpers/api_access_manager.py, up to the place
-- where the caller awaits the future. The submit lock is never held across a wait (`put` on the
-- unbounded queue does not wait), so this much runs in one piece.
use hdg_bavaria_homeassistan.Prelude.{ℕ, ◌+◌, Text, true, false, Option, none, some, if◌then◌else◌}
use hdg_bavaria_homeassistan.Prelude.Mapping.{put, store}
use hdg_bavaria_homeassistan.Models.{HdgCommand, is_set_node, truthy}
use hdg_bavaria_homeassistan.AccessManager.Queue.{ApiPriority, insert_entry}
use hdg_bavaria_homeassistan.AccessManager.State.{ApiRequest, Manager}

pub remember : Option Text → ℕ → (Text → Option ℕ) → Text → Option ℕ
remember none r pending = pending
remember (some key) r pending = put key r pending

module _ {R E : Type 0} where
  -- `_create_and_queue_request`, with the future that was made just before
  unfoldable pub create_and_queue_request : ApiPriority → HdgCommand → Manager R E → Manager R E
  unfolding remember insert_entry
  create_and_queue_request priority command m =
      let id = m.request_id_counter + 1 in
      let request : ApiRequest R E = record {
        request_id = id;
        priority = priority;
        command = command;
        future = none;
        is_superseded = false;
        retry_count = 0;
      } in
      record m {
        request_id_counter = id;
        requests = store id request m.requests;
        pending_requests = remember (truthy command.context_key) id m.pending_requests;
        request_queue =
            insert_entry (record { priority = priority; order = id; request = id }) m.request_queue;
      }

  -- The pending request for the command's context key.
  unfoldable pub existing_request : HdgCommand → Manager R E → Option ℕ
  existing_request command m = elim (truthy command.context_key) [
    | none ↦ none
    | some key ↦ m.pending_requests key
  ]

  -- `existing_request.is_superseded = True`
  unfoldable pub mark_superseded : ℕ → Option (ApiRequest R E) → Manager R E → Manager R E
  mark_superseded r none m = m
  mark_superseded r (some request) m = record m {
    requests = store r (record request { is_superseded = true }) m.requests;
  }

  unfoldable pub supersede : ℕ → Manager R E → Manager R E
  unfolding mark_superseded
  supersede r m = mark_superseded r (m.requests r) m

  -- `submit_request` up to `await future`: the id of the future that is awaited, and the state
  unfoldable pub submit_when : Option ℕ → ApiPriority → HdgCommand → Manager R E → ℕ × Manager R E
  submit_when none priority command m =
      (m.request_id_counter + 1, create_and_queue_request priority command m)
  submit_when (some r) priority command m =
      if is_set_node command.cmd_type
      then (m.request_id_counter + 1, create_and_queue_request priority command (supersede r m))
      else (r, m)

  unfoldable pub submit_request : ApiPriority → HdgCommand → Manager R E → ℕ × Manager R E
  unfolding submit_when existing_request create_and_queue_request supersede
  submit_request priority command m = submit_when (existing_request command m) priority command m
