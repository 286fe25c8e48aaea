-- ===== src/AccessManager/Sharing.antt =====
-- What `submit_request` does for callers with one context key:
-- custom_components/hdg_boiler/helpers/api_access_manager.py
use hdg_bavaria_homeassistan.Prelude.{
  Text, ◌≡◌, ◌≢◌, Bool, true, false, Option, none, some, arith, text_eq_refl,
}
use hdg_bavaria_homeassistan.Models.{HdgCommand, is_set_node, truthy}
use hdg_bavaria_homeassistan.AccessManager.{ApiPriority, ApiRequest, Manager, submit_request}
use hdg_bavaria_homeassistan.AccessManager.Invariant.{IsWellFormed}

module _ {R E : Type 0} where
  abbrev pub superseded : Option (ApiRequest R E) → Bool
  superseded none = false
  superseded (some q) = q.is_superseded

  -- The request with this id carries the command, and has not been superseded.
  abbrev pub Carries : Option (ApiRequest R E) → HdgCommand → Type 0
  Carries none c = ⊥
  Carries (some q) c = (q.command ≡ c) × (q.is_superseded ≡ false) × (q.future ≡ none)

  -- A command that is not a SET, submitted directly after another command for the same context
  -- key that is not empty, gets the future of that command and changes nothing.
  pub reads_share :
      (p p' : ApiPriority) (c c' : HdgCommand) {key : Text} (m : Manager R E)
      → truthy c.context_key ≡ some key
      → truthy c'.context_key ≡ some key
      → is_set_node c'.cmd_type ≡ false
      → let (r, n) = submit_request p c m in submit_request p' c' n ≡ (r, n)
  unfolding submit_request
  reads_share p p' c c' {key} m k k' read = ground (arith, text_eq_refl key)

  -- In a well-formed state, of two SETs submitted one after the other for one context key that is
  -- not empty, the first is superseded, the pending table holds the second for that key, and the
  -- second carries its own command, is not superseded, and is not done.
  pub last_set_wins :
      (p p' : ApiPriority) (c c' : HdgCommand) {key : Text} (m : Manager R E)
      → IsWellFormed m
      → truthy c.context_key ≡ some key
      → truthy c'.context_key ≡ some key
      → is_set_node c.cmd_type ≡ true
      → is_set_node c'.cmd_type ≡ true
      → let (r, n) = submit_request p c m in
        let (r', n') = submit_request p' c' n in
        (r ≢ r')
        × (superseded (n'.requests r) ≡ true)
        × (n'.pending_requests key ≡ some r')
        × Carries (n'.requests r') c'
  unfolding submit_request
  last_set_wins p p' c c' {key} m h k k' s s' = ground (arith, text_eq_refl key)
