-- ===== src/Diagnostics/Views.antt =====
-- What custom_components/hdg_boiler/diagnostics.py reads of the entry, the coordinator, the entities
-- and the libraries.
use hdg_bavaria_homeassistan.Prelude.{Text, Bool, Option, List}
use hdg_bavaria_homeassistan.Json.{Json, Fields}

-- what `urlparse` gives; `none` stands for a port that raises
pub record UrlParts : Type 0 where
  pub has_username : Bool
  pub hostname : Option Text
  pub port : Option (Option Text)

pub record Library : Type 0 where
  pub quote : Text → Text
  -- the hostname of a text
  pub find_hostname : Text → Option Text
  pub parse_url : Text → Option UrlParts
  -- `urlunparse` with another netloc and no parameters or fragment
  pub with_netloc : Text → Text → Text
  pub is_ip_address : Text → Bool
  pub async_redact_data : Fields → List Text → Fields

pub record EntityEntry : Type 0 where
  pub entity_id : Text
  pub registered_id : Text
  pub platform : Text
  pub disabled_by : Json

pub record CoordinatorView : Type 0 where
  pub hostname : Option Text
  -- `coordinator.data`
  pub node_data : Fields
  -- `get_diagnostics()`
  pub state : Fields
  pub last_update_success : Json
  pub scan_intervals : Fields

pub record EntryView : Type 0 where
  pub title : Text
  pub entry_id : Text
  pub host_ip : Option Text
  pub entry_data : Fields
  pub options : Fields
  pub entry_unique_id : Option Text

-- the data of the integration, if the setup has stored them
pub record IntegrationView : Type 0 where
  pub coordinator : Option CoordinatorView
  -- the base URL of the client
  pub api_client : Option (Option Text)
