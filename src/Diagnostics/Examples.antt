-- ===== src/Diagnostics/Examples.antt =====
-- The diagnostics of an entry without a coordinator: custom_components/hdg_boiler/diagnostics.py
use hdg_bavaria_homeassistan.Prelude.{codes, false, none, some}
use hdg_bavaria_homeassistan.Json.{end, text, field}
use hdg_bavaria_homeassistan.Diagnostics.Views.{Library, EntryView, IntegrationView}

-- Urllib where no text needs quoting and no URL is valid; nothing is redacted by its key.
abbrev plain_library : Library
plain_library = record {
  quote = λ s. s;
  find_hostname = λ s. none;
  parse_url = λ s. none;
  with_netloc = λ url netloc. netloc;
  is_ip_address = λ s. false;
  async_redact_data = λ fs keys. fs;
}

abbrev boiler_entry : EntryView
boiler_entry = record {
  title = codes "Boiler at hdgboiler";
  entry_id = codes "1";
  host_ip = some (codes "hdgboiler");
  entry_data = field (codes "host_ip") (text (codes "hdgboiler")) end;
  options = end;
  entry_unique_id = some (codes "hdgboiler");
}

abbrev bare_integration : IntegrationView
bare_integration = record {
  coordinator = none;
  api_client = some (some (codes "http://hdgboiler"));
}
