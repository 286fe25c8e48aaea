-- ===== src/Diagnostics.antt =====
-- custom_components/hdg_boiler/diagnostics.py. What it takes from libraries are parameters: `quote`
-- and the parsing of URLs by urllib, `ipaddress`, and Home Assistant's `async_redact_data`. The
-- state that the coordinator reports is given as its fields.
mod Examples
pub mod Views
pub mod Values
pub mod Secretless
use mathlib.Core.List.{foldl}
use hdg_bavaria_homeassistan.Prelude.{
  ℕ, zero, suc, ◌-◌, Text, codes, Bool, true, false, not, ◌&&◌, ◌||◌, Option, none, some, List, [],
  ◌∷◌, ◌++◌, length, text_eq, if◌then◌else◌,
}
use hdg_bavaria_homeassistan.Texts.{starts_with, contains, lower_text}
use hdg_bavaria_homeassistan.Models.{truthy}
use hdg_bavaria_homeassistan.Json.{
  Json, null, boolean, number, text, array, object, Items, nil, cons, Fields, end, field, get_field,
}
use hdg_bavaria_homeassistan.Redaction.Patterns.{placeholder}
use hdg_bavaria_homeassistan.Redaction.{Secrets, note_log_secret, note_host_secret, redact}
use hdg_bavaria_homeassistan.Diagnostics.Views.{
  UrlParts, Library, EntityEntry, CoordinatorView, EntryView, IntegrationView,
}
use hdg_bavaria_homeassistan.Diagnostics.Values.{field_count, set_field, merge_fields, redact_value}

-- DIAGNOSTICS_TO_REDACT_CONFIG_KEYS and DIAGNOSTICS_SENSITIVE_COORDINATOR_DATA_NODE_IDS
abbrev redacted_config_keys : List Text
redacted_config_keys = codes "host_ip" ∷ []

abbrev pub sensitive_data_node_ids : List Text
sensitive_data_node_ids = codes "20026" ∷ codes "20031" ∷ []

-- `s.replace(old, new)`; the number counts the characters of a match still to pass over
replace_from : Text → Text → ℕ → Text → Text
unfolding starts_with
replace_from old new n [] = []
replace_from old new (suc n) (c ∷ s) = replace_from old new n s
replace_from old new zero (c ∷ s) = elim (starts_with (c ∷ s) old) [
  | true ↦ new ++ replace_from old new (length old - 1) s
  | false ↦ c ∷ replace_from old new 0 s
]

or_empty_text : Option Text → Text
or_empty_text none = []
or_empty_text (some t) = t

-- `note_log_secret` of a node value: None, numbers and flags are passed over, and no value is a list or
-- a dict
pub note_value : (Text → Text) → Secrets → Option Json → Secrets
unfolding note_log_secret
note_value quote secrets none = secrets
note_value quote secrets (some (text value)) = note_log_secret quote secrets value
note_value quote secrets (some _) = secrets

-- Is the value of the field truthy? The code asks it of a host name, a text or None.
has_text : Option Json → Bool
has_text (some (text (c ∷ s))) = true
has_text _ = false

module _ (lib : Library) where
  pub note_host : Secrets → Option Text → Secrets
  unfolding note_host_secret
  note_host secrets none = secrets
  note_host secrets (some host) = note_host_secret lib.quote lib.find_hostname secrets host

  -- `_note_diagnostics_secrets`
  pub note_coordinator : Secrets → Option CoordinatorView → Secrets
  unfolding note_host note_value get_field
  note_coordinator secrets none = secrets
  note_coordinator secrets (some c) =
      foldl (λ noted node_id. note_value lib.quote noted (get_field node_id c.node_data))
        (note_host secrets c.hostname) sensitive_data_node_ids

  pub note_diagnostics_secrets : Secrets → Option Text → Option CoordinatorView → Secrets
  unfolding note_coordinator note_host
  note_diagnostics_secrets secrets host_ip coordinator =
      note_coordinator (note_host secrets host_ip) coordinator

  -- `_get_redacted_unique_id`
  hide_sensitive : Text → Option Text → Text
  unfolding contains replace_from
  hide_sensitive unique_id none = unique_id
  hide_sensitive unique_id (some raw) =
      if contains (lib.quote unique_id) (lib.quote raw)
      then replace_from (lib.quote raw) placeholder 0 unique_id
      else unique_id

  get_redacted_unique_id : Option Text → Option Text → Text
  unfolding hide_sensitive or_empty_text
  get_redacted_unique_id unique_id sensitive = elim (truthy unique_id) [
    | none ↦ []
    | some uid ↦ hide_sensitive uid (truthy sensitive)
  ]

  -- `_build_redacted_netloc`
  is_sensitive_host : Text → Option Text → Bool
  unfolding lower_text text_eq
  is_sensitive_host hostname none = lib.is_ip_address hostname
  is_sensitive_host hostname (some host_ip) =
      text_eq (lower_text hostname) (lower_text host_ip) || lib.is_ip_address hostname

  netloc_host : Option Text → Option Text → Text
  unfolding is_sensitive_host
  netloc_host none host_ip = placeholder
  netloc_host (some hostname) host_ip =
      if is_sensitive_host hostname host_ip then placeholder else hostname

  netloc_port : Option Text → Text
  netloc_port none = []
  netloc_port (some port) = codes ":" ++ port

  build_redacted_netloc : UrlParts → Option Text → Option Text
  unfolding netloc_host netloc_port
  build_redacted_netloc parts host_ip = elim parts.port [
    | none ↦ none
    | some port ↦ some (
        (if parts.has_username then placeholder ++ (codes "@" ++ placeholder) else [])
        ++ (netloc_host (truthy parts.hostname) (truthy host_ip) ++ netloc_port port))
  ]

  -- `_redact_api_client_base_url`
  redact_api_client_base_url : Option Text → Option Text → Text
  unfolding build_redacted_netloc
  redact_api_client_base_url base_url host_ip = elim (truthy base_url) [
    | none ↦ codes "Unknown"
    | some url ↦ elim (lib.parse_url url) [
      | none ↦ placeholder
      | some parts ↦ elim (build_redacted_netloc parts host_ip) [
        | none ↦ placeholder
        | some netloc ↦ lib.with_netloc url netloc
      ]
    ]
  ]

  -- `_get_redacted_config_entry_info`
  config_entry_info : EntryView → Json
  unfolding get_redacted_unique_id
  config_entry_info entry = object (
      field (codes "title") (text entry.title) (
        field (codes "entry_id") (text entry.entry_id) (
          field (codes "data")
            (object (lib.async_redact_data entry.entry_data redacted_config_keys))
            (field (codes "options")
              (object (lib.async_redact_data entry.options redacted_config_keys))
              (field (codes "unique_id")
                (text (get_redacted_unique_id entry.entry_unique_id entry.host_ip)) end)))))

  -- `_get_coordinator_diagnostics`; a count is a number
  coordinator_fields : CoordinatorView → Fields
  unfolding has_text get_field set_field merge_fields
  coordinator_fields c =
      merge_fields
        (field (codes "last_update_success") c.last_update_success
          (field (codes "scan_intervals_used") (object c.scan_intervals) end))
        (if has_text (get_field (codes "hostname") c.state)
          then set_field (codes "hostname") (text placeholder) c.state
          else c.state)

  coordinator_diagnostics : (ℕ → Text) → Option CoordinatorView → Json
  unfolding coordinator_fields field_count set_field
  coordinator_diagnostics shown none = text (codes "Coordinator not found or not initialized.")
  coordinator_diagnostics shown (some c) = elim c.node_data [
    | end ↦ object (coordinator_fields c)
    | field k v fs ↦ object (
        set_field (codes "data")
          (object (lib.async_redact_data (field k v fs) sensitive_data_node_ids))
          (set_field (codes "data_item_count") (number (shown (field_count (field k v fs))))
            (coordinator_fields c)))
  ]

  -- `_get_api_client_diagnostics`
  api_client_diagnostics : Option (Option Text) → Option Text → Json
  unfolding redact_api_client_base_url
  api_client_diagnostics none host_ip =
      object (field (codes "error") (text (codes "API Client not found or not initialized.")) end)
  api_client_diagnostics (some base_url) host_ip =
      object (field (codes "base_url") (text (redact_api_client_base_url base_url host_ip)) end)

  -- `_get_entity_diagnostics`
  entity_diagnostics : List EntityEntry → Option Text → Items
  unfolding get_redacted_unique_id
  entity_diagnostics [] host_ip = nil
  entity_diagnostics (e ∷ es) host_ip =
      cons
        (object (
          field (codes "entity_id") (text e.entity_id) (
            field (codes "unique_id") (text (get_redacted_unique_id (some e.registered_id) host_ip))
              (field (codes "platform") (text e.platform)
                (field (codes "disabled_by") e.disabled_by end)))))
        (entity_diagnostics es host_ip)

  pub payload : Text → (ℕ → Text) → EntryView → IntegrationView → List EntityEntry → Json
  unfolding config_entry_info coordinator_diagnostics api_client_diagnostics entity_diagnostics
  payload version shown entry integration entities = object (
      field (codes "integration_version") (text version) (
        field (codes "config_entry") (config_entry_info entry) (
          field (codes "coordinator") (coordinator_diagnostics shown integration.coordinator) (
            field (codes "api_client") (api_client_diagnostics integration.api_client entry.host_ip)
              (field (codes "entities") (array (entity_diagnostics entities entry.host_ip)) end)))))

-- `async_get_config_entry_diagnostics`
pub async_get_config_entry_diagnostics :
    Library
    → Text
    → (ℕ → Text)
    → EntryView
    → Option IntegrationView
    → List EntityEntry
    → Secrets
    → Secrets × Json
unfolding note_diagnostics_secrets payload redact_value
async_get_config_entry_diagnostics lib version shown entry none entities secrets = (
  secrets,
  object (
      field (codes "integration_version") (text version) (
        field (codes "error") (text (codes "Integration data not found. Setup might have failed."))
          (field (codes "entry_id") (text entry.entry_id) end))),
)
async_get_config_entry_diagnostics lib version shown entry (some integration) entities secrets =
    redact_value lib.quote
      (note_diagnostics_secrets lib secrets entry.host_ip integration.coordinator)
      (payload lib version shown entry integration entities)
