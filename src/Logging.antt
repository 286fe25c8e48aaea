-- ===== src/Logging.antt =====
-- The loggers of the integration: custom_components/hdg_boiler/helpers/logging_utils.py. The
-- loggers of Python are a dict of those that exist; the parents that `getLogger` makes as
-- placeholders are left out.
mod Examples
pub mod Records
pub mod Covered
pub mod Managed
pub mod Configured
use mathlib.Core.List.{filter}
use hdg_bavaria_homeassistan.Prelude.{
  ℕ, ◌-◌, Text, codes, Bool, true, false, not, ◌&&◌, ◌||◌, Option, none, some, List, [], ◌∷◌, ◌++◌,
  any, length, ltb, text_eq, if◌then◌else◌,
}
use hdg_bavaria_homeassistan.Prelude.Dict.{Dict, lookup, insert}
use hdg_bavaria_homeassistan.Texts.{starts_with, first_chars, upper_text}
use hdg_bavaria_homeassistan.Models.{truthy}
use hdg_bavaria_homeassistan.Polling.{is_listed}
use hdg_bavaria_homeassistan.Redaction.{Secrets, note_host_secret}
use hdg_bavaria_homeassistan.Logging.Records.{
  Filter, version_filter, redaction_filter, advanced_filter, other_filter, spammy_logger_names,
  LogRecord, run_filters,
}

pub record Logger : Type 0 where
  pub level : ℕ
  pub filters : List Filter
  pub propagate : Bool

-- the module's variables, with the loggers that exist
pub record LogState : Type 0 where
  pub loggers : Dict Logger
  pub version_prefix_enabled : Bool
  pub integration_log_level : Option ℕ
  pub secrets : Secrets

-- `_is_integration_logger`
pub is_integration_logger : Text → Bool
unfolding text_eq starts_with
is_integration_logger name =
    text_eq name (codes "hdg_boiler")
    || starts_with name (codes "hdg_boiler.")
    || text_eq name (codes "custom_components.hdg_boiler")
    || starts_with name (codes "custom_components.hdg_boiler.")

pub is_version : Filter → Bool
is_version version_filter = true
is_version redaction_filter = false
is_version (advanced_filter b) = false
is_version (other_filter f) = false

pub is_redaction : Filter → Bool
is_redaction version_filter = false
is_redaction redaction_filter = true
is_redaction (advanced_filter b) = false
is_redaction (other_filter f) = false

-- _MANAGED_FILTERS
pub is_managed : Filter → Bool
is_managed version_filter = true
is_managed redaction_filter = true
is_managed (advanced_filter b) = true
is_managed (other_filter f) = false

-- `_ensure_record_filters`
pub add_unless : Bool → Filter → List Filter → List Filter
add_unless true f fs = fs
add_unless false f fs = fs ++ f ∷ []

pub ensure_record_filters : Logger → Logger
unfolding add_unless is_version is_redaction
ensure_record_filters l = record l {
  filters =
      add_unless (any is_redaction l.filters) redaction_filter
        (add_unless (any is_version l.filters) version_filter l.filters);
}

-- `logging.getLogger`
pub get_logger : Option Logger → Logger
get_logger none = record { level = 0; filters = []; propagate = true }
get_logger (some l) = l

pub with_level : Option ℕ → Bool → Logger → Logger
with_level none is_ours l = l
with_level (some level) is_ours l = if is_ours then record l { level = level } else l

-- `get_redacted_logger`
pub redacted_logger : Option ℕ → Text → Dict Logger → Logger
unfolding with_level is_integration_logger ensure_record_filters get_logger lookup
redacted_logger current name loggers =
    with_level current (is_integration_logger name)
      (ensure_record_filters (get_logger (lookup name loggers)))

-- `_integration_logger_names`, a set
add_name : Text → List Text → List Text
unfolding is_listed
add_name name names = if is_listed name names then names else names ++ name ∷ []

add_existing : Dict Logger → List Text → List Text
unfolding add_name is_integration_logger
add_existing [] names = names
add_existing ((name, l) ∷ loggers) names =
    add_existing loggers (if is_integration_logger name then add_name name names else names)

pub integration_logger_names : Dict Logger → List Text
unfolding add_existing
integration_logger_names loggers =
    add_existing loggers
      (codes "hdg_boiler" ∷ codes "custom_components.hdg_boiler" ∷ spammy_logger_names)

-- the filters that the loop of `configure_loggers` leaves
pub unmanaged : List Filter → List Filter
unfolding is_managed
unmanaged [] = []
unmanaged (f ∷ fs) = let rest = unmanaged fs in if is_managed f then rest else f ∷ rest

pub new_filters : Bool → Text → List Filter → List Filter
unfolding unmanaged is_listed
new_filters is_advanced name old =
    (if is_listed name spammy_logger_names
      then unmanaged old ++ advanced_filter is_advanced ∷ []
      else unmanaged old)
    ++ version_filter ∷ redaction_filter ∷ []

-- one pass of the loop
pub configure_logger : ℕ → Bool → Text → Dict Logger → Dict Logger
unfolding redacted_logger new_filters insert
configure_logger log_level is_advanced name loggers =
    insert name
      (record {
        level = log_level;
        filters =
            new_filters is_advanced name (redacted_logger (some log_level) name loggers).filters;
        propagate = true;
      })
      loggers

pub configure_each : ℕ → Bool → List Text → Dict Logger → Dict Logger
unfolding configure_logger
configure_each log_level is_advanced [] loggers = loggers
configure_each log_level is_advanced (name ∷ names) loggers =
    configure_each log_level is_advanced names (configure_logger log_level is_advanced name loggers)

-- what `configure_loggers` reads of the entry
pub record LogOptions : Type 0 where
  pub log_level : Option Text
  pub advanced_logging : Option Bool
  pub log_version_prefix : Option Bool
  pub host_ip : Option Text

pub or_default {ℓ} : {A : Type ℓ} → A → Option A → A
or_default d none = d
or_default d (some a) = a

note_entry_host : (Text → Text) → (Text → Option Text) → Secrets → Option Text → Secrets
unfolding note_host_secret
note_entry_host quote hostname secrets none = secrets
note_entry_host quote hostname secrets (some host) = note_host_secret quote hostname secrets host

-- `configure_loggers`; `level_named` finds a level of the module logging
pub configure_loggers :
    (Text → Text) → (Text → Option Text) → (Text → Option ℕ) → LogOptions → LogState → LogState
unfolding configure_each integration_logger_names or_default note_entry_host upper_text
configure_loggers quote hostname level_named options st =
    let log_level =
      or_default 20 (level_named (upper_text (or_default (codes "INFO") options.log_level))) in
    let is_advanced = or_default false options.advanced_logging in
    record {
      loggers =
          configure_each log_level is_advanced (integration_logger_names st.loggers) st.loggers;
      version_prefix_enabled = or_default true options.log_version_prefix;
      integration_log_level = some log_level;
      secrets = note_entry_host quote hostname st.secrets options.host_ip;
    }

abbrev pub filters_at : Text → Dict Logger → List Filter
filters_at name loggers = (get_logger (lookup name loggers)).filters

-- logging's `Logger.handle`: the secrets afterwards, and what goes on to the handlers
pub handle_record : (Text → Text) → Text → Text → LogState → LogRecord → Secrets × Option LogRecord
unfolding run_filters get_logger lookup
handle_record quote prefix name st r =
    run_filters quote prefix st.version_prefix_enabled (filters_at name st.loggers) st.secrets r

-- `format_for_log` of an object whose text `str` gives; an end below zero counts from the back
format_for_log : Text → ℕ → Text
unfolding first_chars
format_for_log s max_len =
    let end = if ltb max_len 3 then length s - (3 - max_len) else max_len - 3 in
    if ltb max_len (length s) then first_chars end s ++ codes "..." else s

-- `make_log_prefix`
bracketed : Option Text → Text
bracketed part = elim part [ none ↦ [] | some p ↦ codes "[" ++ (p ++ codes "]") ]

make_log_prefix : Option Text → Option Text → Text
unfolding bracketed
make_log_prefix node_id entity_name =
    let text = bracketed (truthy entity_name) ++ bracketed (truthy node_id) in
    if text_eq text [] then [] else text ++ codes " "
