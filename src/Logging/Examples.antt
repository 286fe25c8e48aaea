-- ===== src/Logging/Examples.antt =====
-- A line about the boiler's address: custom_components/hdg_boiler/helpers/logging_utils.py
use hdg_bavaria_homeassistan.Prelude.{ℕ, Text, codes, true, false, Option, none, some, []}
use hdg_bavaria_homeassistan.Logging.Records.{LogRecord}
use hdg_bavaria_homeassistan.Logging.{LogState, LogOptions}

-- Texts that need no quoting, hosts without a port, and a level that no name has.
abbrev plain_quote : Text → Text
plain_quote s = s

abbrev own_hostname : Text → Option Text
own_hostname s = none

abbrev no_level : Text → Option ℕ
no_level s = none

abbrev fresh : LogState
fresh = record {
  loggers = [];
  version_prefix_enabled = true;
  integration_log_level = none;
  secrets = [];
}

abbrev quiet : LogOptions
quiet = record {
  log_level = none;
  advanced_logging = none;
  log_version_prefix = some false;
  host_ip = some (codes "HDG4711");
}

abbrev connecting : LogRecord
connecting = record {
  name = codes "hdg_boiler";
  msg = codes "Connecting to %s";
  is_str = true;
  render = some (λ msg. codes "Connecting to HDG4711");
  exc_info = none;
  exc_text = none;
  stack_info = none;
}

abbrev hidden : LogRecord
hidden = record connecting { msg = codes "Connecting to **REDACTED**"; render = none }
