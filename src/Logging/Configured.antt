-- ===== src/Logging/Configured.antt =====
-- The filters that `configure_loggers` of custom_components/hdg_boiler/helpers/logging_utils.py gives
-- to the loggers of the integration, and what they let out.
use hdg_bavaria_homeassistan.Redaction.{Secrets}
