-- ===== src/Lib.antt =====
-- A model of the Home Assistant integration for HDG Bavaria boilers
-- (custom_components/hdg_boiler), with theorems about its core: the queue in front of the
-- boiler's API, the client that finds out which protocol the boiler speaks, the coordinator that
-- polls groups of nodes and sets values, the values that are shown before the boiler confirms
-- them, the catalogue of entities, and what users see of it: entities, services, options, and
-- logs and diagnostics that hide the boiler's address and serial number.
--
-- How the parts work together: the coordinator decides which polling groups are due (Polling,
-- Refresh), asks for the active nodes of each (Registry) through the access manager
-- (AccessManager), whose worker runs one command at a time on the client (Client, Protocol,
-- Json). What comes back goes through the response processor (Processor) into the node values. A
-- value that a user sets is shown at once (Optimistic), is sent after a debounce delay (Setting),
-- and is stored or rolled back when its request ends. Definitions holds the entities that all of
-- this is about, and NodeId the spelling of their node IDs. A user sets a value by a number or a
-- select (Entities) or by a service (Service), which checks it first (Validation); an entity
-- reads the node values through the parsers (Parsers, Enumerations). The platforms add an entity
-- for each definition (Platforms). The entity registry of Home Assistant says which entities are
-- enabled and so which nodes are polled (Entries); the options of the integration (Options)
-- enable and disable groups of them (Components). Every record of the integration's loggers
-- (Logging) and every text of its diagnostics (Diagnostics) passes through the redaction of the
-- secrets seen so far (Redaction).
--
-- Files, with the code that they model:
-- - Models: custom_components/hdg_boiler/models.py, the commands and the definition of an entity.
-- - AccessManager (Queue, State, Submit, WorkerLoop):
--   custom_components/hdg_boiler/helpers/api_access_manager.py. The manager's attributes are the
--   fields of Manager; a request is known by its id, and futures and is_superseded are kept in
--   the table requests. submit_request is submit_request up to the wait for the future;
--   worker_get, worker_answer and worker_wake are the stretches of _worker_loop, _process_request
--   and _retry_request between two waits; run_callback runs a done callback; stop is stop. Events
--   makes them, and the cancellation of a caller or of the worker, the events of a run; the order
--   of the events is the interleaving.
-- - Client, Protocol, Json: custom_components/hdg_boiler/api/client.py,
--   custom_components/hdg_boiler/api/protocols.py, custom_components/hdg_boiler/exceptions.py,
--   custom_components/hdg_boiler/helpers/executor.py. What the boiler answers is the parameter
--   send, a function of the number and the body of the request; its replies say how
--   response.json() of aiohttp ends.
-- - Optimistic: custom_components/hdg_boiler/helpers/optimistic_manager.py. NodeId, Texts:
--   custom_components/hdg_boiler/helpers/string_utils.py.
-- - Polling, Refresh: the polling half of custom_components/hdg_boiler/coordinator.py; how the
--   request for a group ends is a parameter.
-- - Setting: async_set_node_value, _fire_set, _execute_set_request and async_stop of
--   custom_components/hdg_boiler/coordinator.py. A task is cut where it waits: begin_set before,
--   end_set after. Setting/Meanwhile has what may happen between a call and its display.
-- - Processor: custom_components/hdg_boiler/classes/polling_response_processor.py; the parser of
--   values is a field of NodeValues.
-- - Registry: custom_components/hdg_boiler/registry.py, with the polling groups in
--   Registry/Groups. Definitions: custom_components/hdg_boiler/definitions.py, row by row, in
--   files named for the parts of the plant; Definitions/Everywhere lifts a test of the rows to
--   what get_sensor_definitions gives.
-- - Parsers: custom_components/hdg_boiler/helpers/parsers.py. Enumerations:
--   custom_components/hdg_boiler/helpers/enum_mappings.py. Python's html, float and its rounding,
--   zoneinfo and strptime are the interface PythonTexts.
-- - Validation: custom_components/hdg_boiler/helpers/validation_utils.py and format_value_for_api
--   of custom_components/hdg_boiler/helpers/parsers.py; float and the formatting of floats are
--   the interface PythonFloats. Service: custom_components/hdg_boiler/services.py.
-- - Entities: the values and settings of custom_components/hdg_boiler/entity.py,
--   custom_components/hdg_boiler/sensor.py, custom_components/hdg_boiler/number.py and
--   custom_components/hdg_boiler/select.py.
-- - Entries: unique IDs (custom_components/hdg_boiler/entity.py,
--   custom_components/hdg_boiler/registry.py) and the active nodes of
--   custom_components/hdg_boiler/coordinator.py. quote of urllib is a parameter.
-- - Components: _async_sync_component_groups and _async_sync_puffer_sensors of
--   custom_components/hdg_boiler/__init__.py, with
--   custom_components/hdg_boiler/helpers/entity_registry_utils.py. Options: the options form of
--   custom_components/hdg_boiler/config_flow.py.
-- - Platforms: custom_components/hdg_boiler/helpers/entity_utils.py, the counters of
--   custom_components/hdg_boiler/registry.py, and custom_components/hdg_boiler/button.py.
-- - Redaction (Patterns, Payload), Logging (Records):
--   custom_components/hdg_boiler/helpers/logging_utils.py. The keys of _log_secrets are the state
--   Secrets, which each function takes and returns; a regular expression is the list of what it
--   takes at each place, with its look at the characters around written out. A logger has its
--   level and its filters; handle_record runs the filters in their order. quote and urlparse of
--   urllib, the levels of logging, and what the arguments of a record make of its message are
--   parameters.
-- - Diagnostics (Views, Values): custom_components/hdg_boiler/diagnostics.py; urllib, ipaddress
--   and async_redact_data are the fields of Library.
-- - Integers: whole numbers with a sign. Prelude: what all files share, with a Python dict keyed
--   by texts in Prelude/Dict.
--
-- Bounds and representation: texts are lists of code points, with Latin-1 for case, digits and
-- white space; times are whole milliseconds on ℕ, and a difference of times is written without a
-- subtraction; a number of a setter and of the options form counts tenths. Where the code uses
-- float and Decimal, a number is a whole multiple of a unit that is 10^9 times epsilon times
-- smaller than one, for every epsilon, or infinite or NaN. The sum of a float with one half is a
-- field of PythonTexts, so that its rounding is not fixed; the other rounding of floats is left
-- out, and so is the limit of Decimal to 28 digits, which a value that has passed the range check
-- does not reach. The power of floats in the delay of a retry is an OverflowError from 2^1024 on.
-- The client calls itself once at most, so fuel for two calls is enough; decimal takes as much
-- fuel as the number, which has fewer digits. No integer of the program has a fixed width.
--
-- Not modelled: the session of aiohttp, timers and tasks of Home Assistant and asyncio other than
-- by what they run and in which order; the start and the end of an entry, its migration, the
-- first configuration with its ping of the host, what the other components write to the log,
-- device info and extra attributes of entities. A node's text in Processor is a string, so the
-- division by 100 of the formatter iT and the comparison of values are fields of NodeValues. How
-- the request for a group ends is a parameter of Polling and Refresh. The display name of a
-- polling group, the words of messages and the texts of forms are left out.
pub mod Prelude
pub mod Models
pub mod AccessManager
pub mod Optimistic
pub mod Texts
pub mod NodeId
pub mod Protocol
pub mod Integers
pub mod Enumerations
pub mod Validation
pub mod Json
pub mod Parsers
pub mod Client
pub mod Polling
pub mod Refresh
pub mod Definitions
pub mod Processor
pub mod Registry
pub mod Setting
pub mod Entries
pub mod Components
pub mod Options
pub mod Service
pub mod Entities
pub mod Redaction
pub mod Logging
pub mod Diagnostics
pub mod Platforms
