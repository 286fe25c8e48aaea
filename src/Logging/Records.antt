-- ===== src/Logging/Records.antt =====
-- Log records and the filters of custom_components/hdg_boiler/helpers/logging_utils.py. How a
-- record is rendered, `getMessage` or `str(msg)` where that raises, is a function of its message.
use hdg_bavaria_homeassistan.Prelude.{
  Text, codes, Bool, true, false, not, ◌&&◌, ◌||◌, Option, none, some, List, [], ◌∷◌, ◌++◌,
  if◌then◌else◌,
}
use hdg_bavaria_homeassistan.Texts.{starts_with}
use hdg_bavaria_homeassistan.Polling.{is_listed}
use hdg_bavaria_homeassistan.Redaction.{Secrets, redact}

pub record LogRecord : Type 0 where
  pub name : Text
  -- `str(msg)`, and whether the message is a str
  pub msg : Text
  pub is_str : Bool
  -- what the arguments, if there are any, make of the message
  pub render : Option (Text → Text)
  -- the formatted traceback
  pub exc_info : Option Text
  pub exc_text : Option Text
  pub stack_info : Option Text

pub data Filter : Type 0 where
  version_filter redaction_filter : Filter
  -- `is_advanced`
  advanced_filter : Bool → Filter
  -- a filter that someone else has added
  other_filter : (LogRecord → Option LogRecord) → Filter

-- the names of `_SPAMMY_LOGGERS`
abbrev pub spammy_logger_names : List Text
spammy_logger_names =
    codes "hdg_boiler.entity_detail"
    ∷ codes "hdg_boiler.api"
    ∷ codes "hdg_boiler.lifecycle"
    ∷ codes "hdg_boiler.heuristics"
    ∷ codes "hdg_boiler.processor"
    ∷ codes "hdg_boiler.user_action"
    ∷ []

-- `AdvancedLoggingFilter.filter`
unfoldable pub advanced_lets_pass : Bool → LogRecord → Option LogRecord
unfolding is_listed
advanced_lets_pass is_advanced r =
    if is_advanced || not (is_listed r.name spammy_logger_names) then some r else none

-- `HdgVersionFilter.filter`
unfoldable pub add_version : Text → Bool → LogRecord → LogRecord
unfolding starts_with
add_version prefix enabled r =
    if enabled && r.is_str && not (starts_with r.msg prefix)
    then record r { msg = prefix ++ r.msg }
    else r

-- an exc_text that is empty counts as none
unfoldable pub is_missing : Option Text → Bool
is_missing none = true
is_missing (some []) = true
is_missing (some (c ∷ s)) = false

module _ (quote : Text → Text) where
  -- the first statement of `_redact_record`
  unfoldable pub redact_message : Secrets → LogRecord → Option (Text → Text) → Secrets × LogRecord
  redact_message secrets r (some render) =
      let (noted, text) = redact quote secrets (render r.msg) in
      (noted, record r { msg = text; is_str = true; render = none })
  redact_message secrets r none =
      let (noted, text) = redact quote secrets r.msg in
      if r.is_str then (noted, record r { msg = text }) else (secrets, r)

  unfoldable pub redact_optional : Secrets → Option Text → Secrets × Option Text
  redact_optional secrets none = (secrets, none)
  redact_optional secrets (some text) =
      let (noted, redacted) = redact quote secrets text in (noted, some redacted)

  -- the second statement
  unfoldable pub redact_traceback : Secrets → LogRecord → Option Text → Secrets × LogRecord
  unfolding is_missing redact_optional
  redact_traceback secrets r none =
      let (noted, text) = redact_optional secrets r.exc_text in
      (noted, record r { exc_text = text })
  redact_traceback secrets r (some trace) =
      let (noted, text) = redact quote secrets trace in
      let (kept, old) = redact_optional secrets r.exc_text in
      if is_missing r.exc_text
      then (noted, record r { exc_text = some text; exc_info = none })
      else (kept, record r { exc_text = old })

  -- `_redact_record`
  unfoldable pub redact_record : Secrets → LogRecord → Secrets × LogRecord
  unfolding redact_message redact_traceback redact_optional
  redact_record secrets r =
      let (first, with_msg) = redact_message secrets r r.render in
      let (second, with_trace) = redact_traceback first with_msg with_msg.exc_info in
      let (third, stack) = redact_optional second with_trace.stack_info in
      (third, record with_trace { stack_info = stack })

  -- `Filter.filter` of each kind: the secrets afterwards, and the record unless it is dropped
  unfoldable pub apply_filter :
      Text → Bool → Filter → Secrets → LogRecord → Secrets × Option LogRecord
  unfolding add_version redact_record advanced_lets_pass
  apply_filter prefix enabled version_filter secrets r =
      (secrets, some (add_version prefix enabled r))
  apply_filter prefix enabled redaction_filter secrets r =
      let (noted, redacted) = redact_record secrets r in (noted, some redacted)
  apply_filter prefix enabled (advanced_filter is_advanced) secrets r =
      (secrets, advanced_lets_pass is_advanced r)
  apply_filter prefix enabled (other_filter f) secrets r = (secrets, f r)

  -- logging's `Filterer.filter`: the filters in order, until one drops the record
  unfoldable pub run_filters :
      Text → Bool → List Filter → Secrets → LogRecord → Secrets × Option LogRecord
  unfolding apply_filter
  run_filters prefix enabled [] secrets r = (secrets, some r)
  run_filters prefix enabled (f ∷ fs) secrets r =
      let (noted, out) = apply_filter prefix enabled f secrets r in
      elim out [ none ↦ (noted, none) | some next ↦ run_filters prefix enabled fs noted next ]
