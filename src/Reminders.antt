-- ===== src/Reminders.antt =====
-- The reminder domain: extractions, results of the parser
-- (src/personal_assistant/domain/reminders/models.py) and the draft that a workflow keeps while it
-- waits for approval (src/personal_assistant/domain/reminders/workflow_state.py). The time zone
-- database is the parameter `zone`. How a datetime and a confidence are written and how pydantic
-- reads them is a `Codec`; a confidence is known by its JSON text.
pub mod Draft
mod Tests
use personal_assistant.Common.{
  Bool, ◌||◌, Option, none, some, [], ◌∷◌, String, ◌==◌, text_eq, if◌then◌else◌,
}
use personal_assistant.Common.Exec.{Result, ok, err, value_error, key_error}
use personal_assistant.Common.Pure.{or_raise, ◌>>=◌}
use personal_assistant.Common.Dict.{Dict, get}
use personal_assistant.Common.Text.{strip_field, is_empty}
use personal_assistant.Common.Time.{Instant, Datetime, naive, aware}
use personal_assistant.Events.{Json, text, other}

pub data ReminderIntent : Type 0 where
  create unsupported : ReminderIntent

pub data ClarificationReason : Type 0 where
  ambiguous_hour missing_date missing_time missing_datetime : ClarificationReason
  nonexistent_local_time ambiguous_local_time invalid_timezone : ClarificationReason

pub data UnsupportedReason : Type 0 where
  not_a_reminder invalid_reference_instant invalid_relative_amount : UnsupportedReason
  invalid_time past_time conflicting_temporal_expression : UnsupportedReason

-- `ReminderWorkflowStep`, by value
abbrev pub classify : String
classify = "classify"

abbrev pub needs_clarification : String
needs_clarification = "needs_clarification"

abbrev pub approval_required : String
approval_required = "approval_required"

abbrev pub completed_step : String
completed_step = "completed"

pub record ReminderExtraction : Type 0 where
  pub title : String
  pub timezone : String
  pub starts_at : Instant
  pub notify_at : Option Instant
  pub confidence : String

pub data ParseResult : Type 0 where
  parsed : ReminderExtraction → ParseResult
  clarify : ClarificationReason → ParseResult
  unsupported_reminder : UnsupportedReason → ParseResult

pub record ReminderDraft : Type 0 where
  pub title : String
  pub timezone : String
  pub starts_at : Instant
  pub notify_at : Option Instant
  pub confidence : String

-- `isoformat`, and the readings by pydantic
pub record Codec : Type 0 where
  pub isoformat : Instant → String
  pub read_datetime : Json → Option Datetime
  pub read_confidence : Json → Option String

module _ (zone : String → Option String) where
  -- the validators that both models have
  unfoldable pub validate_extraction : ReminderExtraction → Result ReminderExtraction
  validate_extraction e =
      if is_empty (strip_field e.title) || is_empty (strip_field e.timezone)
      then err value_error
      else do
        key ← or_raise (zone (strip_field e.timezone)) value_error
        ok (record e { title = strip_field e.title; timezone = key })

  abbrev pub draft_of : ReminderExtraction → ReminderDraft
  draft_of e = record {
    title = e.title;
    timezone = e.timezone;
    starts_at = e.starts_at;
    notify_at = e.notify_at;
    confidence = e.confidence;
  }

  -- `from_extraction`
  unfoldable pub from_extraction : ReminderExtraction → Result ReminderDraft
  unfolding validate_extraction
  from_extraction e = do valid ← validate_extraction e; ok (draft_of valid)

  unfoldable pub to_extraction : ReminderDraft → Result ReminderExtraction
  unfolding validate_extraction
  to_extraction d = validate_extraction (record {
    title = d.title;
    timezone = d.timezone;
    starts_at = d.starts_at;
    notify_at = d.notify_at;
    confidence = d.confidence;
  })

module _ (codec : Codec) where
  abbrev pub moment_value : Option Instant → Json
  moment_value none = other "null"
  moment_value (some t) = text (codec.isoformat t)

  unfoldable pub to_workflow_data : ReminderDraft → Dict String Json
  to_workflow_data d =
      ("title", text d.title)
      ∷ ("timezone", text d.timezone)
      ∷ ("starts_at", text (codec.isoformat d.starts_at))
      ∷ ("notify_at", moment_value d.notify_at)
      ∷ ("confidence", other d.confidence)
      ∷ []

  abbrev pub read_text : Json → Result String
  read_text (text t) = ok t
  read_text (other v) = err value_error

  abbrev pub require_aware : Option Datetime → Result Instant
  require_aware none = err value_error
  require_aware (some (naive t)) = err value_error
  require_aware (some (aware t)) = ok t

  abbrev pub read_moment : Json → Result Instant
  read_moment j = require_aware (codec.read_datetime j)

  -- an optional moment: `None` stays `None`
  abbrev pub read_some : Json → Result (Option Instant)
  read_some j = do t ← read_moment j; ok (some t)

  abbrev pub read_optional : Option Json → Result (Option Instant)
  read_optional none = ok none
  read_optional (some (text t)) = read_some (text t)
  read_optional (some (other v)) = if v == "null" then ok none else read_some (other v)

  abbrev pub value_or : Option Json → Json → Json
  value_or none default = default
  value_or (some v) default = v

  -- `ReminderDraft.from_mapping`
  unfoldable pub from_mapping : (String → Option String) → Dict String Json → Result ReminderDraft
  unfolding from_extraction
  from_mapping zone d = do
    raw_title ← or_raise (get "title" d) key_error
    raw_start ← or_raise (get "starts_at" d) key_error
    title ← read_text raw_title
    timezone ← read_text (value_or (get "timezone" d) (text "UTC"))
    starts_at ← read_moment raw_start
    notify_at ← read_optional (get "notify_at" d)
    confidence ←
        or_raise (codec.read_confidence (value_or (get "confidence" d) (other "0.86"))) value_error
    from_extraction zone (record {
      title = title;
      timezone = timezone;
      starts_at = starts_at;
      notify_at = notify_at;
      confidence = confidence;
    })
