-- ===== src/Creation.antt =====
-- `ReminderWorkflow`, the creation of a reminder
-- (src/personal_assistant/application/use_cases/reminders.py), with its input and its result
-- (src/personal_assistant/application/dto/reminders.py). What it gets from outside is an
-- `Environment`: the time zone database, hashes, regular expressions, the clock, `uuid4().hex`, the
-- language model, and the texts of the reply catalog. The parser is its field `extract`. The traces
-- that the workflow writes are left out, and so are the ids of traces in a result.
pub mod Extraction
pub mod Answers
pub mod Ask
pub mod Writes
pub mod Flow
pub mod Replay
pub mod Stored
pub mod StoredMessage
pub mod Effects
pub mod Registered
pub mod Live
pub mod Atomic
pub mod Unapproved
pub mod Whole
pub mod Final
pub mod Sample
mod Tests
use Prim.Native.String.{◌++◌}
use personal_assistant.Common.{
  ℕ, Bool, true, false, not, ◌&&◌, ◌||◌, Option, none, some, List, String, ◌==◌, text_eq,
  if◌then◌else◌,
}
use personal_assistant.Common.Exec.{Result, ok, err, value_error}
use personal_assistant.Common.Pure.{◌>>=◌, or_raise}
use personal_assistant.Common.Time.{Instant, Datetime}
use personal_assistant.Permissions.{Principal, ApprovalGrant}
use personal_assistant.Events.{CloudEvent}
use personal_assistant.Outbox.{Write}
use personal_assistant.Calendar.{CalendarEventRequest}
use personal_assistant.Workflows.{WorkflowState}
use personal_assistant.Identity
use personal_assistant.Identity.{Identity, Payload, EffectIds, new_identity, new_payload}
use personal_assistant.Reminders.{
  Codec, ReminderExtraction, ParseResult, ReminderIntent, ClarificationReason, invalid_timezone,
}

-- `AgentStatus` (src/personal_assistant/application/dto/runtime.py)
pub data AgentStatus : Type 0 where
  completed needs_clarification declined escalated failed : AgentStatus

pub record ReminderWorkflowInput : Type 0 where
  pub message_id : String
  pub source_event_id : String
  pub conversation_id : String
  pub text : String
  pub channel : String
  pub recipient : String
  pub now : Instant
  pub timezone : String
  pub idempotency_key : Option String
  pub approval : Option ApprovalGrant

-- what `_reminder_extraction_from_llm` reads of the model's answer: `bool`, `str` and `float` of
-- the values, the confidence by its text, and whether it reaches 0.65
pub record LlmAnswer : Type 0 where
  pub is_reminder : Bool
  pub title : String
  pub starts_at : String
  pub notify_at : String
  pub confidence : String
  pub is_confident : Bool

-- the texts of `AssistantReplies` that the workflow uses
pub record Replies : Type 0 where
  pub reminder_clarification : ClarificationReason → String
  pub reminder_duplicate : String
  pub reminder_needs_approval : String → String
  pub reminder_notification_body : String → String
  pub reminder_created : String → ℕ → Bool → String

pub record Environment : Type 0 where
  pub zone : String → Option String
  pub codec : Codec
  pub fromisoformat : String → Option Datetime
  pub sha256 : String → String
  pub nfc : String → String
  pub casefold : String → String
  pub print_request : CalendarEventRequest → String
  pub print_event : CloudEvent → String
  pub print_write : Write → String
  pub print_state : WorkflowState → String
  pub finditer : String → String → List (ℕ × ℕ)
  -- `extract_reminder`
  pub extract : String → Instant → String → ParseResult
  -- the model, if one is configured; its answer, or `none` if the call raises
  pub llm : Option (ReminderWorkflowInput → Option LlmAnswer)
  pub replies : Replies
  pub minutes_before : ℕ
  pub clock : Instant
  pub moment : ℕ → Instant
  pub uuid : String

pub record ReminderWorkflowResult : Type 0 where
  pub status : AgentStatus
  pub intent : ReminderIntent
  pub reply : String
  pub idempotency_key : String
  pub source_event_id : String
  pub payload_fingerprint : String
  pub timezone : String
  pub clarification_reason : Option ClarificationReason
  pub approval_required : Bool
  pub calendar_event_id : Option String
  pub reminder_id : Option String
  pub reused : Bool

-- the zone of a result is checked, unless it asks for one
abbrev pub asks_for_zone : Option ClarificationReason → Bool
asks_for_zone (some invalid_timezone) = true
asks_for_zone _ = false

-- the validator of `ReminderWorkflowResult`; the id and the version of a clarification are derived
-- from its reason, so that their part of it always passes
unfoldable pub validate_result :
    (String → Option String) → ReminderWorkflowResult → Result ReminderWorkflowResult
validate_result zone r =
    if asks_for_zone r.clarification_reason
    then ok r
    else do key ← or_raise (zone r.timezone) value_error; ok (record r { timezone = key })

-- what `reminder_idempotency` and its properties give
pub record ReminderIdempotency : Type 0 where
  pub key : String
  pub effect_ids : EffectIds
  pub source_event_id : String
  pub payload_fingerprint : String
  pub timezone : String

unfoldable pub reminder_idempotency :
    Environment → Principal → ReminderWorkflowInput → Result ReminderIdempotency
reminder_idempotency env p r = do
  identity ←
      new_identity env.nfc env.casefold p.tenant_id r.channel p.principal_id r.conversation_id
        r.source_event_id
  payload ← new_payload env.nfc r.text r.recipient r.timezone
  ok (record {
    key = Identity.idempotency_key env.sha256 identity;
    effect_ids = Identity.effect_ids env.sha256 identity;
    source_event_id = identity.source_event_id;
    payload_fingerprint = Identity.payload_fingerprint env.sha256 payload;
    timezone = payload.timezone;
  })
