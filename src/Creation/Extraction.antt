-- ===== src/Creation/Extraction.antt =====
-- How the workflow gets an extraction: `_resolve_extraction`, `_extract_with_llm`,
-- `_reminder_extraction_from_llm` and `_notice_minutes_before`
-- (src/personal_assistant/application/use_cases/reminders.py).
use personal_assistant.Common.{
  ℕ, ◌-◌, ◌*◌, ◌/◌, not, ◌||◌, Option, none, some, String, leb, if◌then◌else◌,
}
use personal_assistant.Common.Exec.{Result, ok, err}
use personal_assistant.Common.Text.{strip, is_empty}
use personal_assistant.Common.Time.{Instant, Datetime, aware, second}
use personal_assistant.Reminders.{
  ReminderExtraction, ParseResult, parsed, clarify, unsupported_reminder, ClarificationReason,
  not_a_reminder, validate_extraction,
}
use personal_assistant.Creation.{Environment, ReminderWorkflowInput, LlmAnswer}

-- a model that is built, or `none` where its validators raise: the exception is caught
abbrev pub built : Result ReminderExtraction → Option ReminderExtraction
built (ok e) = some e
built (err x) = none

module _ (env : Environment) where
  abbrev pub extraction_at :
      LlmAnswer → String → Instant → Option Instant → Option ReminderExtraction
  extraction_at a timezone starts_at notify_at = built (
      validate_extraction env.zone (record {
        title = strip a.title;
        timezone = timezone;
        starts_at = starts_at;
        notify_at = notify_at;
        confidence = a.confidence;
      }))

  abbrev pub with_notice :
      LlmAnswer → String → Instant → Option Datetime → Option ReminderExtraction
  with_notice a timezone starts_at (some (aware t)) = extraction_at a timezone starts_at (some t)
  with_notice a timezone starts_at _ = none

  abbrev pub with_start : LlmAnswer → String → Option Datetime → Option ReminderExtraction
  with_start a timezone (some (aware t)) =
      if is_empty (strip a.notify_at)
      then extraction_at a timezone t none
      else with_notice a timezone t (env.fromisoformat (strip a.notify_at))
  with_start a timezone _ = none

  -- `_reminder_extraction_from_llm`, with `none` also where it raises
  unfoldable pub extraction_from_llm : LlmAnswer → String → Option ReminderExtraction
  extraction_from_llm a timezone =
      if not a.is_reminder
        || is_empty (strip a.title)
        || is_empty (strip a.starts_at)
        || not a.is_confident
      then none
      else with_start a timezone (env.fromisoformat (strip a.starts_at))

  abbrev pub read_answer : Option LlmAnswer → String → Option ReminderExtraction
  read_answer none timezone = none
  read_answer (some a) timezone = extraction_from_llm a timezone

  -- `_extract_with_llm`, where a model is configured
  abbrev pub extract_with_llm :
      Option (ReminderWorkflowInput → Option LlmAnswer)
      → ReminderWorkflowInput
      → Option ReminderExtraction
  extract_with_llm none r = none
  extract_with_llm (some complete) r = read_answer (complete r) r.timezone

  abbrev pub resolved :
      ParseResult → ReminderWorkflowInput → Option ReminderExtraction × Option ClarificationReason
  resolved (parsed e) r = (some e, none)
  resolved (clarify reason) r = (none, some reason)
  resolved (unsupported_reminder not_a_reminder) r = (extract_with_llm env.llm r, none)
  resolved (unsupported_reminder _) r = (none, none)

  -- `_resolve_extraction`
  unfoldable pub resolve_extraction :
      ReminderWorkflowInput → Option ReminderExtraction × Option ClarificationReason
  resolve_extraction r = resolved (env.extract r.text r.now r.timezone) r

-- `_notice_minutes_before`: the whole minutes from the notice to the start, or zero
abbrev pub minutes_to : Instant → Option Instant → ℕ → ℕ
minutes_to starts_at none default = default
minutes_to starts_at (some t) default =
    if leb starts_at t then 0 else (starts_at - t) / (60 * second)

unfoldable pub notice_minutes_before : ReminderExtraction → ℕ → ℕ
notice_minutes_before e default = minutes_to e.starts_at e.notify_at default
