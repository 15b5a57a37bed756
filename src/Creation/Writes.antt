-- ===== src/Creation/Writes.antt =====
-- The writes of an approved run, inside its transaction
-- (src/personal_assistant/application/use_cases/reminders.py).
use Prim.Native.String.{◌++◌}
use personal_assistant.Common.{false, none, some, [], ◌∷◌, String, text_eq}
use personal_assistant.Common.Exec.{Exec, pure, lift, ◌>>=◌, ◌>>◌}
use personal_assistant.Common.Time.{aware}
use personal_assistant.Permissions.{Principal}
use personal_assistant.Events.{CloudEvent, text}
use personal_assistant.Calendar.{CalendarEventRequest, CalendarEventResult, create_event}
use personal_assistant.Scheduler.{Request, schedule_before_event}
use personal_assistant.Scheduler.Reminder.{ScheduledReminder}
use personal_assistant.EventStore.{append}
use personal_assistant.Outbox.{add}
use personal_assistant.Workflows.{completed, WorkflowState, transition, upsert}
use personal_assistant.UnitOfWork.{
  Transaction, commit, on_calendar, on_scheduler, on_events, on_outbox, on_states,
}
use personal_assistant.Reminders.{ReminderExtraction, ClarificationReason, completed_step}
use personal_assistant.Creation.{
  ReminderWorkflowInput, Environment, ReminderWorkflowResult, ReminderIdempotency,
}
use personal_assistant.Creation.Extraction.{notice_minutes_before}
use personal_assistant.Creation.Answers.{guarded, clarification_result}
use personal_assistant.Creation.Ask.{clarifying}

-- how the block of an approved run ends
pub data Outcome : Type 0 where
  answered : ReminderWorkflowResult → Outcome
  created : ReminderExtraction → CalendarEventResult → ScheduledReminder → Outcome

module _ (env : Environment) (p : Principal) (r : ReminderWorkflowInput)
    (id : ReminderIdempotency) where
  -- the arguments of the four writes
  abbrev pub calendar_request : ReminderExtraction → CalendarEventRequest
  calendar_request e = record {
    event_id = some id.effect_ids.calendar_event_id;
    title = e.title;
    starts_at = e.starts_at;
    ends_at = none;
    timezone = e.timezone;
    idempotency_key = id.key ++ ":calendar";
    source_event_id = some id.source_event_id;
    payload_fingerprint = some id.payload_fingerprint;
  }

  abbrev pub notice_request : ReminderExtraction → CalendarEventResult → String → Request
  notice_request e c body = record {
    calendar_event_id = c.event_id;
    starts_at = aware e.starts_at;
    channel = r.channel;
    recipient = r.recipient;
    body = body;
    timezone = e.timezone;
    source_event_id = id.source_event_id;
    payload_fingerprint = id.payload_fingerprint;
    minutes_before = notice_minutes_before e env.minutes_before;
  }

  abbrev pub created_event :
      ReminderExtraction → CalendarEventResult → ScheduledReminder → CloudEvent
  created_event e c job = record {
    id = id.effect_ids.reminder_created_event_id;
    specversion = "1.0";
    type = "reminder.created";
    source = "personal_assistant.application.reminders";
    subject = some job.reminder_id;
    tenant_id = p.tenant_id;
    correlation_id = id.key;
    causation_id = some id.source_event_id;
    source_event_id = some id.source_event_id;
    payload_fingerprint = some id.payload_fingerprint;
    timezone = some e.timezone;
    payload =
        ("calendar_event_id", text c.event_id)
        ∷ ("reminder_id", text job.reminder_id)
        ∷ ("starts_at", text (env.codec.isoformat e.starts_at))
        ∷ ("timezone", text e.timezone)
        ∷ ("notify_at", text (env.codec.isoformat job.notify_at))
        ∷ ("source_event_id", text id.source_event_id)
        ∷ ("payload_fingerprint", text id.payload_fingerprint)
        ∷ [];
    time = env.clock;
  }

  abbrev pub requested_event :
      ReminderExtraction → CalendarEventResult → ScheduledReminder → CloudEvent
  requested_event e c job = record (created_event e c job) {
    id = id.effect_ids.notification_requested_event_id;
    type = "notification.requested";
    causation_id = some id.effect_ids.reminder_created_event_id;
    payload =
        ("calendar_event_id", text c.event_id)
        ∷ ("reminder_id", text job.reminder_id)
        ∷ ("channel", text r.channel)
        ∷ ("recipient", text r.recipient)
        ∷ ("body", text job.body)
        ∷ ("notify_at", text (env.codec.isoformat job.notify_at))
        ∷ ("timezone", text e.timezone)
        ∷ ("source_event_id", text id.source_event_id)
        ∷ ("payload_fingerprint", text id.payload_fingerprint)
        ∷ [];
  }

  abbrev pub completed_state :
      ReminderExtraction → CalendarEventResult → ScheduledReminder → WorkflowState → WorkflowState
  completed_state e c job w =
      transition env.clock (some completed) (some completed_step)
        (some (
          ("calendar_event_id", text c.event_id)
          ∷ ("reminder_id", text job.reminder_id)
          ∷ ("notify_at", text (env.codec.isoformat job.notify_at))
          ∷ ("timezone", text e.timezone)
          ∷ ("source_event_id", text id.source_event_id)
          ∷ []))
        w

  -- the writes of an approved run, in their order
  unfoldable pub create_all : WorkflowState → ReminderExtraction → Exec Transaction Outcome
  create_all w e = do
    c ← on_calendar (
        create_event env.zone env.print_request env.uuid (env.moment 1) p (calendar_request e)
          r.approval)
    body ← lift (guarded env p r id (env.replies.reminder_notification_body e.title))
    job ← on_scheduler (
        schedule_before_event env.zone env.uuid p (notice_request e c body) (id.key ++ ":notify")
          (some id.effect_ids.reminder_id))
    stored ← on_events (append env.print_event p (created_event e c job))
    message ← on_outbox (
        add env.print_write env.uuid env.clock p (requested_event e c job) (id.key ++ ":outbox")
          (some (aware job.notify_at)) (some id.effect_ids.outbox_message_id))
    saved ← on_states (upsert env.print_state p (completed_state e c job w))
    commit
    pure (created e c job)

  -- no extraction: the workflow asks for a clarification
  abbrev pub clarify_all : WorkflowState → ClarificationReason → Exec Transaction Outcome
  clarify_all w reason = do
    reply ← lift (guarded env p r id (env.replies.reminder_clarification reason))
    saved ← on_states (upsert env.print_state p (clarifying env p r id w reason))
    commit
    result ← lift (clarification_result env p r id reason reply false)
    pure (answered result)
