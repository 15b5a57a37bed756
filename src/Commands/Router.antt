-- ===== src/Commands/Router.antt =====
-- The commands that only read, `_infer_intent`, and `handle`, which routes a message
-- (src/personal_assistant/application/use_cases/commands.py).
use personal_assistant.Common.{
  Bool, not, ◌||◌, Option, none, some, List, [], map, take, length, String, leb, ◌==◌, text_eq,
  if◌then◌else◌,
}
use personal_assistant.Common.Exec.{Exec, lift, ◌>>=◌}
use personal_assistant.Common.Text.{strip, is_empty}
use personal_assistant.Common.Sort.{sort_by}
use personal_assistant.Common.Time.{Instant}
use personal_assistant.Permissions.{Principal}
use personal_assistant.Calendar.{CalendarEventResult, list_events}
use personal_assistant.EventStore
use personal_assistant.Outbox
use personal_assistant.Workflows
use personal_assistant.Workflows.{same_text}
use personal_assistant.Approvals.{PendingApproval, list_pending}
use personal_assistant.UnitOfWork.{with_states}
use personal_assistant.Creation.{AgentStatus}
use personal_assistant.Commands.{
  CommandKind, CommandResult, NormalizedMessage, InferredCommandIntent, Services, Conversation,
  with_stores, with_approvals, with_calendar, with_events, with_outbox, answer,
}
use personal_assistant.Commands.Text.{
  starts_with, looks_like_reminder, extract_reminder_text, workflow_text,
}
use personal_assistant.Commands.Requests.{create_reminder, approve_command, cancel_command}

-- where `handle` sends a message: the first of its tests that holds
pub data Route : Type 0 where
  start help status agenda pending_approvals approve cancel remind free plain : Route

abbrev pub is_command : NormalizedMessage → String → Bool
is_command m name = same_text m.command (some name)

module _ (env : Services) (p : Principal) where
  unfoldable pub route : NormalizedMessage → Route
  unfolding starts_with
  route m =
      let lowered = env.lower (strip m.text) in
      if is_command m "start" || lowered == "/start"
      then start
      else if is_command m "help" || lowered == "/help"
      then help
      else if is_command m "status" || lowered == "/status"
      then status
      else if is_command m "agenda" || lowered == "/agenda"
      then agenda
      else if is_command m "pendientes" || lowered == "/pendientes"
      then pending_approvals
      else if is_command m "aprobar" || starts_with "/aprobar" lowered
      then approve
      else if is_command m "cancelar" || starts_with "/cancelar" lowered
      then cancel
      else if is_command m "recordar"
      then remind
      else if not (starts_with "/" lowered)
      then free
      else plain

  -- `_status`
  abbrev pub status_command : Exec Conversation CommandResult
  status_command = do
    pending ← with_approvals (list_pending p)
    states ← with_stores (with_states (Workflows.list_for_tenant p))
    events ← with_stores (with_events (EventStore.list_for_tenant p))
    messages ← with_stores (with_outbox (Outbox.list_for_tenant p))
    lift (
        answer AgentStatus.completed CommandKind.status
          (env.replies.status (length pending) (length states) (length events) (length messages)))

  abbrev pub starts_first : CalendarEventResult → CalendarEventResult → Bool
  starts_first a b = leb a.starts_at b.starts_at

  abbrev pub agenda_row : CalendarEventResult → Instant × String × String
  agenda_row e = (e.starts_at, e.title, e.event_id)

  abbrev pub agenda_of : List CalendarEventResult → String
  agenda_of [] = env.replies.agenda_empty
  agenda_of events = env.replies.agenda (map agenda_row (take 10 events))

  -- `_agenda`
  abbrev pub agenda_command : Exec Conversation CommandResult
  agenda_command = do
    events ← with_stores (with_calendar (list_events p))
    lift (answer AgentStatus.completed CommandKind.agenda (agenda_of (sort_by starts_first events)))

  abbrev pub pending_row : PendingApproval → String × String × String
  pending_row a = (a.approval_id, a.action, a.request_text)

  abbrev pub pending_answer : List PendingApproval → Exec Conversation CommandResult
  pending_answer [] =
      lift (answer AgentStatus.completed CommandKind.pending_approvals env.replies.pending_empty)
  pending_answer pending = lift (
      answer AgentStatus.escalated CommandKind.pending_approvals
        (env.replies.pending_approvals (map pending_row pending)))

  -- `_pending`
  abbrev pub pending_command : Exec Conversation CommandResult
  pending_command = do pending ← with_approvals (list_pending p); pending_answer pending

  abbrev pub help_command : Exec Conversation CommandResult
  help_command = lift (answer AgentStatus.completed CommandKind.help env.replies.help)

  abbrev pub unsupported_command : Exec Conversation CommandResult
  unsupported_command =
      lift (answer AgentStatus.declined CommandKind.unsupported env.replies.unsupported)

  -- an intent counts if it is confident enough
  abbrev pub accepted : Option InferredCommandIntent → Option InferredCommandIntent
  accepted none = none
  accepted (some i) = if i.is_confident then some i else none

  -- `_infer_intent`
  abbrev pub infer_with :
      Option (NormalizedMessage → String → Option InferredCommandIntent)
      → NormalizedMessage
      → Option InferredCommandIntent
  infer_with none m = none
  infer_with (some model) m = accepted (model m (strip m.text))

  -- a text without a command, or with an unknown one
  unfoldable pub plain_command :
      NormalizedMessage → Instant → String → Exec Conversation CommandResult
  plain_command m now timezone =
      if looks_like_reminder env.lower (strip m.text)
      then create_reminder env p m (extract_reminder_text env.lower (strip m.text)) now timezone
      else unsupported_command

  abbrev pub remind_inferred :
      NormalizedMessage → Option String → Instant → String → Exec Conversation CommandResult
  remind_inferred m none now timezone = unsupported_command
  remind_inferred m (some wish) now timezone =
      if is_empty wish
      then unsupported_command
      else create_reminder env p m (workflow_text m.text wish) now timezone

  -- `_handle_inferred_intent`
  abbrev pub inferred_command :
      NormalizedMessage
      → CommandKind
      → Option String
      → Instant
      → String
      → Exec Conversation CommandResult
  inferred_command m CommandKind.reminder_create wish now timezone =
      remind_inferred m wish now timezone
  inferred_command m CommandKind.help wish now timezone = help_command
  inferred_command m CommandKind.status wish now timezone = status_command
  inferred_command m CommandKind.agenda wish now timezone = agenda_command
  inferred_command m CommandKind.pending_approvals wish now timezone = pending_command
  inferred_command m _ wish now timezone = unsupported_command

  abbrev pub free_command :
      NormalizedMessage
      → Option InferredCommandIntent
      → Instant
      → String
      → Exec Conversation CommandResult
  free_command m none now timezone = plain_command m now timezone
  free_command m (some i) now timezone = inferred_command m i.kind i.reminder_text now timezone

  abbrev pub follow : Route → NormalizedMessage → Instant → String → Exec Conversation CommandResult
  follow start m now timezone =
      lift (answer AgentStatus.completed CommandKind.start env.replies.start)
  follow help m now timezone = help_command
  follow status m now timezone = status_command
  follow agenda m now timezone = agenda_command
  follow pending_approvals m now timezone = pending_command
  follow approve m now timezone = approve_command env p (strip m.text)
  follow cancel m now timezone = cancel_command env p (strip m.text)
  follow remind m now timezone = create_reminder env p m (strip m.command_args) now timezone
  follow free m now timezone = free_command m (infer_with env.infer m) now timezone
  follow plain m now timezone = plain_command m now timezone

  unfoldable pub handle : NormalizedMessage → Instant → String → Exec Conversation CommandResult
  handle m now timezone = follow (route m) m now timezone
