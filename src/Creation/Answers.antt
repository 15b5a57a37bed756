-- ===== src/Creation/Answers.antt =====
-- What `ReminderWorkflow` answers (src/personal_assistant/application/use_cases/reminders.py): its
-- results, and `_registration_result`.
use Prim.Native.String.{◌++◌}
use personal_assistant.Common.{
  Bool, true, false, not, ◌&&◌, Option, none, some, [], ◌∷◌, String, ◌==◌, text_eq, pair_eq,
  if◌then◌else◌,
}
use personal_assistant.Common.Exec.{Result, ok, err, value_error}
use personal_assistant.Common.Pure.{◌>>=◌}
use personal_assistant.Common.Dict.{get}
use personal_assistant.Permissions.{Principal}
use personal_assistant.Events.{Json, text, other}
use personal_assistant.Workflows.{
  WorkflowStatus, pending, running, waiting_approval, completed, failed, same_status, WorkflowState,
  WorkflowStateRegistration, same_text,
}
use personal_assistant.Guardrails.{guarded_reply}
use personal_assistant.Reminders.{
  ReminderIntent, create, unsupported, ClarificationReason, ambiguous_hour, missing_date,
  missing_time, missing_datetime, nonexistent_local_time, ambiguous_local_time, invalid_timezone,
  classify, approval_required, from_mapping,
}
use personal_assistant.Creation.{
  AgentStatus, ReminderWorkflowInput, Environment, ReminderWorkflowResult, validate_result,
  ReminderIdempotency,
}

-- `reason.value`
abbrev pub reason_value : ClarificationReason → String
reason_value ambiguous_hour = "ambiguous_hour"
reason_value missing_date = "missing_date"
reason_value missing_time = "missing_time"
reason_value missing_datetime = "missing_datetime"
reason_value nonexistent_local_time = "nonexistent_local_time"
reason_value ambiguous_local_time = "ambiguous_local_time"
reason_value invalid_timezone = "invalid_timezone"

-- `ReminderClarificationReason(value)`, and `missing_datetime` where it raises
unfoldable pub reason_from : String → ClarificationReason
reason_from v =
    if v == "ambiguous_hour"
    then ambiguous_hour
    else if v == "missing_date"
    then missing_date
    else if v == "missing_time"
    then missing_time
    else if v == "nonexistent_local_time"
    then nonexistent_local_time
    else if v == "ambiguous_local_time"
    then ambiguous_local_time
    else if v == "invalid_timezone"
    then invalid_timezone
    else missing_datetime

-- `str(data.get("clarification_reason"))`: no reason is spelled like another JSON value
abbrev pub stored_reason : Option Json → ClarificationReason
stored_reason (some (text v)) = reason_from v
stored_reason _ = missing_datetime

-- `clarification.reason if clarification is not None else missing_datetime`
abbrev pub reason_or_default : Option ClarificationReason → ClarificationReason
reason_or_default none = missing_datetime
reason_or_default (some reason) = reason

-- an optional text of a result
abbrev pub optional_text : Option Json → Result (Option String)
optional_text none = ok none
optional_text (some (text t)) = ok (some t)
optional_text (some (other v)) = if v == "null" then ok none else err value_error

abbrev pub differs : Option String → String → Bool
differs none key = false
differs (some k) key = not (k == key)

-- a stored workflow with another payload
abbrev pub is_conflict : Option WorkflowState → String → Bool
is_conflict none print = false
is_conflict (some w) print = not (same_text w.payload_fingerprint (some print))

-- the workflow waits for this approval
abbrev pub awaits_approval : WorkflowState → Bool
awaits_approval w = same_status w.status waiting_approval && w.step == approval_required

module _ (env : Environment) (p : Principal) (r : ReminderWorkflowInput)
    (id : ReminderIdempotency) where
  abbrev pub guarded : String → Result String
  guarded t = guarded_reply env.finditer t

  abbrev pub base_result : AgentStatus → ReminderIntent → String → ReminderWorkflowResult
  base_result status intent reply = record {
    status = status;
    intent = intent;
    reply = reply;
    idempotency_key = id.key;
    source_event_id = id.source_event_id;
    payload_fingerprint = id.payload_fingerprint;
    timezone = id.timezone;
    clarification_reason = none;
    approval_required = false;
    calendar_event_id = none;
    reminder_id = none;
    reused = false;
  }

  abbrev pub initial_state : WorkflowState
  initial_state = record {
    workflow_id = "wf_" ++ env.uuid;
    tenant_id = p.tenant_id;
    workflow_type = "reminder.create";
    status = running;
    step = classify;
    idempotency_key = id.key;
    payload_fingerprint = some id.payload_fingerprint;
    content =
        ("message_id", text r.message_id)
        ∷ ("source_event_id", text id.source_event_id)
        ∷ ("channel", text r.channel)
        ∷ ("conversation_id", text r.conversation_id)
        ∷ ("timezone", text id.timezone)
        ∷ [];
    created_at = env.clock;
    updated_at = env.clock;
  }

  abbrev pub clarification_result :
      ClarificationReason → String → Bool → Result ReminderWorkflowResult
  clarification_result reason reply reused =
      validate_result env.zone
        (record (base_result AgentStatus.needs_clarification unsupported reply) {
          clarification_reason = some reason;
          reused = reused;
        })

  -- the answer to a registered workflow that is not resumed
  abbrev pub duplicate : AgentStatus → Result (Option ReminderWorkflowResult)
  duplicate status = do
    reply ← guarded env.replies.reminder_duplicate
    result ← validate_result env.zone (record (base_result status create reply) { reused = true })
    ok (some result)

  abbrev pub completed_result : WorkflowState → Result (Option ReminderWorkflowResult)
  completed_result w = do
    reply ← guarded env.replies.reminder_duplicate
    event ← optional_text (get "calendar_event_id" w.content)
    reminder ← optional_text (get "reminder_id" w.content)
    result ← validate_result env.zone (record (base_result AgentStatus.completed create reply) {
      calendar_event_id = event;
      reminder_id = reminder;
      reused = true;
    })
    ok (some result)

  abbrev pub approval_result : String → Bool → Result ReminderWorkflowResult
  approval_result title reused = do
    reply ← guarded (env.replies.reminder_needs_approval title)
    validate_result env.zone (record (base_result AgentStatus.escalated create reply) {
      approval_required = true;
      reused = reused;
    })

  -- it waits for this approval
  abbrev pub draft_result : WorkflowState → Result (Option ReminderWorkflowResult)
  draft_result w = do
    draft ← from_mapping env.codec env.zone w.content
    result ← approval_result draft.title true
    ok (some result)

  abbrev pub reason_result : ClarificationReason → Result (Option ReminderWorkflowResult)
  reason_result reason = do
    reply ← guarded (env.replies.reminder_clarification reason)
    result ← clarification_result reason reply true
    ok (some result)

  abbrev pub waiting_result : WorkflowState → Result (Option ReminderWorkflowResult)
  waiting_result w =
      if w.step == approval_required
      then draft_result w
      else reason_result (stored_reason (get "clarification_reason" w.content))

  abbrev pub replayed_result :
      WorkflowStatus → WorkflowState → Result (Option ReminderWorkflowResult)
  replayed_result completed w = completed_result w
  replayed_result running w = duplicate AgentStatus.escalated
  replayed_result failed w = duplicate AgentStatus.failed
  replayed_result waiting_approval w = waiting_result w
  replayed_result pending w = ok none

  -- `_registration_result`
  unfoldable pub registration_result :
      WorkflowStateRegistration → Result (Option ReminderWorkflowResult)
  registration_result g = if g.replayed then replayed_result g.state.status g.state else ok none
