-- ===== src/Commands/Requests.antt =====
-- The commands that change state: `_create_reminder`, `_approve` and `_cancel`
-- (src/personal_assistant/application/use_cases/commands.py).
use Prim.Native.String.{◌++◌}
use personal_assistant.Common.{true, not, Option, none, some, String, ◌==◌, text_eq, if◌then◌else◌}
use personal_assistant.Common.Exec.{Exec, Result, ok, err, value_error, lift, ◌>>=◌}
use personal_assistant.Common.Pure
use personal_assistant.Common.Dict.{put}
use personal_assistant.Common.Text.{strip, strip_field, is_empty}
use personal_assistant.Common.Time.{Instant}
use personal_assistant.Permissions.{Principal, ApprovalGrant}
use personal_assistant.Events.{other}
use personal_assistant.Scheduler.Reminder.{is_fingerprint}
use personal_assistant.Approvals.{pending, PendingApproval, create, find_approval, approve, reject}
use personal_assistant.Creation.{AgentStatus, ReminderWorkflowInput, ReminderWorkflowResult}
use personal_assistant.Creation.Flow.{run}
use personal_assistant.Commands.{
  CommandKind, CommandResult, NormalizedMessage, Services, Conversation, with_stores,
  with_approvals, attempt, new_result, answer,
}
use personal_assistant.Commands.Text.{second_part, approval_id_of}
use personal_assistant.Commands.Inputs.{
  filled, new_input, message_key, result_metadata, workflow_answer,
}

module _ (env : Services) (p : Principal) where
  abbrev pub new_request : NormalizedMessage → String → Instant → String → ReminderWorkflowInput
  new_request m content now timezone = record {
    message_id = m.message_id;
    source_event_id = m.source_event_id;
    conversation_id = m.conversation_id;
    text = content;
    channel = m.channel;
    recipient = m.conversation_id;
    now = now;
    timezone = timezone;
    idempotency_key = none;
    approval = none;
  }

  -- the `PendingApproval` of a reminder that needs one
  unfoldable pub new_approval :
      NormalizedMessage
      → String
      → String
      → Instant
      → ReminderWorkflowResult
      → Result PendingApproval
  new_approval m key content now x = Pure.◌>>=◌ (filled m.message_id) (λ message_id.
      Pure.◌>>=◌ (filled m.conversation_id) (λ conversation_id.
        Pure.◌>>=◌ (filled content) (λ request_text.
          Pure.◌>>=◌ (Pure.or_raise (env.workflow.zone (strip_field x.timezone)) value_error)
            (λ timezone.
              if is_fingerprint (strip_field x.payload_fingerprint)
              then ok (record {
                approval_id = approval_id_of env.workflow.sha256 p.tenant_id p.principal_id key;
                tenant_id = p.tenant_id;
                principal_id = p.principal_id;
                action = "calendar.create_event";
                resource = key ++ ":calendar";
                tier = "P3";
                workflow_kind = "reminder.create";
                message_id = message_id;
                source_event_id = x.source_event_id;
                conversation_id = conversation_id;
                channel = m.channel;
                recipient = conversation_id;
                request_text = request_text;
                request_now = now;
                timezone = timezone;
                idempotency_key = x.idempotency_key;
                payload_fingerprint = strip_field x.payload_fingerprint;
                status = pending;
                created_at = env.workflow.clock;
                updated_at = none;
              })
              else err value_error))))

  abbrev pub approval_answer : ReminderWorkflowResult → PendingApproval → Result CommandResult
  approval_answer x a = new_result (record {
    status = AgentStatus.escalated;
    kind = CommandKind.reminder_create;
    reply = x.reply ++ "\n" ++ env.replies.approval_command_hint a.approval_id;
    approval_id = some a.approval_id;
    dispatch_required = true;
    metadata = put "approval_required" (other "true") (result_metadata x);
  })

  abbrev pub request_approval :
      NormalizedMessage
      → String
      → String
      → Instant
      → ReminderWorkflowResult
      → Exec Conversation CommandResult
  request_approval m key content now x = do
    wanted ← lift (new_approval m key content now x)
    a ← with_approvals (create env.print_approval p wanted)
    lift (approval_answer x a)

  abbrev pub answer_request :
      NormalizedMessage
      → String
      → String
      → Instant
      → ReminderWorkflowResult
      → Exec Conversation CommandResult
  answer_request m key content now x =
      if x.approval_required
      then request_approval m key content now x
      else lift (workflow_answer CommandKind.reminder_create x)

  -- `_create_reminder` for a text that is not blank
  abbrev pub start_reminder :
      NormalizedMessage → String → Instant → String → Exec Conversation CommandResult
  start_reminder m content now timezone = do
    key ← lift (message_key env.workflow p m)
    r ←
        lift
          (new_input (record (new_request m content now timezone) { idempotency_key = some key }))
    x ← with_stores (run env.workflow p r)
    answer_request m key content now x

  unfoldable pub create_reminder :
      NormalizedMessage → String → Instant → String → Exec Conversation CommandResult
  create_reminder m content now timezone =
      if is_empty (strip content)
      then lift (
          answer AgentStatus.needs_clarification CommandKind.reminder_create
            env.replies.reminder_missing_text)
      else start_reminder m content now timezone

  -- the request that was approved
  abbrev pub approved_request : PendingApproval → ApprovalGrant → ReminderWorkflowInput
  approved_request a grant = record {
    message_id = a.message_id;
    source_event_id = a.source_event_id;
    conversation_id = a.conversation_id;
    text = a.request_text;
    channel = a.channel;
    recipient = a.recipient;
    now = a.request_now;
    timezone = a.timezone;
    idempotency_key = some a.idempotency_key;
    approval = some grant;
  }

  abbrev pub failed_answer : CommandKind → String → Exec Conversation CommandResult
  failed_answer kind reply = lift (answer AgentStatus.failed kind reply)

  abbrev pub run_approval : PendingApproval → Option ApprovalGrant → Exec Conversation CommandResult
  run_approval a none = failed_answer CommandKind.approve env.replies.approval_failed
  run_approval a (some grant) = do
    r ← lift (new_input (approved_request a grant))
    x ← with_stores (run env.workflow p r)
    lift (workflow_answer CommandKind.approve x)

  abbrev pub approve_found : Option PendingApproval → Exec Conversation CommandResult
  approve_found none = failed_answer CommandKind.approve env.replies.approval_not_found
  approve_found (some a) =
      if not (a.workflow_kind == "reminder.create")
      then failed_answer CommandKind.approve env.replies.approval_type_unsupported
      else (do
        grant ← attempt (with_approvals (approve env.print_approval env.decided_at p a.approval_id))
        run_approval a grant)

  -- `_approve`, from the second part of the text
  abbrev pub approve_part : Option String → Exec Conversation CommandResult
  approve_part none =
      lift
        (answer AgentStatus.needs_clarification CommandKind.approve env.replies.approve_missing_id)
  approve_part (some id) = do
    found ← with_approvals (find_approval p (strip id))
    approve_found found

  unfoldable pub approve_command : String → Exec Conversation CommandResult
  approve_command content = approve_part (second_part content)

  abbrev pub cancel_answer : Option PendingApproval → Exec Conversation CommandResult
  cancel_answer none = failed_answer CommandKind.cancel env.replies.approval_cancel_failed
  cancel_answer (some a) =
      lift (answer AgentStatus.completed CommandKind.cancel env.replies.approval_cancelled)

  abbrev pub cancel_part : Option String → Exec Conversation CommandResult
  cancel_part none =
      lift (answer AgentStatus.needs_clarification CommandKind.cancel env.replies.cancel_missing_id)
  cancel_part (some id) = do
    rejected ← attempt (with_approvals (reject env.decided_at p (strip id)))
    cancel_answer rejected

  unfoldable pub cancel_command : String → Exec Conversation CommandResult
  cancel_command content = cancel_part (second_part content)
