-- ===== src/Creation/Tests.antt =====
-- An approved run on empty stores, and a run after it.
use Prim.Native.String.{◌++◌}
use personal_assistant.Common.{ℕ, ◌≡◌, refl, true, Option, none, some, List, [], ◌∷◌, String}
use personal_assistant.Common.Exec.{Result, ok, err}
use personal_assistant.Common.Time.{Instant, aware}
use personal_assistant.Permissions.{Principal, ApprovalGrant}
use personal_assistant.Permissions.Sample.{member}
use personal_assistant.Permissions.Tiers.{p3}
use personal_assistant.Calendar
use personal_assistant.Scheduler
use personal_assistant.EventStore
use personal_assistant.Outbox
use personal_assistant.Workflows
use personal_assistant.Workflows.{WorkflowState, completed}
use personal_assistant.Workflows.Steps.{empty-IsValid}
use personal_assistant.UnitOfWork.{Stores}
use personal_assistant.Creation.{
  ReminderWorkflowInput, Environment, Replies, ReminderWorkflowResult, ReminderIdempotency,
  reminder_idempotency,
}
use personal_assistant.Creation.Flow.{run}
use personal_assistant.Creation.Final.{completed_once}
use personal_assistant.Creation.Whole.{Whole, run_all_or_nothing}
use personal_assistant.Creation.Sample.{env, print, key, empty}

abbrev input : Option ApprovalGrant → ReminderWorkflowInput
input approval = record {
  message_id = "m1";
  source_event_id = "e1";
  conversation_id = "c1";
  text = "call mum";
  channel = "telegram";
  recipient = "c1";
  now = 5;
  timezone = "UTC";
  idempotency_key = none;
  approval = approval;
}

abbrev grant : ApprovalGrant
grant = record {
  approval_id = "apr_1";
  tenant_id = "t1";
  principal_id = "alice";
  action = "calendar.create_event";
  resource =
      "reminder:v2:0123456789abcdef0123456789abcdef0123456789abcdef0123456789abcdef:calendar";
  tier = p3;
  approved = true;
  expires_at = none;
  request_hash = none;
  trusted_source = some "trusted_runtime";
}

abbrev returned_reply : Result ReminderWorkflowResult → Option String
returned_reply (ok x) = some x.reply
returned_reply (err x) = none

-- the run creates the reminder: all of its effects are there
created_test : returned_reply (run env (member "t1") (input (some grant)) empty).0 ≡ some "call mum"
unfolding run reminder_idempotency personal_assistant.Identity.new_identity
    personal_assistant.Common.Text.strip personal_assistant.Identity.new_payload
    personal_assistant.Guardrails.scan_prompt personal_assistant.Guardrails.enforce_prompt_scan
    personal_assistant.Permissions.Approval.require_approval
    personal_assistant.Permissions.Approval.permitted
    personal_assistant.Permissions.permission_request personal_assistant.Permissions.has_length
    personal_assistant.Common.Text.count_chars personal_assistant.Common.Text.strip_field
    personal_assistant.Identity.idempotency_key personal_assistant.Permissions.require_permission
    personal_assistant.Permissions.evaluate_permission
    personal_assistant.Permissions.Approval.approval_errors
    personal_assistant.Permissions.Approval.note personal_assistant.Calendar.create_event
    personal_assistant.Common.Dict.get personal_assistant.Common.Dict.put
    personal_assistant.Common.Text.all_chars personal_assistant.Creation.Answers.registration_result
    personal_assistant.Creation.Extraction.notice_minutes_before
    personal_assistant.Creation.Extraction.resolve_extraction
    personal_assistant.Creation.Flow.approved_block personal_assistant.Creation.Writes.create_all
    personal_assistant.Creation.Flow.run_approved personal_assistant.Creation.validate_result
    personal_assistant.EventStore.append personal_assistant.Guardrails.enforce_output_scan
    personal_assistant.Guardrails.guarded_reply personal_assistant.Guardrails.scan_output
    personal_assistant.Identity.effect_ids personal_assistant.Identity.payload_fingerprint
    personal_assistant.Outbox.add personal_assistant.Outbox.new_message
    personal_assistant.Permissions.any_satisfies
    personal_assistant.Scheduler.Reminder.is_fingerprint
    personal_assistant.Scheduler.Reminder.validate_reminder
    personal_assistant.Scheduler.schedule_before_event
    personal_assistant.UnitOfWork.with_transaction
    personal_assistant.Workflows.get_by_idempotency_key
    personal_assistant.Workflows.register_or_replay personal_assistant.Workflows.transition
    personal_assistant.Workflows.update personal_assistant.Workflows.upsert
    personal_assistant.Common.Time.sub_minutes personal_assistant.Common.Text.is_space
created_test = refl

run_all_or_nothing_example :
    Whole env
      (member "t1")
      (input (some grant))
      empty
      (run env (member "t1") (input (some grant)) empty).1
run_all_or_nothing_example =
    run_all_or_nothing env (member "t1") (input (some grant)) empty empty-IsValid

abbrev id : ReminderIdempotency
id = record {
  key = key;
  effect_ids = record {
    calendar_event_id = "cal_v2_" ++ print;
    reminder_id = "rem_v2_" ++ print;
    reminder_created_event_id = "evt_reminder_created_v2_" ++ print;
    notification_requested_event_id = "evt_notification_requested_v2_" ++ print;
    outbox_message_id = "out_v2_" ++ print;
  };
  source_event_id = "e1";
  payload_fingerprint = print;
  timezone = "UTC";
}

derived : reminder_idempotency env (member "t1") (input none) ≡ ok id
unfolding reminder_idempotency personal_assistant.Identity.new_identity
    personal_assistant.Common.Text.strip personal_assistant.Identity.new_payload
    personal_assistant.Identity.idempotency_key personal_assistant.Identity.effect_ids
    personal_assistant.Common.Text.strip_field personal_assistant.Identity.payload_fingerprint
derived = refl

abbrev completed_workflow : WorkflowState
completed_workflow = record {
  workflow_id = "reminder_" ++ print;
  tenant_id = "t1";
  workflow_type = "reminder.create";
  status = completed;
  step = "completed";
  idempotency_key = key;
  payload_fingerprint = some print;
  content = [];
  created_at = 5;
  updated_at = 7;
}

abbrev finished : Stores
finished = record empty {
  states = record {
    states = (("t1", key), completed_workflow) ∷ [];
    key_by_workflow_id = (("t1", "reminder_" ++ print), key) ∷ [];
  };
}

completed_once_example :
    ((run env (member "t1") (input none) finished).1 ≡ finished)
    × ((x : ReminderWorkflowResult)
        → (run env (member "t1") (input none) finished).0 ≡ ok x
        → x.reused ≡ true)
unfolding personal_assistant.Common.Dict.get
completed_once_example =
    completed_once env (member "t1") (input none) id finished completed_workflow derived refl refl
