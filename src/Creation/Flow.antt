-- ===== src/Creation/Flow.antt =====
-- `ReminderWorkflow.run` (src/personal_assistant/application/use_cases/reminders.py): the guards,
-- and the approved run with its transaction.
use Prim.Native.String.{◌++◌}
use personal_assistant.Common.{Option, none, some, is_some, text_eq, if◌then◌else◌}
use personal_assistant.Common.Exec.{
  Exec, Result, ok, assistant, conflict, pure, lift, raise_if, ◌>>=◌, ◌>>◌,
}
use personal_assistant.Common.Pure
use personal_assistant.Permissions.{Principal, ApprovalGrant}
use personal_assistant.Permissions.Tiers.{p3}
use personal_assistant.Permissions.Approval.{require_approval}
use personal_assistant.Workflows.{WorkflowState, register_or_replay, get_by_idempotency_key}
use personal_assistant.UnitOfWork.{
  Stores, Transaction, commit, with_transaction, on_states, with_states,
}
use personal_assistant.Guardrails.{scan_prompt, enforce_prompt_scan}
use personal_assistant.Reminders.{
  ReminderExtraction, create, ClarificationReason, approval_required, to_extraction, from_mapping,
}
use personal_assistant.Creation.{
  AgentStatus, ReminderWorkflowInput, Environment, ReminderWorkflowResult, validate_result,
  ReminderIdempotency, reminder_idempotency,
}
use personal_assistant.Creation.Extraction.{resolve_extraction, notice_minutes_before}
use personal_assistant.Creation.Answers.{
  reason_or_default, differs, is_conflict, awaits_approval, guarded, base_result, initial_state,
  registration_result,
}
use personal_assistant.Creation.Ask.{run_before_approval}
use personal_assistant.Creation.Writes.{Outcome, answered, created, create_all, clarify_all}

module _ (env : Environment) (p : Principal) (r : ReminderWorkflowInput)
    (id : ReminderIdempotency) where
  abbrev pub carry_out :
      WorkflowState
      → Option ReminderExtraction
      → Option ClarificationReason
      → Option ReminderWorkflowResult
      → Exec Transaction Outcome
  carry_out w extraction clarification (some replay) = do commit; pure (answered replay)
  carry_out w none clarification none = clarify_all env p r id w (reason_or_default clarification)
  carry_out w (some e) clarification none = create_all env p r id w e

  unfoldable pub approved_block :
      Option ReminderExtraction → Option ClarificationReason → Exec Transaction Outcome
  unfolding create_all
  approved_block extraction clarification = do
    registration ←
        on_states
          (register_or_replay env.clock p (initial_state env p r id) (some approval_required))
    replay ← lift (registration_result env p r id registration)
    carry_out registration.state extraction clarification replay

  -- the extraction that waits in the workflow, or a new one where there is no workflow
  abbrev pub waiting_extraction :
      WorkflowState → Result (Option ReminderExtraction × Option ClarificationReason)
  waiting_extraction w =
      Pure.◌>>=◌ (from_mapping env.codec env.zone w.content)
        (λ draft. Pure.◌>>=◌ (to_extraction env.zone draft) (λ e. ok (some e, none)))

  abbrev pub approved_extraction :
      Option WorkflowState → Result (Option ReminderExtraction × Option ClarificationReason)
  approved_extraction none = ok (resolve_extraction env r)
  approved_extraction (some w) = if awaits_approval w then waiting_extraction w else ok (none, none)

  -- the result of the outcome, after the transaction
  abbrev pub report : Outcome → Exec Stores ReminderWorkflowResult
  report (answered result) = pure result
  report (created e c job) = do
    reply ← lift (
        guarded env p r id (
          env.replies.reminder_created e.title (notice_minutes_before e env.minutes_before)
            (is_some e.notify_at)))
    lift (
        validate_result env.zone
          (record (base_result env p r id AgentStatus.completed create reply) {
            calendar_event_id = some c.event_id;
            reminder_id = some job.reminder_id;
            reused = c.reused;
          }))

  unfoldable pub run_approved : Exec Stores ReminderWorkflowResult
  unfolding approved_block
  run_approved = do
    existing ← with_states (get_by_idempotency_key p id.key)
    raise_if (is_conflict existing id.payload_fingerprint) (assistant conflict)
    found ← lift (approved_extraction existing)
    outcome ← with_transaction p (approved_block found.0 found.1)
    report outcome

  -- the grant is checked before anything is read
  abbrev pub run_with : Option ApprovalGrant → Exec Stores ReminderWorkflowResult
  run_with none = run_before_approval env p r id
  run_with (some grant) = do
    decision ← lift (
        require_approval p p3 (some grant) "calendar.create_event" (id.key ++ ":calendar") none
          (env.moment 0))
    run_approved

unfoldable pub run :
    Environment → Principal → ReminderWorkflowInput → Exec Stores ReminderWorkflowResult
unfolding run_before_approval run_approved
run env p r = do
  id ← lift (reminder_idempotency env p r)
  findings ← lift (scan_prompt env.finditer r.text)
  lift (enforce_prompt_scan findings)
  raise_if (differs r.idempotency_key id.key) (assistant conflict)
  run_with env p r id r.approval
