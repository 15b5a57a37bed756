-- ===== src/Creation/Ask.antt =====
-- The run before approval, which asks for the approval or for a clarification
-- (`_run_before_approval`, src/personal_assistant/application/use_cases/reminders.py).
use Prim.Native.String.{◌++◌}
use personal_assistant.Common.{false, Option, none, some, [], ◌∷◌, text_eq}
use personal_assistant.Common.Exec.{Exec, pure, lift, ◌>>=◌}
use personal_assistant.Permissions.{Principal}
use personal_assistant.Events.{text}
use personal_assistant.Workflows.{
  waiting_approval, WorkflowState, transition, register_or_replay, upsert,
}
use personal_assistant.UnitOfWork.{Stores, with_states}
use personal_assistant.Reminders.{
  ReminderExtraction, ClarificationReason, needs_clarification, approval_required, from_extraction,
  to_workflow_data,
}
use personal_assistant.Creation.{
  ReminderWorkflowInput, Environment, ReminderWorkflowResult, ReminderIdempotency,
}
use personal_assistant.Creation.Extraction.{resolve_extraction}
use personal_assistant.Creation.Answers.{
  reason_value, reason_or_default, guarded, initial_state, clarification_result, approval_result,
  registration_result,
}

module _ (env : Environment) (p : Principal) (r : ReminderWorkflowInput)
    (id : ReminderIdempotency) where
  -- `transition(waiting_approval, needs_clarification, …)`
  abbrev pub clarifying : WorkflowState → ClarificationReason → WorkflowState
  clarifying w reason =
      transition env.clock (some waiting_approval) (some needs_clarification)
        (some (
          ("clarification_reason", text (reason_value reason))
          ∷ ("clarification_reply_id", text ("reminder_" ++ reason_value reason))
          ∷ ("clarification_reply_version", text "v1")
          ∷ []))
        w

  -- before approval: the request for a clarification, or for the approval
  unfoldable pub ask :
      WorkflowState
      → Option ReminderExtraction
      → Option ClarificationReason
      → Exec Stores ReminderWorkflowResult
  ask w none clarification = do
    let reason = reason_or_default clarification
    reply ← lift (guarded env p r id (env.replies.reminder_clarification reason))
    saved ← with_states (upsert env.print_state p (clarifying w reason))
    lift (clarification_result env p r id reason reply false)
  ask w (some e) clarification = do
    draft ← lift (from_extraction env.zone e)
    saved ← with_states (
        upsert env.print_state p (
          transition env.clock (some waiting_approval) (some approval_required)
            (some (to_workflow_data env.codec draft)) w))
    lift (approval_result env p r id e.title false)

  abbrev pub answer_or_ask :
      WorkflowState → Option ReminderWorkflowResult → Exec Stores ReminderWorkflowResult
  answer_or_ask w (some replay) = pure replay
  answer_or_ask w none = ask w (resolve_extraction env r).0 (resolve_extraction env r).1

  -- `_run_before_approval`
  unfoldable pub run_before_approval : Exec Stores ReminderWorkflowResult
  run_before_approval = do
    registration ← with_states (register_or_replay env.clock p (initial_state env p r id) none)
    replay ← lift (registration_result env p r id registration)
    answer_or_ask registration.state replay
