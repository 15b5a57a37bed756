-- ===== src/Creation/Live.antt =====
-- The block of an approved run does not roll its transaction back.
use personal_assistant.Common.{false, Option, none, some, text_eq, pair_eq}
use personal_assistant.Common.Leaves.{Leaves, lift-Leaves, pure-Leaves, bind-Leaves}
use personal_assistant.Permissions.{Principal}
use personal_assistant.Workflows.{WorkflowState, register_or_replay, upsert}
use personal_assistant.UnitOfWork.Views.{
  is_undone, on_calendar-live, on_scheduler-live, on_events-live, on_outbox-live, on_states-live,
  commit-live,
}
use personal_assistant.Reminders.{ReminderExtraction, ClarificationReason, approval_required}
use personal_assistant.Creation.{
  ReminderWorkflowInput, Environment, ReminderWorkflowResult, ReminderIdempotency,
}
use personal_assistant.Creation.Answers.{
  guarded, reason_or_default, clarification_result, initial_state, registration_result,
}
use personal_assistant.Creation.Writes.{answered, created, create_all, clarify_all}
use personal_assistant.Creation.Ask.{clarifying}
use personal_assistant.Creation.Flow.{carry_out, approved_block}
use personal_assistant.Creation.Effects.{make, plan, record_event, send, finish}

module _ (env : Environment) (p : Principal) (r : ReminderWorkflowInput)
    (id : ReminderIdempotency) where
  clarify_all-live :
      (w : WorkflowState) (reason : ClarificationReason)
      → Leaves is_undone false (λ _. Unit {0}) (clarify_all env p r id w reason)
  clarify_all-live w reason =
      bind-Leaves is_undone false _ _
        (lift-Leaves is_undone false {Q = λ _. Unit {0}}
          (guarded env p r id (env.replies.reminder_clarification reason)) (λ a h. tt))
        (λ reply _.
          bind-Leaves is_undone false _ _
            (on_states-live (upsert env.print_state p (clarifying env p r id w reason)))
            (λ saved _. bind-Leaves is_undone false _ _ commit-live (λ _ _.
              bind-Leaves is_undone false _ _
                (lift-Leaves is_undone false {Q = λ _. Unit {0}}
                  (clarification_result env p r id reason reply false) (λ a h. tt))
                (λ result _. pure-Leaves is_undone false (answered result) tt))))

  create_all-live :
      (w : WorkflowState) (e : ReminderExtraction)
      → Leaves is_undone false (λ _. Unit {0}) (create_all env p r id w e)
  unfolding create_all
  create_all-live w e =
      bind-Leaves is_undone false _ _ (on_calendar-live (make env p r id w e)) (λ c _.
        bind-Leaves is_undone false _ _
          (lift-Leaves is_undone false {Q = λ _. Unit {0}}
            (guarded env p r id (env.replies.reminder_notification_body e.title)) (λ a h. tt))
          (λ body _.
            bind-Leaves is_undone false _ _ (on_scheduler-live (plan env p r id w e c body))
              (λ job _.
                bind-Leaves is_undone false _ _ (on_events-live (record_event env p r id w e c job))
                  (λ ev _.
                    bind-Leaves is_undone false _ _ (on_outbox-live (send env p r id w e c job))
                      (λ m _.
                        bind-Leaves is_undone false _ _
                          (on_states-live (finish env p r id w e c job))
                          (λ saved _.
                            bind-Leaves is_undone false _ _ commit-live
                              (λ _ _. pure-Leaves is_undone false (created e c job) tt)))))))

  carry_out-live :
      (w : WorkflowState) (e : Option ReminderExtraction) (c : Option ClarificationReason)
      (replay : Option ReminderWorkflowResult)
      → Leaves is_undone false (λ _. Unit {0}) (carry_out env p r id w e c replay)
  carry_out-live w e c (some x) =
      bind-Leaves is_undone false _ _ commit-live
        (λ _ _. pure-Leaves is_undone false (answered x) tt)
  carry_out-live w none c none = clarify_all-live w (reason_or_default c)
  carry_out-live w (some e) c none = create_all-live w e

  pub approved_block-live :
      (e : Option ReminderExtraction) (c : Option ClarificationReason)
      → Leaves is_undone false (λ _. Unit {0}) (approved_block env p r id e c)
  unfolding approved_block create_all
  approved_block-live e c =
      bind-Leaves is_undone false _ _
        (on_states-live
          (register_or_replay env.clock p (initial_state env p r id) (some approval_required)))
        (λ g _.
          bind-Leaves is_undone false _ _
            (lift-Leaves is_undone false {Q = λ _. Unit {0}} (registration_result env p r id g)
              (λ a h. tt))
            (λ replay _. carry_out-live g.state e c replay))
