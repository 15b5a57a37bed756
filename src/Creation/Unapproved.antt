-- ===== src/Creation/Unapproved.antt =====
-- A run without an approval touches the workflow store only.
use personal_assistant.Common.{◌≡◌, false, Option, none, some, text_eq, pair_eq}
use personal_assistant.Common.Exec.{raise_if}
use personal_assistant.Common.Leaves.{
  Leaves, lift-Leaves, pure-Leaves, raise_if-Leaves, bind-Leaves,
}
use personal_assistant.Permissions.{Principal, ApprovalGrant}
use personal_assistant.Calendar.{Calendar}
use personal_assistant.Scheduler.{SchedulerStore}
use personal_assistant.EventStore.{EventStore}
use personal_assistant.Outbox.{Outbox}
use personal_assistant.Workflows.{WorkflowState, register_or_replay, upsert}
use personal_assistant.UnitOfWork.Views.{effects, with_states-effects}
use personal_assistant.Guardrails.{scan_prompt, enforce_prompt_scan}
use personal_assistant.Reminders.{ReminderExtraction, ClarificationReason, from_extraction}
use personal_assistant.Creation.{
  ReminderWorkflowInput, Environment, ReminderWorkflowResult, ReminderIdempotency,
  reminder_idempotency,
}
use personal_assistant.Creation.Extraction.{resolve_extraction}
use personal_assistant.Creation.Answers.{
  guarded, reason_or_default, clarification_result, approval_result, differs, initial_state,
  registration_result,
}
use personal_assistant.Creation.Ask.{clarifying, ask, answer_or_ask, run_before_approval}
use personal_assistant.Creation.Flow.{run_with, run}

module _ (env : Environment) (p : Principal) (r : ReminderWorkflowInput)
    (id : ReminderIdempotency) where
  ask-effects :
      (x : Calendar × SchedulerStore × EventStore × Outbox) (w : WorkflowState)
      (e : Option ReminderExtraction) (c : Option ClarificationReason)
      → Leaves effects x (λ _. Unit {0}) (ask env p r id w e c)
  unfolding ask
  ask-effects x w none c =
      bind-Leaves effects x _ _
        (lift-Leaves effects x {Q = λ _. Unit {0}}
          (guarded env p r id (env.replies.reminder_clarification (reason_or_default c)))
          (λ a h. tt))
        (λ reply _.
          bind-Leaves effects x _ _
            (with_states-effects x
              (upsert env.print_state p (clarifying env p r id w (reason_or_default c))))
            (λ saved _.
              lift-Leaves effects x
                (clarification_result env p r id (reason_or_default c) reply false) (λ a h. tt)))
  ask-effects x w (some e) c =
      bind-Leaves effects x _ _
        (lift-Leaves effects x {Q = λ _. Unit {0}} (from_extraction env.zone e) (λ a h. tt))
        (λ draft _.
          bind-Leaves effects x _ _ (with_states-effects x (upsert env.print_state p _)) (λ saved _.
            lift-Leaves effects x (approval_result env p r id e.title false) (λ a h. tt)))

  answer_or_ask-effects :
      (x : Calendar × SchedulerStore × EventStore × Outbox) (w : WorkflowState)
      (replay : Option ReminderWorkflowResult)
      → Leaves effects x (λ _. Unit {0}) (answer_or_ask env p r id w replay)
  answer_or_ask-effects x w (some result) = pure-Leaves effects x result tt
  answer_or_ask-effects x w none =
      ask-effects x w (resolve_extraction env r).0 (resolve_extraction env r).1

  pub before-effects :
      (x : Calendar × SchedulerStore × EventStore × Outbox)
      → Leaves effects x (λ _. Unit {0}) (run_before_approval env p r id)
  unfolding run_before_approval
  before-effects x =
      bind-Leaves effects x _ _
        (with_states-effects x (register_or_replay env.clock p (initial_state env p r id) none))
        (λ g _.
          bind-Leaves effects x _ _
            (lift-Leaves effects x {Q = λ _. Unit {0}} (registration_result env p r id g)
              (λ a h. tt))
            (λ replay _. answer_or_ask-effects x g.state replay))

module _ (env : Environment) (p : Principal) (r : ReminderWorkflowInput)
    (x : Calendar × SchedulerStore × EventStore × Outbox) where
  run_with-effects :
      (id : ReminderIdempotency) (o : Option ApprovalGrant)
      → o ≡ none
      → Leaves effects x (λ _. Unit {0}) (run_with env p r id o)
  run_with-effects id none h = before-effects env p r id x
  run_with-effects id (some grant) h = absurd cc

  -- Without an approval a run leaves the calendar, the reminders, the events and the outbox.
  pub run-effects : r.approval ≡ none → Leaves effects x (λ _. Unit {0}) (run env p r)
  unfolding run
  run-effects h =
      bind-Leaves effects x _ _
        (lift-Leaves effects x {Q = λ _. Unit {0}} (reminder_idempotency env p r) (λ a e. tt))
        (λ id _.
          bind-Leaves effects x _ _
            (lift-Leaves effects x {Q = λ _. Unit {0}} (scan_prompt env.finditer r.text)
              (λ a e. tt))
            (λ f _.
              bind-Leaves effects x _ _
                (lift-Leaves effects x {Q = λ _. Unit {0}} (enforce_prompt_scan f) (λ a e. tt))
                (λ u _.
                  bind-Leaves effects x (raise_if (differs r.idempotency_key id.key) _) _
                    (raise_if-Leaves effects x (differs r.idempotency_key id.key) _)
                    (λ _ _. run_with-effects id r.approval h))))
