-- ===== src/Creation/Atomic.antt =====
-- The transaction of an approved run, with all of its effects or none.
use personal_assistant.Common.{
  ◌≡◌, refl, sym, subst, ap, inl, inr, ◌⊎◌, false, Option, none, some, text_eq, pair_eq,
}
use personal_assistant.Common.Exec.{Exec, ok, bind-ok, lift}
use personal_assistant.Common.Leaves.{Leaves, lift-Leaves, pure-Leaves, bind-Leaves}
use personal_assistant.Permissions.{Principal}
use personal_assistant.Calendar.{Calendar}
use personal_assistant.Scheduler.{SchedulerStore}
use personal_assistant.EventStore.{EventStore}
use personal_assistant.Outbox.{Outbox}
use personal_assistant.Workflows.{
  WorkflowState, WorkflowStateStore, WorkflowStateRegistration, register_or_replay, upsert,
}
use personal_assistant.Workflows.Steps.{IsValid}
use personal_assistant.UnitOfWork.{Stores, Transaction, enter, with_transaction, on_states}
use personal_assistant.UnitOfWork.Atomic.{transaction_or_nothing}
use personal_assistant.UnitOfWork.Views.{effects, on_states-effects, commit-Leaves}
use personal_assistant.Reminders.{ReminderExtraction, ClarificationReason, approval_required}
use personal_assistant.Creation.{
  ReminderWorkflowInput, Environment, ReminderWorkflowResult, ReminderIdempotency,
}
use personal_assistant.Creation.Answers.{
  guarded, reason_or_default, clarification_result, initial_state, registration_result,
}
use personal_assistant.Creation.Writes.{Outcome, answered, clarify_all}
use personal_assistant.Creation.Ask.{clarifying}
use personal_assistant.Creation.Flow.{carry_out, approved_block}
use personal_assistant.Creation.Effects.{Complete, create_all-Complete}
use personal_assistant.Creation.Registered.{register_key}
use personal_assistant.Creation.Live.{approved_block-live}

module _ (env : Environment) (p : Principal) (r : ReminderWorkflowInput)
    (id : ReminderIdempotency) where
  clarify_all-effects :
      (x : Calendar × SchedulerStore × EventStore × Outbox) (w : WorkflowState)
      (reason : ClarificationReason)
      → Leaves (λ t. effects t.stores) x (λ _. Unit {0}) (clarify_all env p r id w reason)
  clarify_all-effects x w reason =
      let view = λ (t : Transaction). effects t.stores in
      bind-Leaves view x _ _
        (lift-Leaves view x {Q = λ _. Unit {0}}
          (guarded env p r id (env.replies.reminder_clarification reason)) (λ a h. tt))
        (λ reply _.
          bind-Leaves view x _ _
            (on_states-effects x (upsert env.print_state p (clarifying env p r id w reason)))
            (λ saved _. bind-Leaves view x _ _ (commit-Leaves effects x) (λ _ _.
              bind-Leaves view x _ _
                (lift-Leaves view x {Q = λ _. Unit {0}}
                  (clarification_result env p r id reason reply false) (λ a h. tt))
                (λ result _. pure-Leaves view x (answered result) tt))))

  abbrev pub AllOrNothing : Stores → Stores → Type 0
  AllOrNothing s s' = (effects s' ≡ effects s) ⊎ Complete p.tenant_id id s'

  -- what a block that returns leaves, where the registration has returned
  carry_out-AllOrNothing :
      (s : Stores) (w : WorkflowState) (e : Option ReminderExtraction)
      (c : Option ClarificationReason) (replay : Option ReminderWorkflowResult) {o : Outcome}
      → w.idempotency_key ≡ id.key
      → (carry_out env p r id w e c replay (enter s)).0 ≡ ok o
      → AllOrNothing s (carry_out env p r id w e c replay (enter s)).1.stores
  carry_out-AllOrNothing s w e c (some x) own h = inl refl
  carry_out-AllOrNothing s w none c none own h =
      inl ((clarify_all-effects (effects s) w (reason_or_default c)).runs (enter s) refl).0
  carry_out-AllOrNothing s w (some e) c none {o} own h =
      inr (create_all-Complete env p r id w e s {o = o} own h)

  abbrev register : Exec WorkflowStateStore WorkflowStateRegistration
  register = register_or_replay env.clock p (initial_state env p r id) (some approval_required)

  abbrev registered_in : Stores → Stores
  registered_in s = record s { states = (register s.states).1 }

  registered-AllOrNothing :
      (s : Stores) (e : Option ReminderExtraction) (c : Option ClarificationReason)
      (g : WorkflowStateRegistration) (replay : Option ReminderWorkflowResult) {o : Outcome}
      → (register s.states).0 ≡ ok g
      → registration_result env p r id g ≡ ok replay
      → g.state.idempotency_key ≡ id.key
      → (carry_out env p r id g.state e c replay (enter (registered_in s))).0 ≡ ok o
      → AllOrNothing s (approved_block env p r id e c (enter s)).1.stores
  unfolding approved_block
  registered-AllOrNothing s e c g replay {o} registered said own h =
      rw (registered, said)
        (carry_out-AllOrNothing (registered_in s) g.state e c replay {o = o} own h)

  block-AllOrNothing :
      (s : Stores) (e : Option ReminderExtraction) (c : Option ClarificationReason) {o : Outcome}
      → IsValid s.states
      → (approved_block env p r id e c (enter s)).0 ≡ ok o
      → AllOrNothing s (approved_block env p r id e c (enter s)).1.stores
  unfolding approved_block
  block-AllOrNothing s e c {o} v h =
      let (g, registered, h1) = bind-ok (on_states register) _ (enter s) {b = o} h in
      let (replay, said, h2) =
        bind-ok (lift (registration_result env p r id g)) _ (enter (registered_in s)) {b = o} h1 in
      registered-AllOrNothing s e c g replay {o = o} registered said
        (register_key env.clock p (initial_state env p r id) (some approval_required) s.states
          {g = g} v registered)
        h2

  -- the transaction keeps the block's work, or nothing
  pub transaction-AllOrNothing :
      (s : Stores) (e : Option ReminderExtraction) (c : Option ClarificationReason)
      → IsValid s.states
      → AllOrNothing s (with_transaction p (approved_block env p r id e c) s).1
  transaction-AllOrNothing s e c v =
      let block = approved_block env p r id e c in
      let live = ((approved_block-live env p r id e c).runs (enter s) refl).0 in
      elim (transaction_or_nothing p block s live) [
        | inl undone ↦ inl (ap effects undone)
        | inr (x, returned, kept) ↦
            subst (λ t. AllOrNothing s t) (sym kept) (block-AllOrNothing s e c {o = x} v returned)
      ]
