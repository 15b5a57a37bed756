-- ===== src/Creation/Final.antt =====
-- A run for an event whose workflow is completed.
use personal_assistant.Common.{
  ◌≡◌, refl, sym, subst, ◌∙◌, ap, inl, inr, true, Option, none, some, String, Bool-cases, text_eq,
  pair_eq, arith,
}
use personal_assistant.Common.Exec.{ok, ok_inj, err-ne-ok, raise_if}
use personal_assistant.Common.Pure
use personal_assistant.Common.Dict.{get}
use personal_assistant.Common.Leaves.{
  Leaves, lift-Leaves, pure-Leaves, raise_if-Leaves, bind-Leaves, here-Leaves,
}
use personal_assistant.Permissions.{Principal, ApprovalGrant, is_trusted}
use personal_assistant.Workflows.{
  completed, WorkflowState, WorkflowStateRegistration, get_by_idempotency_key,
}
use personal_assistant.UnitOfWork.{Stores}
use personal_assistant.UnitOfWork.Views.{
  with_transaction-Leaves, with_states-Leaves, on_states-Leaves, commit-Leaves,
}
use personal_assistant.Guardrails.{scan_prompt, enforce_prompt_scan}
use personal_assistant.Reminders.{
  ReminderExtraction, create, ClarificationReason, approval_required,
}
use personal_assistant.Creation.{
  AgentStatus, ReminderWorkflowInput, Environment, ReminderWorkflowResult, validate_result,
  ReminderIdempotency, reminder_idempotency,
}
use personal_assistant.Creation.Answers.{
  differs, optional_text, guarded, base_result, is_conflict, initial_state, completed_result,
  registration_result,
}
use personal_assistant.Creation.Writes.{Outcome, answered, created}
use personal_assistant.Creation.Ask.{answer_or_ask, run_before_approval}
use personal_assistant.Creation.Flow.{
  carry_out, approved_block, approved_extraction, report, run_approved, run_with, run,
}
use personal_assistant.Creation.Replay.{register_completed}

validate_result-reused :
    (zone : String → Option String) (x : ReminderWorkflowResult) {y : ReminderWorkflowResult}
    → validate_result zone x ≡ ok y
    → y.reused ≡ x.reused
unfolding validate_result
validate_result-reused zone x h = ground arith

module _ (env : Environment) (p : Principal) (r : ReminderWorkflowInput)
    (id : ReminderIdempotency) where
  abbrev IsReplay : Option ReminderWorkflowResult → Type 0
  IsReplay none = ⊥
  IsReplay (some x) = x.reused ≡ true

  completed_result-IsReplay :
      (w : WorkflowState) (o : Option ReminderWorkflowResult)
      → completed_result env p r id w ≡ ok o
      → IsReplay o
  completed_result-IsReplay w o h =
      let (reply, said, h') =
        Pure.bind-ok (guarded env p r id env.replies.reminder_duplicate) _ {b = o} h in
      let (event, read, h'') =
        Pure.bind-ok (optional_text (get "calendar_event_id" w.content)) _ {b = o} h' in
      let (reminder, read', h3) =
        Pure.bind-ok (optional_text (get "reminder_id" w.content)) _ {b = o} h'' in
      let x : ReminderWorkflowResult =
        record (base_result env p r id AgentStatus.completed create reply) {
          calendar_event_id = event;
          reminder_id = reminder;
          reused = true;
        } in
      let (y, valid, e) = Pure.bind-ok (validate_result env.zone x) _ {b = o} h3 in
      subst IsReplay (ok_inj (some y) o e) (validate_result-reused env.zone x {y = y} valid)

  registration_result-IsReplay :
      (g : WorkflowStateRegistration) (o : Option ReminderWorkflowResult)
      → g.state.status ≡ completed
      → g.replayed ≡ true
      → registration_result env p r id g ≡ ok o
      → IsReplay o
  unfolding registration_result
  registration_result-IsReplay g o done replayed h =
      completed_result-IsReplay g.state o (rw (replayed, done) at h)

module _ (env : Environment) (p : Principal) (r : ReminderWorkflowInput) (id : ReminderIdempotency)
    (s : Stores) (w : WorkflowState) (done : w.status ≡ completed)
    (stored : get (p.tenant_id, id.key) s.states.states ≡ some w) where
  abbrev Reused : ReminderWorkflowResult → Type 0
  Reused x = x.reused ≡ true

  AnsweredOnly : Outcome → Type 0
  AnsweredOnly (answered x) = Reused x
  AnsweredOnly (created e c job) = ⊥

  answer-Leaves :
      (v : WorkflowState) (o : Option ReminderWorkflowResult)
      → IsReplay env p r id o
      → Leaves (λ s. s) s Reused (answer_or_ask env p r id v o)
  answer-Leaves v none h = absurd h
  answer-Leaves v (some x) h = pure-Leaves (λ s. s) s x h

  before-Leaves : Leaves (λ s. s) s Reused (run_before_approval env p r id)
  unfolding run_before_approval
  before-Leaves =
      bind-Leaves (λ s. s) s _ _
        (with_states-Leaves s _
          (register_completed env.clock p (initial_state env p r id) none s.states w done stored))
        (λ g found.
          bind-Leaves (λ s. s) s _ _
            (lift-Leaves (λ s. s) s (registration_result env p r id g)
              (λ o h.
                registration_result-IsReplay env p r id g o
                  (ap (λ (v : WorkflowState). v.status) found.0 ∙ done) found.1 h))
            (λ o replay. answer-Leaves g.state o replay))

  carry-Leaves :
      (v : WorkflowState) (e : Option ReminderExtraction) (c : Option ClarificationReason)
      (o : Option ReminderWorkflowResult)
      → IsReplay env p r id o
      → Leaves (λ t. t.stores) s AnsweredOnly (carry_out env p r id v e c o)
  unfolding AnsweredOnly
  carry-Leaves v e c none h = absurd h
  carry-Leaves v e c (some x) h =
      bind-Leaves (λ t. t.stores) s _ _ (commit-Leaves (λ s. s) s)
        (λ _ _. pure-Leaves (λ t. t.stores) s (answered x) h)

  block-Leaves :
      (e : Option ReminderExtraction) (c : Option ClarificationReason)
      → Leaves (λ t. t.stores) s AnsweredOnly (approved_block env p r id e c)
  unfolding approved_block
  block-Leaves e c =
      bind-Leaves (λ t. t.stores) s _ _
        (on_states-Leaves s _ (
          register_completed env.clock p (initial_state env p r id) (some approval_required)
            s.states w done stored))
        (λ g found.
          bind-Leaves (λ t. t.stores) s _ _
            (lift-Leaves (λ t. t.stores) s (registration_result env p r id g)
              (λ o h.
                registration_result-IsReplay env p r id g o
                  (ap (λ (v : WorkflowState). v.status) found.0 ∙ done) found.1 h))
            (λ o replay. carry-Leaves g.state e c o replay))

  report-Leaves : (o : Outcome) → AnsweredOnly o → Leaves (λ s. s) s Reused (report env p r id o)
  unfolding AnsweredOnly
  report-Leaves (answered x) h = pure-Leaves (λ s. s) s x h
  report-Leaves (created e c job) h = absurd h

  read-Leaves : Leaves (λ x. x) s.states (λ o. o ≡ some w) (get_by_idempotency_key p id.key)
  unfolding get_by_idempotency_key
  read-Leaves = elim (Bool-cases (is_trusted p)) [
    | inl known ↦
        here-Leaves (get_by_idempotency_key p id.key) s.states (rw known refl)
          (λ o h. sym (ok_inj (some w) o (rw (known, stored) at h)))
    | inr unknown ↦
        here-Leaves (get_by_idempotency_key p id.key) s.states (rw unknown refl)
          (λ o h. absurd (err-ne-ok (rw unknown at h)))
  ]

  approved-Leaves : Leaves (λ s. s) s Reused (run_approved env p r id)
  unfolding run_approved
  approved-Leaves =
      bind-Leaves (λ s. s) s _ _ (with_states-Leaves s _ read-Leaves)
        (λ existing found.
          bind-Leaves (λ s. s) s (raise_if (is_conflict existing id.payload_fingerprint) _) _
            (raise_if-Leaves (λ s. s) s (is_conflict existing id.payload_fingerprint) _)
            (λ _ _.
              bind-Leaves (λ s. s) s _ _
                (lift-Leaves (λ s. s) s {Q = λ _. Unit {0}}
                  (approved_extraction env p r id existing) (λ a h. tt))
                (λ a _.
                  bind-Leaves (λ s. s) s _ _
                    (with_transaction-Leaves (λ s. s) s p _ (block-Leaves a.0 a.1)) report-Leaves)))

  with-Leaves : (o : Option ApprovalGrant) → Leaves (λ s. s) s Reused (run_with env p r id o)
  with-Leaves none = before-Leaves
  with-Leaves (some grant) =
      bind-Leaves (λ s. s) s _ _ (lift-Leaves (λ s. s) s {Q = λ _. Unit {0}} _ (λ d h. tt))
        (λ _ _. approved-Leaves)

module _ (env : Environment) (p : Principal) (r : ReminderWorkflowInput) where
  -- Once the workflow of an event is completed, no run for the event has an effect: whatever the
  -- text, the approval, the model and the clock, a run under the same idempotency key leaves all
  -- five stores as they are, and a result that it returns says that it is reused.
  pub completed_once :
      (id : ReminderIdempotency) (s : Stores) (w : WorkflowState)
      → reminder_idempotency env p r ≡ ok id
      → get (p.tenant_id, id.key) s.states.states ≡ some w
      → w.status ≡ completed
      → ((run env p r s).1 ≡ s)
        × ((x : ReminderWorkflowResult) → (run env p r s).0 ≡ ok x → x.reused ≡ true)
  unfolding run
  completed_once id s w derived stored done = all.runs s refl
    where
      all : Leaves (λ s. s) s (λ x. x.reused ≡ true) (run env p r)
      all =
          bind-Leaves (λ s. s) s _ _
            (lift-Leaves (λ s. s) s (reminder_idempotency env p r)
              (λ i h. ok_inj i id (sym h ∙ derived)))
            (λ i same.
              bind-Leaves (λ s. s) s _ _
                (lift-Leaves (λ s. s) s {Q = λ _. Unit {0}} (scan_prompt env.finditer r.text)
                  (λ f h. tt))
                (λ f _.
                  bind-Leaves (λ s. s) s _ _
                    (lift-Leaves (λ s. s) s {Q = λ _. Unit {0}} (enforce_prompt_scan f) (λ u h. tt))
                    (λ u _.
                      bind-Leaves (λ s. s) s (raise_if (differs r.idempotency_key i.key) _) _
                        (raise_if-Leaves (λ s. s) s (differs r.idempotency_key i.key) _)
                        (λ _ _. rw same (with-Leaves env p r id s w done stored r.approval)))))
