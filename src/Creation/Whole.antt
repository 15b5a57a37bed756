-- ===== src/Creation/Whole.antt =====
-- A run of the workflow as a whole.
use Prim.Native.String.{◌++◌}
use personal_assistant.Common.{
  ◌≡◌, refl, ◌∙◌, inl, inr, ◌⊎◌, ◌≤◌, true, Option, none, some, Bool-cases, is_some, text_eq,
  pair_eq, arith,
}
use personal_assistant.Common.Exec.{ok, raise_if}
use personal_assistant.Common.Leaves.{
  Leaves, lift-Leaves, pure-Leaves, raise_if-Leaves, bind-Leaves, here-Leaves, after_leaving,
  before_leaving,
}
use personal_assistant.Permissions.{Principal, ApprovalGrant, PermissionDecision, is_trusted}
use personal_assistant.Permissions.Tiers.{p3, rank}
use personal_assistant.Permissions.Approval.{require_approval}
use personal_assistant.Permissions.Laws.{Covers, require_approval_sound}
use personal_assistant.Workflows.{WorkflowStateStore, get_by_idempotency_key}
use personal_assistant.Workflows.Steps.{IsValid}
use personal_assistant.UnitOfWork.{Stores, with_transaction}
use personal_assistant.UnitOfWork.Views.{effects, with_states-Leaves}
use personal_assistant.Guardrails.{scan_prompt, enforce_prompt_scan}
use personal_assistant.Reminders.{create}
use personal_assistant.Creation.{
  AgentStatus, ReminderWorkflowInput, Environment, validate_result, ReminderIdempotency,
  reminder_idempotency,
}
use personal_assistant.Creation.Extraction.{notice_minutes_before}
use personal_assistant.Creation.Answers.{base_result, guarded, differs, is_conflict}
use personal_assistant.Creation.Writes.{Outcome, answered, created}
use personal_assistant.Creation.Flow.{
  approved_block, approved_extraction, report, run_approved, run_with, run,
}
use personal_assistant.Creation.Unapproved.{before-effects}
use personal_assistant.Creation.Effects.{Complete}
use personal_assistant.Creation.Atomic.{AllOrNothing, transaction-AllOrNothing}

module _ (env : Environment) (p : Principal) (r : ReminderWorkflowInput)
    (id : ReminderIdempotency) where
  report-Leaves :
      (s : Stores) (o : Outcome) → Leaves (λ s. s) s (λ _. Unit {0}) (report env p r id o)
  report-Leaves s (answered result) = pure-Leaves (λ s. s) s result tt
  report-Leaves s (created e c job) =
      bind-Leaves (λ s. s) s _ _
        (lift-Leaves (λ s. s) s {Q = λ _. Unit {0}}
          (guarded env p r id (
            env.replies.reminder_created e.title (notice_minutes_before e env.minutes_before)
              (is_some e.notify_at)))
          (λ a h. tt))
        (λ reply _.
          lift-Leaves (λ s. s) s
            (validate_result env.zone
              (record (base_result env p r id AgentStatus.completed create reply) {
                calendar_event_id = some c.event_id;
                reminder_id = some job.reminder_id;
                reused = c.reused;
              }))
            (λ a h. tt))

  lookup-Leaves :
      (s : WorkflowStateStore) → Leaves (λ w. w) s (λ _. Unit {0}) (get_by_idempotency_key p id.key)
  unfolding get_by_idempotency_key
  lookup-Leaves s = elim (Bool-cases (is_trusted p)) [
    | inl known ↦ here-Leaves (get_by_idempotency_key p id.key) s (rw known refl) (λ o h. tt)
    | inr unknown ↦ here-Leaves (get_by_idempotency_key p id.key) s (rw unknown refl) (λ o h. tt)
  ]

  approved-AllOrNothing :
      (s : Stores) → IsValid s.states → AllOrNothing env p r id s (run_approved env p r id s).1
  unfolding run_approved
  approved-AllOrNothing s v =
      let P = λ (t : Stores). AllOrNothing env p r id s t in
      after_leaving P s _ _ (with_states-Leaves s _ (lookup-Leaves s.states)) (inl refl)
        (λ existing _.
          after_leaving P s (raise_if (is_conflict existing id.payload_fingerprint) _) _
            (raise_if-Leaves (λ s. s) s (is_conflict existing id.payload_fingerprint) _) (inl refl)
            (λ _ _.
              after_leaving P s _ _
                (lift-Leaves (λ s. s) s {Q = λ _. Unit {0}}
                  (approved_extraction env p r id existing) (λ a h. tt))
                (inl refl)
                (λ found _.
                  before_leaving P s
                    (with_transaction p (approved_block env p r id found.0 found.1))
                    (report env p r id) (transaction-AllOrNothing env p r id s found.0 found.1 v)
                    (λ o t. report-Leaves t o))))

-- What an approved call has: a trusted principal of tier P3, and a grant that covers the very
-- calendar call of this reminder at the first reading of the clock.
pub record Approved (env : Environment) (p : Principal) (r : ReminderWorkflowInput)
    (id : ReminderIdempotency) : Type 0 where
  pub trusted : is_trusted p ≡ true
  pub tier : 3 ≤ rank p.permission_tier
  pub grant : ApprovalGrant
  pub given : r.approval ≡ some grant
  pub covers : Covers grant p p3 "calendar.create_event" (id.key ++ ":calendar") none (env.moment 0)

module _ (env : Environment) (p : Principal) (r : ReminderWorkflowInput) where
  abbrev pub Whole : Stores → Stores → Type 0
  Whole s s' =
      (effects s' ≡ effects s)
      ⊎ ((id : ReminderIdempotency) × (reminder_idempotency env p r ≡ ok id)
          × Approved env p r id
          × Complete p.tenant_id id s')

  with-Whole :
      (id : ReminderIdempotency) (o : Option ApprovalGrant) (s : Stores)
      → IsValid s.states
      → reminder_idempotency env p r ≡ ok id
      → r.approval ≡ o
      → Whole s (run_with env p r id o s).1
  with-Whole id none s v derived given = inl ((before-effects env p r id (effects s)).runs s refl).0
  with-Whole id (some grant) s v derived given =
      after_leaving (λ t. Whole s t) s _ _
        (lift-Leaves (λ s. s) s
          {Q = λ d.
            require_approval p p3 (some grant) "calendar.create_event" (id.key ++ ":calendar") none
              (env.moment 0)
            ≡ ok d}
          _ (λ a h. h))
        (inl refl)
        (λ d passed.
          approved id grant derived given d passed (approved-AllOrNothing env p r id s v))
    where
      approved :
          (id : ReminderIdempotency) (grant : ApprovalGrant)
          → reminder_idempotency env p r ≡ ok id
          → r.approval ≡ some grant
          → (d : PermissionDecision)
          → require_approval p p3
              (some grant)
              "calendar.create_event"
              (id.key ++ ":calendar")
              none
              (env.moment 0)
            ≡ ok d
          → {t : Stores} → AllOrNothing env p r id s t
          → Whole s t
      approved id grant derived given d passed (inl nothing) = inl nothing
      approved id grant derived given d passed (inr done) =
          let (known, high, form, (a, same, covers)) =
            require_approval_sound p p3 (some grant) "calendar.create_event" (id.key ++ ":calendar")
              none (env.moment 0) {d = d} (omega arith) passed in
          inr (
            id,
            derived,
            record {
              trusted = known;
              tier = high;
              grant = a;
              given = given ∙ same;
              covers = covers;
            },
            done,
          )

  -- Where the workflow store is valid (each state stands under its own key and id), a run for an
  -- event has all of its effects or none: either the calendar, the scheduled
  -- reminders, the event store and the outbox are as before, or the run was approved (a trusted
  -- principal of tier P3, and a grant that covers the calendar call under the idempotency key of
  -- this very event) and all effects are stored, with a completed workflow that names them. No
  -- error, conflict or early return in between leaves a part of them.
  pub run_all_or_nothing : (s : Stores) → IsValid s.states → Whole s (run env p r s).1
  unfolding run
  run_all_or_nothing s v =
      after_leaving (λ t. Whole s t) s _ _
        (lift-Leaves (λ s. s) s {Q = λ i. reminder_idempotency env p r ≡ ok i} _ (λ a h. h))
        (inl refl)
        (λ id derived.
          after_leaving (λ t. Whole s t) s _ _
            (lift-Leaves (λ s. s) s {Q = λ _. Unit {0}} (scan_prompt env.finditer r.text)
              (λ f h. tt))
            (inl refl)
            (λ f _.
              after_leaving (λ t. Whole s t) s _ _
                (lift-Leaves (λ s. s) s {Q = λ _. Unit {0}} (enforce_prompt_scan f) (λ u h. tt))
                (inl refl)
                (λ u _.
                  after_leaving (λ t. Whole s t) s (raise_if (differs r.idempotency_key id.key) _) _
                    (raise_if-Leaves (λ s. s) s (differs r.idempotency_key id.key) _) (inl refl)
                    (λ _ _. with-Whole id r.approval s v derived refl))))
