-- ===== src/UnitOfWork/Views.antt =====
-- What a transaction and a call of the workflow store leave as it is.
use personal_assistant.Common.{◌≡◌, refl, ap, inl, inr, Bool, true, false, not, ◌||◌, Bool-cases}
use personal_assistant.Common.Exec.{Exec, ok, err-ne-ok, raise_if, runtime_error, modify, ◌>>◌}
use personal_assistant.Common.Leaves.{Leaves}
use personal_assistant.Permissions.{Principal, is_trusted}
use personal_assistant.Calendar.{Calendar}
use personal_assistant.Scheduler.{SchedulerStore}
use personal_assistant.EventStore.{EventStore}
use personal_assistant.Outbox.{Outbox}
use personal_assistant.Workflows.{WorkflowStateStore}
use personal_assistant.UnitOfWork.{
  Stores, Transaction, enter, mark_committed, commit, is_raised, with_transaction, on_calendar,
  on_scheduler, on_events, on_outbox, on_states, with_states,
}

-- the stores that hold the effects of a workflow
abbrev pub effects : Stores → Calendar × SchedulerStore × EventStore × Outbox
effects s = (s.calendar, s.scheduler, s.events, s.outbox)

module _ {μ ν} {A : Type μ} {Q : A → Type ν} where
  module _ {κ} {V : Type κ} (view : Stores → V) (v : V) where
    -- A transaction, kept or rolled back, leaves what its block leaves.
    pub with_transaction-Leaves :
        (p : Principal) (body : Exec Transaction A)
        → Leaves (λ t. view t.stores) v Q body
        → Leaves view v Q (with_transaction p body)
    unfolding with_transaction
    with_transaction-Leaves p body lb = record {
      runs = λ s e.
          let (still, found) = lb.runs (enter s) e in
          elim (Bool-cases (is_trusted p)) [
            | inr unknown ↦ rw unknown (e, λ a h. absurd (err-ne-ok h))
            | inl known ↦
                rw known
                  (elim (Bool-cases
                    (is_raised (body (enter s)).0 || not (body (enter s)).1.committed)) [
                      | inr kept ↦ rw kept (still, found)
                      | inl undone ↦ elim (Bool-cases (body (enter s)).1.rolled_back) [
                        | inl before ↦ rw (undone, before) (still, found)
                        | inr now ↦ rw (undone, now) (e, found)
                      ]
                    ])
          ];
    }

  -- A call that leaves the workflow store leaves all stores.
  pub with_states-Leaves :
      (s : Stores) (m : Exec WorkflowStateStore A)
      → Leaves (λ w. w) s.states Q m
      → Leaves (λ s. s) s Q (with_states m)
  with_states-Leaves s m lm = record {
    runs = λ s' e.
        let (still, found) = lm.runs s'.states (ap (λ (x : Stores). x.states) e) in
        ((λ i. record (e i) { states = still i }), found);
  }

  pub on_states-Leaves :
      (s : Stores) (m : Exec WorkflowStateStore A)
      → Leaves (λ w. w) s.states Q m
      → Leaves (λ t. t.stores) s Q (on_states m)
  on_states-Leaves s m lm = record {
    runs = λ t e.
        let (still, found) = lm.runs t.stores.states (ap (λ (x : Stores). x.states) e) in
        ((λ i. record (e i) { states = still i }), found);
  }

module _ {κ} {V : Type κ} (view : Stores → V) (v : V) where
  pub commit-Leaves : Leaves (λ t. view t.stores) v (λ _. Unit {0}) commit
  commit-Leaves = record { runs = λ t e. either t e t.rolled_back }
    where
      either :
          (t : Transaction) (e : view t.stores ≡ v) (b : Bool)
          → (view ((raise_if b runtime_error >> modify mark_committed) t).1.stores ≡ v)
            × ((a : Unit {0})
                → ((raise_if b runtime_error >> modify mark_committed) t).0 ≡ ok a
                → Unit {0})
      either t e true = (e, λ a h. tt)
      either t e false = (e, λ a h. tt)

-- No call of the workflow store touches the effects.
module _ {μ} {A : Type μ} (v : Calendar × SchedulerStore × EventStore × Outbox)
    (m : Exec WorkflowStateStore A) where
  pub with_states-effects : Leaves effects v (λ _. Unit {0}) (with_states m)
  with_states-effects = record { runs = λ s e. (e, λ a h. tt) }

  pub on_states-effects : Leaves (λ t. effects t.stores) v (λ _. Unit {0}) (on_states m)
  on_states-effects = record { runs = λ t e. (e, λ a h. tt) }

-- No call of a store rolls the transaction back.
abbrev pub is_undone : Transaction → Bool
is_undone t = t.rolled_back

module _ {μ} {A : Type μ} where
  pub on_calendar-live :
      (m : Exec Calendar A) → Leaves is_undone false (λ _. Unit {0}) (on_calendar m)
  on_calendar-live m = record { runs = λ t e. (e, λ a h. tt) }

  pub on_scheduler-live :
      (m : Exec SchedulerStore A) → Leaves is_undone false (λ _. Unit {0}) (on_scheduler m)
  on_scheduler-live m = record { runs = λ t e. (e, λ a h. tt) }

  pub on_events-live :
      (m : Exec EventStore A) → Leaves is_undone false (λ _. Unit {0}) (on_events m)
  on_events-live m = record { runs = λ t e. (e, λ a h. tt) }

  pub on_outbox-live : (m : Exec Outbox A) → Leaves is_undone false (λ _. Unit {0}) (on_outbox m)
  on_outbox-live m = record { runs = λ t e. (e, λ a h. tt) }

  pub on_states-live :
      (m : Exec WorkflowStateStore A) → Leaves is_undone false (λ _. Unit {0}) (on_states m)
  on_states-live m = record { runs = λ t e. (e, λ a h. tt) }

pub commit-live : Leaves is_undone false (λ _. Unit {0}) commit
commit-live = record { runs = λ t e. rw e (refl, λ a h. tt) }
