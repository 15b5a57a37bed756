-- ===== src/Workflows/Tests.antt =====
-- The workflow store on concrete workflows.
use personal_assistant.Common.{
  ◌≡◌, refl, true, false, none, some, List, [], ◌∷◌, String, text_eq, pair_eq,
}
use personal_assistant.Common.Dict.{get, put}
use personal_assistant.Common.Exec.{ok}
use personal_assistant.Common.Index.{Key}
use personal_assistant.Permissions.{Principal}
use personal_assistant.Permissions.Sample.{member}
use personal_assistant.Workflows.{
  WorkflowState, WorkflowStateStore, WorkflowStateRegistration, running, completed, empty,
  register_or_replay, upsert,
}
use personal_assistant.Common.Index.{insert-IsIndexed}
use personal_assistant.Workflows.Steps.{IsValid, empty-IsValid}
use personal_assistant.Workflows.Calls
use personal_assistant.Workflows.Calls.{Call, run, perform}
use personal_assistant.Workflows.Laws.{workflow_final, workflow_id_unique}
use personal_assistant.Workflows.Election.{IsLater, one_executor}

abbrev started : WorkflowState
started = record {
  workflow_id = "wf_1";
  tenant_id = "t1";
  workflow_type = "reminder";
  status = running;
  step = "created";
  idempotency_key = "k1";
  payload_fingerprint = some "f";
  content = [];
  created_at = 1;
  updated_at = 1;
}

abbrev finished : WorkflowState
finished = record started { status = completed; step = "done"; updated_at = 2 }

abbrev one : WorkflowState → WorkflowStateStore
one w = record { states = (("t1", "k1"), w) ∷ []; key_by_workflow_id = (("t1", "wf_1"), "k1") ∷ [] }

abbrev print : WorkflowState → String
print w = w.step

-- a restart after the end, and a call of another tenant
abbrev history : List (Principal × Call)
history =
    (member "t1", Calls.register_or_replay 5 started none)
    ∷ (member "t1", Calls.upsert started)
    ∷ (member "t2", Calls.upsert started)
    ∷ []

abbrev foreign : List (Principal × Call)
foreign = (member "t2", Calls.upsert (record started { tenant_id = "t2" })) ∷ []

one-IsValid :
    (w : WorkflowState)
    → w.tenant_id ≡ "t1"
    → w.idempotency_key ≡ "k1"
    → w.workflow_id ≡ "wf_1"
    → IsValid (one w)
unfolding get put
one-IsValid w t k id =
    rw⁻¹ (t, k, id)
      (insert-IsIndexed (λ w. w.tenant_id) (λ w. w.idempotency_key) (λ w. w.workflow_id) w [] []
        refl empty-IsValid)

-- Test: a replay is told so, and a finished workflow is not started again.
replay_test :
    (register_or_replay 5 (member "t1") started none (one finished))
    ≡ (ok (record { state = finished; replayed = true; resumed = false }), one finished)
unfolding register_or_replay get
replay_test = refl

workflow_final_example :
    (b : WorkflowState) × (get ("t1", "k1") (run print history (one finished)).states ≡ some b)
    × (b.status ≡ completed)
    × (b.step ≡ "done")
unfolding get
workflow_final_example =
    workflow_final print history (one finished) ("t1", "k1") finished
      (one-IsValid finished refl refl refl) refl refl

workflow_id_unique_example : ◌≡◌ {A = Key} ("t1", "k1") ("t1", "k1")
unfolding get put run perform register_or_replay upsert
workflow_id_unique_example =
    workflow_id_unique print history ("t1", "k1") ("t1", "k1") started started refl refl refl refl

abbrev first_answer : WorkflowStateRegistration
first_answer = record { state = started; replayed = false; resumed = false }

abbrev second_answer : WorkflowStateRegistration
second_answer = record { state = started; replayed = true; resumed = false }

one_executor_example : IsLater second_answer
unfolding register_or_replay get put run perform upsert
one_executor_example =
    one_executor print 5 6 (member "t1") (member "t1") started started none none empty first_answer
      second_answer foreign empty-IsValid refl refl refl refl
