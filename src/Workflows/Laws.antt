-- ===== src/Workflows/Laws.antt =====
-- What the workflow store promises over a whole history of calls.
use personal_assistant.Common.{
  ◌≡◌, refl, ◌∙◌, ◌≢◌, true, some, List, [], ◌∷◌, String, All, text_eq, pair_eq,
}
use personal_assistant.Common.Dict.{get}
use personal_assistant.Common.Index.{Key, one_key}
use personal_assistant.Permissions.{Principal}
use personal_assistant.Workflows.{is_terminal, WorkflowState, WorkflowStateStore, empty}
use personal_assistant.Workflows.Steps.{IsValid, empty-IsValid}
use personal_assistant.Workflows.Calls.{
  Call, perform, run, perform-Advances, run-IsValid, run-Evolves,
}

module _ (fingerprint : WorkflowState → String) where
  -- A completed or failed workflow of a valid store is final: after any calls by any principals a
  -- workflow still stands under its key, with the same status and the same fingerprint.
  pub workflow_final :
      (cs : List (Principal × Call)) (s : WorkflowStateStore) (k : Key) (a : WorkflowState)
      → IsValid s
      → get k s.states ≡ some a
      → is_terminal a.status ≡ true
      → (b : WorkflowState) × (get k (run fingerprint cs s).states ≡ some b)
        × (b.status ≡ a.status)
        × (fingerprint b ≡ fingerprint a)
  workflow_final cs s k a v h final =
      let (b, g, f) = run-Evolves fingerprint cs s v k a h in
      let (e, e') = f.final final in (b, g, e, e')

  -- No call changes the id, the type or the payload fingerprint of a workflow of a valid store.
  workflow_identity :
      (cs : List (Principal × Call)) (s : WorkflowStateStore) (k : Key) (a : WorkflowState)
      → IsValid s
      → get k s.states ≡ some a
      → (b : WorkflowState) × (get k (run fingerprint cs s).states ≡ some b)
        × (b.workflow_id ≡ a.workflow_id)
        × (b.workflow_type ≡ a.workflow_type)
        × (b.payload_fingerprint ≡ a.payload_fingerprint)
  workflow_identity cs s k a v h =
      let (b, g, f) = run-Evolves fingerprint cs s v k a h in
      (b, g, f.workflow_id, f.workflow_type, f.payload_fingerprint)

  -- After any calls on an empty store, two stored workflows of one tenant with the same workflow id
  -- stand under the same key.
  pub workflow_id_unique :
      (cs : List (Principal × Call)) (j k : Key) (a b : WorkflowState)
      → get j (run fingerprint cs empty).states ≡ some a
      → get k (run fingerprint cs empty).states ≡ some b
      → a.tenant_id ≡ b.tenant_id
      → a.workflow_id ≡ b.workflow_id
      → j ≡ k
  workflow_id_unique cs j k a b =
      let s = run fingerprint cs empty in
      one_key (λ w. w.tenant_id) (λ w. w.idempotency_key) (λ w. w.workflow_id) s.states
        s.key_by_workflow_id j k a b (run-IsValid fingerprint cs empty empty-IsValid)

  -- Calls by principals of other tenants leave a tenant's workflows as they were.
  workflow_tenants :
      (cs : List (Principal × Call)) (s : WorkflowStateStore) (k : Key)
      → IsValid s
      → All (λ c. k.0 ≢ c.0.tenant_id) cs
      → get k (run fingerprint cs s).states ≡ get k s.states
  unfolding run
  workflow_tenants [] s k v others = refl
  workflow_tenants ((p, c) ∷ cs) s k v others =
      let a = perform-Advances fingerprint p c s v in
      workflow_tenants cs (perform fingerprint p c s) k a.valid others.1 ∙ a.elsewhere k others.0
