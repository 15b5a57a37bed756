-- ===== src/Workflows/Election.antt =====
-- `register_or_replay` elects one executor for a workflow's key.
use personal_assistant.Common.{
  ◌≡◌, ◌⊎◌, inl, inr, true, false, Option, none, some, List, String, arith, ◌==◌, is_none,
  Bool-cases, Option-cases, text_eq, pair_eq,
}
use personal_assistant.Common.Exec.{Result, ok, err-ne-ok}
use personal_assistant.Common.Dict.{get, get-put_self}
use personal_assistant.Common.Index.{is_taken}
use personal_assistant.Common.Time.{Instant}
use personal_assistant.Permissions.{Principal, is_trusted}
use personal_assistant.Workflows.{
  same_text, WorkflowState, WorkflowStateStore, WorkflowStateRegistration, can_resume, resume,
  register_or_replay, replay_state, register_state,
}
use personal_assistant.Workflows.Steps.{IsValid}
use personal_assistant.Workflows.Methods.{register-Advances}
use personal_assistant.Workflows.Calls.{Call, run, run-Evolves}

-- the caller is told of an earlier registration
abbrev pub IsLater : WorkflowStateRegistration → Type 0
IsLater r = (r.replayed ≡ true) ⊎ (r.resumed ≡ true)

module _ (now : Instant) (p : Principal) (st : WorkflowState) (step : Option String)
    (s : WorkflowStateStore) where
  replay-IsLater :
      (a : WorkflowState) (r : WorkflowStateRegistration)
      → (replay_state now p st step a s).0 ≡ ok r
      → IsLater r
  replay-IsLater a r h =
      elim (Bool-cases (same_text a.payload_fingerprint st.payload_fingerprint)) [
        | inr differs ↦ absurd (err-ne-ok (rw differs at h))
        | inl same ↦ elim (Bool-cases (a.workflow_type == st.workflow_type)) [
          | inr other ↦ absurd (err-ne-ok (rw (same, other) at h))
          | inl type ↦ elim (Bool-cases (can_resume step a)) [
            | inr stays ↦ inl (replayed (rw (same, type, stays) at h))
            | inl allowed ↦ inr (resumed (rw (same, type, allowed) at h))
          ]
        ]
      ]
    where
      replayed :
          ◌≡◌ {A = Result WorkflowStateRegistration}
            (ok (record { state = a; replayed = true; resumed = false }))
            (ok r)
          → r.replayed ≡ true
      replayed e = ground arith

      resumed : (resume now (p.tenant_id, st.idempotency_key) a s).0 ≡ ok r → r.resumed ≡ true
      resumed e = ground arith

  fresh-stored :
      (r : WorkflowStateRegistration)
      → (register_state p st s).0 ≡ ok r
      → get (p.tenant_id, st.idempotency_key) (register_state p st s).1.states ≡ some st
  fresh-stored r h =
      elim (Bool-cases
        (is_taken (get (p.tenant_id, st.workflow_id) s.key_by_workflow_id) st.idempotency_key)) [
          | inl used ↦ absurd (err-ne-ok (rw used at h))
          | inr free ↦ rw free (get-put_self (p.tenant_id, st.idempotency_key) st s.states)
        ]

  -- Under a key that is stored already, a registration that returns is a later one.
  register_again :
      (a : WorkflowState) (r : WorkflowStateRegistration)
      → get (p.tenant_id, st.idempotency_key) s.states ≡ some a
      → (register_or_replay now p st step s).0 ≡ ok r
      → IsLater r
  unfolding register_or_replay
  register_again a r stored h = elim (Bool-cases (is_trusted p)) [
    | inr unknown ↦ absurd (err-ne-ok (rw unknown at h))
    | inl known ↦ elim (Bool-cases (st.tenant_id == p.tenant_id)) [
      | inr other ↦ absurd (err-ne-ok (rw (known, other) at h))
      | inl own ↦ elim (Bool-cases (is_none st.payload_fingerprint)) [
        | inl missing ↦ absurd (err-ne-ok (rw (known, own, missing) at h))
        | inr given ↦ replay-IsLater a r (rw (known, own, given, stored) at h)
      ]
    ]
  ]

  -- A registration that returns leaves its key stored.
  register-stored :
      (r : WorkflowStateRegistration)
      → get (p.tenant_id, st.idempotency_key) s.states ≡ none
      → (register_or_replay now p st step s).0 ≡ ok r
      → get (p.tenant_id, st.idempotency_key) (register_or_replay now p st step s).1.states
        ≡ some st
  unfolding register_or_replay
  register-stored r fresh h = elim (Bool-cases (is_trusted p)) [
    | inr unknown ↦ absurd (err-ne-ok (rw unknown at h))
    | inl known ↦ elim (Bool-cases (st.tenant_id == p.tenant_id)) [
      | inr other ↦ absurd (err-ne-ok (rw (known, other) at h))
      | inl own ↦ elim (Bool-cases (is_none st.payload_fingerprint)) [
        | inl missing ↦ absurd (err-ne-ok (rw (known, own, missing) at h))
        | inr given ↦
            rw (known, own, given, fresh) (fresh-stored r (rw (known, own, given, fresh) at h))
      ]
    ]
  ]

module _ (fingerprint : WorkflowState → String) where
  registered_key :
      (now : Instant) (p : Principal) (st : WorkflowState) (step : Option String)
      (s : WorkflowStateStore) (r : WorkflowStateRegistration)
      → IsValid s
      → (register_or_replay now p st step s).0 ≡ ok r
      → (a : WorkflowState) × (get
            (p.tenant_id, st.idempotency_key)
            (register_or_replay now p st step s).1.states
          ≡ some a)
  registered_key now p st step s r v h =
      elim (Option-cases (get (p.tenant_id, st.idempotency_key) s.states)) [
        | inl fresh ↦ (st, register-stored now p st step s r fresh h)
        | inr (a, stored) ↦
            let (b, g, f) =
              (register-Advances fingerprint now p st step s v).evolves
                (p.tenant_id, st.idempotency_key) a stored in
            (b, g)
      ]

  -- Once a registration has returned on a valid store, whatever calls follow, every further
  -- registration for its tenant and key that returns says that it is a replay or a resumption: the
  -- workflow is executed from its start at most once.
  pub one_executor :
      (now later : Instant) (p q : Principal) (st st' : WorkflowState) (step step' : Option String)
      (s : WorkflowStateStore) (r r' : WorkflowStateRegistration) (cs : List (Principal × Call))
      → IsValid s
      → (register_or_replay now p st step s).0 ≡ ok r
      → q.tenant_id ≡ p.tenant_id
      → st'.idempotency_key ≡ st.idempotency_key
      → (register_or_replay later q st' step'
          (run fingerprint cs (register_or_replay now p st step s).1)).0
        ≡ ok r'
      → IsLater r'
  one_executor now later p q st st' step step' s r r' cs v h same_tenant same_key h' =
      let s' = (register_or_replay now p st step s).1 in
      let (a, g) = registered_key now p st step s r v h in
      let (b, g', f) =
        run-Evolves fingerprint cs s' (register-Advances fingerprint now p st step s v).valid
          (p.tenant_id, st.idempotency_key) a g in
      register_again later q st' step' (run fingerprint cs s') b r' (rw (same_tenant, same_key) g')
        h'
