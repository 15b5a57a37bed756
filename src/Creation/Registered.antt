-- ===== src/Creation/Registered.antt =====
-- The key under which a registration of a workflow answers.
use personal_assistant.Common.{
  ◌≡◌, refl, sym, ◌∙◌, ap, inl, inr, Option, String, Bool-cases, Option-cases, ◌==◌, is_none,
  text_eq, pair_eq,
}
use personal_assistant.Common.Exec.{Result, ok, ok_inj, err-ne-ok}
use personal_assistant.Common.Dict.{get}
use personal_assistant.Common.Index.{Key, is_taken}
use personal_assistant.Common.Time.{Instant}
use personal_assistant.Permissions.{Principal, is_trusted}
use personal_assistant.Workflows.{
  WorkflowState, WorkflowStateStore, WorkflowStateRegistration, same_text, can_resume, replay_state,
  transition, register_or_replay,
}
use personal_assistant.Workflows.Steps.{IsValid}
use personal_assistant.Creation.Answers.{differs}

key_of :
    (a g : WorkflowStateRegistration) (key : String)
    → a.state.idempotency_key ≡ key
    → ◌≡◌ {A = Result WorkflowStateRegistration} (ok a) (ok g)
    → g.state.idempotency_key ≡ key
key_of a g key own h =
    sym (ap (λ (x : WorkflowStateRegistration). x.state.idempotency_key) (ok_inj a g h)) ∙ own

module _ (now : Instant) (p : Principal) (st : WorkflowState) (step : Option String)
    (s : WorkflowStateStore) {g : WorkflowStateRegistration} where
  replay_key :
      (a : WorkflowState)
      → a.idempotency_key ≡ st.idempotency_key
      → (replay_state now p st step a s).0 ≡ ok g
      → g.state.idempotency_key ≡ st.idempotency_key
  unfolding transition
  replay_key a own h = elim (Bool-cases (same_text a.payload_fingerprint st.payload_fingerprint)) [
    | inr differs ↦ absurd (err-ne-ok (rw differs at h))
    | inl same ↦ elim (Bool-cases (a.workflow_type == st.workflow_type)) [
      | inr other ↦ absurd (err-ne-ok (rw (same, other) at h))
      | inl type ↦ elim (Bool-cases (can_resume step a)) [
        | inl goes_on ↦ key_of _ g st.idempotency_key own (rw (same, type, goes_on) at h)
        | inr stays ↦ key_of _ g st.idempotency_key own (rw (same, type, stays) at h)
      ]
    ]
  ]

  -- A registration that returns answers with a state under the requested key.
  pub register_key :
      IsValid s
      → (register_or_replay now p st step s).0 ≡ ok g
      → g.state.idempotency_key ≡ st.idempotency_key
  unfolding register_or_replay
  register_key v h = elim (Bool-cases (is_trusted p)) [
    | inr unknown ↦ absurd (err-ne-ok (rw unknown at h))
    | inl known ↦ elim (Bool-cases (st.tenant_id == p.tenant_id)) [
      | inr other ↦ absurd (err-ne-ok (rw (known, other) at h))
      | inl own ↦ elim (Bool-cases (is_none st.payload_fingerprint)) [
        | inl missing ↦ absurd (err-ne-ok (rw (known, own, missing) at h))
        | inr given ↦ elim (Option-cases (get (p.tenant_id, st.idempotency_key) s.states)) [
          | inr (a, stored) ↦
              replay_key a
                (sym (ap (λ (k : Key). k.1) (v (p.tenant_id, st.idempotency_key) a stored).0))
                (rw (known, own, given, stored) at h)
          | inl fresh ↦
              elim (Bool-cases (
                is_taken (get (p.tenant_id, st.workflow_id) s.key_by_workflow_id)
                  st.idempotency_key)) [
                    | inl used ↦ absurd (err-ne-ok (rw (known, own, given, fresh, used) at h))
                    | inr free ↦
                        key_of _ g st.idempotency_key refl
                          (rw (known, own, given, fresh, free) at h)
                  ]
        ]
      ]
    ]
  ]
