-- ===== src/Workflows/Methods.antt =====
-- The two methods that write the workflow store, on every branch.
use text.Mathlib.TextEquality.{eq_iff}
use personal_assistant.Common.{
  ◌≡◌, refl, sym, ap, subst, inl, inr, true, false, not, ◌||◌, Option, none, some, String, arith,
  ◌==◌, is_none, Bool-cases, Option-cases, text_eq, pair_eq,
}
use personal_assistant.Common.Exec.{ok, ◌>>◌}
use personal_assistant.Common.Dict.{get}
use personal_assistant.Common.Index.{is_taken}
use personal_assistant.Common.Time.{Instant}
use personal_assistant.Permissions.{Principal, is_trusted}
use personal_assistant.Workflows.{
  WorkflowStatus, waiting_approval, same_status, WorkflowState, WorkflowStateStore, same_text,
  is_frozen, write_state, can_resume, replay_state, register_state, register_or_replay,
  check_existing, upsert,
}
use personal_assistant.Workflows.Steps.{
  IsValid, Follows, Advances, Advances-refl, write_state-Advances, resume-Advances,
}

same_text_lem : (a b : Option String) → same_text a b ≡ true → a ≡ b
same_text_lem none none h = refl
same_text_lem none (some b) h = cc
same_text_lem (some a) none h = cc
same_text_lem (some a) (some b) h = ap some ((eq_iff a b).0 h)

same_status_lem : (a b : WorkflowStatus) → same_status a b ≡ true → a ≡ b
same_status_lem a b h = ground arith

module _ (fingerprint : WorkflowState → String) where
  module _ (now : Instant) (p : Principal) (st : WorkflowState) (s : WorkflowStateStore)
      (v : IsValid s) (own : st.tenant_id ≡ p.tenant_id) where
    replay-Advances :
        (step : Option String) (a : WorkflowState)
        → get (p.tenant_id, st.idempotency_key) s.states ≡ some a
        → Advances fingerprint p.tenant_id s (replay_state now p st step a s).1
    replay-Advances step a stored =
        elim (Bool-cases (same_text a.payload_fingerprint st.payload_fingerprint)) [
          | inr differs ↦ rw differs (Advances-refl fingerprint p.tenant_id s v)
          | inl same ↦ elim (Bool-cases (a.workflow_type == st.workflow_type)) [
            | inr other ↦ rw (same, other) (Advances-refl fingerprint p.tenant_id s v)
            | inl type ↦ elim (Bool-cases (can_resume step a)) [
              | inr stays ↦ rw (same, type, stays) (Advances-refl fingerprint p.tenant_id s v)
              | inl allowed ↦
                  rw (same, type, allowed)
                    (resume-Advances fingerprint now p.tenant_id st.idempotency_key a s
                      (waits step allowed) stored v)
            ]
          ]
        ]
      where
        waits :
            (o : Option String)
            → can_resume o a ≡ true
            → same_status a.status waiting_approval ≡ true
        waits none h = cc
        waits (some t) h = ground arith

    register_state-Advances :
        get (p.tenant_id, st.idempotency_key) s.states ≡ none
        → Advances fingerprint p.tenant_id s (register_state p st s).1
    register_state-Advances fresh =
        elim (Bool-cases
          (is_taken (get (p.tenant_id, st.workflow_id) s.key_by_workflow_id) st.idempotency_key)) [
            | inl used ↦ rw used (Advances-refl fingerprint p.tenant_id s v)
            | inr free ↦
                rw free (write_state-Advances fingerprint p.tenant_id st s own free (λ a h. cc) v)
          ]

    check_existing-ok :
        (a : WorkflowState)
        → (check_existing fingerprint st (some a) s).0 ≡ ok tt
        → Follows fingerprint a st
    check_existing-ok a h = record {
      workflow_id = ground (arith, eq_iff a.workflow_id st.workflow_id);
      workflow_type = ground (arith, eq_iff a.workflow_type st.workflow_type);
      payload_fingerprint =
          sym (same_text_lem a.payload_fingerprint st.payload_fingerprint (ground arith));
      final = λ t. (
        same_status_lem st.status a.status (ground arith),
        (eq_iff (fingerprint st) (fingerprint a)).0 (ground arith),
      );
    }

    upsert_checked-Advances :
        (o : Option WorkflowState)
        → get (p.tenant_id, st.idempotency_key) s.states ≡ o
        → is_taken (get (p.tenant_id, st.workflow_id) s.key_by_workflow_id) st.idempotency_key
          ≡ false
        → Advances fingerprint p.tenant_id s
            ((check_existing fingerprint st o >> λ s. (ok st, write_state p.tenant_id st s)) s).1
    upsert_checked-Advances none stored free =
        write_state-Advances fingerprint p.tenant_id st s own free (λ a h. cc) v
    upsert_checked-Advances (some a) stored free =
        elim (Bool-cases
          (not (a.workflow_id == st.workflow_id) || not (a.workflow_type == st.workflow_type))) [
            | inl changed ↦ rw changed (Advances-refl fingerprint p.tenant_id s v)
            | inr same ↦
                elim (Bool-cases (same_text a.payload_fingerprint st.payload_fingerprint)) [
                  | inr differs ↦ rw (same, differs) (Advances-refl fingerprint p.tenant_id s v)
                  | inl equal ↦ elim (Bool-cases (is_frozen fingerprint a st)) [
                    | inl frozen ↦
                        rw (same, equal, frozen) (Advances-refl fingerprint p.tenant_id s v)
                    | inr thawed ↦
                        rw (same, equal, thawed)
                          (write_state-Advances fingerprint p.tenant_id st s own free
                            (follows same equal thawed) v)
                  ]
                ]
          ]
      where
        follows :
            (not (a.workflow_id == st.workflow_id) || not (a.workflow_type == st.workflow_type))
              ≡ false
            → same_text a.payload_fingerprint st.payload_fingerprint ≡ true
            → is_frozen fingerprint a st ≡ false
            → (c : WorkflowState) → get (p.tenant_id, st.idempotency_key) s.states ≡ some c
            → Follows fingerprint c st
        follows same equal thawed c h =
            let e : a ≡ c = ground arith in
            subst (λ c. Follows fingerprint c st) e
              (check_existing-ok a (rw (same, equal, thawed) refl))

  pub register-Advances :
      (now : Instant) (p : Principal) (st : WorkflowState) (step : Option String)
      (s : WorkflowStateStore)
      → IsValid s
      → Advances fingerprint p.tenant_id s (register_or_replay now p st step s).1
  unfolding register_or_replay
  register-Advances now p st step s v = elim (Bool-cases (is_trusted p)) [
    | inr unknown ↦ rw unknown (Advances-refl fingerprint p.tenant_id s v)
    | inl known ↦ elim (Bool-cases (st.tenant_id == p.tenant_id)) [
      | inr other ↦ rw (known, other) (Advances-refl fingerprint p.tenant_id s v)
      | inl own ↦ elim (Bool-cases (is_none st.payload_fingerprint)) [
        | inl missing ↦ rw (known, own, missing) (Advances-refl fingerprint p.tenant_id s v)
        | inr given ↦ elim (Option-cases (get (p.tenant_id, st.idempotency_key) s.states)) [
          | inl fresh ↦
              rw (known, own, given, fresh)
                (register_state-Advances now p st s v ((eq_iff st.tenant_id p.tenant_id).0 own)
                  fresh)
          | inr (a, stored) ↦
              rw (known, own, given, stored)
                (replay-Advances now p st s v ((eq_iff st.tenant_id p.tenant_id).0 own) step a
                  stored)
        ]
      ]
    ]
  ]

  pub upsert-Advances :
      (p : Principal) (st : WorkflowState) (s : WorkflowStateStore)
      → IsValid s
      → Advances fingerprint p.tenant_id s (upsert fingerprint p st s).1
  unfolding upsert
  upsert-Advances p st s v = elim (Bool-cases (is_trusted p)) [
    | inr unknown ↦ rw unknown (Advances-refl fingerprint p.tenant_id s v)
    | inl known ↦ elim (Bool-cases (st.tenant_id == p.tenant_id)) [
      | inr other ↦ rw (known, other) (Advances-refl fingerprint p.tenant_id s v)
      | inl own ↦
          elim (Bool-cases (
            is_taken (get (p.tenant_id, st.workflow_id) s.key_by_workflow_id) st.idempotency_key)) [
              | inl used ↦ rw (known, own, used) (Advances-refl fingerprint p.tenant_id s v)
              | inr free ↦
                  rw (known, own, free)
                    (upsert_checked-Advances st.updated_at p st s v
                      ((eq_iff st.tenant_id p.tenant_id).0 own)
                      (get (p.tenant_id, st.idempotency_key) s.states) refl free)
            ]
    ]
  ]
