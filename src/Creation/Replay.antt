-- ===== src/Creation/Replay.antt =====
-- A workflow that is completed.
use personal_assistant.Common.{
  ◌≡◌, refl, sym, inl, inr, true, false, Option, none, some, String, Bool-cases, ◌==◌, is_none,
  text_eq, pair_eq,
}
use personal_assistant.Common.Exec.{Exec, ok, ok_inj, err-ne-ok}
use personal_assistant.Common.Dict.{get}
use personal_assistant.Common.Leaves.{Leaves, here-Leaves}
use personal_assistant.Common.Time.{Instant}
use personal_assistant.Permissions.{Principal, is_trusted}
use personal_assistant.Workflows.{
  completed, WorkflowState, WorkflowStateStore, WorkflowStateRegistration, same_text, can_resume,
  replay_state, register_or_replay,
}

module _ (now : Instant) (p : Principal) (st : WorkflowState) (step : Option String)
    (s : WorkflowStateStore) (w : WorkflowState) (done : w.status ≡ completed) where
  cannot_resume : (o : Option String) → can_resume o w ≡ false
  cannot_resume none = refl
  cannot_resume (some t) = rw done refl

  Replays : Exec WorkflowStateStore WorkflowStateRegistration → Type 0
  Replays m =
      ((m s).1 ≡ s)
      × ((g : WorkflowStateRegistration) → (m s).0 ≡ ok g → (g.state ≡ w) × (g.replayed ≡ true))

  replay-Replays : Replays (replay_state now p st step w)
  unfolding Replays
  replay-Replays = elim (Bool-cases (same_text w.payload_fingerprint st.payload_fingerprint)) [
    | inr differs ↦ rw differs (refl, λ g h. absurd (err-ne-ok h))
    | inl same ↦ elim (Bool-cases (w.workflow_type == st.workflow_type)) [
      | inr other ↦ rw (same, other) (refl, λ g h. absurd (err-ne-ok h))
      | inl type ↦
          rw (same, type, cannot_resume step)
            (refl, λ g h. (λ i. (ok_inj g _ (sym h) i).state, λ i. (ok_inj g _ (sym h) i).replayed))
    ]
  ]

  -- A registration under the key of a completed workflow replays it, or raises.
  pub register_completed :
      get (p.tenant_id, st.idempotency_key) s.states ≡ some w
      → Leaves
          (λ s. s)
          s
          (λ g. (g.state ≡ w) × (g.replayed ≡ true))
          (register_or_replay now p st step)
  unfolding register_or_replay Replays
  register_completed stored =
      let (still, found) = all in here-Leaves (register_or_replay now p st step) s still found
    where
      all : Replays (register_or_replay now p st step)
      all = elim (Bool-cases (is_trusted p)) [
        | inr unknown ↦ rw unknown (refl, λ g h. absurd (err-ne-ok h))
        | inl known ↦ elim (Bool-cases (st.tenant_id == p.tenant_id)) [
          | inr other ↦ rw (known, other) (refl, λ g h. absurd (err-ne-ok h))
          | inl own ↦ elim (Bool-cases (is_none st.payload_fingerprint)) [
            | inl missing ↦ rw (known, own, missing) (refl, λ g h. absurd (err-ne-ok h))
            | inr given ↦ rw (known, own, given, stored) replay-Replays
          ]
        ]
      ]
