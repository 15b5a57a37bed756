-- ===== src/Workflows/Steps.antt =====
-- What one write to the workflow store does: the index agrees with the states, and a stored
-- workflow keeps its identity and, once terminal, its status and fingerprint.
use personal_assistant.Common.{
  ◌≡◌, refl, sym, ◌∙◌, ap, subst, ◌≢◌, inl, inr, true, false, none, some, String, arith, Bool-cases,
  text_eq, pair_eq,
}
use personal_assistant.Common.Dict.{Dict, get, put, get-put, get-put_ne}
use personal_assistant.Common.Index.{
  Key, key_eq, is_taken, IsIndexed, insert-IsIndexed, replace-IsIndexed,
}
use personal_assistant.Common.Time.{Instant}
use personal_assistant.Workflows.{
  WorkflowStatus, pending, running, waiting_approval, completed, failed, same_status, is_terminal,
  WorkflowState, WorkflowStateStore, empty, transition, write_state, resume,
}

abbrev pub IsValid : WorkflowStateStore → Type 0
IsValid s =
    IsIndexed (λ w. w.tenant_id) (λ w. w.idempotency_key) (λ w. w.workflow_id) s.states
      s.key_by_workflow_id

pub empty-IsValid : IsValid empty
unfolding get
empty-IsValid k v h = cc

module _ (fingerprint : WorkflowState → String) where
  pub record Follows (a b : WorkflowState) : Type 0 where
    pub workflow_id : b.workflow_id ≡ a.workflow_id
    pub workflow_type : b.workflow_type ≡ a.workflow_type
    pub payload_fingerprint : b.payload_fingerprint ≡ a.payload_fingerprint
    pub final :
        is_terminal a.status ≡ true → (b.status ≡ a.status) × (fingerprint b ≡ fingerprint a)

  pub Follows-refl : (a : WorkflowState) → Follows a a
  Follows-refl a = record {
    workflow_id = refl;
    workflow_type = refl;
    payload_fingerprint = refl;
    final = λ h. (refl, refl);
  }

  pub Follows-trans : {a b c : WorkflowState} → Follows a b → Follows b c → Follows a c
  Follows-trans {a} {b} {c} f g = record {
    workflow_id = g.workflow_id ∙ f.workflow_id;
    workflow_type = g.workflow_type ∙ f.workflow_type;
    payload_fingerprint = g.payload_fingerprint ∙ f.payload_fingerprint;
    final = λ h. let (s, e) = f.final h in let (s', e') = g.final (rw s h) in (s' ∙ s, e' ∙ e);
  }

  abbrev pub Evolves : Dict Key WorkflowState → Dict Key WorkflowState → Type 0
  Evolves d d' =
      (k : Key) (a : WorkflowState)
      → get k d ≡ some a
      → (b : WorkflowState) × (get k d' ≡ some b) × Follows a b

  pub record Advances (tenant : String) (s s' : WorkflowStateStore) : Type 0 where
    pub valid : IsValid s'
    pub evolves : Evolves s.states s'.states
    pub elsewhere : (k : Key) → k.0 ≢ tenant → get k s'.states ≡ get k s.states

  pub Advances-refl : (tenant : String) (s : WorkflowStateStore) → IsValid s → Advances tenant s s
  Advances-refl tenant s v = record {
    valid = v;
    evolves = λ k a h. (a, h, Follows-refl a);
    elsewhere = λ k ne. refl;
  }

  Evolves-put :
      (key : Key) (b : WorkflowState) (d : Dict Key WorkflowState)
      → ((a : WorkflowState) → get key d ≡ some a → Follows a b)
      → Evolves d (put key b d)
  Evolves-put key b d follows k a h = elim (Bool-cases (key_eq.is_equal key k)) [
    | inl same ↦
        let e : key ≡ k = (key_eq.is_equal_iff key k).0 same in
        (b, rw get-put (rw same refl), follows a (rw e h))
    | inr other ↦ (a, rw get-put (rw other h), Follows-refl a)
  ]

  -- A write under a key of the tenant leaves the other tenants' keys.
  other_tenant :
      (tenant key : String) (b : WorkflowState) (d : Dict Key WorkflowState) (k : Key)
      → k.0 ≢ tenant
      → get k (put (tenant, key) b d) ≡ get k d
  other_tenant tenant key b d k ne =
      get-put_ne (tenant, key) k b d (λ e. ne (sym (ap (λ (j : Key). j.0) e)))

  pub write_state-Advances :
      (tenant : String) (b : WorkflowState) (s : WorkflowStateStore)
      → b.tenant_id ≡ tenant
      → is_taken (get (tenant, b.workflow_id) s.key_by_workflow_id) b.idempotency_key ≡ false
      → ((a : WorkflowState) → get (tenant, b.idempotency_key) s.states ≡ some a → Follows a b)
      → IsValid s
      → Advances tenant s (write_state tenant b s)
  write_state-Advances tenant b s own free follows v = record {
    valid =
        subst (λ t. IsValid (write_state t b s)) own
          (insert-IsIndexed (λ w. w.tenant_id) (λ w. w.idempotency_key) (λ w. w.workflow_id) b
            s.states s.key_by_workflow_id (rw own free) v);
    evolves = Evolves-put (tenant, b.idempotency_key) b s.states follows;
    elsewhere = other_tenant tenant b.idempotency_key b s.states;
  }

  pub resume-Advances :
      (now : Instant) (tenant key : String) (a : WorkflowState) (s : WorkflowStateStore)
      → same_status a.status waiting_approval ≡ true
      → get (tenant, key) s.states ≡ some a
      → IsValid s
      → Advances tenant s (resume now (tenant, key) a s).1
  unfolding transition
  resume-Advances now tenant key a s waiting stored v = record {
    valid =
        replace-IsIndexed (λ w. w.tenant_id) (λ w. w.idempotency_key) (λ w. w.workflow_id)
          (transition now (some running) none none a) s.states s.key_by_workflow_id (tenant, key) a
          stored refl refl refl v;
    evolves =
        Evolves-put (tenant, key) (transition now (some running) none none a) s.states follows;
    elsewhere = other_tenant tenant key (transition now (some running) none none a) s.states;
  }
    where
      not_final :
          (w : WorkflowStatus) → same_status w waiting_approval ≡ true → is_terminal w ≡ true → ⊥
      not_final waiting_approval h g = cc
      not_final pending h g = cc
      not_final running h g = cc
      not_final completed h g = cc
      not_final failed h g = cc

      follows :
          (c : WorkflowState)
          → get (tenant, key) s.states ≡ some c
          → Follows c (transition now (some running) none none a)
      follows c h =
          let e : a ≡ c = ground arith in
          subst (λ c. Follows c (transition now (some running) none none a)) e
            (record {
              workflow_id = refl;
              workflow_type = refl;
              payload_fingerprint = refl;
              final = λ g. absurd (not_final a.status waiting g);
            })
