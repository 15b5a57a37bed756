-- ===== src/Commands/Granted.antt =====
-- What an approve command does.
use text.Mathlib.TextEquality.{eq_iff}
use personal_assistant.Common.{
  ◌≡◌, refl, sym, subst, ◌∙◌, ap, inl, inr, ◌⊎◌, Bool-cases, Option, none, some, String, ◌==◌,
  text_eq, pair_eq,
}
use personal_assistant.Common.Exec.{
  Result, ok, err, assistant, value_error, type_error, runtime_error, overflow_error, key_error,
  index_error, ok_inj, err-ne-ok, lift, ◌>>=◌,
}
use personal_assistant.Common.Dict.{get}
use personal_assistant.Common.Text.{strip}
use personal_assistant.Common.Leaves.{
  Leaves, lift-Leaves, here-Leaves, after_leaving, before_leaving,
}
use personal_assistant.Permissions.{Principal, ApprovalGrant, is_trusted}
use personal_assistant.Approvals.{PendingApproval, ApprovalStore, find_approval, approve}
use personal_assistant.Approvals.Steps.{own_approval-some}
use personal_assistant.UnitOfWork.{Stores}
use personal_assistant.UnitOfWork.Views.{effects}
use personal_assistant.Workflows.Steps.{IsValid}
use personal_assistant.Creation.{ReminderWorkflowInput, ReminderIdempotency, reminder_idempotency}
use personal_assistant.Creation.Flow.{run}
use personal_assistant.Creation.Effects.{Complete}
use personal_assistant.Creation.Whole.{Approved, Whole, run_all_or_nothing}
use personal_assistant.Commands.{
  CommandKind, Services, Conversation, with_stores, with_approvals, attempted,
}
use personal_assistant.Commands.Inputs.{new_input, workflow_answer}
use personal_assistant.Commands.Requests.{
  approved_request, run_approval, approve_found, approve_part, approve_command,
}
use personal_assistant.Commands.Text.{second_part}
use personal_assistant.Commands.Quiet.{effects_of}

module _ (env : Services) (p : Principal) (c : Conversation) (content : String) where
  -- The approval that a text names, found as the principal's own.
  pub record Named (a : PendingApproval) : Type 0 where
    pub name : String
    pub named : second_part content ≡ some name
    pub stored : get (p.tenant_id, strip name) c.approvals.approvals ≡ some a
    pub own : a.principal_id ≡ p.principal_id

  -- What has come of it: the approval store has granted the calendar call, and the run of the
  -- request that was approved has left all of its effects.
  pub record Granted (t : Stores) : Type 0 where
    pub approval : PendingApproval
    pub named : Named approval
    pub reminder : approval.workflow_kind ≡ "reminder.create"
    pub grant : ApprovalGrant
    pub granted :
        (approve env.print_approval env.decided_at p approval.approval_id c.approvals).0 ≡ ok grant
    pub request : ReminderWorkflowInput
    pub accepted : new_input (approved_request env p approval grant) ≡ ok request
    pub identity : ReminderIdempotency
    pub derived : reminder_idempotency env.workflow p request ≡ ok identity
    pub approved : Approved env.workflow p request identity
    pub complete : Complete p.tenant_id identity t

  abbrev pub QuietOrGranted : Conversation → Type 0
  QuietOrGranted c' = (effects_of c' ≡ effects_of c) ⊎ Granted c'.stores

  module _ (a : PendingApproval) (known : Named a) (reminder : a.workflow_kind ≡ "reminder.create")
      (v : IsValid c.stores.states) (c1 : Conversation) (same : c1.stores ≡ c.stores) where
    run_approval-cases :
        (o : Option ApprovalGrant)
        → ((g : ApprovalGrant)
            → o ≡ some g
            → (approve env.print_approval env.decided_at p a.approval_id c.approvals).0 ≡ ok g)
        → QuietOrGranted (run_approval env p a o c1).1
    run_approval-cases none granted = inl (ap effects same)
    run_approval-cases (some g) granted =
        after_leaving QuietOrGranted c1 _ _
          (lift-Leaves (λ s. s) c1 {Q = λ r. new_input (approved_request env p a g) ≡ ok r} _
            (λ r h. h))
          (inl (ap effects same))
          (λ r accepted.
            before_leaving QuietOrGranted c1 (with_stores (run env.workflow p r))
              (λ x. lift (workflow_answer CommandKind.approve x))
              (done r accepted (
                run_all_or_nothing env.workflow p r c1.stores
                  (subst (λ s. IsValid s.states) (sym same) v)))
              (λ x t. lift-Leaves (λ s. s) t (workflow_answer CommandKind.approve x) (λ b h. tt)))
      where
        done :
            (r : ReminderWorkflowInput)
            → new_input (approved_request env p a g) ≡ ok r
            → Whole env.workflow p r c1.stores (run env.workflow p r c1.stores).1
            → QuietOrGranted (with_stores (run env.workflow p r) c1).1
        done r accepted (inl nothing) = inl (nothing ∙ ap effects same)
        done r accepted (inr (id, derived, approved, complete)) = inr (record {
          approval = a;
          named = known;
          reminder = reminder;
          grant = g;
          granted = granted g refl;
          request = r;
          accepted = accepted;
          identity = id;
          derived = derived;
          approved = approved;
          complete = complete;
        })

  module _ (v : IsValid c.stores.states) where
    -- the answer of the approval store, whatever it is
    attempted-cases :
        (a : PendingApproval) (r : Result ApprovalGrant) (s : ApprovalStore)
        → Named a
        → a.workflow_kind ≡ "reminder.create"
        → (approve env.print_approval env.decided_at p a.approval_id c.approvals).0 ≡ r
        → QuietOrGranted ((attempted r >>= run_approval env p a) (record c { approvals = s })).1
    attempted-cases a (ok g) s known reminder granted =
        run_approval-cases a known reminder v (record c { approvals = s }) refl (some g)
          (λ g' e. granted ∙ ap ok (some_inj e))
      where
        some_inj : {g g' : ApprovalGrant} → some g ≡ some g' → g ≡ g'
        some_inj e = cc
    attempted-cases a (err (assistant code)) s known reminder granted = inl refl
    attempted-cases a (err value_error) s known reminder granted = inl refl
    attempted-cases a (err type_error) s known reminder granted = inl refl
    attempted-cases a (err runtime_error) s known reminder granted = inl refl
    attempted-cases a (err overflow_error) s known reminder granted = inl refl
    attempted-cases a (err key_error) s known reminder granted = inl refl
    attempted-cases a (err index_error) s known reminder granted = inl refl

    found-cases :
        (o : Option PendingApproval)
        → ((a : PendingApproval) → o ≡ some a → Named a)
        → QuietOrGranted (approve_found env p o c).1
    found-cases none known = inl refl
    found-cases (some a) known = elim (Bool-cases (a.workflow_kind == "reminder.create")) [
      | inr other ↦ rw other (inl refl)
      | inl reminder ↦ rw reminder (
          attempted-cases a
            (approve env.print_approval env.decided_at p a.approval_id c.approvals).0
            (approve env.print_approval env.decided_at p a.approval_id c.approvals).1 (known a refl)
            ((eq_iff a.workflow_kind "reminder.create").0 reminder) refl)
    ]

    find-Named :
        (name : String) (o : Option PendingApproval) (a : PendingApproval)
        → second_part content ≡ some name
        → (find_approval p (strip name) c.approvals).0 ≡ ok o
        → o ≡ some a
        → Named a
    unfolding find_approval
    find-Named name o a named found e = elim (Bool-cases (is_trusted p)) [
      | inr unknown ↦ absurd (err-ne-ok (rw unknown at found))
      | inl known ↦
          let (stored, own) =
            own_approval-some p (get (p.tenant_id, strip name) c.approvals.approvals) {a = a}
              (ok_inj _ o (rw known at found) ∙ e) in
          record { name = name; named = named; stored = stored; own = own }
    ]

    find-Leaves :
        (name : String)
        → Leaves
            (λ s. s)
            c
            (λ o. (find_approval p name c.approvals).0 ≡ ok o)
            (with_approvals (find_approval p name))
    unfolding find_approval
    find-Leaves name = elim (Bool-cases (is_trusted p)) [
      | inl known ↦ here-Leaves (with_approvals (find_approval p name)) c (rw known refl) (λ o h. h)
      | inr unknown ↦
          here-Leaves (with_approvals (find_approval p name)) c (rw unknown refl) (λ o h. h)
    ]

    part-cases :
        (o : Option String) → second_part content ≡ o → QuietOrGranted (approve_part env p o c).1
    part-cases none h = inl refl
    part-cases (some name) h =
        after_leaving QuietOrGranted c _ _ (find-Leaves (strip name)) (inl refl)
          (λ o found. found-cases o (λ a e. find-Named name o a h found e))

    pub command-cases : QuietOrGranted (approve_command env p content c).1
    unfolding approve_command
    command-cases = part-cases (second_part content) refl
