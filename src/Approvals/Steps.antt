-- ===== src/Approvals/Steps.antt =====
-- The methods that decide an approval request, on every branch.
use text.Mathlib.TextEquality.{eq_iff}
use personal_assistant.Common.{
  ◌≡◌, refl, sym, ap, subst, inl, inr, Bool, true, false, not, Option, none, some, String, arith,
  ◌==◌, Bool-cases, text_eq, pair_eq, if◌then◌else◌,
}
use personal_assistant.Common.Exec.{
  Exec, bind-lift_state, assistant, not_found, permission_denied, conflict, pure, or_raise,
  raise_if, ◌>>=◌, ◌>>◌,
}
use personal_assistant.Common.Guards.{after-raise_if, after-lift, after-or_raise}
use personal_assistant.Common.Dict.{get}
use personal_assistant.Common.Time.{Instant}
use personal_assistant.Permissions.Tiers.{parse_tier}
use personal_assistant.Permissions.{
  Principal, is_trusted, permission_request, require_permission, issue,
}
use personal_assistant.Approvals.{
  PendingApprovalStatus, pending, approved, cancelled, is_pending, is_approved, is_cancelled,
  PendingApproval, HashedApproval, ApprovalStore, own_approval, find_approval, write_approval,
  decide, mark_approved, approve, cancel, approval_hash,
}

-- What one call does to the store: nothing, or it decides a pending approval of the principal.
pub data Step (p : Principal) (s : ApprovalStore) : ApprovalStore → Type 0 where
  same : Step p s s
  decided :
      (id : String) (a : PendingApproval) (now : Instant) (status : PendingApprovalStatus)
      → get (p.tenant_id, id) s.approvals ≡ some a
      → a.principal_id ≡ p.principal_id
      → is_pending a.status ≡ true
      → is_pending status ≡ false
      → Step p s
          (write_approval (p.tenant_id, id) (record a { status = status; updated_at = some now }) s)

pub own_approval-some :
    (p : Principal) (o : Option PendingApproval) {a : PendingApproval}
    → own_approval p o ≡ some a
    → (o ≡ some a) × (a.principal_id ≡ p.principal_id)
own_approval-some p none h = absurd (ground arith)
own_approval-some p (some b) {a} h = elim (Bool-cases (b.principal_id == p.principal_id)) [
  | inr other ↦ absurd (ground arith)
  | inl own ↦
      let e : b ≡ a = ground arith in
      (
        ap some e,
        subst (λ c. c.principal_id ≡ p.principal_id) e
            ((eq_iff b.principal_id p.principal_id).0 own),
      )
]

not_pending_if : (b : Bool) → not b ≡ false → b ≡ true
not_pending_if b h = ground arith

module _ (now : Instant) (p : Principal) (id : String) (s : ApprovalStore) where
  -- a branch that decides, for the approval that was found
  decide-Step :
      (a : PendingApproval) (status : PendingApprovalStatus)
      → own_approval p (get (p.tenant_id, id) s.approvals) ≡ some a
      → is_pending a.status ≡ true
      → is_pending status ≡ false
      → Step p s (decide now p id status a s).1
  decide-Step a status found waits final =
      let (stored, own) = own_approval-some p (get (p.tenant_id, id) s.approvals) {a = a} found in
      decided id a now status stored own waits final

  -- a method goes on with the principal's own approval, or it raises
  found-Step {κ} :
      {B : Type κ} (k : PendingApproval → Exec ApprovalStore B)
      → ((a : PendingApproval)
          → own_approval p (get (p.tenant_id, id) s.approvals) ≡ some a
          → Step p s (k a s).1)
      → Step p s ((find_approval p id >>= λ found. or_raise found (assistant not_found) >>= k) s).1
  unfolding find_approval
  found-Step k h = elim (Bool-cases (is_trusted p)) [
    | inr unknown ↦ rw unknown same
    | inl known ↦ rw known (
        after-or_raise (Step p s) s same (own_approval p (get (p.tenant_id, id) s.approvals))
          (assistant not_found) k h)
  ]

  pub mark_approved-Step : Step p s (mark_approved now p id s).1
  unfolding mark_approved find_approval
  mark_approved-Step = found-Step _ (λ a found. elim (Bool-cases (is_pending a.status)) [
    | inl waits ↦ rw waits (decide-Step a approved found waits refl)
    | inr settled ↦ rw settled same
  ])

  pub cancel-Step : Step p s (cancel now p id s).1
  unfolding cancel find_approval
  cancel-Step = found-Step _ (λ a found. cancel_found a.status a found refl)
    where
      cancel_found :
          (status : PendingApprovalStatus) (a : PendingApproval)
          → own_approval p (get (p.tenant_id, id) s.approvals) ≡ some a
          → a.status ≡ status
          → Step p s
              ((raise_if (is_approved a.status) (assistant conflict)
                  >> (if is_cancelled a.status then pure a else decide now p id cancelled a))
                s).1
      cancel_found approved a found e = rw e same
      cancel_found cancelled a found e = rw e same
      cancel_found pending a found e = rw e (decide-Step a cancelled found (ap is_pending e) refl)

  pub approve-Step :
      (fingerprint : HashedApproval → String) → Step p s (approve fingerprint now p id s).1
  unfolding approve find_approval
  approve-Step fingerprint = found-Step _ (λ a found.
      after-raise_if (Step p s) s same (is_cancelled a.status) (assistant permission_denied) _
        (λ live. after-lift (Step p s) s same (parse_tier a.tier) _ (λ tier parsed.
          after-lift (Step p s) s same (permission_request a.action a.resource tier) _
            (λ request built.
              after-lift (Step p s) s same (require_permission p request) _ (λ decision met.
                subst (Step p s)
                  (sym (
                    bind-lift_state (if is_pending a.status then mark_approved now p id else pure a)
                      (λ b.
                        issue p b.action tier b.resource b.approval_id none
                          (some (approval_hash fingerprint b)))
                      s))
                  (elim (Bool-cases (is_pending a.status)) [
                    | inl waits ↦ rw waits mark_approved-Step
                    | inr settled ↦ rw settled same
                  ]))))))
