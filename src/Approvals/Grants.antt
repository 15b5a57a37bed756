-- ===== src/Approvals/Grants.antt =====
-- The grant that `approve` returns, presented to `require_approval`.
use personal_assistant.Common.{
  ◌≡◌, refl, sym, ◌∙◌, ap, inl, inr, none, some, String, arith, Bool-cases, ◌==◌, ◌⊎◌, text_eq,
  pair_eq, if◌then◌else◌,
}
use personal_assistant.Common.Exec.{
  Exec, ok, err-ne-ok, bind-ok, assistant, not_found, permission_denied, pure, lift, or_raise,
  ◌>>=◌,
}
use personal_assistant.Common.Guards.{raise_if-ok}
use personal_assistant.Common.Dict.{get}
use personal_assistant.Common.Time.{Instant}
use personal_assistant.Permissions.Tiers.{PermissionTier, parse_tier}
use personal_assistant.Permissions.{
  Principal, is_trusted, PermissionDecision, permission_request, require_permission, ApprovalGrant,
  issue,
}
use personal_assistant.Permissions.Approval.{permitted, require_approval}
use personal_assistant.Permissions.Laws.{tier_decision, permitted-ok, require_approval_complete}
use personal_assistant.Permissions.Issue.{IsStripped, issue-Covers}
use personal_assistant.Approvals.{
  approved, is_pending, is_cancelled, PendingApproval, HashedApproval, ApprovalStore, own_approval,
  find_approval, mark_approved, approve, approval_hash,
}

-- The texts of an approval and of its principal were stripped by their models.
pub record IsClean (p : Principal) (a : PendingApproval) (print : String) : Type 0 where
  pub tenant_text : IsStripped p.tenant_id
  pub principal_text : IsStripped p.principal_id
  pub action_text : IsStripped a.action
  pub resource_text : IsStripped a.resource
  pub print_text : IsStripped print

module _ (fingerprint : HashedApproval → String) (now : Instant) (p : Principal) (id : String)
    (s : ApprovalStore) (a : PendingApproval)
    (stored : get (p.tenant_id, id) s.approvals ≡ some a) where
  found-ok {κ} :
      {B : Type κ} (k : PendingApproval → Exec ApprovalStore B) {b : B}
      → ((find_approval p id >>= λ found. or_raise found (assistant not_found) >>= k) s).0 ≡ ok b
      → (own_approval p (some a) ≡ some a) × ((k a s).0 ≡ ok b)
  unfolding find_approval
  found-ok k h = elim (Bool-cases (is_trusted p)) [
    | inr unknown ↦ absurd (err-ne-ok (rw unknown at h))
    | inl known ↦ elim (Bool-cases (a.principal_id == p.principal_id)) [
      | inl own ↦ (rw own refl, rw (known, stored, own) at h)
      | inr other ↦ absurd (err-ne-ok (rw (known, stored, other) at h))
    ]
  ]

  abbrev marked : PendingApproval
  marked = record a { status = approved; updated_at = some now }

  mark_approved-ok :
      {b : PendingApproval} → (mark_approved now p id s).0 ≡ ok b → (b ≡ a) ⊎ (b ≡ marked)
  unfolding mark_approved find_approval
  mark_approved-ok {b} h =
      let (own, g) = found-ok _ {b = b} h in
      elim (Bool-cases (is_pending a.status)) [
        | inl waits ↦ inr (ground arith)
        | inr settled ↦ inl (ground arith)
      ]

  confirm_if_pending-ok :
      {b : PendingApproval}
      → ((if is_pending a.status then mark_approved now p id else pure a) s).0 ≡ ok b
      → (b ≡ a) ⊎ (b ≡ marked)
  confirm_if_pending-ok {b} h = elim (Bool-cases (is_pending a.status)) [
    | inl waits ↦ mark_approved-ok {b = b} (rw waits at h)
    | inr settled ↦ inl (ground arith)
  ]

  issue-same :
      (tier : PermissionTier) {b : PendingApproval}
      → (b ≡ a) ⊎ (b ≡ marked)
      → issue p b.action tier b.resource b.approval_id none (some (approval_hash fingerprint b))
        ≡ issue p a.action tier a.resource a.approval_id none (some (approval_hash fingerprint a))
  unfolding approval_hash
  issue-same tier (inl e) = rw e refl
  issue-same tier (inr e) = rw e refl

  -- what `approve` has checked and issued when it returns
  approve-ok :
      {g : ApprovalGrant}
      → (approve fingerprint now p id s).0 ≡ ok g
      → (tier : PermissionTier) × (parse_tier a.tier ≡ ok tier)
        × ((d : PermissionDecision) × (permitted p tier a.action a.resource ≡ ok d))
        × (issue p a.action tier a.resource a.approval_id none (some (approval_hash fingerprint a))
            ≡ ok g)
  unfolding approve find_approval permitted
  approve-ok {g} h =
      let (own, h0) = found-ok _ {b = g} h in
      let (live, h1) =
        raise_if-ok (is_cancelled a.status) (assistant permission_denied) _ s {b = g} h0 in
      let (tier, parsed, h2) = bind-ok (lift (parse_tier a.tier)) _ s {b = g} h1 in
      let (request, built, h3) =
        bind-ok (lift (permission_request a.action a.resource tier)) _ s {b = g} h2 in
      let (d, met, h4) = bind-ok (lift (require_permission p request)) _ s {b = g} h3 in
      let (b, confirmed, h5) =
        bind-ok (if is_pending a.status then mark_approved now p id else pure a) _ s {b = g} h4 in
      (
        tier,
        parsed,
        (d, rw built met),
        sym (issue-same tier (confirm_if_pending-ok {b = b} confirmed)) ∙ h5,
      )

  -- When `approve` returns a grant for a stored approval whose texts are stripped, the grant
  -- lets the same principal pass `require_approval` for the approval's action and resource, at the
  -- approval's tier, with the approval's hash, at any time.
  pub approve_authorizes :
      {g : ApprovalGrant} (later : Instant)
      → IsClean p a (approval_hash fingerprint a)
      → (approve fingerprint now p id s).0 ≡ ok g
      → (tier : PermissionTier) × (parse_tier a.tier ≡ ok tier)
        × (require_approval p tier
              (some g)
              a.action
              a.resource
              (some (approval_hash fingerprint a))
              later
            ≡ ok (tier_decision p tier))
  approve_authorizes {g} later clean h =
      let (tier, parsed, (d, allowed), issued) = approve-ok {g = g} h in
      let (known, high, form) = permitted-ok p tier a.action a.resource {d = d} allowed in
      let print = some (approval_hash fingerprint a) in
      (
        tier,
        parsed,
        require_approval_complete p tier (some g) a.action a.resource print later g refl known high
            form
            (issue-Covers p tier tier a.action a.resource a.approval_id none print later {a = g}
              issued clean.tenant_text clean.principal_text clean.action_text clean.resource_text
              (ap some clean.print_text) (omega arith) tt),
      )
