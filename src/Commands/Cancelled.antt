-- ===== src/Commands/Cancelled.antt =====
-- A request that was cancelled is not carried out.
use personal_assistant.Common.{
  ◌≡◌, refl, inl, inr, true, Bool-cases, some, String, ◌==◌, text_eq, pair_eq,
}
use personal_assistant.Common.Exec.{Result, err, assistant, permission_denied}
use personal_assistant.Common.Dict.{get}
use personal_assistant.Common.Text.{strip}
use personal_assistant.Common.Time.{Instant}
use personal_assistant.Permissions.{Principal, ApprovalGrant, is_trusted}
use personal_assistant.Approvals.{
  PendingApproval, ApprovalStore, HashedApproval, is_cancelled, find_approval, approve,
}
use personal_assistant.Commands.{NormalizedMessage, Services, Conversation}
use personal_assistant.Commands.Requests.{approve_found, approve_part, approve_command}
use personal_assistant.Commands.Text.{second_part}
use personal_assistant.Commands.Router.{Route, route, handle}

module _ (p : Principal) (id : String) (a : PendingApproval) (s : ApprovalStore)
    (stored : get (p.tenant_id, id) s.approvals ≡ some a) (cancelled : is_cancelled a.status ≡ true)
    (known : is_trusted p ≡ true) (own : (a.principal_id == p.principal_id) ≡ true) where
  approve-cancelled :
      (fingerprint : HashedApproval → String) (now : Instant)
      → ◌≡◌ {A = Result ApprovalGrant × ApprovalStore}
          (approve fingerprint now p id s)
          (err (assistant permission_denied), s)
  unfolding approve find_approval
  approve-cancelled fingerprint now = rw (known, stored, own, cancelled) refl

module _ (env : Services) (p : Principal) (c : Conversation) (a : PendingApproval)
    (stored : get (p.tenant_id, a.approval_id) c.approvals.approvals ≡ some a)
    (cancelled : is_cancelled a.status ≡ true) where
  found_cancelled :
      is_trusted p ≡ true
      → (a.principal_id == p.principal_id) ≡ true
      → (approve_found env p (some a) c).1 ≡ c
  found_cancelled known own = elim (Bool-cases (a.workflow_kind == "reminder.create")) [
    | inr other ↦ rw other refl
    | inl reminder ↦
        rw
          (
            reminder,
            approve-cancelled p a.approval_id a c.approvals stored cancelled known own
                env.print_approval env.decided_at,
          )
          refl
  ]

  part_cancelled :
      (name : String) → strip name ≡ a.approval_id → (approve_part env p (some name) c).1 ≡ c
  unfolding find_approval
  part_cancelled name same = elim (Bool-cases (is_trusted p)) [
    | inr unknown ↦ rw unknown refl
    | inl known ↦ elim (Bool-cases (a.principal_id == p.principal_id)) [
      | inr other ↦ rw (known, same, stored, other) refl
      | inl own ↦ rw (known, same, stored, own) (found_cancelled known own)
    ]
  ]

  -- An approve command that names a cancelled request, which is stored under its own id, changes
  -- nothing: neither the approvals nor any of the five stores.
  pub cancelled_stays :
      (m : NormalizedMessage) (now : Instant) (timezone name : String)
      → route env p m ≡ Route.approve
      → second_part (strip m.text) ≡ some name
      → strip name ≡ a.approval_id
      → (handle env p m now timezone c).1 ≡ c
  unfolding handle approve_command
  cancelled_stays m now timezone name routed named same =
      rw (routed, named) (part_cancelled name same)
