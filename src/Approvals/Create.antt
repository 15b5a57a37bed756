-- ===== src/Approvals/Create.antt =====
-- `create` is idempotent: its key is answered with the first request, or refused.
use text.Mathlib.TextEquality.{eq_iff}
use personal_assistant.Common.{
  ◌≤◌, ◌≡◌, refl, ◌∙◌, ap, inl, inr, true, false, none, some, String, arith, ltb, Bool-cases, ◌==◌,
  text_eq, pair_eq, if◌then◌else◌,
}
use personal_assistant.Common.Exec.{Result, ok, err, assistant, conflict}
use personal_assistant.Common.Dict.{get, get-put_self}
use personal_assistant.Permissions.Tiers.{PermissionTier, p3, rank, parse_tier}
use personal_assistant.Permissions.{Principal, is_trusted}
use personal_assistant.Approvals.{
  PendingApproval, HashedApproval, ApprovalStore, request_key, store_approval, replay_or_create,
  create, approval_hash,
}

-- the request is the principal's own and for a tier that needs approval
pub record IsOwnRequest (p : Principal) (a : PendingApproval) : Type 0 where
  pub trusted : is_trusted p ≡ true
  pub same_tenant : a.tenant_id ≡ p.tenant_id
  pub same_principal : a.principal_id ≡ p.principal_id
  pub tier : PermissionTier
  pub parsed : parse_tier a.tier ≡ ok tier
  pub high : 3 ≤ rank tier

-- the answer to a request under a key whose first request was `first`
abbrev pub answer :
    (HashedApproval → String) → PendingApproval → PendingApproval → Result PendingApproval
answer fingerprint first a =
    if approval_hash fingerprint first == approval_hash fingerprint a
    then ok first
    else err (assistant conflict)

module _ (fingerprint : HashedApproval → String) (p : Principal) where
  -- past the guards
  create-own :
      (a : PendingApproval) (s : ApprovalStore)
      → IsOwnRequest p a
      → create fingerprint p a s
        ≡ replay_or_create p a (approval_hash fingerprint a) (get (request_key p a) s.id_by_key) s
  unfolding create
  create-own a s o =
      let low : ltb (rank o.tier) (rank p3) ≡ false = at_least_p3 o.tier o.high in
      rw
        (
          o.trusted,
          (eq_iff a.tenant_id p.tenant_id).1 o.same_tenant,
          (eq_iff a.principal_id p.principal_id).1 o.same_principal,
          o.parsed,
          low,
        )
        refl
    where
      at_least_p3 : (t : PermissionTier) → 3 ≤ rank t → ltb (rank t) (rank p3) ≡ false
      at_least_p3 t h = ground arith

  stored_answer :
      (a b : PendingApproval) (s : ApprovalStore)
      → let s' = store_approval p a (approval_hash fingerprint a) s in
        replay_or_create p b (approval_hash fingerprint b) (some a.approval_id) s'
        ≡ (answer fingerprint a b, s')
  stored_answer a b s =
      let print =
        get-put_self (p.tenant_id, a.approval_id) (approval_hash fingerprint a) s.fingerprints in
      let first = get-put_self (p.tenant_id, a.approval_id) a s.approvals in
      elim (Bool-cases (approval_hash fingerprint a == approval_hash fingerprint b)) [
        | inl equal ↦ rw (print, equal, first) refl
        | inr differs ↦ rw (print, differs) refl
      ]

  -- A principal's first request under a workflow kind and an idempotency key is stored and
  -- returned. The next request under the same two returns the stored one if the hashes are the
  -- same, else it raises a conflict, and in both cases it changes nothing.
  pub create_again :
      (a b : PendingApproval) (s : ApprovalStore)
      → IsOwnRequest p a
      → IsOwnRequest p b
      → get (request_key p a) s.id_by_key ≡ none
      → b.workflow_kind ≡ a.workflow_kind
      → b.idempotency_key ≡ a.idempotency_key
      → let s' = store_approval p a (approval_hash fingerprint a) s in
        (create fingerprint p a s ≡ (ok a, s'))
        × (create fingerprint p b s' ≡ (answer fingerprint a b, s'))
  create_again a b s oa ob fresh same_kind same_key =
      let s' = store_approval p a (approval_hash fingerprint a) s in
      (
        rw (create-own a s oa, fresh) refl,
        create-own b s' ob
            ∙ ap (λ found. replay_or_create p b (approval_hash fingerprint b) found s') found_key
            ∙ stored_answer a b s,
      )
    where
      same_request : request_key p b ≡ request_key p a
      same_request i = ((p.tenant_id, p.principal_id), (same_kind i, same_key i))

      found_key :
          get (request_key p b) (store_approval p a (approval_hash fingerprint a) s).id_by_key
          ≡ some a.approval_id
      found_key =
          ap (λ k. get k (store_approval p a (approval_hash fingerprint a) s).id_by_key)
            same_request
          ∙ get-put_self (request_key p a) a.approval_id s.id_by_key
