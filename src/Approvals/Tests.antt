-- ===== src/Approvals/Tests.antt =====
-- The approval store on concrete requests.
use personal_assistant.Common.{
  ◌≡◌, refl, inl, true, none, some, List, [], ◌∷◌, String, arith, text_ne, text_eq, pair_eq,
}
use personal_assistant.Common.Dict.{get, put}
use personal_assistant.Common.Exec.{ok, err, assistant, conflict}
use personal_assistant.Common.Text.{strip, strip_field, count_chars}
use personal_assistant.Permissions.{
  Principal, ApprovalGrant, permission_request, require_permission, evaluate_permission, has_length,
  issue,
}
use personal_assistant.Permissions.Sample.{member}
use personal_assistant.Permissions.Tiers.{PermissionTier, p3, parse_tier}
use personal_assistant.Permissions.Approval.{require_approval}
use personal_assistant.Permissions.Laws.{tier_decision}
use personal_assistant.Approvals
use personal_assistant.Approvals.{
  PendingApproval, HashedApproval, ApprovalStore, pending, approved, cancelled, empty,
  store_approval, approval_hash,
}
use personal_assistant.Approvals.Decisions
use personal_assistant.Approvals.Decisions.{Call, Outcome, run, decided_once, only_owner_decides}
use personal_assistant.Approvals.Grants.{IsClean, approve_authorizes}
use personal_assistant.Approvals.Create.{IsOwnRequest, create_again}

abbrev asked : PendingApproval
asked = record {
  approval_id = "apr_1";
  tenant_id = "t1";
  principal_id = "alice";
  action = "calendar.write";
  resource = "calendar";
  tier = "P3";
  workflow_kind = "reminder";
  message_id = "m1";
  source_event_id = "e1";
  conversation_id = "c1";
  channel = "telegram";
  recipient = "r1";
  request_text = "call mum at five";
  request_now = 1;
  timezone = "UTC";
  idempotency_key = "k1";
  payload_fingerprint = "f";
  status = pending;
  created_at = 1;
  updated_at = none;
}

abbrev granted : PendingApproval
granted = record asked { status = approved; updated_at = some 5 }

abbrev changed : PendingApproval
changed = record asked { request_text = "call dad" }

abbrev print : HashedApproval → String
print h = h.request_text

abbrev one : PendingApproval → ApprovalStore
one a = record {
  approvals = (("t1", "apr_1"), a) ∷ [];
  id_by_key = ((("t1", "alice"), ("reminder", "k1")), "apr_1") ∷ [];
  fingerprints = (("t1", "apr_1"), "call mum at five") ∷ [];
}

abbrev history : List (Principal × Call)
history =
    (member "t2", Decisions.cancel 4 "apr_1")
    ∷ (member "t1", Decisions.approve 5 "apr_1")
    ∷ (member "t1", Decisions.reject 6 "apr_1")
    ∷ []

-- Test: the owner's approval is final.
history_test : run print history (one asked) ≡ one granted
unfolding run Decisions.perform Approvals.approve Approvals.mark_approved Approvals.find_approval
    Approvals.cancel Approvals.reject get put parse_tier permission_request require_permission
    evaluate_permission has_length count_chars strip strip_field
history_test = refl

decided_once_example :
    (b : PendingApproval) × (get ("t1", "apr_1") (run print history (one asked)).approvals ≡ some b)
    × Outcome asked b
unfolding get
decided_once_example = decided_once print history (one asked) ("t1", "apr_1") asked refl

only_owner_decides_example :
    get
      ("t1", "apr_1")
      (run print ((member "t2", Decisions.cancel 4 "apr_1") ∷ []) (one asked)).approvals
    ≡ some asked
unfolding get
only_owner_decides_example =
    only_owner_decides print ((member "t2", Decisions.cancel 4 "apr_1") ∷ []) (one asked)
      ("t1", "apr_1") asked refl (inl (text_ne "t1" "t2" refl), tt)

abbrev grant : ApprovalGrant
grant = record {
  approval_id = "apr_1";
  tenant_id = "t1";
  principal_id = "alice";
  action = "calendar.write";
  resource = "calendar";
  tier = p3;
  approved = true;
  expires_at = none;
  request_hash = some "call mum at five";
  trusted_source = some "trusted_runtime";
}

asked-IsClean : IsClean (member "t1") asked "call mum at five"
unfolding strip_field
asked-IsClean = record {
  tenant_text = refl;
  principal_text = refl;
  action_text = refl;
  resource_text = refl;
  print_text = refl;
}

approved_now : (Approvals.approve print 5 (member "t1") "apr_1" (one asked)).0 ≡ ok grant
unfolding Approvals.approve Approvals.mark_approved Approvals.find_approval Approvals.approval_hash
    get put parse_tier permission_request require_permission evaluate_permission has_length
    count_chars strip strip_field issue
approved_now = refl

approve_authorizes_example :
    (tier : PermissionTier) × (parse_tier "P3" ≡ ok tier)
    × (require_approval
          (member "t1")
          tier
          (some grant)
          "calendar.write"
          "calendar"
          (some "call mum at five")
          900
        ≡ ok (tier_decision (member "t1") tier))
unfolding get approval_hash
approve_authorizes_example =
    approve_authorizes print 5 (member "t1") "apr_1" (one asked) asked refl {g = grant} 900
      asked-IsClean approved_now

own_request : (text : String) → IsOwnRequest (member "t1") (record asked { request_text = text })
unfolding parse_tier
own_request text = record {
  trusted = refl;
  same_tenant = refl;
  same_principal = refl;
  tier = p3;
  parsed = refl;
  high = omega arith;
}

create_again_example :
    (Approvals.create print (member "t1") asked empty ≡ (ok asked, one asked))
    × (Approvals.create print (member "t1") changed (one asked)
        ≡ (err (assistant conflict), one asked))
unfolding get put approval_hash
create_again_example =
    create_again print (member "t1") asked changed empty (own_request "call mum at five")
      (own_request "call dad") refl refl refl
