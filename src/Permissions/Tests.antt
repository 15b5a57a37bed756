-- ===== src/Permissions/Tests.antt =====
-- Permission and approval checks on concrete grants.
use personal_assistant.Common.{◌≡◌, refl, true, some, [], ◌∷◌, arith, ◌≤◌, text_eq}
use personal_assistant.Common.Exec.{ok, err, assistant, permission_denied}
use personal_assistant.Common.Text.{strip, strip_field, count_chars}
use personal_assistant.Common.Time.{aware}
use personal_assistant.Permissions.Tiers.{p3, rank}
use personal_assistant.Permissions.{
  Principal, PermissionRequest, ApprovalGrant, granted, legacy, is_trusted, issue,
  evaluate_permission, has_length, permission_request, require_permission,
}
use personal_assistant.Permissions.Sample.{member}
use personal_assistant.Permissions.Approval.{require_approval, approval_errors, note, permitted}
use personal_assistant.Permissions.Laws.{
  Covers, IsWellFormed, tier_decision, require_approval_sound, require_approval_complete,
}

abbrev grant : ApprovalGrant
grant = record {
  approval_id = "apr_1";
  tenant_id = "t1";
  principal_id = "alice";
  action = "calendar.write";
  resource = "calendar";
  tier = p3;
  approved = true;
  expires_at = some 100;
  request_hash = some "h";
  trusted_source = some "trusted_runtime";
}

grant-Covers : Covers grant (member "t1") p3 "calendar.write" "calendar" (some "h") 50
grant-Covers = record {
  from_runtime = refl;
  approved = refl;
  same_tenant = refl;
  same_principal = refl;
  same_action = refl;
  same_resource = refl;
  high_enough = omega arith;
  unexpired = omega arith;
  same_hash = refl;
}

texts-IsWellFormed : IsWellFormed "calendar.write" "calendar"
unfolding has_length count_chars strip strip_field
texts-IsWellFormed = record {
  action_length = refl;
  resource_length = refl;
  action_text = refl;
  resource_text = refl;
}

require_approval_complete_example :
    require_approval (member "t1") p3 (some grant) "calendar.write" "calendar" (some "h") 50
    ≡ ok (tier_decision (member "t1") p3)
require_approval_complete_example =
    require_approval_complete (member "t1") p3 (some grant) "calendar.write" "calendar" (some "h")
      50 grant refl refl (omega arith) texts-IsWellFormed grant-Covers

require_approval_sound_example :
    (is_trusted (member "t1") ≡ true)
    × (rank p3 ≤ rank p3)
    × IsWellFormed "calendar.write" "calendar"
    × ((a : ApprovalGrant) × (some grant ≡ some a)
        × Covers a (member "t1") p3 "calendar.write" "calendar" (some "h") 50)
require_approval_sound_example =
    require_approval_sound (member "t1") p3 (some grant) "calendar.write" "calendar" (some "h") 50
      {d = tier_decision (member "t1") p3} (omega arith) require_approval_complete_example

-- Test: an expired grant is refused.
expired_test :
    require_approval (member "t1") p3 (some grant) "calendar.write" "calendar" (some "h") 100
    ≡ err (assistant permission_denied)
unfolding require_approval permitted permission_request require_permission evaluate_permission
    has_length count_chars strip strip_field approval_errors note
expired_test = refl

issued :
    issue (member "t1") "calendar.write" p3 "calendar" "apr_1" (some (aware 100)) (some "h")
    ≡ ok grant
unfolding issue strip_field
issued = refl

abbrev writer : Principal
writer = record (member "t1") {
  permissions = legacy "notes.read" ∷ granted (record { name = "calendar.write"; tier = p3 }) ∷ [];
}

abbrev write_request : PermissionRequest
write_request = record {
  action = "calendar.write";
  resource = "calendar";
  required_tier = p3;
  permission = some "calendar.write";
}
