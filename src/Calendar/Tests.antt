-- ===== src/Calendar/Tests.antt =====
-- The calendar on a concrete request.
use personal_assistant.Common.{
  ◌≡◌, refl, ◌≤◌, ◌⊎◌, true, false, Option, none, some, [], ◌∷◌, String, text_eq, pair_eq,
}
use personal_assistant.Common.Dict.{get, put}
use personal_assistant.Common.Exec.{ok}
use personal_assistant.Common.Text.{strip, strip_field, count_chars}
use personal_assistant.Permissions.{
  ApprovalGrant, is_trusted, has_length, permission_request, require_permission,
  evaluate_permission,
}
use personal_assistant.Permissions.Sample.{member}
use personal_assistant.Permissions.Tiers.{p3, rank}
use personal_assistant.Permissions.Approval.{require_approval, approval_errors, note, permitted}
use personal_assistant.Permissions.Laws.{Covers, tier_decision}
use personal_assistant.Calendar.{
  CalendarEventRequest, CalendarEventResult, Calendar, empty, create_event,
}
use personal_assistant.Calendar.Laws.{Raises, Returns, calendar_guarded}

abbrev meeting : CalendarEventRequest
meeting = record {
  event_id = none;
  title = "call mum";
  starts_at = 9;
  ends_at = none;
  timezone = "UTC";
  idempotency_key = "k1";
  source_event_id = none;
  payload_fingerprint = none;
}

abbrev planned : CalendarEventResult
planned = record {
  event_id = "cal_1";
  title = "call mum";
  starts_at = 9;
  timezone = "UTC";
  idempotency_key = "k1";
  source_event_id = none;
  payload_fingerprint = none;
  reused = false;
}

abbrev one : Calendar
one = record {
  events = (("t1", "k1"), planned) ∷ [];
  key_by_event_id = (("t1", "cal_1"), "k1") ∷ [];
  fingerprints = (("t1", "k1"), "call mum") ∷ [];
}

abbrev grant : ApprovalGrant
grant = record {
  approval_id = "apr_1";
  tenant_id = "t1";
  principal_id = "alice";
  action = "calendar.create_event";
  resource = "k1";
  tier = p3;
  approved = true;
  expires_at = some 100;
  request_hash = none;
  trusted_source = some "trusted_runtime";
}

abbrev zone : String → Option String
zone name = some name

abbrev print : CalendarEventRequest → String
print r = r.title

created : create_event zone print "1" 5 (member "t1") meeting (some grant) empty ≡ (ok planned, one)
unfolding create_event require_approval permitted permission_request require_permission
    evaluate_permission has_length count_chars strip strip_field approval_errors note get put
created = refl

passes :
    require_approval (member "t1") p3 (some grant) "calendar.create_event" "k1" none 6
    ≡ ok (tier_decision (member "t1") p3)
unfolding require_approval permitted permission_request require_permission evaluate_permission
    has_length count_chars strip strip_field approval_errors note
passes = refl

calendar_guarded_example :
    Raises zone print
      (member "t1")
      meeting
      (create_event zone print "1" 5 (member "t1") meeting (some grant) empty)
      empty
    ⊎ (Returns zone print
          (member "t1")
          meeting
          (create_event zone print "1" 5 (member "t1") meeting (some grant) empty)
          empty
        × (is_trusted (member "t1") ≡ true)
        × (3 ≤ rank p3)
        × ((a : ApprovalGrant) × (some grant ≡ some a)
            × Covers a (member "t1") p3 "calendar.create_event" "k1" none 5))
calendar_guarded_example =
    calendar_guarded zone print (member "t1") meeting "1" 5 (some grant) empty
