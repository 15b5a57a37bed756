-- ===== src/Dispatch/Tests.antt =====
-- A dispatch of one reminder.
use personal_assistant.Common.{
  ℕ, ◌+◌, ◌*◌, ◌≤◌, ◌≡◌, refl, ◌⊎◌, Option, none, some, List, [], ◌∷◌, String, true, text_eq,
  pair_eq,
}
use personal_assistant.Common.Exec.{Exn, Result, ok, err}
use personal_assistant.Common.Time.{aware, second, max_instant}
use personal_assistant.Permissions.{Principal, ApprovalGrant, is_trusted}
use personal_assistant.Permissions.Laws.{Covers}
use personal_assistant.Permissions.Sample.{member}
use personal_assistant.Permissions.Tiers.{p5, rank}
use personal_assistant.Events.{CloudEvent, OutboxMessage, text}
use personal_assistant.Calendar
use personal_assistant.EventStore
use personal_assistant.Workflows
use personal_assistant.Outbox
use personal_assistant.Outbox.{Write}
use personal_assistant.Outbox.Calls
use personal_assistant.Outbox.Calls.{history-IsValid}
use personal_assistant.Scheduler
use personal_assistant.Scheduler.{Request}
use personal_assistant.Scheduler.Calls as Schedule
use personal_assistant.Scheduler.Calls.{scheduler-IsValid}
use personal_assistant.UnitOfWork.{Stores}
use personal_assistant.Dispatch.{
  Environment, DispatchOutcome, claim_block, sweep_block, confirm_sending, record_result,
}
use personal_assistant.Dispatch.Helpers.{
  NotificationRequest, NotificationResult, success, unknown_error, retry_time,
}
use personal_assistant.Dispatch.Loop.{dispatch, dispatch_all, dispatch_message, resolve_uncertain}
use personal_assistant.Dispatch.Resolve.{resolve_uncertain_guarded}
use personal_assistant.Dispatch.Steps.{IsValid, Moves}
use personal_assistant.Dispatch.Claimed.{Dispatched, dispatch_fates}
use personal_assistant.Dispatch.Retry.{retry_time_bounds}

abbrev worker : Principal
worker = record (member "t1") { permission_tier = p5 }

abbrev due_event : CloudEvent
due_event = record {
  id = "e1";
  specversion = "1.0";
  type = "notification.requested";
  source = "assistant";
  subject = some "rem_1";
  tenant_id = "t1";
  correlation_id = "c1";
  causation_id = none;
  source_event_id = none;
  payload_fingerprint = none;
  timezone = none;
  payload =
      ("channel", text "telegram") ∷ ("recipient", text "r1") ∷ ("body", text "call mum") ∷ [];
  time = 1;
}

abbrev request : Request
request = record {
  calendar_event_id = "cal_1";
  starts_at = aware 3_000_000_000;
  channel = "telegram";
  recipient = "r1";
  body = "call mum";
  timezone = "UTC";
  source_event_id = "e1";
  payload_fingerprint = "0123456789abcdef0123456789abcdef0123456789abcdef0123456789abcdef";
  minutes_before = 30;
}

abbrev print : Write → String
print w = w.event.id

abbrev zone : String → Option String
zone name = some name

abbrev added : List (Principal × Calls.Call)
added = (worker, Calls.add "1" 3 due_event "k1" none none) ∷ []

abbrev planned : List (Principal × Schedule.Call)
planned = (worker, Schedule.schedule_before_event "1" request "k1" none) ∷ []

abbrev stores : Stores
stores = record {
  calendar = Calendar.empty;
  scheduler = Schedule.run zone planned Scheduler.empty;
  events = EventStore.empty;
  outbox = Calls.run print added Outbox.empty;
  states = Workflows.empty;
}

stores-IsValid : IsValid stores
stores-IsValid = record {
  outbox = history-IsValid print added;
  scheduler = scheduler-IsValid zone planned;
}

abbrev approve_all : Principal → OutboxMessage → String → Result (Option ApprovalGrant)
approve_all p m key = ok (
    some (record {
      approval_id = "apr_1";
      tenant_id = p.tenant_id;
      principal_id = p.principal_id;
      action = "notification.send";
      resource = key;
      tier = p5;
      approved = true;
      expires_at = none;
      request_hash = none;
      trusted_source = some "trusted_runtime";
    }))

abbrev delivers :
    ℕ → Principal → NotificationRequest → Option ApprovalGrant → Option NotificationResult
delivers n p r approval = some (record {
  notification_id = some "n1";
  channel = r.channel;
  idempotency_key = r.idempotency_key;
  outcome = success;
  provider_code = none;
  retry_after = none;
})

abbrev env : Environment
env = record {
  owner = "worker";
  claim_limit = 1;
  lease_seconds = 60;
  clock = λ n. aware 1_300_000_000;
  moment = λ n. 1_300_000_000;
  hex = λ n. "a";
  zone = zone;
  send = delivers;
  provide_approval = approve_all;
}

-- the reminder is delivered
abbrev outcome : DispatchOutcome
outcome = record {
  claimed_message_ids = "out_1" ∷ [];
  published_notification_ids = "n1" ∷ [];
  skipped_message_ids = [];
  uncertain_message_ids = [];
  swept_message_ids = [];
}

delivered_test : (dispatch env worker (aware 1_300_000_000) stores).0 ≡ ok outcome
unfolding dispatch dispatch_all dispatch_message claim_block sweep_block confirm_sending
    record_result personal_assistant.Delivery.canonical_utc
    personal_assistant.UnitOfWork.with_transaction
    personal_assistant.Outbox.Claim.sweep_expired_sending personal_assistant.Outbox.Claim.sweep_loop
    personal_assistant.Common.Sort.sort_by personal_assistant.Common.Dict.get
    personal_assistant.Outbox.new_message personal_assistant.Common.Text.strip_field
    personal_assistant.Common.Dict.put personal_assistant.Common.Sort.insert_by
    personal_assistant.Outbox.Claim.is_stuck personal_assistant.Outbox.Claim.claim_due
    personal_assistant.Common.Text.strip personal_assistant.Common.Dict.find
    personal_assistant.Common.Time.add_seconds personal_assistant.Delivery.is_valid_claim_owner
    personal_assistant.Dispatch.Helpers.attempt_key personal_assistant.Dispatch.Helpers.claim_token
    personal_assistant.Dispatch.Helpers.decimal
    personal_assistant.Dispatch.Helpers.notification_request personal_assistant.Events.validate
    personal_assistant.Outbox.Claim.claim_loop personal_assistant.Outbox.Claim.is_due
    personal_assistant.Outbox.Transition.mark_published
    personal_assistant.Outbox.Transition.mark_sending
    personal_assistant.Outbox.Transition.transition
    personal_assistant.Permissions.Approval.approval_errors
    personal_assistant.Permissions.Approval.note personal_assistant.Permissions.Approval.permitted
    personal_assistant.Permissions.Approval.require_approval
    personal_assistant.Permissions.evaluate_permission personal_assistant.Permissions.has_length
    personal_assistant.Permissions.permission_request
    personal_assistant.Permissions.require_permission
    personal_assistant.Scheduler.Reminder.is_fingerprint
    personal_assistant.Scheduler.Reminder.validate_reminder Calls.run Calls.perform Outbox.add
    Scheduler.mirror_delivery Schedule.run Schedule.perform Scheduler.schedule_before_event
    personal_assistant.Common.Time.sub_minutes
delivered_test = refl

dispatch_fates_example :
    Moves "t1" stores (dispatch env worker (aware 1_300_000_000) stores).1
    × (((x : Exn) × ((dispatch env worker (aware 1_300_000_000) stores).0 ≡ err x))
        ⊎ ((o : DispatchOutcome) × ((dispatch env worker (aware 1_300_000_000) stores).0 ≡ ok o)
            × Dispatched env worker
                (aware 1_300_000_000)
                stores
                o
                (dispatch env worker (aware 1_300_000_000) stores).1))
dispatch_fates_example = dispatch_fates env worker (aware 1_300_000_000) stores stores-IsValid

retry_time_bounds_example :
    (retry_time 5 30 (some 60) ≤ max_instant)
    × ((retry_time 5 30 (some 60) ≡ max_instant)
        ⊎ ((5 + 30 * second ≤ retry_time 5 30 (some 60))
            × ((r : ℕ) → some 60 ≡ some r → 5 + r * second ≤ retry_time 5 30 (some 60))))
retry_time_bounds_example = retry_time_bounds 5 30 (some 60)

-- the message was sent, and its answer was lost
abbrev lost_calls : List (Principal × Calls.Call)
lost_calls =
    (worker, Calls.add "1" 3 due_event "k1" none none)
    ∷ (worker, Calls.claim_due (λ n. "a") (aware 4) 1 "worker" 60 (some "notification.requested"))
    ∷ (worker, Calls.mark_sending "out_1" "claim_a" (aware 5))
    ∷ (worker, Calls.mark_uncertain "out_1" "claim_a" (unknown_error 6 none))
    ∷ []

abbrev lost : Stores
lost = record stores { outbox = Calls.run print lost_calls Outbox.empty }

lost-IsValid : IsValid lost
lost-IsValid = record {
  outbox = history-IsValid print lost_calls;
  scheduler = scheduler-IsValid zone planned;
}

abbrev retry_grant : ApprovalGrant
retry_grant = record {
  approval_id = "apr_2";
  tenant_id = "t1";
  principal_id = worker.principal_id;
  action = "notification.resolve_uncertain";
  resource = "out_1:retry";
  tier = p5;
  approved = true;
  expires_at = none;
  request_hash = none;
  trusted_source = some "trusted_runtime";
}

abbrev resolved : Stores
resolved = (resolve_uncertain env worker 9 "out_1" "retry" (aware 9) (some retry_grant) lost).1

resolve_uncertain_guarded_example :
    Moves "t1" lost resolved
    × ((resolved ≡ lost)
        ⊎ ((is_trusted worker ≡ true)
            × (5 ≤ rank p5)
            × ((a : ApprovalGrant) × (some retry_grant ≡ some a)
                × Covers a worker p5 "notification.resolve_uncertain" "out_1:retry" none 9)))
resolve_uncertain_guarded_example =
    resolve_uncertain_guarded env worker 9 "out_1" "retry" (aware 9) (some retry_grant) lost
      lost-IsValid
