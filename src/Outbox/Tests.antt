-- ===== src/Outbox/Tests.antt =====
-- The outbox on concrete messages.
use personal_assistant.Common.{
  ℕ, ◌≡◌, refl, ◌≢◌, inl, none, some, List, [], ◌∷◌, String, arith, All, text_eq, pair_eq, ◌≤◌,
  text_ne,
}
use personal_assistant.Common.Dict.{get, put, find}
use personal_assistant.Common.Exec.{ok, err, assistant, conflict, value_error}
use personal_assistant.Common.Sort.{sort_by, insert_by}
use personal_assistant.Common.Text.{strip, strip_field, count_chars}
use personal_assistant.Common.Time.{aware, add_seconds}
use personal_assistant.Permissions.{Principal}
use personal_assistant.Permissions.Sample.{member}
use personal_assistant.Delivery.{
  pending, claimed, sending, published, failed, uncertain, DeliveryError, network, timeout,
  is_valid_claim_owner, canonical_utc,
}
use personal_assistant.Events.{CloudEvent, OutboxMessage, validate}
use personal_assistant.Outbox
use personal_assistant.Outbox.{Outbox, Key, Write, empty}
use personal_assistant.Outbox.Transition
use personal_assistant.Outbox.Transition.{
  write_message, start_sending, publish, end_with_error, retry_at,
}
use personal_assistant.Outbox.Invariant.{IsValid}
use personal_assistant.Outbox.Advance.{Advances, identity}
use personal_assistant.Outbox.Calls
use personal_assistant.Outbox.Calls.{Call, perform, run, perform-Advances, history-IsValid}
use personal_assistant.Outbox.Claim
use personal_assistant.Outbox.Claim.{is_due, is_stuck}
use personal_assistant.Outbox.Claim.Spec.{IsAccepted, claim_due_refines}
use personal_assistant.Outbox.Claim.Sweep.{sweep_refines}
use personal_assistant.Outbox.Lease.{claims_disjoint}
use personal_assistant.Outbox.History.{terminal_stays, message_kept, tenants_isolated}
use personal_assistant.Outbox.Sends.{
  mark_sending_starts, sending_settles, mark_claim_failed_cases, mark_sending_once,
}
use personal_assistant.Outbox.Replay.{add_again}

abbrev reminder_event : CloudEvent
reminder_event = record {
  id = "e1";
  specversion = "1.0";
  type = "reminder.due";
  source = "assistant";
  subject = some "rem_1";
  tenant_id = "t1";
  correlation_id = "c1";
  causation_id = none;
  source_event_id = none;
  payload_fingerprint = none;
  timezone = none;
  payload = [];
  time = 1;
}

abbrev waiting : OutboxMessage
waiting = record {
  id = "out_1";
  tenant_id = "t1";
  event = reminder_event;
  idempotency_key = "k1";
  dispatch_status = pending;
  claim_token = none;
  claim_owner = none;
  claimed_until = none;
  next_attempt_at = none;
  attempts = 0;
  created_at = 3;
  sending_at = none;
  published_at = none;
  last_error = none;
}

abbrev leased : OutboxMessage
leased = record waiting {
  dispatch_status = claimed;
  claim_token = some "claim_a";
  claim_owner = some "worker";
  claimed_until = some 60_000_005;
}

abbrev on_its_way : OutboxMessage
on_its_way = record leased { dispatch_status = sending; sending_at = some 7; attempts = 1 }

abbrev delivered : OutboxMessage
delivered = record waiting {
  dispatch_status = published;
  sending_at = some 7;
  attempts = 1;
  published_at = some 9;
}

abbrev lost : DeliveryError
lost = record { category = network; code = timeout; provider_code = none; occurred_at = 8 }

-- the outbox with one message
abbrev one : OutboxMessage → Outbox
one m = record {
  messages = (("t1", "k1"), m) ∷ [];
  key_by_message_id = (("t1", "out_1"), "k1") ∷ [];
  key_by_event_id = (("t1", "e1"), "k1") ∷ [];
  fingerprints = (("t1", "k1"), "e1") ∷ [];
}

waiting-IsValid : IsValid (one waiting)
unfolding get
waiting-IsValid = record { keys = (refl, tt); recorded = ((refl, refl, refl, refl), tt) }

leased-IsValid : IsValid (one leased)
unfolding get
leased-IsValid = record { keys = (refl, tt); recorded = ((refl, refl, refl, refl), tt) }

on_its_way-IsValid : IsValid (one on_its_way)
unfolding get
on_its_way-IsValid = record { keys = (refl, tt); recorded = ((refl, refl, refl, refl), tt) }

delivered-IsValid : IsValid (one delivered)
unfolding get
delivered-IsValid = record { keys = (refl, tt); recorded = ((refl, refl, refl, refl), tt) }

abbrev print : Write → String
print w = w.event.id

abbrev hex : ℕ → String
hex n = "a"

abbrev history : List (Principal × Call)
history =
    (member "t1", Calls.add "1" 3 reminder_event "k1" none none)
    ∷ (member "t1", Calls.claim_due hex (aware 5) 1 "worker" 60 none)
    ∷ (member "t2", Calls.mark_sending "out_1" "claim_a" (aware 7))
    ∷ (member "t1", Calls.mark_sending "out_1" "claim_a" (aware 7))
    ∷ []

abbrev foreign : List (Principal × Call)
foreign = (member "t2", Calls.claim_due hex (aware 5) 1 "worker" 60 none) ∷ []

-- Tests: a claim, and a whole history.
claim_test :
    Claim.claim_due hex (member "t1") (aware 5) 1 "worker" 60 none (one waiting)
    ≡ (ok (leased ∷ []), one leased)
unfolding Claim.claim_due Claim.claim_loop Claim.check_claim sort_by insert_by is_due put strip
    count_chars add_seconds canonical_utc is_valid_claim_owner
claim_test = refl

history-IsValid_example : IsValid (run print history empty)
history-IsValid_example = history-IsValid print history

accepted : IsAccepted (member "t1") 1 60 "worker"
unfolding strip count_chars is_valid_claim_owner
accepted = record {
  verified = refl;
  some_limit = omega arith;
  limit_bound = omega arith;
  some_lease = omega arith;
  lease_bound = omega arith;
  owner_text = refl;
  owner_length = omega arith;
  owner_pattern = refl;
}

lease_ends : add_seconds 5 60 ≡ ok 60_000_005
unfolding add_seconds
lease_ends = refl

next_lease_ends : add_seconds 6 60 ≡ ok 60_000_006
unfolding add_seconds
next_lease_ends = refl

claim_due_refines_example :
    Claim.claim_due hex (member "t1") (aware 5) 1 "worker" 60 none (one waiting)
    ≡ (ok (leased ∷ []), one leased)
unfolding sort_by insert_by is_due put strip
claim_due_refines_example =
    claim_due_refines hex (member "t1") 5 1 "worker" 60 none (one waiting) accepted lease_ends

claims_disjoint_example :
    (ms : List OutboxMessage) × (ns : List OutboxMessage) × (o' : Outbox) × (Claim.claim_due hex
        (member "t1")
        (aware 5)
        1
        "worker"
        60
        none
        (one waiting)
      ≡ (ok ms, o'))
    × ((Claim.claim_due hex (member "t1") (aware 6) 1 "worker" 60 none o').0 ≡ ok ns)
    × All (λ m. All (λ n. n.id ≢ m.id) ns) ms
claims_disjoint_example =
    claims_disjoint hex hex (member "t1") (member "t1") 5 6 1 1 "worker" "worker" 60 60 none none
      (one waiting) waiting-IsValid accepted accepted lease_ends next_lease_ends refl (omega arith)

sweep_refines_example :
    Claim.sweep_expired_sending (member "t1") (aware 70_000_000) lost 1 none (one on_its_way) ≡ (
      ok (end_with_error uncertain lost on_its_way ∷ []),
      one (end_with_error uncertain lost on_its_way),
    )
unfolding sort_by insert_by is_stuck put
sweep_refines_example =
    sweep_refines (member "t1") 70_000_000 1 lost none (one on_its_way) on_its_way-IsValid refl
      (omega arith) (omega arith)

perform-Advances_example :
    Advances "t1"
      (one waiting)
      (perform print (member "t1") (Calls.claim_due hex (aware 5) 1 "worker" 60 none) (one waiting))
perform-Advances_example =
    perform-Advances print (member "t1") (Calls.claim_due hex (aware 5) 1 "worker" 60 none)
      (one waiting) waiting-IsValid

terminal_stays_example :
    get ("t1", "k1") (run print history (one delivered)).messages ≡ some delivered
unfolding get
terminal_stays_example =
    terminal_stays print history (one delivered) ("t1", "k1") delivered delivered-IsValid refl
      (inl refl)

message_kept_example :
    (m' : OutboxMessage) × (get ("t1", "k1") (run print history (one waiting)).messages ≡ some m')
    × (identity m' ≡ identity waiting)
    × (waiting.attempts ≤ m'.attempts)
unfolding get
message_kept_example =
    message_kept print history (one waiting) ("t1", "k1") waiting waiting-IsValid refl

other_tenant : ◌≢◌ {A = String} "t1" "t2"
other_tenant = text_ne "t1" "t2" refl

tenants_isolated_example :
    get ("t1", "k1") (run print foreign (one waiting)).messages
    ≡ get ("t1", "k1") (one waiting).messages
tenants_isolated_example =
    tenants_isolated print foreign (one waiting) ("t1", "k1") waiting-IsValid (other_tenant, tt)

mark_sending_starts_example :
    Transition.mark_sending (member "t1") "out_1" "claim_a" (aware 7) (one leased)
    ≡ (ok on_its_way, one on_its_way)
unfolding find put
mark_sending_starts_example =
    mark_sending_starts (member "t1") "out_1" "claim_a" (one leased) (("t1", "k1"), leased)
      leased-IsValid refl refl 7 (refl, refl)

sending_settles_example :
    (Transition.mark_published 9 (member "t1") "out_1" "claim_a" (some (aware 9)) (one on_its_way)
      ≡ (ok delivered, one delivered))
    × (Transition.mark_failed (member "t1") "out_1" "claim_a" lost (one on_its_way)
        ≡ (ok (end_with_error failed lost on_its_way), one (end_with_error failed lost on_its_way)))
    × (Transition.mark_uncertain (member "t1") "out_1" "claim_a" lost (one on_its_way) ≡ (
      ok (end_with_error uncertain lost on_its_way),
      one (end_with_error uncertain lost on_its_way),
    ))
    × (Transition.reschedule (member "t1") "out_1" "claim_a" (aware 20) lost (one on_its_way)
        ≡ (ok (retry_at 20 lost on_its_way), one (retry_at 20 lost on_its_way)))
unfolding find put
sending_settles_example =
    sending_settles (member "t1") "out_1" "claim_a" (one on_its_way) (("t1", "k1"), on_its_way)
      on_its_way-IsValid refl refl 9 9 20 lost (refl, refl)

mark_claim_failed_cases_example :
    ((leased.attempts ≡ 0)
      → Transition.mark_claim_failed (member "t1") "out_1" "claim_a" lost (one leased)
        ≡ (ok (end_with_error failed lost leased), one (end_with_error failed lost leased)))
    × (1 ≤ leased.attempts
        → Transition.mark_claim_failed (member "t1") "out_1" "claim_a" lost (one leased)
          ≡ (err value_error, one leased))
unfolding find put
mark_claim_failed_cases_example =
    mark_claim_failed_cases (member "t1") "out_1" "claim_a" (one leased) (("t1", "k1"), leased)
      leased-IsValid refl refl lost (refl, refl)

started :
    Transition.mark_sending (member "t1") "out_1" "claim_a" (aware 7) (one leased)
    ≡ (ok on_its_way, one on_its_way)
unfolding find put Transition.mark_sending Transition.transition Transition.save canonical_utc
    validate
started = refl

mark_sending_once_example :
    Transition.mark_sending (member "t1") "out_1" "claim_a" (aware 8) (one on_its_way)
    ≡ (err (assistant conflict), one on_its_way)
mark_sending_once_example =
    mark_sending_once (member "t1") "out_1" "claim_a" 7 8 (one leased) (one on_its_way)
      {m = on_its_way} leased-IsValid started

added :
    Outbox.add print "1" 3 (member "t1") reminder_event "k1" none none empty
    ≡ (ok waiting, one waiting)
unfolding Outbox.add Outbox.new_message get put strip_field
added = refl

add_again_example :
    Outbox.add print "2" 4 (member "t1") reminder_event "k1" none none (one waiting)
    ≡ (ok waiting, one waiting)
unfolding Outbox.add Outbox.new_message get put strip_field
add_again_example =
    add_again print "1" "2" 3 4 (member "t1") reminder_event "k1" none none empty {m = waiting} refl
