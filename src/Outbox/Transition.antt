-- ===== src/Outbox/Transition.antt =====
-- The transitions of one outbox message: `_transition`, `_operator_transition` and the methods
-- that call them (src/personal_assistant/adapters/persistence/in_memory.py). The dict of updates is
-- a function on the message.
pub mod Cases
use personal_assistant.Common.{
  ℕ, ◌+◌, Bool, true, false, not, ◌&&◌, Option, none, some, String, nat_eq, ◌==◌, text_eq, pair_eq,
  if◌then◌else◌,
}
use personal_assistant.Common.Exec.{
  Exec, Result, ok, err, assistant, permission_denied, conflict, not_found, pure, lift, gets,
  modify, or_raise, raise_if, ◌>>=◌, ◌>>◌,
}
use personal_assistant.Common.Dict.{Dict, get, put, find}
use personal_assistant.Common.Text.{is_empty}
use personal_assistant.Common.Time.{Instant, Datetime}
use personal_assistant.Permissions.{Principal, require_trusted_principal}
use personal_assistant.Delivery.{
  DeliveryStatus, pending, claimed, sending, published, failed, uncertain, same_status,
  DeliveryError, canonical_utc,
}
use personal_assistant.Events.{OutboxMessage, validate}
use personal_assistant.Outbox.{Outbox, Key, canonical_option}

-- the entry that the loop over the messages stops at
abbrev pub is_entry : Principal → String → Key → OutboxMessage → Bool
is_entry p message_id key m = key.0 == p.tenant_id && m.id == message_id

abbrev pub matches_token : Option String → String → Bool
matches_token none token = false
matches_token (some t) token = t == token

abbrev pub write_message : Key → OutboxMessage → Outbox → Outbox
write_message key m o = record o { messages = put key m o.messages }

-- revalidate and store the message, and return it
unfoldable pub save : Key → OutboxMessage → Exec Outbox OutboxMessage
save key m = do updated ← lift (validate m); modify (write_message key updated); pure updated

unfoldable pub transition :
    Principal
    → String
    → String
    → DeliveryStatus
    → (OutboxMessage → OutboxMessage)
    → Exec Outbox OutboxMessage
unfolding save
transition p message_id claim_token expected update = do
  require_trusted_principal p
  raise_if (is_empty claim_token) (assistant permission_denied)
  found ← gets (λ o. find (is_entry p message_id) o.messages)
  entry ← or_raise found (assistant not_found)
  raise_if (not (matches_token entry.1.claim_token claim_token)) (assistant permission_denied)
  raise_if (not (same_status entry.1.dispatch_status expected)) (assistant conflict)
  save entry.0 (update entry.1)

unfoldable pub operator_transition :
    Principal → String → (OutboxMessage → OutboxMessage) → Exec Outbox OutboxMessage
unfolding save
operator_transition p message_id update = do
  require_trusted_principal p
  found ← gets (λ o. find (is_entry p message_id) o.messages)
  entry ← or_raise found (assistant not_found)
  raise_if (not (same_status entry.1.dispatch_status uncertain)) (assistant conflict)
  save entry.0 (update entry.1)

-- What each method writes into the message.
abbrev pub start_sending : Instant → OutboxMessage → OutboxMessage
start_sending t m = record m {
  dispatch_status = sending;
  sending_at = some t;
  attempts = m.attempts + 1;
}

abbrev pub end_claim : DeliveryStatus → OutboxMessage → OutboxMessage
end_claim target m = record m {
  dispatch_status = target;
  claim_token = none;
  claim_owner = none;
  claimed_until = none;
}

abbrev pub end_with_error : DeliveryStatus → DeliveryError → OutboxMessage → OutboxMessage
end_with_error target error m = record (end_claim target m) { last_error = some error }

abbrev pub publish : Instant → OutboxMessage → OutboxMessage
publish t m = record (end_claim published m) { published_at = some t; last_error = none }

abbrev pub release_until : Option Instant → OutboxMessage → OutboxMessage
release_until next m = record (end_claim pending m) { next_attempt_at = next }

abbrev pub retry_at : Instant → DeliveryError → OutboxMessage → OutboxMessage
retry_at next error m = record (end_claim pending m) {
  next_attempt_at = some next;
  sending_at = none;
  last_error = some error;
}

abbrev pub resolve_delivered : Instant → OutboxMessage → OutboxMessage
resolve_delivered t m = record m {
  dispatch_status = published;
  published_at = some t;
  last_error = none;
}

abbrev pub resolve_retry : Instant → OutboxMessage → OutboxMessage
resolve_retry next m = record m {
  dispatch_status = pending;
  next_attempt_at = some next;
  sending_at = none;
  published_at = none;
}

-- The methods. The timestamps are made canonical before the call, as Python's arguments are.
unfoldable pub mark_sending : Principal → String → String → Datetime → Exec Outbox OutboxMessage
mark_sending p message_id claim_token started_at = do
  t ← lift (canonical_utc started_at)
  transition p message_id claim_token claimed (start_sending t)

unfoldable pub mark_claim_failed :
    Principal → String → String → DeliveryError → Exec Outbox OutboxMessage
mark_claim_failed p message_id claim_token error =
    transition p message_id claim_token claimed (end_with_error failed error)

-- `published_at or datetime.now(UTC)`
unfoldable pub mark_published :
    Instant → Principal → String → String → Option Datetime → Exec Outbox OutboxMessage
mark_published now p message_id claim_token none =
    transition p message_id claim_token sending (publish now)
mark_published now p message_id claim_token (some published_at) = do
  t ← lift (canonical_utc published_at)
  transition p message_id claim_token sending (publish t)

unfoldable pub mark_failed : Principal → String → String → DeliveryError → Exec Outbox OutboxMessage
mark_failed p message_id claim_token error =
    transition p message_id claim_token sending (end_with_error failed error)

unfoldable pub mark_uncertain :
    Principal → String → String → DeliveryError → Exec Outbox OutboxMessage
mark_uncertain p message_id claim_token error =
    transition p message_id claim_token sending (end_with_error uncertain error)

unfoldable pub release : Principal → String → String → Option Datetime → Exec Outbox OutboxMessage
release p message_id claim_token next_attempt_at = do
  next ← lift (canonical_option next_attempt_at)
  transition p message_id claim_token claimed (release_until next)

unfoldable pub reschedule :
    Principal → String → String → Datetime → DeliveryError → Exec Outbox OutboxMessage
reschedule p message_id claim_token next_attempt_at error = do
  next ← lift (canonical_utc next_attempt_at)
  transition p message_id claim_token sending (retry_at next error)

unfoldable pub resolve_uncertain_delivered :
    Principal → String → Datetime → Exec Outbox OutboxMessage
resolve_uncertain_delivered p message_id published_at = do
  t ← lift (canonical_utc published_at)
  operator_transition p message_id (resolve_delivered t)

unfoldable pub resolve_uncertain_retry : Principal → String → Datetime → Exec Outbox OutboxMessage
resolve_uncertain_retry p message_id next_attempt_at = do
  next ← lift (canonical_utc next_attempt_at)
  operator_transition p message_id (resolve_retry next)
