-- ===== src/Outbox.antt =====
-- The in-memory outbox: `InMemoryOutbox` (src/personal_assistant/adapters/persistence/in_memory.py).
-- A method is an `Exec` of the four dicts. The lock makes each method one atomic step, and a copy
-- of a message is the message. `uuid4().hex` is the stream `hex`, one text to a call; SHA-256 over
-- the JSON of a write is the parameter `fingerprint`; `datetime.now(UTC)` is an argument.
pub mod Claim
pub mod Transition
pub mod Invariant
pub mod Advance
pub mod Calls
pub mod History
pub mod Sends
pub mod Replay
pub mod Lease
mod Tests
use Prim.Native.String.{◌++◌}
use personal_assistant.Common.{
  Eq, select, ℕ, suc, ◌+◌, Bool, true, false, not, ◌&&◌, ◌||◌, Option, none, some, List, [], ◌∷◌,
  map, String, leb, ltb, nat_eq, is_none, is_some, ◌==◌, text_eq, pair_eq, if◌then◌else◌,
}
use personal_assistant.Common.Exec.{
  Exec, Result, ok, err, Exn, assistant, permission_denied, conflict, not_found, value_error,
  key_error, pure, raise, lift, gets, modify, or_raise, raise_if, ◌>>=◌, ◌>>◌,
}
use personal_assistant.Common.Dict.{Dict, get, put, find}
use personal_assistant.Common.Sort.{sort_by}
use personal_assistant.Common.Text.{strip, strip_field, is_empty, count_chars, text_leb}
use personal_assistant.Common.Time.{Instant, Datetime, naive, aware, add_seconds}
pub use personal_assistant.Common.Index.{Key, key_eq, is_taken}
use personal_assistant.Permissions.{Principal, require_trusted_principal}
use personal_assistant.Delivery.{
  DeliveryStatus, pending, claimed, sending, uncertain, same_status, DeliveryError, canonical_utc,
  is_valid_claim_owner, max_claim_limit, max_claim_lease_seconds, max_claim_owner_length,
}
use personal_assistant.Events.{CloudEvent, OutboxMessage, validate}

pub record Outbox : Type 0 where
  pub messages : Dict Key OutboxMessage  -- `_messages_by_key`
  pub key_by_message_id : Dict Key String
  pub key_by_event_id : Dict Key String
  pub fingerprints : Dict Key String

abbrev pub empty : Outbox
empty = record { messages = []; key_by_message_id = []; key_by_event_id = []; fingerprints = [] }

-- what `add` fingerprints
pub record Write : Type 0 where
  pub event : CloudEvent
  pub next_attempt_at : Option Instant
  pub message_id : Option String

abbrev pub canonical_option : Option Datetime → Result (Option Instant)
canonical_option none = ok none
canonical_option (some (naive t)) = err value_error
canonical_option (some (aware t)) = ok (some t)

-- `OutboxMessage.model_validate(values)` for a new message: texts are stripped, two must not be
-- empty, and every other field has its default
unfoldable pub new_message :
    Principal → CloudEvent → String → Option Instant → String → Instant → Result OutboxMessage
new_message p event idempotency_key next_attempt_at id created_at =
    if is_empty (strip_field p.tenant_id) || is_empty (strip_field idempotency_key)
    then err value_error
    else ok (record {
      id = strip_field id;
      tenant_id = strip_field p.tenant_id;
      event = event;
      idempotency_key = strip_field idempotency_key;
      dispatch_status = pending;
      claim_token = none;
      claim_owner = none;
      claimed_until = none;
      next_attempt_at = next_attempt_at;
      attempts = 0;
      created_at = created_at;
      sending_at = none;
      published_at = none;
      last_error = none;
    })

abbrev pub id_or : Option String → String → String
id_or none fresh = fresh
id_or (some id) fresh = id

-- the four writes of `add`
abbrev pub store : Key → OutboxMessage → Key → Key → String → String → Outbox → Outbox
store key message message_key event_key idempotency_key print o = record {
  messages = put key message o.messages;
  key_by_message_id = put message_key idempotency_key o.key_by_message_id;
  key_by_event_id = put event_key idempotency_key o.key_by_event_id;
  fingerprints = put key print o.fingerprints;
}

-- `existing is not None`: the stored fingerprint decides
abbrev pub replay : OutboxMessage → Option String → String → Exec Outbox OutboxMessage
replay existing none print = raise key_error
replay existing (some old) print = do
  raise_if (not (old == print)) (assistant conflict)
  pure existing

abbrev pub add_new :
    Principal
    → CloudEvent
    → String
    → Option Instant
    → String
    → Instant
    → String
    → Exec Outbox OutboxMessage
add_new p event idempotency_key next_attempt_at id created_at print = do
  message ← lift (new_message p event idempotency_key next_attempt_at id created_at)
  by_message ← gets (λ o. get (p.tenant_id, message.id) o.key_by_message_id)
  raise_if (is_taken by_message idempotency_key) (assistant conflict)
  by_event ← gets (λ o. get (p.tenant_id, event.id) o.key_by_event_id)
  raise_if (is_taken by_event idempotency_key) (assistant conflict)
  modify (
      store (p.tenant_id, idempotency_key) message (p.tenant_id, message.id) (p.tenant_id, event.id)
        idempotency_key print)
  pure message

abbrev pub replay_or_add :
    Option OutboxMessage
    → Principal
    → CloudEvent
    → String
    → Option Instant
    → String
    → Instant
    → String
    → Exec Outbox OutboxMessage
replay_or_add none p event idempotency_key next_attempt_at id created_at print =
    add_new p event idempotency_key next_attempt_at id created_at print
replay_or_add (some existing) p event idempotency_key next_attempt_at id created_at print = do
  old ← gets (λ o. get (p.tenant_id, idempotency_key) o.fingerprints)
  replay existing old print

-- `uuid` is what `uuid4().hex` gives where no message id is passed, and `created_at` the clock.
unfoldable pub add :
    (Write → String)
    → String
    → Instant
    → Principal
    → CloudEvent
    → String
    → Option Datetime
    → Option String
    → Exec Outbox OutboxMessage
add fingerprint uuid created_at p event idempotency_key next_attempt_at message_id = do
  require_trusted_principal p
  raise_if (not (event.tenant_id == p.tenant_id)) (assistant permission_denied)
  next ← lift (canonical_option next_attempt_at)
  let print =
      fingerprint (record { event = event; next_attempt_at = next; message_id = message_id })
  existing ← gets (λ o. get (p.tenant_id, idempotency_key) o.messages)
  replay_or_add existing p event idempotency_key next (id_or message_id ("out_" ++ uuid)) created_at
      print

-- `list_for_tenant`: the messages under the principal's tenant
unfoldable pub list_for_tenant : Principal → Exec Outbox (List OutboxMessage)
list_for_tenant p = do
  require_trusted_principal p
  gets (λ o. map (λ e. e.1) (select (λ e. e.0.0 == p.tenant_id) o.messages))
