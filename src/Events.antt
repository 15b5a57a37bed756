-- ===== src/Events.antt =====
-- Event envelopes and outbox messages (src/personal_assistant/application/dto/events.py). The
-- field validators on time zones and timestamps are behind the types: a message holds instants.
use personal_assistant.Common.{
  ℕ, Bool, not, ◌&&◌, ◌||◌, Option, String, leb, nat_eq, is_none, is_some, if◌then◌else◌,
}
use personal_assistant.Common.Exec.{Result, ok, err, value_error}
use personal_assistant.Common.Dict.{Dict}
use personal_assistant.Common.Text.{is_falsy}
use personal_assistant.Common.Time.{Instant}
use personal_assistant.Delivery.{
  DeliveryStatus, pending, claimed, sending, published, failed, uncertain, DeliveryError,
}

-- A value of `data`: a text, or a value of another JSON type by its serialization.
pub data Json : Type 0 where
  text : String → Json
  other : String → Json

pub record CloudEvent : Type 0 where
  pub id : String
  pub specversion : String
  pub type : String
  pub source : String
  pub subject : Option String
  pub tenant_id : String
  pub correlation_id : String
  pub causation_id : Option String
  pub source_event_id : Option String
  pub payload_fingerprint : Option String
  pub timezone : Option String
  pub payload : Dict String Json  -- `data`
  pub time : Instant

pub record OutboxMessage : Type 0 where
  pub id : String
  pub tenant_id : String
  pub event : CloudEvent
  pub idempotency_key : String
  pub dispatch_status : DeliveryStatus
  pub claim_token : Option String
  pub claim_owner : Option String
  pub claimed_until : Option Instant
  pub next_attempt_at : Option Instant
  pub attempts : ℕ
  pub created_at : Instant
  pub sending_at : Option Instant
  pub published_at : Option Instant
  pub last_error : Option DeliveryError

-- all of token, owner and lease are `None`
abbrev pub has_no_claim : OutboxMessage → Bool
has_no_claim m = is_none m.claim_token && is_none m.claim_owner && is_none m.claimed_until

-- token, owner and lease are there, the two texts not empty
abbrev pub has_claim : OutboxMessage → Bool
has_claim m =
    not (is_falsy m.claim_token) && not (is_falsy m.claim_owner) && is_some m.claimed_until

-- the test of `require_state_metadata`, by status
abbrev pub has_metadata : DeliveryStatus → OutboxMessage → Bool
has_metadata pending m = has_no_claim m && is_none m.sending_at && is_none m.published_at
has_metadata claimed m = has_claim m && is_none m.sending_at && is_none m.published_at
has_metadata sending m =
    has_claim m && is_some m.sending_at && leb 1 m.attempts && is_none m.published_at
has_metadata published m = is_some m.published_at && is_none m.last_error && has_no_claim m
has_metadata failed m =
    is_some m.last_error
    && ((is_none m.sending_at && nat_eq m.attempts 0) || (is_some m.sending_at && leb 1 m.attempts))
    && is_none m.published_at
    && has_no_claim m
has_metadata uncertain m =
    is_some m.sending_at
    && is_some m.last_error
    && leb 1 m.attempts
    && is_none m.published_at
    && has_no_claim m

-- `OutboxMessage.model_validate` of a message's own fields, whose texts are stripped already
unfoldable pub validate : OutboxMessage → Result OutboxMessage
validate m = if has_metadata m.dispatch_status m then ok m else err value_error
