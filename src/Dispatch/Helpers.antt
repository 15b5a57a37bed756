-- ===== src/Dispatch/Helpers.antt =====
-- The helpers of the dispatch
-- (src/personal_assistant/application/use_cases/reminder_notifications_helpers.py) and what passes
-- through the notification port (src/personal_assistant/application/ports/notifications.py).
use Prim.Native.String.{◌++◌}
use personal_assistant.Common.{
  ℕ, zero, suc, ◌+◌, ◌/◌, ◌%◌, Bool, true, false, not, ◌&&◌, ◌||◌, Option, none, some, String, leb,
  ltb, nat_eq, ◌==◌, text_eq, if◌then◌else◌,
}
use personal_assistant.Common.Exec.{Result, ok, err, value_error, runtime_error, index_error}
use personal_assistant.Common.Pure
use personal_assistant.Common.Pure.{◌>>=◌, ◌>>◌}
use personal_assistant.Common.Dict.{get}
use personal_assistant.Common.Text.{strip, is_empty, is_falsy}
use personal_assistant.Common.Time.{Instant, add_seconds, max_instant}
use personal_assistant.Delivery.{
  DeliveryError, DeliveryErrorCategory, DeliveryErrorCode, network, rejected, internal,
  provider_unavailable, authentication_failed, request_rejected, internal_error,
}
use personal_assistant.Events.{Json, text, other, OutboxMessage}

abbrev pub max_delivery_attempts : ℕ
max_delivery_attempts = 4

abbrev pub reminder_event_type : String
reminder_event_type = "notification.requested"

-- `RETRY_DELAYS[attempts - 1]` in seconds; the index -1 is the last
unfoldable pub retry_delay : ℕ → Result ℕ
retry_delay attempts =
    if nat_eq attempts 1
    then ok 30
    else if nat_eq attempts 2
    then ok 120
    else if nat_eq attempts 3 || nat_eq attempts 0
    then ok 300
    else err index_error

-- no media, and sent at once
pub record NotificationRequest : Type 0 where
  pub channel : String
  pub recipient : String
  pub body : String
  pub idempotency_key : String

pub data Outcome : Type 0 where
  success known_transient permanent unknown_outcome : Outcome

-- what the port returns, as far as the dispatch reads it
pub record NotificationResult : Type 0 where
  pub notification_id : Option String
  pub channel : String
  pub idempotency_key : String
  pub outcome : Outcome
  pub provider_code : Option ℕ
  pub retry_after : Option ℕ

-- `_claim_token`
unfoldable pub claim_token : OutboxMessage → Result String
claim_token m = do
  Pure.raise_if (is_falsy m.claim_token) runtime_error
  Pure.or_raise m.claim_token runtime_error

abbrev digit : ℕ → String
digit d =
    if nat_eq d 0
    then "0"
    else if nat_eq d 1
    then "1"
    else if nat_eq d 2
    then "2"
    else if nat_eq d 3
    then "3"
    else if nat_eq d 4
    then "4"
    else if nat_eq d 5
    then "5"
    else if nat_eq d 6
    then "6"
    else if nat_eq d 7
    then "7"
    else if nat_eq d 8
    then "8"
    else "9"

-- a number has at most as many digits as its successor counts
decimal_on : ℕ → ℕ → String
decimal_on zero n = ""
decimal_on (suc fuel) n =
    let front = decimal_on fuel (n / 10) in if ltb n 10 then digit n else front ++ digit (n % 10)

-- `str(n)`
unfoldable pub decimal : ℕ → String
unfolding decimal_on
decimal n = decimal_on (suc n) n

-- `_attempt_idempotency_key`
unfoldable pub attempt_key : OutboxMessage → String
attempt_key m = m.id ++ ":attempt:" ++ decimal (m.attempts + 1)

-- a text under the key; a value of another type raises what the caller catches the same way
abbrev pub text_at : Option Json → Result String
text_at none = err value_error
text_at (some (other json)) = err value_error
text_at (some (text s)) = ok s

-- `_notification_request`
unfoldable pub notification_request : OutboxMessage → String → Result NotificationRequest
notification_request m dispatch_key = do
  Pure.raise_if (not (m.event.type == reminder_event_type)) value_error
  Pure.raise_if (is_falsy m.event.subject) value_error
  channel ← text_at (get "channel" m.event.payload)
  Pure.raise_if (not (channel == "telegram" || channel == "whatsapp")) value_error
  recipient ← text_at (get "recipient" m.event.payload)
  Pure.raise_if (is_empty (strip recipient)) value_error
  body ← text_at (get "body" m.event.payload)
  Pure.raise_if (is_empty (strip body)) value_error
  ok (record {
    channel = channel;
    recipient = recipient;
    body = body;
    idempotency_key = dispatch_key;
  })

abbrev pub has_code : ℕ → Option ℕ → Bool
has_code n none = false
has_code n (some code) = nat_eq code n

-- `result.outcome == "known-transient"`
abbrev pub is_transient : Outcome → Bool
is_transient known_transient = true
is_transient _ = false

-- `code is None or code >= 500`
abbrev pub is_server_fault : Option ℕ → Bool
is_server_fault none = true
is_server_fault (some code) = leb 500 code

abbrev pub error_of : DeliveryErrorCategory → DeliveryErrorCode → Option ℕ → Instant → DeliveryError
error_of category code provider_code now = record {
  category = category;
  code = code;
  provider_code = provider_code;
  occurred_at = now;
}

-- `_known_error`
unfoldable pub known_error : NotificationResult → Instant → DeliveryError
known_error r now =
    if has_code 429 r.provider_code
    then error_of DeliveryErrorCategory.rate_limited DeliveryErrorCode.rate_limited r.provider_code
        now
    else if is_transient r.outcome && is_server_fault r.provider_code
    then error_of network provider_unavailable r.provider_code now
    else if has_code 401 r.provider_code || has_code 403 r.provider_code
    then error_of rejected authentication_failed r.provider_code now
    else error_of rejected request_rejected r.provider_code now

-- `_unknown_error`
abbrev pub unknown_error : Instant → Option ℕ → DeliveryError
unknown_error now provider_code =
    error_of DeliveryErrorCategory.unknown DeliveryErrorCode.unknown provider_code now

-- `_invalid_payload_error`
abbrev pub invalid_payload_error : Instant → DeliveryError
invalid_payload_error now = error_of internal internal_error none now

abbrev pub longest : ℕ → Option ℕ → ℕ
longest seconds none = seconds
longest seconds (some retry_after) = if ltb seconds retry_after then retry_after else seconds

abbrev pub or_max : Result Instant → Instant
or_max (ok t) = t
or_max (err x) = max_instant

-- `_retry_at`
unfoldable pub retry_time : Instant → ℕ → Option ℕ → Instant
retry_time now default_delay retry_after =
    or_max (add_seconds now (longest default_delay retry_after))
