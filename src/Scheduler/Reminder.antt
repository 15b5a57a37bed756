-- ===== src/Scheduler/Reminder.antt =====
-- A scheduled reminder and its validator (`ScheduledReminder`,
-- src/personal_assistant/application/ports/scheduler.py).
use personal_assistant.Common.{ℕ, Bool, not, ◌&&◌, ◌||◌, Option, String, leb, nat_eq}
use personal_assistant.Common.Exec.{Result, ok, value_error}
use personal_assistant.Common.Pure
use personal_assistant.Common.Pure.{◌>>=◌, ◌>>◌}
use personal_assistant.Common.Text.{is_empty, count_chars, all_chars}
use personal_assistant.Common.Time.{Instant}
use personal_assistant.Delivery.{DeliveryStatus, pending, same_status, DeliveryError}

pub record ScheduledReminder : Type 0 where
  pub reminder_id : String
  pub tenant_id : String
  pub calendar_event_id : String
  pub notify_at : Instant
  pub timezone : String
  pub source_event_id : String
  pub payload_fingerprint : String
  pub channel : String
  pub recipient : String
  pub body : String
  pub idempotency_key : String
  pub delivery_status : DeliveryStatus
  pub attempts : ℕ
  pub next_attempt_at : Option Instant
  pub sending_at : Option Instant
  pub published_at : Option Instant
  pub last_error : Option DeliveryError
  pub sent : Bool

abbrev pub is_lower_hex : ℕ → Bool
is_lower_hex c = (leb 48 c && leb c 57) || (leb 97 c && leb c 102)

-- the pattern `^[0-9a-f]{64}$`
unfoldable pub is_fingerprint : String → Bool
is_fingerprint s = nat_eq (count_chars s) 64 && all_chars is_lower_hex s

-- `ScheduledReminder.model_validate`; `sent` follows the status
unfoldable pub validate_reminder :
    (String → Option String) → ScheduledReminder → Result ScheduledReminder
validate_reminder zone job = do
  Pure.raise_if (is_empty job.timezone) value_error
  Pure.raise_if (is_empty job.source_event_id) value_error
  Pure.raise_if (not (is_fingerprint job.payload_fingerprint)) value_error
  timezone ← Pure.or_raise (zone job.timezone) value_error
  ok (record job { timezone = timezone; sent = not (same_status job.delivery_status pending) })
