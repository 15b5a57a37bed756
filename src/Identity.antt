-- ===== src/Identity.antt =====
-- The idempotency identity of a reminder request, its payload, and the ids derived from them
-- (src/personal_assistant/domain/reminders/idempotency.py). SHA-256, Unicode's NFC and
-- `str.casefold` are the parameters `sha256`, `nfc` and `casefold`. A validator runs before pydantic
-- strips the field.
pub mod Laws
mod Tests
use Prim.Native.String.{◌++◌}
use personal_assistant.Common.{String, if◌then◌else◌}
use personal_assistant.Common.Exec.{Result, ok, err, value_error}
use personal_assistant.Common.Pure.{◌>>=◌}
use personal_assistant.Common.Text.{strip, strip_field, is_empty}
use personal_assistant.Common.Json.{quote}

pub record Identity : Type 0 where
  pub tenant_id : String
  pub channel : String
  pub principal_id : String
  pub conversation_id : String
  pub source_event_id : String

pub record Payload : Type 0 where
  pub text : String
  pub recipient : String
  pub timezone : String

pub record EffectIds : Type 0 where
  pub calendar_event_id : String
  pub reminder_id : String
  pub reminder_created_event_id : String
  pub notification_requested_event_id : String
  pub outbox_message_id : String

-- `json.dumps(canonical_document())` with sorted keys, in front of what follows it
unfoldable pub identity_document : Identity → String → String
identity_document i rest =
    "{\"channel\":"
    ++ quote i.channel (
        ",\"conversation_id\":"
        ++ quote i.conversation_id (
            ",\"principal_id\":"
            ++ quote i.principal_id (
                ",\"schema\":\"personal-assistant.reminder-idempotency-identity\",\"source_event_id\":"
                ++ quote i.source_event_id
                    (",\"tenant_id\":" ++ quote i.tenant_id (",\"version\":2}" ++ rest)))))

unfoldable pub payload_document : Payload → String
payload_document p =
    "{\"recipient\":"
    ++ quote p.recipient (
        ",\"schema\":\"personal-assistant.reminder-idempotency-payload\",\"text\":"
        ++ quote p.text (",\"timezone\":" ++ quote p.timezone ",\"version\":2}"))

unfoldable pub effect_document : String → Identity → String
effect_document namespace i =
    "{\"identity\":"
    ++ identity_document i (
        ",\"namespace\":"
        ++ quote namespace ",\"schema\":\"personal-assistant.reminder-effect-id\",\"version\":2}")

module _ (nfc : String → String) where
  -- `_normalize_text`
  unfoldable pub normalize_text : String → Result String
  normalize_text value =
      if is_empty (nfc (strip value)) then err value_error else ok (nfc (strip value))

  -- the validators of `ReminderPayload`
  unfoldable pub new_payload : String → String → String → Result Payload
  unfolding normalize_text
  new_payload text recipient timezone = do
    text' ← normalize_text text
    recipient' ← normalize_text recipient
    timezone' ← normalize_text timezone
    ok (record {
      text = strip_field text';
      recipient = strip_field recipient';
      timezone = strip_field timezone';
    })

  -- the validators of `ReminderIdempotencyIdentity`
  unfoldable pub new_identity :
      (String → String) → String → String → String → String → String → Result Identity
  unfolding normalize_text
  new_identity casefold tenant_id channel principal_id conversation_id source_event_id = do
    tenant ← normalize_text tenant_id
    channel' ← normalize_text channel
    principal ← normalize_text principal_id
    conversation ← normalize_text conversation_id
    event ← normalize_text source_event_id
    ok (record {
      tenant_id = strip_field tenant;
      channel = strip_field (casefold channel');
      principal_id = strip_field principal;
      conversation_id = strip_field conversation;
      source_event_id = strip_field event;
    })

module _ (sha256 : String → String) where
  unfoldable pub idempotency_key : Identity → String
  idempotency_key i = "reminder:v2:" ++ sha256 (identity_document i "")

  unfoldable pub payload_fingerprint : Payload → String
  payload_fingerprint p = sha256 (payload_document p)

  -- `derive`
  unfoldable pub derive : String → String → Identity → String
  derive namespace prefix i = prefix ++ sha256 (effect_document namespace i)

  unfoldable pub effect_ids : Identity → EffectIds
  unfolding derive
  effect_ids i = record {
    calendar_event_id = derive "calendar.event" "cal_v2_" i;
    reminder_id = derive "scheduler.reminder" "rem_v2_" i;
    reminder_created_event_id = derive "event.reminder.created" "evt_reminder_created_v2_" i;
    notification_requested_event_id =
        derive "event.notification.requested" "evt_notification_requested_v2_" i;
    outbox_message_id = derive "outbox.message" "out_v2_" i;
  }
