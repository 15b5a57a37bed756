-- ===== src/Commands/Inputs.antt =====
-- The input of the workflow and the answer made from its result, with the validators of
-- `ReminderWorkflowInput` (src/personal_assistant/application/dto/reminders.py).
use Prim.Native.String.{◌++◌}
use personal_assistant.Common.{
  Bool, true, ◌||◌, Option, none, some, [], ◌∷◌, String, ◌==◌, text_eq, if◌then◌else◌,
}
use personal_assistant.Common.Exec.{Result, ok, err, value_error}
use personal_assistant.Common.Pure
use personal_assistant.Common.Dict.{Dict}
use personal_assistant.Common.Text.{strip_field, is_empty}
use personal_assistant.Permissions.{Principal}
use personal_assistant.Events.{Json, text, other}
use personal_assistant.Identity
use personal_assistant.Identity.{new_identity}
use personal_assistant.Reminders.{ClarificationReason}
use personal_assistant.Creation.{Environment, ReminderWorkflowInput, ReminderWorkflowResult}
use personal_assistant.Creation.Answers.{reason_value}
use personal_assistant.Commands.{CommandKind, CommandResult, NormalizedMessage, new_result}

-- a field that is stripped and not empty
abbrev pub filled : String → Result String
filled s = if is_empty (strip_field s) then err value_error else ok (strip_field s)

abbrev pub is_channel : String → Bool
is_channel s = s == "telegram" || s == "whatsapp"

-- the validators of `ReminderWorkflowInput`
unfoldable pub new_input : ReminderWorkflowInput → Result ReminderWorkflowInput
new_input r = Pure.◌>>=◌ (filled r.message_id) (λ message_id.
    Pure.◌>>=◌ (filled r.source_event_id) (λ source_event_id.
      Pure.◌>>=◌ (filled r.conversation_id) (λ conversation_id.
        Pure.◌>>=◌ (filled r.text) (λ content. Pure.◌>>=◌ (filled r.recipient) (λ recipient.
          Pure.◌>>=◌ (filled r.timezone) (λ timezone.
            if is_channel (strip_field r.channel)
            then ok (record r {
              message_id = message_id;
              source_event_id = source_event_id;
              conversation_id = conversation_id;
              text = content;
              channel = strip_field r.channel;
              recipient = recipient;
              timezone = timezone;
            })
            else err value_error))))))

-- `reminder_idempotency_key`
unfoldable pub message_key : Environment → Principal → NormalizedMessage → Result String
message_key env p m =
    Pure.◌>>=◌
      (new_identity env.nfc env.casefold p.tenant_id m.channel p.principal_id m.conversation_id
        m.source_event_id)
      (λ identity. ok (Identity.idempotency_key env.sha256 identity))

abbrev pub reason_json : Option ClarificationReason → String → Json
reason_json none prefix = other "null"
reason_json (some reason) prefix = text (prefix ++ reason_value reason)

abbrev pub version_json : Option ClarificationReason → Json
version_json none = other "null"
version_json (some reason) = text "v1"

-- `_reminder_result_metadata`
abbrev pub result_metadata : ReminderWorkflowResult → Dict String Json
result_metadata x =
    ("idempotency_key", text x.idempotency_key)
    ∷ ("source_event_id", text x.source_event_id)
    ∷ ("payload_fingerprint", text x.payload_fingerprint)
    ∷ ("timezone", text x.timezone)
    ∷ ("clarification_reason", reason_json x.clarification_reason "")
    ∷ ("clarification_reply_id", reason_json x.clarification_reason "reminder_")
    ∷ ("clarification_reply_version", version_json x.clarification_reason)
    ∷ []

abbrev pub workflow_answer : CommandKind → ReminderWorkflowResult → Result CommandResult
workflow_answer kind x = new_result (record {
  status = x.status;
  kind = kind;
  reply = x.reply;
  approval_id = none;
  dispatch_required = true;
  metadata = result_metadata x;
})
