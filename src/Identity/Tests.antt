-- ===== src/Identity/Tests.antt =====
-- Identities of sample requests.
use personal_assistant.Common.{◌≡◌, refl}
use personal_assistant.Common.Json.{quote, write_text, escape_char}
use personal_assistant.Identity.{Identity, identity_document}
use personal_assistant.Identity.Laws.{Apart, key, identity_unique}

abbrev identity : Identity
identity = record {
  tenant_id = "t1";
  channel = "telegram";
  principal_id = "p\"1";
  conversation_id = "c1";
  source_event_id = "e\n1";
}

document_test :
    identity_document identity ""
    ≡ "{\"channel\":\"telegram\",\"conversation_id\":\"c1\",\"principal_id\":\"p\\\"1\",\"schema\":\"personal-assistant.reminder-idempotency-identity\",\"source_event_id\":\"e\\n1\",\"tenant_id\":\"t1\",\"version\":2}"
unfolding identity_document quote write_text escape_char
document_test = refl

-- a hash that keeps the document tells any two apart
apart : Apart (λ x. x) identity identity
apart = record { identity = λ h. h; effect = λ n h. h }

identity_unique_example : identity ≡ identity
identity_unique_example = identity_unique (λ x. x) identity identity apart (key refl)
