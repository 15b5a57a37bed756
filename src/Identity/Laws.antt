-- ===== src/Identity/Laws.antt =====
-- The canonical documents and what is derived from them.
use text.Mathlib.TextLemmas.{append_cancel_left}
use personal_assistant.Common.{String, ◌≡◌}
use personal_assistant.Common.Json.{quote_inj}
use personal_assistant.Identity.{
  Identity, Payload, identity_document, payload_document, effect_document, idempotency_key, derive,
  effect_ids,
}

pub identity_document_inj :
    (a b : Identity) (r q : String)
    → identity_document a r ≡ identity_document b q
    → (a ≡ b) × (r ≡ q)
unfolding identity_document
identity_document_inj a b r q h =
    let (channel, h) = quote_inj a.channel b.channel _ _ (append_cancel_left _ _ _ h) in
    let (conversation, h) =
      quote_inj a.conversation_id b.conversation_id _ _ (append_cancel_left _ _ _ h) in
    let (principal, h) = quote_inj a.principal_id b.principal_id _ _ (append_cancel_left _ _ _ h) in
    let (event, h) =
      quote_inj a.source_event_id b.source_event_id _ _ (append_cancel_left _ _ _ h) in
    let (tenant, h) = quote_inj a.tenant_id b.tenant_id _ _ (append_cancel_left _ _ _ h) in
    (
      λ i. record {
        tenant_id = tenant i;
        channel = channel i;
        principal_id = principal i;
        conversation_id = conversation i;
        source_event_id = event i;
      },
      append_cancel_left _ _ _ h,
    )

pub payload_document_inj : (a b : Payload) → payload_document a ≡ payload_document b → a ≡ b
unfolding payload_document
payload_document_inj a b h =
    let (recipient, h) = quote_inj a.recipient b.recipient _ _ (append_cancel_left _ _ _ h) in
    let (text, h) = quote_inj a.text b.text _ _ (append_cancel_left _ _ _ h) in
    let (timezone, h) = quote_inj a.timezone b.timezone _ _ (append_cancel_left _ _ _ h) in
    λ i. record { text = text i; recipient = recipient i; timezone = timezone i }

effect_document_inj :
    (n : String) (a b : Identity) → effect_document n a ≡ effect_document n b → a ≡ b
unfolding effect_document
effect_document_inj n a b h = (identity_document_inj a b _ _ (append_cancel_left _ _ _ h)).0

module _ (sha256 : String → String) where
  -- the hash tells the two documents apart
  abbrev pub NoCollision : String → String → Type 0
  NoCollision x y = sha256 x ≡ sha256 y → x ≡ y

  -- no two documents that are hashed for the two identities collide
  pub record Apart (a b : Identity) : Type 0 where
    pub identity : NoCollision (identity_document a "") (identity_document b "")
    pub effect :
        (namespace : String)
        → NoCollision (effect_document namespace a) (effect_document namespace b)

  -- two identities meet in the key or in one of the ids of the effects
  pub data Share (a b : Identity) : Type 0 where
    key : idempotency_key sha256 a ≡ idempotency_key sha256 b → Share a b
    calendar_event :
        (effect_ids sha256 a).calendar_event_id ≡ (effect_ids sha256 b).calendar_event_id
        → Share a b
    reminder : (effect_ids sha256 a).reminder_id ≡ (effect_ids sha256 b).reminder_id → Share a b
    created_event :
        (effect_ids sha256 a).reminder_created_event_id
          ≡ (effect_ids sha256 b).reminder_created_event_id
        → Share a b
    requested_event :
        (effect_ids sha256 a).notification_requested_event_id
          ≡ (effect_ids sha256 b).notification_requested_event_id
        → Share a b
    outbox_message :
        (effect_ids sha256 a).outbox_message_id ≡ (effect_ids sha256 b).outbox_message_id
        → Share a b

  derive_inj :
      (namespace prefix : String) (a b : Identity)
      → Apart a b
      → derive sha256 namespace prefix a ≡ derive sha256 namespace prefix b
      → a ≡ b
  unfolding derive
  derive_inj namespace prefix a b apart h =
      effect_document_inj namespace a b (apart.effect namespace (append_cancel_left prefix _ _ h))

  -- Two identities whose documents SHA-256 tells apart share the idempotency key, or an id of any of
  -- the five effects, only if they are the same in every field: the canonical documents leave no
  -- ambiguity, whatever quotes, backslashes and control characters the fields hold.
  pub identity_unique : (a b : Identity) → Apart a b → Share a b → a ≡ b
  unfolding idempotency_key effect_ids
  identity_unique a b apart (key h) =
      (identity_document_inj a b "" "" (apart.identity (append_cancel_left "reminder:v2:" _ _ h))).0
  identity_unique a b apart (calendar_event h) = derive_inj _ _ a b apart h
  identity_unique a b apart (reminder h) = derive_inj _ _ a b apart h
  identity_unique a b apart (created_event h) = derive_inj _ _ a b apart h
  identity_unique a b apart (requested_event h) = derive_inj _ _ a b apart h
  identity_unique a b apart (outbox_message h) = derive_inj _ _ a b apart h
