-- ===== src/Dispatch/Rounds.antt =====
-- What the other blocks of a round leave in the outbox.
use personal_assistant.Common.{
  Bool, false, ◌≡◌, refl, sym, ◌∙◌, ap, subst, inl, inr, none, some, String, text_eq,
}
use personal_assistant.Common.Exec.{
  Exec, ok, err-ne-ok, Result-cases, lift, raise, pure, ◌>>=◌, ◌>>◌,
}
use personal_assistant.Common.Leaves.{Leaves}
use personal_assistant.Common.Time.{Instant, aware, add_seconds}
use personal_assistant.Permissions.{Principal}
use personal_assistant.Delivery.{
  DeliveryStatus, pending, claimed, sending, failed, uncertain, canonical_utc,
}
use personal_assistant.Events.{OutboxMessage}
use personal_assistant.Outbox.{Outbox}
use personal_assistant.Outbox.Invariant
use personal_assistant.Outbox.Transition.{
  transition, start_sending, end_with_error, release_until, mark_sending, mark_claim_failed,
  mark_uncertain, release,
}
use personal_assistant.UnitOfWork.{Stores, Transaction, enter, commit, with_transaction, on_outbox}
use personal_assistant.Dispatch.{
  Environment, confirm_sending, release_before_io, record_unknown, record_malformed, mirror_message,
  mirror_terminal,
}
use personal_assistant.Dispatch.Helpers.{claim_token, unknown_error, invalid_payload_error}
use personal_assistant.Dispatch.Blocks.{
  Stored, outbox_of, Closes, transition-stores, mirror_message-Leaves, mirror_terminal-Leaves,
  commit-pure-Closes, commit-Closes, block-ends,
}

-- a block under the claim token of the message
abbrev under_claim :
    {B : Type 0}
    → Principal
    → OutboxMessage
    → (String → Exec Transaction OutboxMessage)
    → (OutboxMessage → Exec Transaction (Unit {0}))
    → (OutboxMessage → Exec Transaction B)
    → Exec Stores B
under_claim p m first mirror last =
    lift (claim_token m) >>= λ token. with_transaction p (first token >>= λ f. mirror f >> last f)

under_claim-ends :
    {B : Type 0} (p : Principal) (m : OutboxMessage)
    (first : String → Exec Transaction OutboxMessage)
    (mirror : OutboxMessage → Exec Transaction (Unit {0})) (value : OutboxMessage → B)
    (last : OutboxMessage → Exec Transaction B) (P : OutboxMessage → Outbox → Type 0) (s : Stores)
    {c : B}
    → ((token : String) → (first token (enter s)).1.rolled_back ≡ false)
    → ((token : String) (b : OutboxMessage)
        → (first token (enter s)).0 ≡ ok b
        → P b (first token (enter s)).1.stores.outbox)
    → ((f : OutboxMessage) (x : Outbox × Bool) → Leaves outbox_of x (λ _. Unit {0}) (mirror f))
    → Closes value last
    → (under_claim p m first mirror last s).0 ≡ ok c
    → (b : OutboxMessage) × (value b ≡ c) × P b (under_claim p m first mirror last s).1.outbox
under_claim-ends p m first mirror value last P s {c} live holds quiet closing h =
    elim (Result-cases (claim_token m)) [
      | inl (x, raised) ↦ absurd (err-ne-ok (rw raised at h))
      | inr (token, given) ↦
          let (b, returned, same, left) =
            block-ends p (first token) mirror value last s {b = c} (live token) (λ f. quiet f _)
              closing (rw given at h) in
          rw given (b, same, subst (P b) (sym left) (holds token b returned))
    ]

module _ (p : Principal) (m : OutboxMessage) (s : Stores) (v : Invariant.IsValid s.outbox) where
  -- What `update` has made of a stored message is stored.
  abbrev Updated : (OutboxMessage → OutboxMessage) → OutboxMessage → Outbox → Type 0
  Updated update b o = ((a : OutboxMessage) × (b ≡ update a)) × Stored p m.id o b

  updates :
      (token : String) (expected : DeliveryStatus) (update : OutboxMessage → OutboxMessage)
      → ((x : OutboxMessage) → (update x).id ≡ x.id)
      → (b : OutboxMessage) → (transition p m.id token expected update s.outbox).0 ≡ ok b
      → Updated update b (transition p m.id token expected update s.outbox).1
  updates token expected update keeps b h =
      let (a, before, same, after) =
        transition-stores p m.id token expected update s.outbox {b = b} v keeps h in
      ((a, same), after)

  module _ (env : Environment) where
    pub confirm_sending-ends :
        (start : Instant) {c : OutboxMessage}
        → (confirm_sending env p m start s).0 ≡ ok c
        → Stored p m.id (confirm_sending env p m start s).1.outbox c
    unfolding confirm_sending mark_sending canonical_utc mirror_message
    confirm_sending-ends start {c} h =
        let (b, same, (from, stored)) =
          under_claim-ends p m (λ token. on_outbox (mark_sending p m.id token (aware start)))
            (λ f. mirror_message env p f) (λ f. f) (λ f. commit >> pure f)
            (Updated (start_sending start)) s {c = c} (λ token. refl)
            (λ token b h. updates token claimed (start_sending start) (λ x. refl) b h)
            (λ f x. mirror_message-Leaves env p x f) commit-pure-Closes h in
        subst (Stored p m.id (confirm_sending env p m start s).1.outbox) same stored

    pub record_unknown-ends :
        (now : Instant) {c : OutboxMessage}
        → (record_unknown env p m now s).0 ≡ ok c
        → (c.dispatch_status ≡ uncertain) × Stored p m.id (record_unknown env p m now s).1.outbox c
    unfolding record_unknown mark_uncertain mirror_terminal
    record_unknown-ends now {c} h =
        let update = end_with_error uncertain (unknown_error now none) in
        let (b, same, ((a, from), stored)) =
          under_claim-ends p m
            (λ token. on_outbox (mark_uncertain p m.id token (unknown_error now none)))
            (λ f. mirror_terminal env p f) (λ f. f) (λ f. commit >> pure f) (Updated update) s
            {c = c} (λ token. refl) (λ token b h. updates token sending update (λ x. refl) b h)
            (λ f x. mirror_terminal-Leaves env p x f) commit-pure-Closes h in
        (
          ap (λ (x : OutboxMessage). x.dispatch_status) (sym same ∙ from),
          subst (Stored p m.id (record_unknown env p m now s).1.outbox) same stored,
        )

    pub record_malformed-ends :
        (now : Instant) {c : OutboxMessage}
        → (record_malformed env p m now s).0 ≡ ok c
        → (c.dispatch_status ≡ failed) × Stored p m.id (record_malformed env p m now s).1.outbox c
    unfolding record_malformed mark_claim_failed mirror_terminal
    record_malformed-ends now {c} h =
        let update = end_with_error failed (invalid_payload_error now) in
        let (b, same, ((a, from), stored)) =
          under_claim-ends p m
            (λ token. on_outbox (mark_claim_failed p m.id token (invalid_payload_error now)))
            (λ f. mirror_terminal env p f) (λ f. f) (λ f. commit >> pure f) (Updated update) s
            {c = c} (λ token. refl) (λ token b h. updates token claimed update (λ x. refl) b h)
            (λ f x. mirror_terminal-Leaves env p x f) commit-pure-Closes h in
        (
          ap (λ (x : OutboxMessage). x.dispatch_status) (sym same ∙ from),
          subst (Stored p m.id (record_malformed env p m now s).1.outbox) same stored,
        )

    -- what is released waits until half a minute later
    abbrev pub Waits : Instant → Outbox → Type 0
    Waits now o =
        (b : OutboxMessage) × (later : Instant) × Stored p m.id o b
        × (b.dispatch_status ≡ pending)
        × (add_seconds now 30 ≡ ok later)
        × (b.next_attempt_at ≡ some later)

    pub release_before_io-ends :
        (now : Instant)
        → (release_before_io env p m now s).0 ≡ ok tt
        → Waits now (release_before_io env p m now s).1.outbox
    unfolding release_before_io release canonical_utc mirror_message
    release_before_io-ends now h = elim (Result-cases (add_seconds now 30)) [
      | inl (x, over) ↦
          let (b, same, none_there) =
            under_claim-ends p m (λ token. raise x) (λ f. mirror_message env p f) (λ f. tt)
              (λ f. commit) (λ b o. ⊥) s {c = tt} (λ token. refl) (λ token b h. err-ne-ok h)
              (λ f y. mirror_message-Leaves env p y f) commit-Closes (rw over at h) in
          absurd none_there
      | inr (later, known) ↦
          let update = release_until (some later) in
          let (b, same, ((a, from), stored)) =
            under_claim-ends p m (λ token. on_outbox (release p m.id token (some (aware later))))
              (λ f. mirror_message env p f) (λ f. tt) (λ f. commit) (Updated update) s {c = tt}
              (λ token. refl) (λ token b h. updates token claimed update (λ x. refl) b h)
              (λ f x. mirror_message-Leaves env p x f) commit-Closes (rw known at h) in
          (
            b,
            later,
            rw known stored,
            ap (λ (x : OutboxMessage). x.dispatch_status) from,
            known,
            ap (λ (x : OutboxMessage). x.next_attempt_at) from,
          )
    ]
