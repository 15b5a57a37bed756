-- ===== src/Dispatch/Settled.antt =====
-- How the answer of the port is recorded.
use personal_assistant.Common.{
  ℕ, ◌≡◌, refl, sym, ◌∙◌, ap, subst, inl, inr, ◌≤◌, ◌<◌, false, Bool-cases, some, String, leb,
  arith, text_eq,
}
use personal_assistant.Common.Exec.{Exec, Result, ok, err-ne-ok, Result-cases, pure, ◌>>=◌, ◌>>◌}
use personal_assistant.Common.Time.{Instant}
use personal_assistant.Permissions.{Principal}
use personal_assistant.Delivery.{
  DeliveryStatus, pending, sending, published, failed, uncertain, canonical_utc,
}
use personal_assistant.Events.{OutboxMessage}
use personal_assistant.Outbox.Invariant
use personal_assistant.Outbox.Transition.{
  publish, end_with_error, retry_at, mark_published, mark_failed, mark_uncertain, reschedule,
}
use personal_assistant.UnitOfWork.{Stores, Transaction, enter, commit, with_transaction}
use personal_assistant.Dispatch.{Environment, retry_or_fail, settle, record_result, mirror_terminal}
use personal_assistant.Dispatch.Helpers.{
  max_delivery_attempts, retry_delay, Outcome, success, known_transient, permanent, unknown_outcome,
  NotificationResult, claim_token, known_error, unknown_error, retry_time,
}
use personal_assistant.Dispatch.Loop.{Tally, skipped_one, uncertain_one, published_one, tally_of}
use personal_assistant.Dispatch.Blocks.{
  Stored, Stored-unique, transition-stores, mirror_terminal-Leaves, commit-pure-Closes, block-ends,
}

-- What an answer of the port makes of a message, and what the dispatch tells of it.
pub data Settled (r : NotificationResult) (now : Instant) (id : String) (b : OutboxMessage)
    : Tally → Type 0 where
  delivered :
      r.outcome ≡ success
      → b.dispatch_status ≡ published
      → Settled r now id b (published_one r.notification_id)
  retried :
      (delay : ℕ)
      → r.outcome ≡ known_transient
      → b.attempts < 4
      → retry_delay b.attempts ≡ ok delay
      → b.dispatch_status ≡ pending
      → b.next_attempt_at ≡ some (retry_time now delay r.retry_after)
      → Settled r now id b (skipped_one id)
  exhausted :
      r.outcome ≡ known_transient
      → 4 ≤ b.attempts
      → b.dispatch_status ≡ failed
      → Settled r now id b (skipped_one id)
  rejected :
      r.outcome ≡ permanent → b.dispatch_status ≡ failed → Settled r now id b (skipped_one id)
  unknown :
      r.outcome ≡ unknown_outcome
      → b.dispatch_status ≡ uncertain
      → Settled r now id b (uncertain_one id)

module _ (env : Environment) (p : Principal) (m : OutboxMessage) (token id : String)
    (r : NotificationResult) (now : Instant) (s : Stores) where
  retry-live : (retry_or_fail env p m token r now (enter s)).1.rolled_back ≡ false
  retry-live = elim (Bool-cases (leb max_delivery_attempts m.attempts)) [
    | inl last ↦ rw last refl
    | inr more ↦ elim (Result-cases (retry_delay m.attempts)) [
      | inl (x, raised) ↦ rw (more, raised) refl
      | inr (delay, known) ↦ rw (more, known) refl
    ]
  ]

  settle-live : (o : Outcome) → (settle env p o m token r now (enter s)).1.rolled_back ≡ false
  settle-live success = refl
  settle-live known_transient = retry-live
  settle-live permanent = refl
  settle-live unknown_outcome = refl

  -- the settled message, where the first part of the block has left it
  abbrev Recorded : Result OutboxMessage × Transaction → OutboxMessage → Type 0
  Recorded x b =
      Settled r now id b (tally_of b.dispatch_status id r.notification_id)
      × Stored p m.id x.1.stores.outbox b

  module _ (v : Invariant.IsValid s.outbox) (there : Stored p m.id s.outbox m)
      {b : OutboxMessage} where
    told_as :
        {d : DeliveryStatus}
        → b.dispatch_status ≡ d
        → Settled r now id b (tally_of d id r.notification_id)
        → Settled r now id b (tally_of b.dispatch_status id r.notification_id)
    told_as status settled =
        subst (λ d. Settled r now id b (tally_of d id r.notification_id)) (sym status) settled

    retry-Recorded :
        r.outcome ≡ known_transient
        → (retry_or_fail env p m token r now (enter s)).0 ≡ ok b
        → Recorded (retry_or_fail env p m token r now (enter s)) b
    unfolding mark_failed reschedule canonical_utc
    retry-Recorded told h = elim (Bool-cases (leb max_delivery_attempts m.attempts)) [
      | inl last ↦
          let update = end_with_error failed (known_error r now) in
          let (a, before, same, after) =
            transition-stores p m.id token sending update s.outbox {b = b} v (λ x. refl)
              (rw last at h) in
          let own : m.attempts ≡ b.attempts =
            ap (λ (x : OutboxMessage). x.attempts) (Stored-unique p m.id s.outbox there before)
            ∙ ap (λ (x : OutboxMessage). x.attempts) (sym same) in
          let status : b.dispatch_status ≡ failed =
            ap (λ (x : OutboxMessage). x.dispatch_status) same in
          rw last (told_as status (exhausted told (ground arith) status), after)
      | inr more ↦ elim (Result-cases (retry_delay m.attempts)) [
        | inl (x, raised) ↦ absurd (err-ne-ok (rw (more, raised) at h))
        | inr (delay, known) ↦
            let update = retry_at (retry_time now delay r.retry_after) (known_error r now) in
            let (a, before, same, after) =
              transition-stores p m.id token sending update s.outbox {b = b} v (λ x. refl)
                (rw (more, known) at h) in
            let own : m.attempts ≡ b.attempts =
              ap (λ (x : OutboxMessage). x.attempts) (Stored-unique p m.id s.outbox there before)
              ∙ ap (λ (x : OutboxMessage). x.attempts) (sym same) in
            let status : b.dispatch_status ≡ pending =
              ap (λ (x : OutboxMessage). x.dispatch_status) same in
            rw (more, known)
              (
                told_as status (
                    retried delay told (ground arith)
                      (subst (λ n. retry_delay n ≡ ok delay) own known) status
                      (ap (λ (x : OutboxMessage). x.next_attempt_at) same)),
                after,
              )
      ]
    ]

    settle-Recorded :
        (o : Outcome)
        → r.outcome ≡ o
        → (settle env p o m token r now (enter s)).0 ≡ ok b
        → Recorded (settle env p o m token r now (enter s)) b
    unfolding mark_published mark_failed mark_uncertain canonical_utc
    settle-Recorded success told h =
        let (a, before, same, after) =
          transition-stores p m.id token sending (publish now) s.outbox {b = b} v (λ x. refl) h in
        let status : b.dispatch_status ≡ published =
          ap (λ (x : OutboxMessage). x.dispatch_status) same in
        (told_as status (delivered told status), after)
    settle-Recorded known_transient told h = retry-Recorded told h
    settle-Recorded permanent told h =
        let (a, before, same, after) =
          transition-stores p m.id token sending (end_with_error failed (known_error r now))
            s.outbox {b = b} v (λ x. refl) h in
        let status : b.dispatch_status ≡ failed =
          ap (λ (x : OutboxMessage). x.dispatch_status) same in
        (told_as status (rejected told status), after)
    settle-Recorded unknown_outcome told h =
        let (a, before, same, after) =
          transition-stores p m.id token sending
            (end_with_error uncertain (unknown_error now r.provider_code)) s.outbox {b = b} v
            (λ x. refl) h in
        let status : b.dispatch_status ≡ uncertain =
          ap (λ (x : OutboxMessage). x.dispatch_status) same in
        (told_as status (unknown told status), after)

-- the block of `_record_result`
abbrev recording :
    Environment
    → Principal
    → OutboxMessage
    → NotificationResult
    → Instant
    → String
    → Exec Stores OutboxMessage
recording env p m r now token = with_transaction p (
    settle env p r.outcome m token r now >>= λ final.
    mirror_terminal env p final >> (commit >> pure final))

-- `_record_result`, where the message was stored as it was sent
pub record_result-Recorded :
    (env : Environment) (p : Principal) (m : OutboxMessage) (id : String) (r : NotificationResult)
    (now : Instant) (s : Stores) {b : OutboxMessage}
    → Invariant.IsValid s.outbox
    → Stored p m.id s.outbox m
    → (record_result env p m r now s).0 ≡ ok b
    → Settled r now id b (tally_of b.dispatch_status id r.notification_id)
      × Stored p m.id (record_result env p m r now s).1.outbox b
unfolding record_result mirror_terminal
record_result-Recorded env p m id r now s {b} v there h = elim (Result-cases (claim_token m)) [
  | inl (x, raised) ↦ absurd (err-ne-ok (rw raised at h))
  | inr (token, given) ↦ rw given (ended token (rw given at h))
]
  where
    ended :
        (token : String)
        → (recording env p m r now token s).0 ≡ ok b
        → Settled r now id b (tally_of b.dispatch_status id r.notification_id)
          × Stored p m.id (recording env p m r now token s).1.outbox b
    ended token h =
        let (a, returned, same, left) =
          block-ends p (settle env p r.outcome m token r now) (λ f. mirror_terminal env p f)
            (λ f. f) (λ f. commit >> pure f) s {b = b}
            (settle-live env p m token id r now s r.outcome) (λ f. mirror_terminal-Leaves env p _ f)
            commit-pure-Closes h in
        let (settled, stored) =
          settle-Recorded env p m token id r now s v there {b = b} r.outcome refl
            (returned ∙ ap ok same) in
        (settled, subst (λ o. Stored p m.id o b) (sym left) stored)
