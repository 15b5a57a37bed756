-- ===== src/Dispatch/Fates.antt =====
-- What a round of the loop of `dispatch`
-- (src/personal_assistant/application/use_cases/reminder_notifications_dispatch.py) makes of its message.
use personal_assistant.Common.{
  ℕ, ◌+◌, ◌*◌, ◌≤◌, ◌≡◌, refl, sym, ◌∙◌, subst, true, Option, none, some, arith, text_eq,
}
use personal_assistant.Common.Exec.{
  Exn, Result, ok, err, assistant, value_error, type_error, ErrorCode, ok_inj, err-ne-ok, lift,
  pure,
}
use personal_assistant.Common.Time.{Instant, add_seconds}
use personal_assistant.Permissions.{Principal, ApprovalGrant, PermissionDecision, is_trusted}
use personal_assistant.Permissions.Tiers.{p5, rank}
use personal_assistant.Permissions.Approval.{require_approval}
use personal_assistant.Permissions.Laws.{Covers, require_approval_sound}
use personal_assistant.Delivery.{pending, failed, canonical_utc}
use personal_assistant.Events.{OutboxMessage}
use personal_assistant.UnitOfWork.{Stores}
use personal_assistant.Dispatch.{Environment, confirm_sending, release_before_io, record_malformed}
use personal_assistant.Dispatch.Helpers.{NotificationRequest, attempt_key, notification_request}
use personal_assistant.Dispatch.Loop.{
  Tally, skipped_one, record_answer, send_request, skip_malformed, send_if_formed, send_if_approved,
  dispatch_message,
}
use personal_assistant.Dispatch.Steps.{IsValid, Moves-IsValid}
use personal_assistant.Dispatch.Keeps.{confirm_sending-Keeps}
use personal_assistant.Dispatch.Blocks.{Stored, Stored-id}
use personal_assistant.Dispatch.Rounds.{
  confirm_sending-ends, record_malformed-ends, release_before_io-ends,
}
use personal_assistant.Dispatch.Answers.{Ending, bind-ends, record_answer-ends}

-- The principal may send this attempt: trusted, of tier P5, with a grant that covers it.
abbrev pub MaySend : Environment → Principal → ℕ → OutboxMessage → Option ApprovalGrant → Type 0
MaySend env p n m approval =
    (is_trusted p ≡ true)
    × (5 ≤ rank p.permission_tier)
    × ((a : ApprovalGrant) × (approval ≡ some a)
        × Covers a p p5 "notification.send" (attempt_key m) none (env.moment n))

-- What a round makes of the `n`-th claimed message: refused, malformed, or sent.
pub data Fate (env : Environment) (p : Principal) (now : Instant) (n : ℕ) (m : OutboxMessage)
    (approval : Option ApprovalGrant) (b : OutboxMessage) : Tally → Type 0 where
  refused :
      (code : ErrorCode) (later : Instant)
      → require_approval p p5 approval "notification.send" (attempt_key m) none (env.moment n)
        ≡ err (assistant code)
      → b.dispatch_status ≡ pending
      → add_seconds now 30 ≡ ok later
      → b.next_attempt_at ≡ some later
      → Fate env p now n m approval b (skipped_one m.id)
  malformed :
      (x : Exn)
      → MaySend env p n m approval
      → notification_request m (attempt_key m) ≡ err x
      → b.dispatch_status ≡ failed
      → Fate env p now n m approval b (skipped_one m.id)
  sent :
      (request : NotificationRequest) (end : Instant) {t : Tally}
      → MaySend env p n m approval
      → notification_request m (attempt_key m) ≡ ok request
      → canonical_utc (env.clock (2 * n + 1)) ≡ ok end
      → Ending request (env.send n p request approval) end m.id b t
      → Fate env p now n m approval b t

module _ (env : Environment) (p : Principal) where
  module _ (n : ℕ) (m : OutboxMessage) (approval : Option ApprovalGrant) where
    send_request-ends :
        (now : Instant) (request : NotificationRequest) (s : Stores) {t : Tally}
        → IsValid s
        → MaySend env p n m approval
        → notification_request m (attempt_key m) ≡ ok request
        → (send_request env p n m approval request s).0 ≡ ok t
        → (b : OutboxMessage) × Stored p m.id (send_request env p n m approval request s).1.outbox b
          × Fate env p now n m approval b t
    send_request-ends now request s {t} v may formed h =
        let (start, began, h1, left1) =
          bind-ends (lift (canonical_utc (env.clock (2 * n)))) _ s h in
        let (sending, confirmed, h2, left2) = bind-ends (confirm_sending env p m start) _ s h1 in
        let (end, ended, h3, left3) =
          bind-ends (lift (canonical_utc (env.clock (2 * n + 1)))) _
            (confirm_sending env p m start s).1 h2 in
        let there = confirm_sending-ends p m s v.outbox env start confirmed in
        let same = Stored-id p m.id (confirm_sending env p m start s).1.outbox there in
        let valid = Moves-IsValid p.tenant_id ((confirm_sending-Keeps env p m start).moves s v) in
        let answer = env.send n p request approval in
        let after : Stores =
          (record_answer env p m.id sending request answer end
            (confirm_sending env p m start s).1).1 in
        let (b, stored, ending) =
          record_answer-ends env p m.id sending request answer end
            (confirm_sending env p m start s).1 valid
            (subst (λ i. Stored p i (confirm_sending env p m start s).1.outbox sending) (sym same)
              there)
            h3 in
        (
          b,
          subst (λ (s' : Stores). Stored p m.id s'.outbox b) (sym (left1 ∙ left2 ∙ left3))
              (subst (λ i. Stored p i after.outbox b) same stored),
          sent request end may formed ended ending,
        )

    skip_malformed-ends :
        (now : Instant) (x : Exn) (s : Stores) {t : Tally}
        → IsValid s
        → MaySend env p n m approval
        → notification_request m (attempt_key m) ≡ err x
        → (skip_malformed env p n m s).0 ≡ ok t
        → (b : OutboxMessage) × Stored p m.id (skip_malformed env p n m s).1.outbox b
          × Fate env p now n m approval b t
    skip_malformed-ends now x s {t} v may bad h =
        let (at, began, h1, left1) = bind-ends (lift (canonical_utc (env.clock (2 * n)))) _ s h in
        let (b, ran, told, left2) = bind-ends (record_malformed env p m at) _ s h1 in
        let (status, stored) = record_malformed-ends p m s v.outbox env at ran in
        (
          b,
          subst (λ (s' : Stores). Stored p m.id s'.outbox b) (sym (left1 ∙ left2)) stored,
          subst (Fate env p now n m approval b) (ok_inj (skipped_one m.id) t told)
              (malformed x may bad status),
        )

    send_if_approved-ends :
        (now : Instant) (s : Stores) {t : Tally}
        → IsValid s
        → (send_if_approved env p now n m
            (attempt_key m)
            approval
            (require_approval p p5 approval "notification.send" (attempt_key m) none (env.moment n))
            s).0
          ≡ ok t
        → (b : OutboxMessage) × Stored p m.id
            (send_if_approved env p now n m
              (attempt_key m)
              approval
              (require_approval p p5 approval "notification.send"
                (attempt_key m)
                none
                (env.moment n))
              s).1.outbox
            b
          × Fate env p now n m approval b t
    send_if_approved-ends now s {t} v h = go _ refl h
      where
        formed :
            (r : Result NotificationRequest)
            → MaySend env p n m approval
            → notification_request m (attempt_key m) ≡ r
            → (send_if_formed env p n m approval r s).0 ≡ ok t
            → (b : OutboxMessage) × Stored p m.id (send_if_formed env p n m approval r s).1.outbox b
              × Fate env p now n m approval b t
        formed (ok request) may e h = send_request-ends now request s v may e h
        formed (err value_error) may e h = skip_malformed-ends now value_error s v may e h
        formed (err type_error) may e h = skip_malformed-ends now type_error s v may e h
        formed (err x) may e h = absurd (err-ne-ok h)

        go :
            (r : Result PermissionDecision)
            → require_approval p p5 approval "notification.send" (attempt_key m) none (env.moment n)
              ≡ r
            → (send_if_approved env p now n m (attempt_key m) approval r s).0 ≡ ok t
            → (b : OutboxMessage) × Stored p m.id
                (send_if_approved env p now n m (attempt_key m) approval r s).1.outbox
                b
              × Fate env p now n m approval b t
        go (ok decision) e h =
            let (trusted, high, form, given) =
              require_approval_sound p p5 approval "notification.send" (attempt_key m) none
                (env.moment n) (omega arith) e in
            formed _ (trusted, high, given) refl h
        go (err (assistant code)) e h =
            let (u, ran, told, left) =
              bind-ends (release_before_io env p m now) (λ _. pure (skipped_one m.id)) s h in
            let (b, later, stored, status, known, waits) =
              release_before_io-ends p m s v.outbox env now ran in
            (
              b,
              subst (λ (s' : Stores). Stored p m.id s'.outbox b) (sym left) stored,
              subst (Fate env p now n m approval b) (ok_inj (skipped_one m.id) t told)
                  (refused code later e status known waits),
            )
        go (err x) e h = absurd (err-ne-ok h)

  -- one round that returns
  pub dispatch_message-Fate :
      (now : Instant) (n : ℕ) (m : OutboxMessage) (s : Stores) {t : Tally}
      → IsValid s
      → (dispatch_message env p now n m s).0 ≡ ok t
      → (approval : Option ApprovalGrant) × (b : OutboxMessage) × (env.provide_approval p m
            (attempt_key m)
          ≡ ok approval)
        × Stored p m.id (dispatch_message env p now n m s).1.outbox b
        × Fate env p now n m approval b t
  unfolding dispatch_message
  dispatch_message-Fate now n m s {t} v h =
      let (approval, provided, h1, left) =
        bind-ends (lift (env.provide_approval p m (attempt_key m))) _ s h in
      let (b, stored, fate) = send_if_approved-ends n m approval now s v h1 in
      (
        approval,
        b,
        provided,
        subst (λ (s' : Stores). Stored p m.id s'.outbox b) (sym left) stored,
        fate,
      )
