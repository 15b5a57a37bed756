-- ===== src/Dispatch/Whole.antt =====
-- The settlement of a message and the loop of `DispatchDueReminders`
-- (src/personal_assistant/application/use_cases/reminder_notifications_dispatch.py).
use personal_assistant.Common.{
  ℕ, ◌+◌, ◌*◌, inl, inr, Option, none, some, List, [], ◌∷◌, String, Bool-cases, leb, text_eq,
}
use personal_assistant.Common.Exec.{Result, ok, err, assistant, value_error, type_error}
use personal_assistant.Common.Time.{Instant, Datetime, aware}
use personal_assistant.Permissions.{Principal, ApprovalGrant, PermissionDecision}
use personal_assistant.Permissions.Tiers.{p5}
use personal_assistant.Permissions.Approval.{require_approval}
use personal_assistant.Delivery.{canonical_utc}
use personal_assistant.Events.{OutboxMessage}
use personal_assistant.Outbox.Transition.{mark_published, mark_failed, mark_uncertain, reschedule}
use personal_assistant.Outbox.Advance.Transitions.{
  mark_published-Advances, mark_failed-Advances, mark_uncertain-Advances, reschedule-Advances,
}
use personal_assistant.UnitOfWork.{Stores}
use personal_assistant.Dispatch.{Environment, retry_or_fail, settle, record_result, mirror_terminal}
use personal_assistant.Dispatch.Helpers.{
  max_delivery_attempts, retry_delay, Outcome, success, known_transient, permanent, unknown_outcome,
  NotificationRequest, NotificationResult, claim_token, attempt_key, notification_request,
  known_error, unknown_error, retry_time,
}
use personal_assistant.Dispatch.Loop.{
  nothing, skipped_one, uncertain_one, tally_of, add_tally, is_foreign, record_lost, record_answer,
  skip_malformed, send_if_formed, send_if_approved, dispatch_message, dispatch_all, dispatch,
}
use personal_assistant.Dispatch.Steps.{IsValid, Moves, Plain, Keeps}
use personal_assistant.Dispatch.Rules.{
  lift-Plain, on_outbox-Plain, bind-Plain, pure-Keeps, lift-Keeps, bind-Keeps,
  with_transaction-Keeps,
}
use personal_assistant.Dispatch.Keeps.{
  finish-Plain, claim_block-Keeps, sweep_block-Keeps, confirm_sending-Keeps,
  release_before_io-Keeps, record_unknown-Keeps, record_malformed-Keeps,
}

module _ (env : Environment) (p : Principal) where
  retry_or_fail-Plain :
      (m : OutboxMessage) (token : String) (r : NotificationResult) (now : Instant)
      → Plain p.tenant_id (retry_or_fail env p m token r now)
  retry_or_fail-Plain m token r now = elim (Bool-cases (leb max_delivery_attempts m.attempts)) [
    | inl last ↦ rw last (
        on_outbox-Plain p.tenant_id (mark_failed p m.id token (known_error r now))
          (λ o v. mark_failed-Advances p m.id o v token (known_error r now)))
    | inr more ↦ rw more (
        bind-Plain p.tenant_id _ _ (lift-Plain p.tenant_id (retry_delay m.attempts)) (λ delay.
          on_outbox-Plain p.tenant_id
            (reschedule p m.id token (aware (retry_time now delay r.retry_after))
              (known_error r now))
            (λ o v.
              reschedule-Advances p m.id o v token (aware (retry_time now delay r.retry_after))
                (known_error r now))))
  ]

  settle-Plain :
      (outcome : Outcome) (m : OutboxMessage) (token : String) (r : NotificationResult)
      (now : Instant)
      → Plain p.tenant_id (settle env p outcome m token r now)
  settle-Plain success m token r now =
      on_outbox-Plain p.tenant_id (mark_published now p m.id token (some (aware now)))
        (λ o v. mark_published-Advances p m.id o v now token (some (aware now)))
  settle-Plain known_transient m token r now = retry_or_fail-Plain m token r now
  settle-Plain permanent m token r now =
      on_outbox-Plain p.tenant_id (mark_failed p m.id token (known_error r now))
        (λ o v. mark_failed-Advances p m.id o v token (known_error r now))
  settle-Plain unknown_outcome m token r now =
      on_outbox-Plain p.tenant_id (mark_uncertain p m.id token (unknown_error now r.provider_code))
        (λ o v. mark_uncertain-Advances p m.id o v token (unknown_error now r.provider_code))

  record_result-Keeps :
      (m : OutboxMessage) (r : NotificationResult) (now : Instant)
      → Keeps p.tenant_id (record_result env p m r now)
  unfolding record_result mirror_terminal
  record_result-Keeps m r now =
      bind-Keeps p.tenant_id _ _ (lift-Keeps p.tenant_id (claim_token m)) (λ token.
        with_transaction-Keeps p.tenant_id p _
          (bind-Plain p.tenant_id _ _ (settle-Plain r.outcome m token r now) (finish-Plain env p)))

  record_lost-Keeps :
      (id : String) (m : OutboxMessage) (now : Instant)
      → Keeps p.tenant_id (record_lost env p id m now)
  record_lost-Keeps id m now =
      bind-Keeps p.tenant_id _ _ (record_unknown-Keeps env p m now)
        (λ lost. pure-Keeps p.tenant_id (uncertain_one id))

  record_answer-Keeps :
      (id : String) (m : OutboxMessage) (request : NotificationRequest)
      (answer : Option NotificationResult) (now : Instant)
      → Keeps p.tenant_id (record_answer env p id m request answer now)
  record_answer-Keeps id m request none now = record_lost-Keeps id m now
  record_answer-Keeps id m request (some r) now = elim (Bool-cases (is_foreign request r)) [
    | inl foreign ↦ rw foreign (record_lost-Keeps id m now)
    | inr own ↦ rw own (
        bind-Keeps p.tenant_id _ _ (record_result-Keeps m r now)
          (λ final. pure-Keeps p.tenant_id (tally_of final.dispatch_status id r.notification_id)))
  ]

  skip_malformed-Keeps : (n : ℕ) (m : OutboxMessage) → Keeps p.tenant_id (skip_malformed env p n m)
  skip_malformed-Keeps n m =
      bind-Keeps p.tenant_id _ _ (lift-Keeps p.tenant_id (canonical_utc (env.clock (2 * n))))
        (λ now.
          bind-Keeps p.tenant_id _ _ (record_malformed-Keeps env p m now)
            (λ ended. pure-Keeps p.tenant_id (skipped_one m.id)))

  send_if_formed-Keeps :
      (n : ℕ) (m : OutboxMessage) (approval : Option ApprovalGrant) (r : Result NotificationRequest)
      → Keeps p.tenant_id (send_if_formed env p n m approval r)
  send_if_formed-Keeps n m approval (ok request) =
      bind-Keeps p.tenant_id _ _ (lift-Keeps p.tenant_id (canonical_utc (env.clock (2 * n))))
        (λ start. bind-Keeps p.tenant_id _ _ (confirm_sending-Keeps env p m start) (λ started.
          bind-Keeps p.tenant_id _ _
            (lift-Keeps p.tenant_id (canonical_utc (env.clock (2 * n + 1))))
            (λ end. record_answer-Keeps m.id started request (env.send n p request approval) end)))
  send_if_formed-Keeps n m approval (err value_error) = skip_malformed-Keeps n m
  send_if_formed-Keeps n m approval (err type_error) = skip_malformed-Keeps n m
  send_if_formed-Keeps n m approval (err x) = lift-Keeps p.tenant_id (err x)

  send_if_approved-Keeps :
      (now : Instant) (n : ℕ) (m : OutboxMessage) (key : String) (approval : Option ApprovalGrant)
      (r : Result PermissionDecision)
      → Keeps p.tenant_id (send_if_approved env p now n m key approval r)
  send_if_approved-Keeps now n m key approval (ok d) =
      send_if_formed-Keeps n m approval (notification_request m key)
  send_if_approved-Keeps now n m key approval (err (assistant code)) =
      bind-Keeps p.tenant_id _ _ (release_before_io-Keeps env p m now)
        (λ _. pure-Keeps p.tenant_id (skipped_one m.id))
  send_if_approved-Keeps now n m key approval (err x) = lift-Keeps p.tenant_id (err x)

  pub dispatch_message-Keeps :
      (now : Instant) (n : ℕ) (m : OutboxMessage)
      → Keeps p.tenant_id (dispatch_message env p now n m)
  unfolding dispatch_message
  dispatch_message-Keeps now n m =
      let key = attempt_key m in
      bind-Keeps p.tenant_id _ _ (lift-Keeps p.tenant_id (env.provide_approval p m key))
        (λ approval.
          send_if_approved-Keeps now n m key approval
            (require_approval p p5 approval "notification.send" key none (env.moment n)))

  dispatch_all-Keeps :
      (now : Instant) (n : ℕ) (ms : List OutboxMessage)
      → Keeps p.tenant_id (dispatch_all env p now n ms)
  unfolding dispatch_all
  dispatch_all-Keeps now n [] = pure-Keeps p.tenant_id nothing
  dispatch_all-Keeps now n (m ∷ ms) =
      bind-Keeps p.tenant_id _ _ (dispatch_message-Keeps now n m) (λ first.
        bind-Keeps p.tenant_id _ _ (dispatch_all-Keeps now (n + 1) ms)
          (λ rest. pure-Keeps p.tenant_id (add_tally first rest)))

  dispatch-Keeps : (at : Datetime) → Keeps p.tenant_id (dispatch env p at)
  unfolding dispatch
  dispatch-Keeps at = bind-Keeps p.tenant_id _ _ (lift-Keeps p.tenant_id (canonical_utc at)) (λ now.
      bind-Keeps p.tenant_id _ _ (sweep_block-Keeps env p now) (λ swept.
        bind-Keeps p.tenant_id _ _ (claim_block-Keeps env p now) (λ parts.
          bind-Keeps p.tenant_id _ _ (dispatch_all-Keeps now 0 parts.0)
            (λ tally. pure-Keeps p.tenant_id _))))

  -- A dispatch on valid stores, whatever the port, the approvals and the clock do, and however it
  -- ends, leaves the outbox and the scheduler valid, moves each message along the delivery machine,
  -- keeps each reminder with its identity, leaves the messages and reminders of other tenants as
  -- they were, and does not touch the calendar, the events or the workflows.
  pub dispatch-Moves :
      (at : Datetime) (s : Stores) → IsValid s → Moves p.tenant_id s (dispatch env p at s).1
  dispatch-Moves at = (dispatch-Keeps at).moves
