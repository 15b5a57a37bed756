-- ===== src/Dispatch/Keeps.antt =====
-- The blocks of `DispatchDueReminders`
-- (src/personal_assistant/application/use_cases/reminder_notifications_dispatch.py), one rule each.
use personal_assistant.Common.{
  inl, inr, Option, none, some, List, [], ◌∷◌, String, Bool-cases, text_eq,
}
use personal_assistant.Common.Exec.{Exn, err, assistant, not_found, value_error, pure, ◌>>◌}
use personal_assistant.Common.Text.{is_empty}
use personal_assistant.Common.Time.{Instant, aware, add_seconds}
use personal_assistant.Permissions.{Principal}
use personal_assistant.Events.{OutboxMessage}
use personal_assistant.Outbox.Claim.{claim_due, sweep_expired_sending}
use personal_assistant.Outbox.Claim.Sweep.{sweep-Advances}
use personal_assistant.Outbox.Transition.{mark_sending, mark_claim_failed, mark_uncertain, release}
use personal_assistant.Outbox.Advance.Transitions.{
  mark_sending-Advances, mark_claim_failed-Advances, mark_uncertain-Advances, release-Advances,
}
use personal_assistant.Outbox.Advance.Claims.{claim_due-Advances}
use personal_assistant.Scheduler.{mirror_delivery}
use personal_assistant.Scheduler.Methods.{mirror-Step}
use personal_assistant.UnitOfWork.{commit}
use personal_assistant.Dispatch.Helpers.{
  reminder_event_type, claim_token, unknown_error, invalid_payload_error,
}
use personal_assistant.Dispatch.{
  Environment, pass_not_found, mirror_subject, mirror_to, mirror_message, mirror_if_there,
  mirror_terminal, fail_claim, on_misfit, check_claimed, put_claimed, split_claimed, claim_block,
  mirror_all, commit_if_any, sweep_block, confirm_sending, release_before_io, record_unknown,
  record_malformed,
}
use personal_assistant.Dispatch.Steps.{Plain, Keeps}
use personal_assistant.Dispatch.Rules.{
  pure-Plain, lift-Plain, catch-Plain, on_outbox-Plain, on_scheduler-Plain, bind-Plain,
  commit-Plain, lift-Keeps, bind-Keeps, with_transaction-Keeps,
}

module _ (env : Environment) (p : Principal) where
  mirror_subject-Plain :
      (subject : String) (m : OutboxMessage) → Plain p.tenant_id (mirror_subject env p subject m)
  mirror_subject-Plain subject m =
      bind-Plain p.tenant_id _ _
        (on_scheduler-Plain p.tenant_id (mirror_delivery env.zone p subject m)
          (λ s v. mirror-Step env.zone p s subject m v))
        (λ job. pure-Plain p.tenant_id tt)

  mirror_message-Plain : (m : OutboxMessage) → Plain p.tenant_id (mirror_message env p m)
  unfolding mirror_message
  mirror_message-Plain m = to m.event.subject
    where
      to : (subject : Option String) → Plain p.tenant_id (mirror_to env p subject m)
      to none = lift-Plain p.tenant_id (err value_error)
      to (some subject) = elim (Bool-cases (is_empty subject)) [
        | inl blank ↦ rw blank (lift-Plain p.tenant_id (err value_error))
        | inr given ↦ rw given (mirror_subject-Plain subject m)
      ]

  pass_not_found-Plain : (x : Exn) → Plain p.tenant_id (pass_not_found x)
  pass_not_found-Plain (assistant not_found) = pure-Plain {0} p.tenant_id tt
  pass_not_found-Plain x = lift-Plain {0} p.tenant_id (err x)

  mirror_terminal-Plain : (m : OutboxMessage) → Plain p.tenant_id (mirror_terminal env p m)
  unfolding mirror_terminal
  mirror_terminal-Plain m = to m.event.subject
    where
      to : (subject : Option String) → Plain p.tenant_id (mirror_if_there env p subject m)
      to none = pure-Plain {0} p.tenant_id tt
      to (some subject) = elim (Bool-cases (is_empty subject)) [
        | inl blank ↦ rw blank (pure-Plain {0} p.tenant_id tt)
        | inr given ↦
            rw given
              (catch-Plain p.tenant_id _ _ (mirror_subject-Plain subject m) pass_not_found-Plain)
      ]

  fail_claim-Plain :
      (now : Instant) (m : OutboxMessage) → Plain p.tenant_id (fail_claim env p now m)
  unfolding fail_claim mirror_terminal
  fail_claim-Plain now m =
      bind-Plain p.tenant_id _ _ (lift-Plain p.tenant_id (claim_token m)) (λ token.
        bind-Plain p.tenant_id _ _
          (on_outbox-Plain p.tenant_id (mark_claim_failed p m.id token (invalid_payload_error now))
            (λ o v. mark_claim_failed-Advances p m.id o v token (invalid_payload_error now)))
          (λ failed.
            bind-Plain p.tenant_id _ _ (mirror_terminal-Plain failed)
              (λ _. pure-Plain p.tenant_id failed)))

  on_misfit-Plain :
      (now : Instant) (m : OutboxMessage) (x : Exn) → Plain p.tenant_id (on_misfit env p now m x)
  on_misfit-Plain now m value_error =
      bind-Plain p.tenant_id _ _ (fail_claim-Plain now m)
        (λ failed. pure-Plain p.tenant_id (failed ∷ []))
  on_misfit-Plain now m (assistant not_found) =
      bind-Plain p.tenant_id _ _ (fail_claim-Plain now m)
        (λ failed. pure-Plain p.tenant_id (failed ∷ []))
  on_misfit-Plain now m x = lift-Plain p.tenant_id (err x)

  check_claimed-Plain :
      (now : Instant) (m : OutboxMessage) → Plain p.tenant_id (check_claimed env p now m)
  unfolding check_claimed mirror_message fail_claim
  check_claimed-Plain now m =
      catch-Plain p.tenant_id _ _
        (bind-Plain p.tenant_id _ _ (mirror_message-Plain m) (λ _. pure-Plain p.tenant_id []))
        (on_misfit-Plain now m)

  split_claimed-Plain :
      (now : Instant) (ms : List OutboxMessage) → Plain p.tenant_id (split_claimed env p now ms)
  unfolding split_claimed check_claimed
  split_claimed-Plain now [] = pure-Plain p.tenant_id ([], [])
  split_claimed-Plain now (m ∷ ms) =
      bind-Plain p.tenant_id _ _ (check_claimed-Plain now m) (λ failed.
        bind-Plain p.tenant_id _ _ (split_claimed-Plain now ms)
          (λ rest. pure-Plain p.tenant_id (put_claimed env p m failed rest)))

  mirror_all-Plain : (ms : List OutboxMessage) → Plain p.tenant_id (mirror_all env p ms)
  unfolding mirror_all mirror_terminal
  mirror_all-Plain [] = pure-Plain p.tenant_id []
  mirror_all-Plain (m ∷ ms) = bind-Plain p.tenant_id _ _ (mirror_terminal-Plain m) (λ _.
      bind-Plain p.tenant_id _ _ (mirror_all-Plain ms)
        (λ rest. pure-Plain p.tenant_id (m.id ∷ rest)))

  commit_if_any-Plain : (ids : List String) → Plain p.tenant_id (commit_if_any env p ids)
  commit_if_any-Plain [] = pure-Plain {0} p.tenant_id tt
  commit_if_any-Plain (id ∷ ids) = commit-Plain p.tenant_id

  -- the end of a block: mirror, commit, return
  pub finish-Plain :
      (m : OutboxMessage) → Plain p.tenant_id (mirror_terminal env p m >> (commit >> pure m))
  finish-Plain m =
      bind-Plain p.tenant_id _ _ (mirror_terminal-Plain m)
        (λ _. bind-Plain p.tenant_id _ _ (commit-Plain p.tenant_id) (λ _. pure-Plain p.tenant_id m))

  pub claim_block-Keeps : (now : Instant) → Keeps p.tenant_id (claim_block env p now)
  unfolding claim_block split_claimed
  claim_block-Keeps now = with_transaction-Keeps p.tenant_id p _ (
      bind-Plain p.tenant_id _ _
        (on_outbox-Plain p.tenant_id
          (claim_due env.hex p (aware now) env.claim_limit env.owner env.lease_seconds
            (some reminder_event_type))
          (λ o v.
            claim_due-Advances env.hex p env.claim_limit env.owner env.lease_seconds
              (some reminder_event_type) o v (aware now)))
        (λ messages. bind-Plain p.tenant_id _ _ (split_claimed-Plain now messages) (λ parts.
          bind-Plain p.tenant_id _ _ (commit-Plain p.tenant_id)
            (λ _. pure-Plain p.tenant_id parts))))

  pub sweep_block-Keeps : (now : Instant) → Keeps p.tenant_id (sweep_block env p now)
  unfolding sweep_block mirror_all
  sweep_block-Keeps now = with_transaction-Keeps p.tenant_id p _ (
      bind-Plain p.tenant_id _ _
        (on_outbox-Plain p.tenant_id
          (sweep_expired_sending p (aware now) (unknown_error now none) env.claim_limit
            (some reminder_event_type))
          (λ o v.
            sweep-Advances p now env.claim_limit (unknown_error now none) (some reminder_event_type)
              o v))
        (λ messages. bind-Plain p.tenant_id _ _ (mirror_all-Plain messages) (λ swept.
          bind-Plain p.tenant_id _ _ (commit_if_any-Plain swept)
            (λ _. pure-Plain p.tenant_id swept))))

  pub confirm_sending-Keeps :
      (m : OutboxMessage) (now : Instant) → Keeps p.tenant_id (confirm_sending env p m now)
  unfolding confirm_sending mirror_message
  confirm_sending-Keeps m now =
      bind-Keeps p.tenant_id _ _ (lift-Keeps p.tenant_id (claim_token m)) (λ token.
        with_transaction-Keeps p.tenant_id p _ (
          bind-Plain p.tenant_id _ _
            (on_outbox-Plain p.tenant_id (mark_sending p m.id token (aware now))
              (λ o v. mark_sending-Advances p m.id o v token (aware now)))
            (λ started. bind-Plain p.tenant_id _ _ (mirror_message-Plain started) (λ _.
              bind-Plain p.tenant_id _ _ (commit-Plain p.tenant_id)
                (λ _. pure-Plain p.tenant_id started)))))

  pub release_before_io-Keeps :
      (m : OutboxMessage) (now : Instant) → Keeps p.tenant_id (release_before_io env p m now)
  unfolding release_before_io mirror_message
  release_before_io-Keeps m now =
      bind-Keeps p.tenant_id _ _ (lift-Keeps p.tenant_id (claim_token m)) (λ token.
        with_transaction-Keeps p.tenant_id p _ (
          bind-Plain p.tenant_id _ _ (lift-Plain p.tenant_id (add_seconds now 30)) (λ later.
            bind-Plain p.tenant_id _ _
              (on_outbox-Plain p.tenant_id (release p m.id token (some (aware later)))
                (λ o v. release-Advances p m.id o v token (some (aware later))))
              (λ given_back.
                bind-Plain p.tenant_id _ _ (mirror_message-Plain given_back)
                  (λ _. commit-Plain p.tenant_id)))))

  pub record_unknown-Keeps :
      (m : OutboxMessage) (now : Instant) → Keeps p.tenant_id (record_unknown env p m now)
  unfolding record_unknown mirror_terminal
  record_unknown-Keeps m now =
      bind-Keeps p.tenant_id _ _ (lift-Keeps p.tenant_id (claim_token m)) (λ token.
        with_transaction-Keeps p.tenant_id p _ (
          bind-Plain p.tenant_id _ _
            (on_outbox-Plain p.tenant_id (mark_uncertain p m.id token (unknown_error now none))
              (λ o v. mark_uncertain-Advances p m.id o v token (unknown_error now none)))
            finish-Plain))

  pub record_malformed-Keeps :
      (m : OutboxMessage) (now : Instant) → Keeps p.tenant_id (record_malformed env p m now)
  unfolding record_malformed mirror_terminal
  record_malformed-Keeps m now =
      bind-Keeps p.tenant_id _ _ (lift-Keeps p.tenant_id (claim_token m)) (λ token.
        with_transaction-Keeps p.tenant_id p _ (
          bind-Plain p.tenant_id _ _
            (on_outbox-Plain p.tenant_id
              (mark_claim_failed p m.id token (invalid_payload_error now))
              (λ o v. mark_claim_failed-Advances p m.id o v token (invalid_payload_error now)))
            finish-Plain))
