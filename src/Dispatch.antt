-- ===== src/Dispatch.antt =====
-- `DispatchDueReminders`
-- (src/personal_assistant/application/use_cases/reminder_notifications_dispatch.py), over the stores
-- and their unit of work. What it gets from outside is an `Environment`: the notification port, the
-- approval provider, the clock, `uuid4().hex` and the time zone database; `n` is the position of
-- the message in the claim. The clock that `require_approval` reads is `moment`.
pub mod Helpers
pub mod Loop
pub mod Steps
pub mod Rules
pub mod Keeps
pub mod Resolve
pub mod Retry
pub mod Blocks
pub mod Settled
pub mod Rounds
pub mod Answers
pub mod Fates
pub mod Claimed
pub mod Whole
mod Tests
use Prim.Native.String.{◌++◌}
use personal_assistant.Common.{
  ℕ, zero, suc, ◌+◌, ◌*◌, Bool, true, false, not, ◌&&◌, ◌||◌, Option, none, some, List, [], ◌∷◌,
  map, select, String, leb, nat_eq, ◌==◌, text_eq, if◌then◌else◌,
}
use personal_assistant.Common.Exec.{
  Exec, Exn, Result, ok, err, assistant, not_found, value_error, type_error, pure, raise, lift,
  gets, raise_if, catch, ◌>>=◌, ◌>>◌,
}
use personal_assistant.Common.Text.{is_empty}
use personal_assistant.Common.Time.{Instant, Datetime, aware, add_seconds}
use personal_assistant.Permissions.{
  Principal, ApprovalGrant, permission_request, require_permission,
}
use personal_assistant.Permissions.Tiers.{p5}
use personal_assistant.Permissions.Approval.{require_approval}
use personal_assistant.Delivery.{
  DeliveryStatus, published, uncertain, same_status, DeliveryError, canonical_utc,
}
use personal_assistant.Events.{OutboxMessage}
use personal_assistant.Outbox
use personal_assistant.Outbox.Claim.{claim_due, sweep_expired_sending}
use personal_assistant.Outbox.Transition.{
  mark_sending, mark_claim_failed, mark_published, mark_failed, mark_uncertain, release, reschedule,
  resolve_uncertain_delivered, resolve_uncertain_retry,
}
use personal_assistant.Scheduler.{mirror_delivery}
use personal_assistant.UnitOfWork.{
  Stores, Transaction, commit, with_transaction, on_outbox, on_scheduler,
}
use Helpers.{
  max_delivery_attempts, reminder_event_type, retry_delay, NotificationRequest, Outcome, success,
  known_transient, permanent, unknown_outcome, NotificationResult, claim_token, attempt_key,
  notification_request, known_error, unknown_error, invalid_payload_error, retry_time,
}

pub record Environment : Type 0 where
  pub owner : String
  pub claim_limit : ℕ
  pub lease_seconds : ℕ
  pub clock : ℕ → Datetime
  pub moment : ℕ → Instant
  pub hex : ℕ → String
  pub zone : String → Option String
  -- what the n-th call of the port returns, or `none` if it raises
  pub send : ℕ → Principal → NotificationRequest → Option ApprovalGrant → Option NotificationResult
  -- the approval provider, which may raise
  pub provide_approval : Principal → OutboxMessage → String → Result (Option ApprovalGrant)

pub record DispatchOutcome : Type 0 where
  pub claimed_message_ids : List String
  pub published_notification_ids : List String
  pub skipped_message_ids : List String
  pub uncertain_message_ids : List String
  pub swept_message_ids : List String

abbrev pub ids : List OutboxMessage → List String
ids = map (λ m. m.id)

-- `not_found` is passed over, any other exception goes on
abbrev pub pass_not_found {ℓ} : {S : Type ℓ} → Exn → Exec S (Unit {0})
pass_not_found (assistant not_found) = pure tt
pass_not_found x = raise x

module _ (env : Environment) (p : Principal) where
  abbrev pub mirror_subject : String → OutboxMessage → Exec Transaction (Unit {0})
  mirror_subject subject m = do job ← on_scheduler (mirror_delivery env.zone p subject m); pure tt

  -- `_mirror`
  abbrev pub mirror_to : Option String → OutboxMessage → Exec Transaction (Unit {0})
  mirror_to none m = raise value_error
  mirror_to (some subject) m =
      if is_empty subject then raise value_error else mirror_subject subject m

  unfoldable pub mirror_message : OutboxMessage → Exec Transaction (Unit {0})
  mirror_message m = mirror_to m.event.subject m

  -- `_mirror_terminal` and `_mirror_pre_io_failed`
  abbrev pub mirror_if_there : Option String → OutboxMessage → Exec Transaction (Unit {0})
  mirror_if_there none m = pure tt
  mirror_if_there (some subject) m =
      if is_empty subject then pure tt else catch (mirror_subject subject m) pass_not_found

  unfoldable pub mirror_terminal : OutboxMessage → Exec Transaction (Unit {0})
  mirror_terminal m = mirror_if_there m.event.subject m

  -- a claimed message that cannot be mirrored ends before any send
  unfoldable pub fail_claim : Instant → OutboxMessage → Exec Transaction OutboxMessage
  unfolding mirror_terminal
  fail_claim now m = do
    token ← lift (claim_token m)
    failed ← on_outbox (mark_claim_failed p m.id token (invalid_payload_error now))
    mirror_terminal failed
    pure failed

  -- what `_claim` does on an exception of the mirror
  abbrev pub on_misfit : Instant → OutboxMessage → Exn → Exec Transaction (List OutboxMessage)
  on_misfit now m value_error = do failed ← fail_claim now m; pure (failed ∷ [])
  on_misfit now m (assistant not_found) = do failed ← fail_claim now m; pure (failed ∷ [])
  on_misfit now m x = raise x

  -- no message if the claim stands, else the failed one
  unfoldable pub check_claimed : Instant → OutboxMessage → Exec Transaction (List OutboxMessage)
  unfolding mirror_message fail_claim
  check_claimed now m = catch (mirror_message m >> pure []) (on_misfit now m)

  -- dispatchable and failed messages
  abbrev pub put_claimed :
      OutboxMessage
      → List OutboxMessage
      → List OutboxMessage × List OutboxMessage
      → List OutboxMessage × List OutboxMessage
  put_claimed m [] (good, failed) = (m ∷ good, failed)
  put_claimed m (f ∷ fs) (good, failed) = (good, f ∷ failed)

  unfoldable pub split_claimed :
      Instant → List OutboxMessage → Exec Transaction (List OutboxMessage × List OutboxMessage)
  unfolding check_claimed
  split_claimed now [] = pure ([], [])
  split_claimed now (m ∷ ms) = do
    failed ← check_claimed now m
    rest ← split_claimed now ms
    pure (put_claimed m failed rest)

  -- `_claim`
  unfoldable pub claim_block : Instant → Exec Stores (List OutboxMessage × List OutboxMessage)
  unfolding split_claimed
  claim_block now = with_transaction p (do
    messages ← on_outbox (
        claim_due env.hex p (aware now) env.claim_limit env.owner env.lease_seconds
          (some reminder_event_type))
    parts ← split_claimed now messages
    commit
    pure parts)

  unfoldable pub mirror_all : List OutboxMessage → Exec Transaction (List String)
  unfolding mirror_terminal
  mirror_all [] = pure []
  mirror_all (m ∷ ms) = do mirror_terminal m; rest ← mirror_all ms; pure (m.id ∷ rest)

  -- `if swept: transaction.commit()`
  abbrev pub commit_if_any : List String → Exec Transaction (Unit {0})
  commit_if_any [] = pure tt
  commit_if_any (id ∷ ids) = commit

  -- `_sweep_expired_sending`
  unfoldable pub sweep_block : Instant → Exec Stores (List String)
  unfolding mirror_all
  sweep_block now = with_transaction p (do
    messages ← on_outbox (
        sweep_expired_sending p (aware now) (unknown_error now none) env.claim_limit
          (some reminder_event_type))
    swept ← mirror_all messages
    commit_if_any swept
    pure swept)

  -- `_confirm_sending`
  unfoldable pub confirm_sending : OutboxMessage → Instant → Exec Stores OutboxMessage
  unfolding mirror_message
  confirm_sending m now = do
    token ← lift (claim_token m)
    with_transaction p (do
      sending ← on_outbox (mark_sending p m.id token (aware now))
      mirror_message sending
      commit
      pure sending)

  -- `_release_before_io`
  unfoldable pub release_before_io : OutboxMessage → Instant → Exec Stores (Unit {0})
  unfolding mirror_message
  release_before_io m now = do
    token ← lift (claim_token m)
    with_transaction p (do
      later ← lift (add_seconds now 30)
      pending ← on_outbox (release p m.id token (some (aware later)))
      mirror_message pending
      commit)

  -- `_record_unknown`
  unfoldable pub record_unknown : OutboxMessage → Instant → Exec Stores OutboxMessage
  unfolding mirror_terminal
  record_unknown m now = do
    token ← lift (claim_token m)
    with_transaction p (do
      lost ← on_outbox (mark_uncertain p m.id token (unknown_error now none))
      mirror_terminal lost
      commit
      pure lost)

  -- `_record_malformed`
  unfoldable pub record_malformed : OutboxMessage → Instant → Exec Stores OutboxMessage
  unfolding mirror_terminal
  record_malformed m now = do
    token ← lift (claim_token m)
    with_transaction p (do
      failed ← on_outbox (mark_claim_failed p m.id token (invalid_payload_error now))
      mirror_terminal failed
      commit
      pure failed)

  -- a transient failure: the last attempt fails for good
  abbrev pub retry_or_fail :
      OutboxMessage → String → NotificationResult → Instant → Exec Transaction OutboxMessage
  retry_or_fail m token r now =
      if leb max_delivery_attempts m.attempts
      then on_outbox (mark_failed p m.id token (known_error r now))
      else (do
        delay ← lift (retry_delay m.attempts)
        on_outbox (
            reschedule p m.id token (aware (retry_time now delay r.retry_after))
              (known_error r now)))

  abbrev pub settle :
      Outcome
      → OutboxMessage
      → String
      → NotificationResult
      → Instant
      → Exec Transaction OutboxMessage
  settle success m token r now = on_outbox (mark_published now p m.id token (some (aware now)))
  settle known_transient m token r now = retry_or_fail m token r now
  settle permanent m token r now = on_outbox (mark_failed p m.id token (known_error r now))
  settle unknown_outcome m token r now =
      on_outbox (mark_uncertain p m.id token (unknown_error now r.provider_code))

  -- `_record_result`
  unfoldable pub record_result :
      OutboxMessage → NotificationResult → Instant → Exec Stores OutboxMessage
  unfolding mirror_terminal
  record_result m r now = do
    token ← lift (claim_token m)
    with_transaction p
        (do final ← settle r.outcome m token r now; mirror_terminal final; commit; pure final)
