-- ===== src/Dispatch/Loop.antt =====
-- The dispatch of the claimed messages and the operator's part: `dispatch`, `list_uncertain` and
-- `resolve_uncertain`
-- (src/personal_assistant/application/use_cases/reminder_notifications_dispatch.py).
use Prim.Native.String.{◌++◌}
use personal_assistant.Common.{
  ℕ, ◌+◌, ◌*◌, Bool, not, ◌&&◌, ◌||◌, Option, none, some, List, [], ◌∷◌, ◌++◌ as append, select,
  String, leb, ◌==◌, text_eq, if◌then◌else◌,
}
use personal_assistant.Common.Exec.{
  Exec, Result, ok, err, assistant, value_error, type_error, pure, raise, lift, raise_if, ◌>>=◌,
  ◌>>◌,
}
use personal_assistant.Common.Time.{Instant, Datetime, aware}
use personal_assistant.Permissions.{
  Principal, ApprovalGrant, PermissionDecision, permission_request, require_permission,
}
use personal_assistant.Permissions.Tiers.{p5}
use personal_assistant.Permissions.Approval.{require_approval}
use personal_assistant.Delivery.{DeliveryStatus, published, uncertain, same_status, canonical_utc}
use personal_assistant.Events.{OutboxMessage}
use personal_assistant.Outbox
use personal_assistant.Outbox.Transition.{resolve_uncertain_delivered, resolve_uncertain_retry}
use personal_assistant.UnitOfWork.{Stores, Transaction, commit, with_transaction, on_outbox}
use personal_assistant.Dispatch.{
  Environment, DispatchOutcome, ids, claim_block, sweep_block, confirm_sending, release_before_io,
  record_unknown, record_malformed, record_result, mirror_terminal,
}
use personal_assistant.Dispatch.Helpers.{
  max_delivery_attempts, reminder_event_type, NotificationRequest, NotificationResult, attempt_key,
  notification_request,
}

-- the three lists that the loop appends to
pub record Tally : Type 0 where
  pub published_ids : List String
  pub skipped_ids : List String
  pub uncertain_ids : List String

abbrev pub nothing : Tally
nothing = record { published_ids = []; skipped_ids = []; uncertain_ids = [] }

abbrev pub skipped_one : String → Tally
skipped_one id = record nothing { skipped_ids = id ∷ [] }

abbrev pub uncertain_one : String → Tally
uncertain_one id = record nothing { uncertain_ids = id ∷ [] }

abbrev pub published_one : Option String → Tally
published_one none = nothing
published_one (some id) = record nothing { published_ids = id ∷ [] }

abbrev pub add_tally : Tally → Tally → Tally
add_tally a b = record {
  published_ids = append a.published_ids b.published_ids;
  skipped_ids = append a.skipped_ids b.skipped_ids;
  uncertain_ids = append a.uncertain_ids b.uncertain_ids;
}

-- the list that a settled message goes to
abbrev pub tally_of : DeliveryStatus → String → Option String → Tally
tally_of published id notification_id = published_one notification_id
tally_of uncertain id notification_id = uncertain_one id
tally_of _ id notification_id = skipped_one id

-- the port answered for another key or channel
abbrev pub is_foreign : NotificationRequest → NotificationResult → Bool
is_foreign request r =
    not (r.idempotency_key == request.idempotency_key) || not (r.channel == request.channel)

module _ (env : Environment) (p : Principal) where
  abbrev pub record_lost : String → OutboxMessage → Instant → Exec Stores Tally
  record_lost id sending now = do lost ← record_unknown env p sending now; pure (uncertain_one id)

  -- after the port was called
  abbrev pub record_answer :
      String
      → OutboxMessage
      → NotificationRequest
      → Option NotificationResult
      → Instant
      → Exec Stores Tally
  record_answer id sending request none now = record_lost id sending now
  record_answer id sending request (some r) now =
      if is_foreign request r then record_lost id sending now else (do
        final ← record_result env p sending r now
        pure (tally_of final.dispatch_status id r.notification_id))

  abbrev pub send_request :
      ℕ → OutboxMessage → Option ApprovalGrant → NotificationRequest → Exec Stores Tally
  send_request n m approval request = do
    start ← lift (canonical_utc (env.clock (2 * n)))
    sending ← confirm_sending env p m start
    end ← lift (canonical_utc (env.clock (2 * n + 1)))
    record_answer m.id sending request (env.send n p request approval) end

  abbrev pub skip_malformed : ℕ → OutboxMessage → Exec Stores Tally
  skip_malformed n m = do
    now ← lift (canonical_utc (env.clock (2 * n)))
    failed ← record_malformed env p m now
    pure (skipped_one m.id)

  abbrev pub send_if_formed :
      ℕ → OutboxMessage → Option ApprovalGrant → Result NotificationRequest → Exec Stores Tally
  send_if_formed n m approval (ok request) = send_request n m approval request
  send_if_formed n m approval (err value_error) = skip_malformed n m
  send_if_formed n m approval (err type_error) = skip_malformed n m
  send_if_formed n m approval (err x) = raise x

  abbrev pub send_if_approved :
      Instant
      → ℕ
      → OutboxMessage
      → String
      → Option ApprovalGrant
      → Result PermissionDecision
      → Exec Stores Tally
  send_if_approved now n m key approval (ok decision) =
      send_if_formed n m approval (notification_request m key)
  send_if_approved now n m key approval (err (assistant code)) = do
    release_before_io env p m now
    pure (skipped_one m.id)
  send_if_approved now n m key approval (err x) = raise x

  -- one round of the loop
  unfoldable pub dispatch_message : Instant → ℕ → OutboxMessage → Exec Stores Tally
  dispatch_message now n m =
      let key = attempt_key m in
      lift (env.provide_approval p m key) >>= λ approval.
      send_if_approved now n m key approval
        (require_approval p p5 approval "notification.send" key none (env.moment n))

  unfoldable pub dispatch_all : Instant → ℕ → List OutboxMessage → Exec Stores Tally
  dispatch_all now n [] = pure nothing
  dispatch_all now n (m ∷ ms) = do
    first ← dispatch_message now n m
    rest ← dispatch_all now (n + 1) ms
    pure (add_tally first rest)

  unfoldable pub dispatch : Datetime → Exec Stores DispatchOutcome
  dispatch at = do
    now ← lift (canonical_utc at)
    swept ← sweep_block env p now
    parts ← claim_block env p now
    tally ← dispatch_all now 0 parts.0
    pure (record {
      claimed_message_ids = append (ids parts.0) (ids parts.1);
      published_notification_ids = tally.published_ids;
      skipped_message_ids = append (ids parts.1) tally.skipped_ids;
      uncertain_message_ids = tally.uncertain_ids;
      swept_message_ids = swept;
    })

  abbrev pub is_uncertain_reminder : OutboxMessage → Bool
  is_uncertain_reminder m =
      same_status m.dispatch_status uncertain && m.event.type == reminder_event_type

  unfoldable pub list_uncertain : Exec Stores (List OutboxMessage)
  list_uncertain = do
    request ← lift (permission_request "notification.list_uncertain" "outbox:uncertain" p5)
    decision ← lift (require_permission p request)
    with_transaction p (do
      messages ← on_outbox (Outbox.list_for_tenant p)
      pure (select is_uncertain_reminder messages))

  -- the first message with the id
  unfoldable pub find_message : String → List OutboxMessage → Option OutboxMessage
  find_message id [] = none
  find_message id (m ∷ ms) = if m.id == id then some m else find_message id ms

  -- a message that is there is a reminder, and has an attempt left if it is to be retried
  abbrev pub check_resolvable : String → Option OutboxMessage → Exec Transaction (Unit {0})
  check_resolvable resolution none = pure tt
  check_resolvable resolution (some m) = do
    raise_if (not (m.event.type == reminder_event_type)) value_error
    raise_if (resolution == "retry" && leb max_delivery_attempts m.attempts) value_error

  abbrev pub resolve : String → String → Instant → Exec Transaction OutboxMessage
  resolve id resolution now =
      if resolution == "delivered"
      then on_outbox (resolve_uncertain_delivered p id (aware now))
      else if resolution == "retry"
      then on_outbox (resolve_uncertain_retry p id (aware now))
      else raise value_error

  unfoldable pub resolve_uncertain :
      Instant → String → String → Datetime → Option ApprovalGrant → Exec Stores OutboxMessage
  unfolding mirror_terminal
  resolve_uncertain moment id resolution at approval = do
    now ← lift (canonical_utc at)
    decision ← lift (
        require_approval p p5 approval "notification.resolve_uncertain" (id ++ ":" ++ resolution)
          none moment)
    with_transaction p (do
      messages ← on_outbox (Outbox.list_for_tenant p)
      check_resolvable resolution (find_message id messages)
      m ← resolve id resolution now
      mirror_terminal env p m
      commit
      pure m)
