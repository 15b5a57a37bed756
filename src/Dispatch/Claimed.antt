-- ===== src/Dispatch/Claimed.antt =====
-- What a dispatch makes of the messages that it claims: the loop and the outcome of `dispatch`
-- (src/personal_assistant/application/use_cases/reminder_notifications_dispatch.py).
use personal_assistant.Common.{
  ℕ, ◌+◌, ◌≡◌, sym, ◌∙◌, ap, subst, ◌⊎◌, inl, inr, Option, List, [], ◌∷◌, ◌++◌ as append, text_eq,
}
use personal_assistant.Common.Exec.{Exn, ok, err, ok_inj, Result-cases, lift}
use personal_assistant.Common.Time.{Instant, Datetime}
use personal_assistant.Permissions.{Principal, ApprovalGrant}
use personal_assistant.Delivery.{canonical_utc}
use personal_assistant.Events.{OutboxMessage}
use personal_assistant.UnitOfWork.{Stores}
use personal_assistant.Dispatch.{Environment, DispatchOutcome, ids, claim_block, sweep_block}
use personal_assistant.Dispatch.Helpers.{attempt_key}
use personal_assistant.Dispatch.Loop.{
  Tally, nothing, add_tally, dispatch_message, dispatch_all, dispatch,
}
use personal_assistant.Dispatch.Steps.{IsValid, Moves, Moves-IsValid}
use personal_assistant.Dispatch.Keeps.{claim_block-Keeps, sweep_block-Keeps}
use personal_assistant.Dispatch.Whole.{dispatch_message-Keeps, dispatch-Moves}
use personal_assistant.Dispatch.Blocks.{Stored}
use personal_assistant.Dispatch.Answers.{bind-ends}
use personal_assistant.Dispatch.Fates.{Fate, dispatch_message-Fate}

-- The fates of the claimed messages, one round after the other.
pub data Fates (env : Environment) (p : Principal) (now : Instant)
    : ℕ → List OutboxMessage → Stores → Tally → Stores → Type 0 where
  none_left : (n : ℕ) (s : Stores) → Fates env p now n [] s nothing s
  one_more :
      (n : ℕ) (m : OutboxMessage) (ms : List OutboxMessage) (s s1 s2 : Stores) (first rest : Tally)
      (approval : Option ApprovalGrant) (b : OutboxMessage)
      → env.provide_approval p m (attempt_key m) ≡ ok approval
      → Moves p.tenant_id s s1
      → Stored p m.id s1.outbox b
      → Fate env p now n m approval b first
      → Fates env p now (n + 1) ms s1 rest s2
      → Fates env p now n (m ∷ ms) s (add_tally first rest) s2

-- The outcome lists what the dispatch has swept, claimed and made of each claimed message.
pub record Dispatched (env : Environment) (p : Principal) (at : Datetime) (s : Stores)
    (o : DispatchOutcome) (s' : Stores) : Type 0 where
  pub now : Instant
  pub is_now : canonical_utc at ≡ ok now
  pub swept : (sweep_block env p now s).0 ≡ ok o.swept_message_ids
  pub claimed : List OutboxMessage
  pub misfits : List OutboxMessage
  pub is_claim : (claim_block env p now (sweep_block env p now s).1).0 ≡ ok (claimed, misfits)
  pub tally : Tally
  pub fates :
      Fates env p now 0 claimed (claim_block env p now (sweep_block env p now s).1).1 tally s'
  pub claimed_ids : o.claimed_message_ids ≡ append (ids claimed) (ids misfits)
  pub published_ids : o.published_notification_ids ≡ tally.published_ids
  pub skipped_ids : o.skipped_message_ids ≡ append (ids misfits) tally.skipped_ids
  pub uncertain_ids : o.uncertain_message_ids ≡ tally.uncertain_ids

module _ (env : Environment) (p : Principal) where
  dispatch_all-Fates :
      (now : Instant) (n : ℕ) (ms : List OutboxMessage) (s : Stores) {t : Tally}
      → IsValid s
      → (dispatch_all env p now n ms s).0 ≡ ok t
      → Fates env p now n ms s t (dispatch_all env p now n ms s).1
  unfolding dispatch_all
  dispatch_all-Fates now n [] s {t} v h =
      subst (λ u. Fates env p now n [] s u s) (ok_inj nothing t h) (none_left n s)
  dispatch_all-Fates now n (m ∷ ms) s {t} v h =
      let (first, ran, h1, left1) = bind-ends (dispatch_message env p now n m) _ s h in
      let (rest, rested, told, left2) =
        bind-ends (dispatch_all env p now (n + 1) ms) _ (dispatch_message env p now n m s).1 h1 in
      let (approval, b, provided, stored, fate) = dispatch_message-Fate env p now n m s v ran in
      let moved = (dispatch_message-Keeps env p now n m).moves s v in
      let others =
        dispatch_all-Fates now (n + 1) ms (dispatch_message env p now n m s).1
          (Moves-IsValid p.tenant_id moved) rested in
      let last : Stores = (dispatch_all env p now n (m ∷ ms) s).1 in
      subst (λ u. Fates env p now n (m ∷ ms) s u last) (ok_inj (add_tally first rest) t told)
        (subst (Fates env p now n (m ∷ ms) s (add_tally first rest)) (sym (left1 ∙ left2))
          (one_more n m ms s _ _ first rest approval b provided moved stored fate others))

  dispatch-Dispatched :
      (at : Datetime) (s : Stores) {o : DispatchOutcome}
      → IsValid s
      → (dispatch env p at s).0 ≡ ok o
      → Dispatched env p at s o (dispatch env p at s).1
  unfolding dispatch
  dispatch-Dispatched at s {o} v h =
      let (now, is_now, h1, left1) = bind-ends (lift (canonical_utc at)) _ s h in
      let (swept, did_sweep, h2, left2) = bind-ends (sweep_block env p now) _ s h1 in
      let (parts, did_claim, h3, left3) =
        bind-ends (claim_block env p now) _ (sweep_block env p now s).1 h2 in
      let base = (claim_block env p now (sweep_block env p now s).1).1 in
      let (tally, ran, told, left4) = bind-ends (dispatch_all env p now 0 parts.0) _ base h3 in
      let swept_valid = Moves-IsValid p.tenant_id ((sweep_block-Keeps env p now).moves s v) in
      let valid =
        Moves-IsValid p.tenant_id
          ((claim_block-Keeps env p now).moves (sweep_block env p now s).1 swept_valid) in
      let same = ok_inj _ o told in
      record {
        now = now;
        is_now = is_now;
        swept = did_sweep ∙ ap (λ (w : DispatchOutcome). ok w.swept_message_ids) same;
        claimed = parts.0;
        misfits = parts.1;
        is_claim = did_claim;
        tally = tally;
        fates =
            subst (Fates env p now 0 parts.0 base tally) (sym (left1 ∙ left2 ∙ left3 ∙ left4))
              (dispatch_all-Fates now 0 parts.0 base valid ran);
        claimed_ids = ap (λ (w : DispatchOutcome). w.claimed_message_ids) (sym same);
        published_ids = ap (λ (w : DispatchOutcome). w.published_notification_ids) (sym same);
        skipped_ids = ap (λ (w : DispatchOutcome). w.skipped_message_ids) (sym same);
        uncertain_ids = ap (λ (w : DispatchOutcome). w.uncertain_message_ids) (sym same);
      }

  -- A dispatch on valid stores, however it ends, moves each message along the delivery machine,
  -- keeps both stores valid and leaves other tenants, the calendar, the events and the workflows as
  -- they were. It raises, or its outcome lists what became of each claimed message, as its round
  -- left it. A message whose approval `require_approval` refuses is pending again, half a minute
  -- later. Any other message needs a trusted P5 principal and a grant that covers the send of this
  -- attempt. It is failed if it makes no request. If the port raises or answers for another key or
  -- channel it is uncertain. Else it is published on a success, and the notification's id is listed;
  -- rescheduled by the delay of its attempt, or failed from the fourth attempt on, on a transient
  -- failure; failed on a permanent failure; and uncertain on an unknown outcome.
  pub dispatch_fates :
      (at : Datetime) (s : Stores)
      → IsValid s
      → Moves p.tenant_id s (dispatch env p at s).1
        × (((x : Exn) × ((dispatch env p at s).0 ≡ err x))
            ⊎ ((o : DispatchOutcome) × ((dispatch env p at s).0 ≡ ok o)
                × Dispatched env p at s o (dispatch env p at s).1))
  dispatch_fates at s v = (
    dispatch-Moves env p at s v,
    elim (Result-cases (dispatch env p at s).0) [
      | inl (x, raised) ↦ inl (x, raised)
      | inr (o, returned) ↦ inr (o, returned, dispatch-Dispatched at s v returned)
    ],
  )
