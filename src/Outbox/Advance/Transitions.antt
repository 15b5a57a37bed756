-- ===== src/Outbox/Advance/Transitions.antt =====
-- Every transition of a single message advances the outbox.
use text.Mathlib.TextEquality.{eq_iff}
use personal_assistant.Common.{
  ◌≡◌, refl, sym, subst, ◌⊎◌, inl, inr, true, Option, none, some, String, arith, text_eq, pair_eq,
}
use personal_assistant.Common.Exec.{Exec, Result, lift, ◌>>=◌}
use personal_assistant.Common.Dict.{find-passes, find-get}
use personal_assistant.Common.Time.{Instant, Datetime, naive, aware}
use personal_assistant.Permissions.{Principal}
use personal_assistant.Delivery.{
  DeliveryStatus, claimed, sending, failed, uncertain, DeliveryError, canonical_utc,
}
use personal_assistant.Delivery.Machine.{
  give_back, refuse, start, deliver, reject, lose, retry, confirm, reopen,
}
use personal_assistant.Events.{OutboxMessage}
use personal_assistant.Outbox.{Outbox, Key}
use personal_assistant.Outbox.Invariant.{IsValid}
use personal_assistant.Outbox.Advance.{
  Edge, Edge-from, Advances, Advances-refl, write_message-Advances,
}
use personal_assistant.Outbox.Transition.{
  is_entry, transition, operator_transition, start_sending, end_with_error, publish, release_until,
  retry_at, resolve_delivered, resolve_retry, mark_sending, mark_claim_failed, mark_published,
  mark_failed, mark_uncertain, release, reschedule, resolve_uncertain_delivered,
  resolve_uncertain_retry,
}
use personal_assistant.Outbox.Transition.Cases.{
  Raises, Replaces, HasClaim, IsUncertain, transition_cases, operator_transition_cases,
}

-- An update that moves the status along the machine and keeps the rest is an edge.
abbrev Moves : (OutboxMessage → Type 0) → (OutboxMessage → OutboxMessage) → Type 0
Moves P update = (m : OutboxMessage) → P m → Edge m (update m)

own_tenant :
    (p : Principal) (message_id : String) (key : Key) (m : OutboxMessage)
    → is_entry p message_id key m ≡ true
    → key.0 ≡ p.tenant_id
own_tenant p message_id key m h = ground (arith, eq_iff key.0 p.tenant_id)

outcome-Advances :
    (p : Principal) (message_id : String) (P : OutboxMessage → Type 0)
    (update : OutboxMessage → OutboxMessage) (o : Outbox) (r : Result OutboxMessage × Outbox)
    → Moves P update
    → IsValid o
    → Raises r o ⊎ Replaces p message_id P update r o
    → Advances p.tenant_id o r.1
outcome-Advances p message_id P update o r moves v (inl (x, e)) =
    subst (λ (s : Result OutboxMessage × Outbox). Advances p.tenant_id o s.1) (sym e)
      (Advances-refl p.tenant_id o v)
outcome-Advances p message_id P update o r moves v (inr (entry, found, h, fits, e)) =
    subst (λ (s : Result OutboxMessage × Outbox). Advances p.tenant_id o s.1) (sym e)
      (write_message-Advances p.tenant_id entry.0 entry.1 (update entry.1) o
        (own_tenant p message_id entry.0 entry.1
          (find-passes (is_entry p message_id) o.messages found))
        (find-get (is_entry p message_id) o.messages v.keys found) fits (moves entry.1 h) v)

module _ (p : Principal) (message_id : String) (o : Outbox) (v : IsValid o) where
  transition-Advances :
      (token : String) (expected : DeliveryStatus) (update : OutboxMessage → OutboxMessage)
      → Moves (HasClaim token expected) update
      → Advances p.tenant_id o (transition p message_id token expected update o).1
  transition-Advances token expected update moves =
      outcome-Advances p message_id (HasClaim token expected) update o
        (transition p message_id token expected update o) moves v
        (transition_cases p message_id token expected update o)

  operator_transition-Advances :
      (update : OutboxMessage → OutboxMessage)
      → Moves IsUncertain update
      → Advances p.tenant_id o (operator_transition p message_id update o).1
  operator_transition-Advances update moves =
      outcome-Advances p message_id IsUncertain update o (operator_transition p message_id update o)
        moves v (operator_transition_cases p message_id update o)

  -- A timestamp that is not aware raises before the outbox is read.
  after_canonical :
      (t : Datetime) (k : Instant → Exec Outbox OutboxMessage)
      → ((i : Instant) → Advances p.tenant_id o (k i o).1)
      → Advances p.tenant_id o ((lift (canonical_utc t) >>= k) o).1
  unfolding canonical_utc
  after_canonical (naive t) k h = Advances-refl p.tenant_id o v
  after_canonical (aware t) k h = h t

  pub mark_sending-Advances :
      (token : String) (t : Datetime)
      → Advances p.tenant_id o (mark_sending p message_id token t o).1
  unfolding mark_sending
  mark_sending-Advances token t =
      after_canonical t (λ i. transition p message_id token claimed (start_sending i))
        (λ i.
          transition-Advances token claimed (start_sending i)
            (λ m h. Edge-from m (start_sending i m) h.1 start (omega arith) refl))

  pub mark_claim_failed-Advances :
      (token : String) (error : DeliveryError)
      → Advances p.tenant_id o (mark_claim_failed p message_id token error o).1
  unfolding mark_claim_failed
  mark_claim_failed-Advances token error =
      transition-Advances token claimed (end_with_error failed error)
        (λ m h. Edge-from m (end_with_error failed error m) h.1 refuse (omega arith) refl)

  pub mark_failed-Advances :
      (token : String) (error : DeliveryError)
      → Advances p.tenant_id o (mark_failed p message_id token error o).1
  unfolding mark_failed
  mark_failed-Advances token error =
      transition-Advances token sending (end_with_error failed error)
        (λ m h. Edge-from m (end_with_error failed error m) h.1 reject (omega arith) refl)

  pub mark_uncertain-Advances :
      (token : String) (error : DeliveryError)
      → Advances p.tenant_id o (mark_uncertain p message_id token error o).1
  unfolding mark_uncertain
  mark_uncertain-Advances token error =
      transition-Advances token sending (end_with_error uncertain error)
        (λ m h. Edge-from m (end_with_error uncertain error m) h.1 lose (omega arith) refl)

  pub mark_published-Advances :
      (now : Instant) (token : String) (t : Option Datetime)
      → Advances p.tenant_id o (mark_published now p message_id token t o).1
  unfolding mark_published
  mark_published-Advances now token none =
      transition-Advances token sending (publish now)
        (λ m h. Edge-from m (publish now m) h.1 deliver (omega arith) refl)
  mark_published-Advances now token (some t) =
      after_canonical t (λ i. transition p message_id token sending (publish i))
        (λ i.
          transition-Advances token sending (publish i)
            (λ m h. Edge-from m (publish i m) h.1 deliver (omega arith) refl))

  pub release-Advances :
      (token : String) (t : Option Datetime)
      → Advances p.tenant_id o (release p message_id token t o).1
  unfolding release
  release-Advances token none =
      transition-Advances token claimed (release_until none)
        (λ m h. Edge-from m (release_until none m) h.1 give_back (omega arith) refl)
  release-Advances token (some (naive t)) = Advances-refl p.tenant_id o v
  release-Advances token (some (aware t)) =
      transition-Advances token claimed (release_until (some t))
        (λ m h. Edge-from m (release_until (some t) m) h.1 give_back (omega arith) refl)

  pub reschedule-Advances :
      (token : String) (t : Datetime) (error : DeliveryError)
      → Advances p.tenant_id o (reschedule p message_id token t error o).1
  unfolding reschedule
  reschedule-Advances token t error =
      after_canonical t (λ i. transition p message_id token sending (retry_at i error))
        (λ i.
          transition-Advances token sending (retry_at i error)
            (λ m h. Edge-from m (retry_at i error m) h.1 retry (omega arith) refl))

  pub resolve_uncertain_delivered-Advances :
      (t : Datetime) → Advances p.tenant_id o (resolve_uncertain_delivered p message_id t o).1
  unfolding resolve_uncertain_delivered
  resolve_uncertain_delivered-Advances t =
      after_canonical t (λ i. operator_transition p message_id (resolve_delivered i))
        (λ i.
          operator_transition-Advances (resolve_delivered i)
            (λ m h. Edge-from m (resolve_delivered i m) h confirm (omega arith) refl))

  pub resolve_uncertain_retry-Advances :
      (t : Datetime) → Advances p.tenant_id o (resolve_uncertain_retry p message_id t o).1
  unfolding resolve_uncertain_retry
  resolve_uncertain_retry-Advances t =
      after_canonical t (λ i. operator_transition p message_id (resolve_retry i))
        (λ i.
          operator_transition-Advances (resolve_retry i)
            (λ m h. Edge-from m (resolve_retry i m) h reopen (omega arith) refl))
