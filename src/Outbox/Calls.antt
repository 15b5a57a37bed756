-- ===== src/Outbox/Calls.antt =====
-- A call of the outbox by some principal, and a history of calls: the invariant, the delivery
-- machine, and the tenants' isolation over all of them.
use personal_assistant.Common.{ℕ, sym, subst, Option, List, [], ◌∷◌, String, text_eq, pair_eq}
use personal_assistant.Common.Time.{Instant, Datetime, naive, aware}
use personal_assistant.Permissions.{Principal}
use personal_assistant.Delivery.{DeliveryError}
use personal_assistant.Events.{CloudEvent}
use personal_assistant.Outbox
use personal_assistant.Outbox.{Outbox, Key, Write, empty}
use personal_assistant.Outbox.Transition
use personal_assistant.Outbox.Claim
use personal_assistant.Outbox.Claim.Sweep.{sweep-Advances, sweep_naive}
use personal_assistant.Outbox.Invariant.{IsValid, empty-IsValid}
use personal_assistant.Outbox.Advance.{Follows-trans, here, Advances, Advances-refl, Evolves}
use personal_assistant.Outbox.Advance.Transitions.{
  mark_sending-Advances, mark_claim_failed-Advances, mark_published-Advances, mark_failed-Advances,
  mark_uncertain-Advances, release-Advances, reschedule-Advances,
  resolve_uncertain_delivered-Advances, resolve_uncertain_retry-Advances,
}
use personal_assistant.Outbox.Advance.Claims.{claim_due-Advances, claim-Advances}
use personal_assistant.Outbox.Advance.Add.{add-Advances}

-- Every method that changes the outbox, with its arguments and the values of the clock and of
-- `uuid4` that it reads.
pub data Call : Type 0 where
  add : String → Instant → CloudEvent → String → Option Datetime → Option String → Call
  claim_due : (ℕ → String) → Datetime → ℕ → String → ℕ → Option String → Call
  claim : (ℕ → String) → Instant → ℕ → String → ℕ → Call
  sweep_expired_sending : Datetime → DeliveryError → ℕ → Option String → Call
  mark_sending : String → String → Datetime → Call
  mark_claim_failed mark_failed mark_uncertain : String → String → DeliveryError → Call
  mark_published : Instant → String → String → Option Datetime → Call
  release : String → String → Option Datetime → Call
  reschedule : String → String → Datetime → DeliveryError → Call
  resolve_uncertain_delivered resolve_uncertain_retry : String → Datetime → Call

module _ (fingerprint : Write → String) where
  -- the outbox that a call leaves, whether it returned or raised
  unfoldable pub perform : Principal → Call → Outbox → Outbox
  perform p (add uuid created_at event key next id) o =
      (Outbox.add fingerprint uuid created_at p event key next id o).1
  perform p (claim_due hex now limit owner lease_seconds event_type) o =
      (Claim.claim_due hex p now limit owner lease_seconds event_type o).1
  perform p (claim hex now limit owner lease_seconds) o =
      (Claim.claim hex now p limit owner lease_seconds o).1
  perform p (sweep_expired_sending now error limit event_type) o =
      (Claim.sweep_expired_sending p now error limit event_type o).1
  perform p (mark_sending id token t) o = (Transition.mark_sending p id token t o).1
  perform p (mark_claim_failed id token error) o =
      (Transition.mark_claim_failed p id token error o).1
  perform p (mark_failed id token error) o = (Transition.mark_failed p id token error o).1
  perform p (mark_uncertain id token error) o = (Transition.mark_uncertain p id token error o).1
  perform p (mark_published now id token t) o = (Transition.mark_published now p id token t o).1
  perform p (release id token t) o = (Transition.release p id token t o).1
  perform p (reschedule id token t error) o = (Transition.reschedule p id token t error o).1
  perform p (resolve_uncertain_delivered id t) o =
      (Transition.resolve_uncertain_delivered p id t o).1
  perform p (resolve_uncertain_retry id t) o = (Transition.resolve_uncertain_retry p id t o).1

  unfoldable pub run : List (Principal × Call) → Outbox → Outbox
  run [] o = o
  run ((p, c) ∷ cs) o = run cs (perform p c o)

  -- Every call, by any principal, with any arguments and however it ends, takes a valid outbox to a
  -- valid one, moves each stored message along the delivery machine, and leaves the messages of
  -- other tenants alone.
  pub perform-Advances :
      (p : Principal) (c : Call) (o : Outbox) → IsValid o → Advances p.tenant_id o (perform p c o)
  unfolding perform
  perform-Advances p (add uuid created_at event key next id) o v =
      add-Advances fingerprint uuid created_at p event key id o v next
  perform-Advances p (claim_due hex now limit owner lease_seconds event_type) o v =
      claim_due-Advances hex p limit owner lease_seconds event_type o v now
  perform-Advances p (claim hex now limit owner lease_seconds) o v =
      claim-Advances hex p limit owner lease_seconds o v now
  perform-Advances p (sweep_expired_sending (naive t) error limit event_type) o v =
      subst (Advances p.tenant_id o) (sym (sweep_naive p t limit error event_type o))
        (Advances-refl p.tenant_id o v)
  perform-Advances p (sweep_expired_sending (aware now) error limit event_type) o v =
      sweep-Advances p now limit error event_type o v
  perform-Advances p (mark_sending id token t) o v = mark_sending-Advances p id o v token t
  perform-Advances p (mark_claim_failed id token error) o v =
      mark_claim_failed-Advances p id o v token error
  perform-Advances p (mark_failed id token error) o v = mark_failed-Advances p id o v token error
  perform-Advances p (mark_uncertain id token error) o v =
      mark_uncertain-Advances p id o v token error
  perform-Advances p (mark_published now id token t) o v =
      mark_published-Advances p id o v now token t
  perform-Advances p (release id token t) o v = release-Advances p id o v token t
  perform-Advances p (reschedule id token t error) o v = reschedule-Advances p id o v token t error
  perform-Advances p (resolve_uncertain_delivered id t) o v =
      resolve_uncertain_delivered-Advances p id o v t
  perform-Advances p (resolve_uncertain_retry id t) o v =
      resolve_uncertain_retry-Advances p id o v t

  pub run-IsValid : (cs : List (Principal × Call)) (o : Outbox) → IsValid o → IsValid (run cs o)
  unfolding run
  run-IsValid [] o v = v
  run-IsValid ((p, c) ∷ cs) o v = run-IsValid cs (perform p c o) (perform-Advances p c o v).valid

  -- Whatever calls any principals make, an outbox that began empty is valid: every stored message
  -- passes the validator, no key occurs twice, and the three indexes agree with the messages.
  pub history-IsValid : (cs : List (Principal × Call)) → IsValid (run cs empty)
  history-IsValid cs = run-IsValid cs empty empty-IsValid

  pub run-Evolves :
      (cs : List (Principal × Call)) (o : Outbox)
      → IsValid o
      → Evolves o.messages (run cs o).messages
  unfolding run
  run-Evolves [] o v k m h = (m, h, here)
  run-Evolves ((p, c) ∷ cs) o v k m h =
      let a = perform-Advances p c o v in
      let (m', h', f) = a.evolves k m h in
      let (m'', h'', g) = run-Evolves cs (perform p c o) a.valid k m' h' in
      (m'', h'', Follows-trans f g)
