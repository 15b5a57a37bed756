-- ===== src/Outbox/Sends.antt =====
-- Starting and settling a send.
use text.Mathlib.TextEquality.{eq_iff}
use personal_assistant.Common.{
  ◌≤◌, ◌≡◌, refl, sym, ◌∙◌, ap, subst, ◌⊎◌, inl, inr, true, false, not, some, String, arith,
  text_eq, pair_eq,
}
use personal_assistant.Common.Dict.{find, find-put, find-All, find-passes}
use personal_assistant.Common.Exec.{Result, ok, err, err-ne-ok, assistant, conflict, value_error}
use personal_assistant.Common.Text.{is_empty, is_falsy}
use personal_assistant.Common.Time.{Instant, aware}
use personal_assistant.Permissions.{Principal, is_trusted}
use personal_assistant.Delivery.{
  DeliveryStatus, claimed, sending, failed, uncertain, same_status, DeliveryError, canonical_utc,
}
use personal_assistant.Events.{OutboxMessage, has_claim, has_metadata, validate}
use personal_assistant.Outbox.{Outbox, Key}
use personal_assistant.Outbox.Invariant.{IsValid, IsRecorded}
use personal_assistant.Outbox.Transition.{
  is_entry, matches_token, write_message, save, transition, start_sending, end_with_error, publish,
  retry_at, mark_sending, mark_claim_failed, mark_published, mark_failed, mark_uncertain,
  reschedule,
}
use personal_assistant.Outbox.Transition.Cases.{
  HasClaim, transition_cases, transition-save, transition-ok, transition-wrong_status,
}

module _ (p : Principal) (message_id token : String) (o : Outbox) (e : Key × OutboxMessage)
    (v : IsValid o) (trusted : is_trusted p ≡ true)
    (found : find (is_entry p message_id) o.messages ≡ some e) where
  metadata : has_metadata e.1.dispatch_status e.1 ≡ true
  metadata = (find-All (IsRecorded o) (is_entry p message_id) o.messages v.recorded found).0

  -- a claimed or sending message has its claim
  claim_there :
      (e.1.dispatch_status ≡ claimed) ⊎ (e.1.dispatch_status ≡ sending) → has_claim e.1 ≡ true
  claim_there (inl status) =
      let fits : has_metadata claimed e.1 ≡ true = rw status at metadata in ground arith
  claim_there (inr status) =
      let fits : has_metadata sending e.1 ≡ true = rw status at metadata in ground arith

  token_given : e.1.claim_token ≡ some token → has_claim e.1 ≡ true → is_empty token ≡ false
  token_given same there =
      let filled : not (is_falsy e.1.claim_token) ≡ true = ground arith in
      let own : not (is_falsy (some token)) ≡ true = rw same at filled in ground arith

  -- an accepted update is left to the validator
  reaches_save :
      (expected : DeliveryStatus) (update : OutboxMessage → OutboxMessage)
      → has_claim e.1 ≡ true
      → HasClaim token expected e.1
      → transition p message_id token expected update o ≡ save e.0 (update e.1) o
  reaches_save expected update there h =
      let mine : matches_token e.1.claim_token token ≡ true =
        rw h.0 ((eq_iff token token).1 refl) in
      let right : same_status e.1.dispatch_status expected ≡ true = ground arith in
      transition-save p message_id token expected update o e trusted (token_given h.0 there) found
        mine right

  settles :
      (expected : DeliveryStatus) (update : OutboxMessage → OutboxMessage)
      → has_claim e.1 ≡ true
      → HasClaim token expected e.1
      → has_metadata (update e.1).dispatch_status (update e.1) ≡ true
      → transition p message_id token expected update o
        ≡ (ok (update e.1), write_message e.0 (update e.1) o)
  unfolding save validate
  settles expected update there h fits = reaches_save expected update there h ∙ rw fits

  misfits :
      (expected : DeliveryStatus) (update : OutboxMessage → OutboxMessage)
      → has_claim e.1 ≡ true
      → HasClaim token expected e.1
      → has_metadata (update e.1).dispatch_status (update e.1) ≡ false
      → transition p message_id token expected update o ≡ (err value_error, o)
  unfolding save validate
  misfits expected update there h misfit = reaches_save expected update there h ∙ rw misfit

  -- From a claim with its token, `mark_sending` never fails: it stores the message as sending, with
  -- the time and one attempt more.
  pub mark_sending_starts :
      (t : Instant)
      → HasClaim token claimed e.1
      → mark_sending p message_id token (aware t) o
        ≡ (ok (start_sending t e.1), write_message e.0 (start_sending t e.1) o)
  unfolding mark_sending canonical_utc
  mark_sending_starts t h =
      let fits : has_metadata claimed e.1 ≡ true = rw h.1 at metadata in
      settles claimed (start_sending t) (claim_there (inl h.1)) h (ground arith)

  -- Once a send has started, each way to settle it succeeds with the token: delivered, failed,
  -- uncertain or rescheduled, the message is stored as such and returned, its claim ended.
  pub sending_settles :
      (now t next : Instant) (error : DeliveryError)
      → HasClaim token sending e.1
      → (mark_published now p message_id token (some (aware t)) o
          ≡ (ok (publish t e.1), write_message e.0 (publish t e.1) o))
        × (mark_failed p message_id token error o ≡ (
          ok (end_with_error failed error e.1),
          write_message e.0 (end_with_error failed error e.1) o,
        ))
        × (mark_uncertain p message_id token error o ≡ (
          ok (end_with_error uncertain error e.1),
          write_message e.0 (end_with_error uncertain error e.1) o,
        ))
        × (reschedule p message_id token (aware next) error o
            ≡ (ok (retry_at next error e.1), write_message e.0 (retry_at next error e.1) o))
  unfolding mark_published mark_failed mark_uncertain reschedule canonical_utc
  sending_settles now t next error h =
      let fits : has_metadata sending e.1 ≡ true = rw h.1 at metadata in
      let there = claim_there (inr h.1) in
      (
        settles sending (publish t) there h refl,
        settles sending (end_with_error failed error) there h (ground arith),
        settles sending (end_with_error uncertain error) there h (ground arith),
        settles sending (retry_at next error) there h (ground arith),
      )

  -- Giving up a claim as failed succeeds exactly before the first attempt: a claim of a message that
  -- was sent before is refused by the validator, and stays as it was.
  pub mark_claim_failed_cases :
      (error : DeliveryError)
      → HasClaim token claimed e.1
      → ((e.1.attempts ≡ 0)
          → mark_claim_failed p message_id token error o ≡ (
            ok (end_with_error failed error e.1),
            write_message e.0 (end_with_error failed error e.1) o,
          ))
        × (1 ≤ e.1.attempts → mark_claim_failed p message_id token error o ≡ (err value_error, o))
  unfolding mark_claim_failed
  mark_claim_failed_cases error h =
      let fits : has_metadata claimed e.1 ≡ true = rw h.1 at metadata in
      (
        λ first.
            settles claimed (end_with_error failed error) (claim_there (inl h.1)) h (ground arith),
        λ later.
            misfits claimed (end_with_error failed error) (claim_there (inl h.1)) h (ground arith),
      )

module _ (p : Principal) (message_id token : String) (t again : Instant) (o : Outbox)
    (v : IsValid o) (trusted : is_trusted p ≡ true) (given : is_empty token ≡ false) where
  -- once the entry is stored as sending, the token opens no second send
  started_once :
      (e : Key × OutboxMessage)
      → find (is_entry p message_id) o.messages ≡ some e
      → HasClaim token claimed e.1
      → let o' = write_message e.0 (start_sending t e.1) o in
        mark_sending p message_id token (aware again) o' ≡ (err (assistant conflict), o')
  unfolding mark_sending canonical_utc
  started_once e found h =
      let m' = start_sending t e.1 in
      transition-wrong_status p message_id token claimed (start_sending again)
        (write_message e.0 m' o) (e.0, m') trusted given
        (find-put (is_entry p message_id) e.0 e.1 m' o.messages v.keys found
          (find-passes (is_entry p message_id) o.messages found))
        (rw h.0 ((eq_iff token token).1 refl)) refl

-- At most one send starts from a claim: after `mark_sending` has returned, a second call with the
-- same token is a conflict and changes nothing.
pub mark_sending_once :
    (p : Principal) (message_id token : String) (t again : Instant) (o o' : Outbox)
    {m : OutboxMessage}
    → IsValid o
    → mark_sending p message_id token (aware t) o ≡ (ok m, o')
    → mark_sending p message_id token (aware again) o' ≡ (err (assistant conflict), o')
unfolding mark_sending canonical_utc
mark_sending_once p message_id token t again o o' v h =
    let (trusted, given) =
      transition-ok p message_id token claimed (start_sending t) o
        (ap (λ (r : Result OutboxMessage × Outbox). r.0) h) in
    elim (transition_cases p message_id token claimed (start_sending t) o) [
      | inl (x, e) ↦
          absurd (err-ne-ok (ap (λ (r : Result OutboxMessage × Outbox). r.0) (sym e ∙ h)))
      | inr (e, found, claim, fits, returned) ↦
          subst
            (λ o'.
              mark_sending p message_id token (aware again) o' ≡ (err (assistant conflict), o'))
            (ap (λ (r : Result OutboxMessage × Outbox). r.1) (sym returned ∙ h))
            (started_once p message_id token t again o v trusted given e found claim)
    ]
