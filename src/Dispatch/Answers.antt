-- ===== src/Dispatch/Answers.antt =====
-- What the answer of the notification port makes of a message that is being sent
-- (src/personal_assistant/application/use_cases/reminder_notifications_dispatch.py).
use text.Mathlib.TextEquality.{eq_iff}
use personal_assistant.Common.{
  ◌≡◌, ◌≢◌, refl, sym, subst, ◌⊎◌, inl, inr, true, Bool-cases, Option, none, some, String, ◌==◌,
  arith, text_eq,
}
use personal_assistant.Common.Exec.{Exec, ok, ok_inj, err-ne-ok, Result-cases, pure, ◌>>=◌}
use personal_assistant.Common.Time.{Instant}
use personal_assistant.Permissions.{Principal}
use personal_assistant.Delivery.{uncertain}
use personal_assistant.Events.{OutboxMessage}
use personal_assistant.UnitOfWork.{Stores}
use personal_assistant.Dispatch.{Environment, record_unknown, record_result}
use personal_assistant.Dispatch.Helpers.{NotificationRequest, NotificationResult}
use personal_assistant.Dispatch.Loop.{
  Tally, uncertain_one, tally_of, is_foreign, record_lost, record_answer,
}
use personal_assistant.Dispatch.Steps.{IsValid}
use personal_assistant.Dispatch.Blocks.{Stored}
use personal_assistant.Dispatch.Settled.{Settled, record_result-Recorded}
use personal_assistant.Dispatch.Rounds.{record_unknown-ends}

-- a sequence that returns: both parts return, and the second leaves the stores
pub bind-ends :
    {A B : Type 0} (m : Exec Stores A) (k : A → Exec Stores B) (s : Stores) {b : B}
    → ((m >>= k) s).0 ≡ ok b
    → (a : A) × ((m s).0 ≡ ok a) × ((k a (m s).1).0 ≡ ok b) × (((m >>= k) s).1 ≡ (k a (m s).1).1)
bind-ends m k s {b} h = elim (Result-cases (m s).0) [
  | inl (x, raised) ↦ absurd (err-ne-ok (rw raised at h))
  | inr (a, ran) ↦ (a, ran, rw ran at h, rw ran refl)
]

-- The port raised, or answered for another key or channel.
abbrev Unusable : NotificationRequest → Option NotificationResult → Type 0
Unusable request answer =
    (answer ≡ none)
    ⊎ ((r : NotificationResult) × (answer ≡ some r)
        × ((r.idempotency_key ≢ request.idempotency_key) ⊎ (r.channel ≢ request.channel)))

-- What becomes of a message that was sent, by the answer of the port.
pub data Ending (request : NotificationRequest) (answer : Option NotificationResult) (now : Instant)
    (id : String) (b : OutboxMessage) : Tally → Type 0 where
  lost :
      Unusable request answer
      → b.dispatch_status ≡ uncertain
      → Ending request answer now id b (uncertain_one id)
  answered :
      (r : NotificationResult) {t : Tally}
      → answer ≡ some r
      → r.idempotency_key ≡ request.idempotency_key
      → r.channel ≡ request.channel
      → Settled r now id b t
      → Ending request answer now id b t

module _ (env : Environment) (p : Principal) where
  record_lost-ends :
      (id : String) (m : OutboxMessage) (now : Instant) (s : Stores) {t : Tally}
      → IsValid s
      → (record_lost env p id m now s).0 ≡ ok t
      → (b : OutboxMessage) × Stored p m.id (record_lost env p id m now s).1.outbox b
        × (b.dispatch_status ≡ uncertain)
        × (uncertain_one id ≡ t)
  record_lost-ends id m now s {t} v h =
      let (b, ran, told, left) =
        bind-ends (record_unknown env p m now) (λ _. pure (uncertain_one id)) s h in
      let (status, stored) = record_unknown-ends p m s v.outbox env now ran in
      (
        b,
        subst (λ (s' : Stores). Stored p m.id s'.outbox b) (sym left) stored,
        status,
        ok_inj (uncertain_one id) t told,
      )

  pub record_answer-ends :
      (id : String) (m : OutboxMessage) (request : NotificationRequest)
      (answer : Option NotificationResult) (now : Instant) (s : Stores) {t : Tally}
      → IsValid s
      → Stored p m.id s.outbox m
      → (record_answer env p id m request answer now s).0 ≡ ok t
      → (b : OutboxMessage) × Stored p m.id
          (record_answer env p id m request answer now s).1.outbox
          b
        × Ending request answer now id b t
  record_answer-ends id m request none now s {t} v there h =
      let (b, stored, status, told) = record_lost-ends id m now s v h in
      (b, stored, subst (Ending request none now id b) told (lost (inl refl) status))
  record_answer-ends id m request (some r) now s {t} v there h =
      elim (Bool-cases (is_foreign request r)) [
        | inl foreign ↦
            let (b, stored, status, told) = record_lost-ends id m now s v (rw foreign at h) in
            rw foreign (
              b,
              stored,
              subst (Ending request (some r) now id b) told
                  (lost (inr (r, refl, other foreign)) status),
            )
        | inr own ↦
            let (b, ran, told, left) =
              bind-ends (record_result env p m r now)
                (λ final. pure (tally_of final.dispatch_status id r.notification_id)) s
                (rw own at h) in
            let (settled, stored) = record_result-Recorded env p m id r now s v.outbox there ran in
            rw own (
              b,
              subst (λ (s' : Stores). Stored p m.id s'.outbox b) (sym left) stored,
              answered r refl ((eq_iff r.idempotency_key request.idempotency_key).0 (ground arith))
                  ((eq_iff r.channel request.channel).0 (ground arith))
                  (subst (Settled r now id b) (ok_inj _ t told) settled),
            )
      ]
    where
      other :
          is_foreign request r ≡ true
          → (r.idempotency_key ≢ request.idempotency_key) ⊎ (r.channel ≢ request.channel)
      other foreign = elim (Bool-cases (r.idempotency_key == request.idempotency_key)) [
        | inl same ↦ inr (λ e. let twice = (eq_iff r.channel request.channel).1 e in ground arith)
        | inr differs ↦ inl (λ e.
            let twice = (eq_iff r.idempotency_key request.idempotency_key).1 e in ground arith)
      ]
