-- ===== src/Outbox/Replay.antt =====
-- `add` is idempotent.
use Prim.Native.String.{◌++◌}
use text.Mathlib.TextEquality.{eq_iff}
use personal_assistant.Common.{
  ◌≡◌, refl, inl, inr, Option, String, Bool-cases, Option-cases, text_eq, pair_eq, ◌==◌,
}
use personal_assistant.Common.Exec.{Result, ok, err-ne-ok, Result-cases}
use personal_assistant.Common.Dict.{get, get-put_self}
use personal_assistant.Common.Time.{Instant, Datetime}
use personal_assistant.Permissions.{Principal, is_trusted}
use personal_assistant.Events.{CloudEvent, OutboxMessage}
use personal_assistant.Outbox.{
  Outbox, Write, canonical_option, new_message, id_or, is_taken, store, replay_or_add, add,
}

module _ (p : Principal) (event : CloudEvent) (key print : String) (o : Outbox) where
  -- The second time the message is found, with the same fingerprint.
  replay_again :
      (next : Option Instant) (id id' : String) (t t' : Instant) (m : OutboxMessage)
      → (replay_or_add (get (p.tenant_id, key) o.messages) p event key next id t print o).0 ≡ ok m
      → let o' =
          (replay_or_add (get (p.tenant_id, key) o.messages) p event key next id t print o).1 in
        replay_or_add (get (p.tenant_id, key) o'.messages) p event key next id' t' print o'
        ≡ (ok m, o')
  replay_again next id id' t t' m h = elim (Option-cases (get (p.tenant_id, key) o.messages)) [
    | inr (existing, stored) ↦ elim (Option-cases (get (p.tenant_id, key) o.fingerprints)) [
      | inl unknown ↦ absurd (err-ne-ok (rw (stored, unknown) at h))
      | inr (old, known) ↦ elim (Bool-cases (old == print)) [
        | inr differs ↦ absurd (err-ne-ok (rw (stored, known, differs) at h))
        | inl equal ↦
            let e : ◌≡◌ {A = Result OutboxMessage} (ok existing) (ok m) =
              rw (stored, known, equal) at h in
            rw (stored, known, equal, stored, known, equal) (λ i. (e i, o))
      ]
    ]
    | inl fresh ↦ elim (Result-cases (new_message p event key next id t)) [
      | inl (x, misfit) ↦ absurd (err-ne-ok (rw (fresh, misfit) at h))
      | inr (n, built) ↦
          elim (Bool-cases (is_taken (get (p.tenant_id, n.id) o.key_by_message_id) key)) [
            | inl used ↦ absurd (err-ne-ok (rw (fresh, built, used) at h))
            | inr free ↦
                elim (Bool-cases (is_taken (get (p.tenant_id, event.id) o.key_by_event_id) key)) [
                  | inl used ↦ absurd (err-ne-ok (rw (fresh, built, free, used) at h))
                  | inr free' ↦
                      let e : ◌≡◌ {A = Result OutboxMessage} (ok n) (ok m) =
                        rw (fresh, built, free, free') at h in
                      let self = (eq_iff print print).1 refl in
                      rw
                        (
                          fresh,
                          built,
                          free,
                          free',
                          get-put_self (p.tenant_id, key) n o.messages,
                          get-put_self (p.tenant_id, key) print o.fingerprints,
                          self,
                        )
                        (λ i. (
                          e i,
                          store (p.tenant_id, key) n (p.tenant_id, n.id) (p.tenant_id, event.id) key
                              print o,
                        ))
                ]
          ]
    ]
  ]

-- A call of `add` that returns a message returns the same message again, and changes nothing, when
-- it is made once more with the same arguments, whatever the clock and `uuid4` give then.
pub add_again :
    (fingerprint : Write → String) (uuid uuid' : String) (t t' : Instant) (p : Principal)
    (event : CloudEvent) (key : String) (next : Option Datetime) (id : Option String) (o : Outbox)
    {m : OutboxMessage}
    → (add fingerprint uuid t p event key next id o).0 ≡ ok m
    → let o' = (add fingerprint uuid t p event key next id o).1 in
      add fingerprint uuid' t' p event key next id o' ≡ (ok m, o')
unfolding add
add_again fingerprint uuid uuid' t t' p event key next id o {m} h =
    elim (Bool-cases (is_trusted p)) [
      | inr unknown ↦ absurd (err-ne-ok (rw unknown at h))
      | inl known ↦ elim (Bool-cases (event.tenant_id == p.tenant_id)) [
        | inr other ↦ absurd (err-ne-ok (rw (known, other) at h))
        | inl own ↦ elim (Result-cases (canonical_option next)) [
          | inl (x, misfit) ↦ absurd (err-ne-ok (rw (known, own, misfit) at h))
          | inr (at, canonical) ↦
              rw (known, own, canonical)
                (replay_again p event key
                  (fingerprint (record { event = event; next_attempt_at = at; message_id = id })) o
                  at (id_or id ("out_" ++ uuid)) (id_or id ("out_" ++ uuid')) t t' m
                  (rw (known, own, canonical) at h))
        ]
      ]
    ]
