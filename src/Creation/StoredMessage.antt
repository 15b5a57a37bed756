-- ===== src/Creation/StoredMessage.antt =====
-- What a call of the outbox's `add` that returns has stored.
use Prim.Native.String.{◌++◌}
use personal_assistant.Common.{
  ◌≡◌, refl, ap, ◌∙◌, inl, inr, Option, none, some, String, Bool-cases, Option-cases, text_eq,
  pair_eq, ◌==◌,
}
use personal_assistant.Common.Exec.{ok, err-ne-ok, ok_inj, Result-cases}
use personal_assistant.Common.Dict.{get, get-put_self}
use personal_assistant.Common.Time.{Instant, Datetime}
use personal_assistant.Permissions.{Principal, is_trusted}
use personal_assistant.Events.{CloudEvent, OutboxMessage}
use personal_assistant.Outbox.{
  Outbox, Write, canonical_option, new_message, id_or, is_taken, replay_or_add, add,
}

module _ (p : Principal) (event : CloudEvent) (key : String) (o : Outbox) where
  replay_or_add-stored :
      (print : String) (next : Option Instant) (id : String) (t : Instant) {m : OutboxMessage}
      (held : Option OutboxMessage)
      → get (p.tenant_id, key) o.messages ≡ held
      → (replay_or_add held p event key next id t print o).0 ≡ ok m
      → get (p.tenant_id, key) (replay_or_add held p event key next id t print o).1.messages
        ≡ some m
  replay_or_add-stored print next id t {m} (some old) there h =
      elim (Option-cases (get (p.tenant_id, key) o.fingerprints)) [
        | inl unknown ↦ absurd (err-ne-ok (rw unknown at h))
        | inr (stored, known) ↦ elim (Bool-cases (stored == print)) [
          | inr differs ↦ absurd (err-ne-ok (rw (known, differs) at h))
          | inl equal ↦ rw (known, equal) (there ∙ ap some (ok_inj old m (rw (known, equal) at h)))
        ]
      ]
  replay_or_add-stored print next id t {m} none there h =
      elim (Result-cases (new_message p event key next id t)) [
        | inl (x, misfit) ↦ absurd (err-ne-ok (rw misfit at h))
        | inr (n, built) ↦
            elim (Bool-cases (is_taken (get (p.tenant_id, n.id) o.key_by_message_id) key)) [
              | inl used ↦ absurd (err-ne-ok (rw (built, used) at h))
              | inr free ↦
                  elim (Bool-cases (is_taken (get (p.tenant_id, event.id) o.key_by_event_id) key)) [
                    | inl used ↦ absurd (err-ne-ok (rw (built, free, used) at h))
                    | inr free' ↦
                        rw (built, free, free')
                          (get-put_self (p.tenant_id, key) n o.messages
                            ∙ ap some (ok_inj n m (rw (built, free, free') at h)))
                  ]
            ]
      ]

  pub add-stored :
      (fingerprint : Write → String) (uuid : String) (t : Instant) (next : Option Datetime)
      (id : Option String) {m : OutboxMessage}
      → (add fingerprint uuid t p event key next id o).0 ≡ ok m
      → get (p.tenant_id, key) (add fingerprint uuid t p event key next id o).1.messages ≡ some m
  unfolding add
  add-stored fingerprint uuid t next id {m} h = elim (Bool-cases (is_trusted p)) [
    | inr unknown ↦ absurd (err-ne-ok (rw unknown at h))
    | inl known ↦ elim (Bool-cases (event.tenant_id == p.tenant_id)) [
      | inr other ↦ absurd (err-ne-ok (rw (known, other) at h))
      | inl own ↦ elim (Result-cases (canonical_option next)) [
        | inl (x, misfit) ↦ absurd (err-ne-ok (rw (known, own, misfit) at h))
        | inr (at_time, canonical) ↦
            rw (known, own, canonical)
              (replay_or_add-stored
                (fingerprint (record { event = event; next_attempt_at = at_time; message_id = id }))
                at_time (id_or id ("out_" ++ uuid)) t {m = m} (get (p.tenant_id, key) o.messages)
                refl (rw (known, own, canonical) at h))
      ]
    ]
  ]
