-- ===== src/EventStore/History.antt =====
-- Histories of `append` of `InMemoryEventStore`
-- (src/personal_assistant/adapters/persistence/in_memory.py).
use text.Mathlib.TextEquality.{eq_iff}
use personal_assistant.Common.{
  ◌≡◌, refl, inl, inr, none, some, List, [], ◌∷◌, String, Bool-cases, Option-cases, ◌==◌, text_eq,
  pair_eq,
}
use personal_assistant.Common.Exec.{Result, ok, err-ne-ok}
use personal_assistant.Common.Dict.{get, put, get-put, get-put_self}
use personal_assistant.Common.Index.{Key, key_eq}
use personal_assistant.Permissions.{Principal, is_trusted}
use personal_assistant.Events.{CloudEvent}
use personal_assistant.EventStore.{EventStore, store_event, replay_or_append, append}

-- what is stored stays
abbrev Kept : EventStore → EventStore → Type 0
Kept s s' = (k : Key) (e : CloudEvent) → get k s.events ≡ some e → get k s'.events ≡ some e

module _ (fingerprint : CloudEvent → String) where
  append-Kept :
      (p : Principal) (event : CloudEvent) (s : EventStore)
      → Kept s (append fingerprint p event s).1
  unfolding append
  append-Kept p event s k e h = elim (Bool-cases (is_trusted p)) [
    | inr unknown ↦ rw unknown h
    | inl known ↦ elim (Bool-cases (event.tenant_id == p.tenant_id)) [
      | inr other ↦ rw (known, other) h
      | inl own ↦ elim (Option-cases (get (p.tenant_id, event.id) s.events)) [
        | inl fresh ↦ rw (known, own, fresh) (beside fresh)
        | inr (existing, stored) ↦
            elim (Option-cases (get (p.tenant_id, event.id) s.fingerprints)) [
              | inl missing ↦ rw (known, own, stored, missing) h
              | inr (old, there) ↦ elim (Bool-cases (old == fingerprint event)) [
                | inl equal ↦ rw (known, own, stored, there, equal) h
                | inr differs ↦ rw (known, own, stored, there, differs) h
              ]
            ]
      ]
    ]
  ]
    where
      beside :
          get (p.tenant_id, event.id) s.events ≡ none
          → get k (put (p.tenant_id, event.id) event s.events) ≡ some e
      beside fresh = elim (Bool-cases (key_eq.is_equal (p.tenant_id, event.id) k)) [
        | inr other ↦ rw get-put (rw other h)
        | inl hit ↦ absurd (missing ((key_eq.is_equal_iff (p.tenant_id, event.id) k).0 hit) fresh)
      ]
        where
          missing : (p.tenant_id, event.id) ≡ k → get (p.tenant_id, event.id) s.events ≡ none → ⊥
          missing same fresh = cc

  -- the store after appends by some principals
  unfoldable pub append_all : List (Principal × CloudEvent) → EventStore → EventStore
  append_all [] s = s
  append_all ((p, event) ∷ es) s = append_all es (append fingerprint p event s).1

  -- The event store is append-only: whatever appends any principals make, however they end, an
  -- event that is stored stays stored under its key, unchanged.
  pub events_kept :
      (es : List (Principal × CloudEvent)) (s : EventStore) (k : Key) (e : CloudEvent)
      → get k s.events ≡ some e
      → get k (append_all es s).events ≡ some e
  unfolding append_all
  events_kept [] s k e h = h
  events_kept ((p, event) ∷ es) s k e h =
      events_kept es (append fingerprint p event s).1 k e (append-Kept p event s k e h)

  -- The second time the event is found, with the same fingerprint.
  replay_again :
      (key : Key) (event : CloudEvent) (s : EventStore) (e : CloudEvent)
      → (replay_or_append key event (fingerprint event) (get key s.events) s).0 ≡ ok e
      → let s' = (replay_or_append key event (fingerprint event) (get key s.events) s).1 in
        replay_or_append key event (fingerprint event) (get key s'.events) s' ≡ (ok e, s')
  replay_again key event s e h = elim (Option-cases (get key s.events)) [
    | inl fresh ↦
        let e' : ◌≡◌ {A = Result CloudEvent} (ok event) (ok e) = rw fresh at h in
        rw
          (
            fresh,
            get-put_self key event s.events,
            get-put_self key (fingerprint event) s.fingerprints,
            (eq_iff (fingerprint event) (fingerprint event)).1 refl,
          )
          (λ i. (e' i, store_event key event (fingerprint event) s))
    | inr (existing, stored) ↦ elim (Option-cases (get key s.fingerprints)) [
      | inl missing ↦ absurd (err-ne-ok (rw (stored, missing) at h))
      | inr (old, there) ↦ elim (Bool-cases (old == fingerprint event)) [
        | inr differs ↦ absurd (err-ne-ok (rw (stored, there, differs) at h))
        | inl equal ↦
            let e' : ◌≡◌ {A = Result CloudEvent} (ok existing) (ok e) =
              rw (stored, there, equal) at h in
            rw (stored, there, equal, stored, there, equal) (λ i. (e' i, s))
      ]
    ]
  ]

  -- An append that returns an event returns the same event again, and changes nothing, when it is
  -- made once more.
  append_again :
      (p : Principal) (event : CloudEvent) (s : EventStore) {e : CloudEvent}
      → (append fingerprint p event s).0 ≡ ok e
      → let s' = (append fingerprint p event s).1 in append fingerprint p event s' ≡ (ok e, s')
  unfolding append
  append_again p event s {e} h = elim (Bool-cases (is_trusted p)) [
    | inr unknown ↦ absurd (err-ne-ok (rw unknown at h))
    | inl known ↦ elim (Bool-cases (event.tenant_id == p.tenant_id)) [
      | inr other ↦ absurd (err-ne-ok (rw (known, other) at h))
      | inl own ↦
          rw (known, own) (replay_again (p.tenant_id, event.id) event s e (rw (known, own) at h))
    ]
  ]
