-- ===== src/Outbox/Advance/Add.antt =====
-- Adding a message advances the outbox, and the three indexes stay consistent.
use Prim.Native.String.{◌++◌}
use personal_assistant.Common.{
  ◌≡◌, refl, sym, ◌∙◌, ap, inl, inr, true, false, not, Option, none, some, List, String, arith,
  is_some, Bool-cases, text_eq, pair_eq, ◌==◌,
}
use personal_assistant.Common.Dict.{
  get, put, All-put, Distinct-put, get-put, get-put_self, get-put_ne,
}
use personal_assistant.Common.Entries.{All-map}
use personal_assistant.Common.Index.{index_kept}
use personal_assistant.Common.Exec.{
  Exec, Result, ok, err, ◌>>◌, raise_if, raise, assistant, permission_denied, value_error,
}
use personal_assistant.Common.Time.{Instant, Datetime, naive, aware}
use personal_assistant.Permissions.{Principal, is_trusted, require_trusted_principal}
use personal_assistant.Events.{CloudEvent, OutboxMessage, has_metadata}
use personal_assistant.Outbox.{
  Outbox, Key, key_eq, Write, new_message, id_or, is_taken, store, replay, add_new, replay_or_add,
  add,
}
use personal_assistant.Outbox.Invariant.{IsRecorded, IsValid}
use personal_assistant.Outbox.Advance.{Advances, Advances-refl, here}

fingerprint_kept :
    (i j : Key) (print : String) (d : List (Key × String))
    → is_some (get j d) ≡ true
    → is_some (get j (put i print d)) ≡ true
fingerprint_kept i j print d old = elim (Bool-cases (key_eq.is_equal i j)) [
  | inr other ↦ rw get-put (rw other old)
  | inl same ↦ rw get-put (rw same)
]

module _ (tenant idempotency_key print : String) (m : OutboxMessage) (o : Outbox)
    (new_id : is_taken (get (tenant, m.id) o.key_by_message_id) idempotency_key ≡ false)
    (new_event : is_taken (get (tenant, m.event.id) o.key_by_event_id) idempotency_key
      ≡ false) where
  abbrev stored : Outbox
  stored =
      store (tenant, idempotency_key) m (tenant, m.id) (tenant, m.event.id) idempotency_key print o

  old-IsRecorded : (e : Key × OutboxMessage) → IsRecorded o e → IsRecorded stored e
  old-IsRecorded e h = (
    h.0,
    index_kept (tenant, m.id) (e.0.0, e.1.id) idempotency_key e.0.1 o.key_by_message_id new_id h.1,
    index_kept (tenant, m.event.id) (e.0.0, e.1.event.id) idempotency_key e.0.1 o.key_by_event_id
        new_event h.2,
    fingerprint_kept (tenant, idempotency_key) e.0 print o.fingerprints h.3,
  )

  new-IsRecorded :
      has_metadata m.dispatch_status m ≡ true → IsRecorded stored ((tenant, idempotency_key), m)
  new-IsRecorded fits = (
    fits,
    get-put_self (tenant, m.id) idempotency_key o.key_by_message_id,
    get-put_self (tenant, m.event.id) idempotency_key o.key_by_event_id,
    ap is_some (get-put_self (tenant, idempotency_key) print o.fingerprints),
  )

  pub store-Advances :
      has_metadata m.dispatch_status m ≡ true
      → get (tenant, idempotency_key) o.messages ≡ none
      → IsValid o
      → Advances tenant o stored
  store-Advances fits absent v = record {
    valid = record {
      keys = Distinct-put (tenant, idempotency_key) m o.messages v.keys;
      recorded =
          All-put (IsRecorded stored) (tenant, idempotency_key) m o.messages (new-IsRecorded fits)
            (All-map (IsRecorded o) (IsRecorded stored) old-IsRecorded o.messages v.recorded);
    };
    evolves = λ k n h. (
      n,
      get-put_ne (tenant, idempotency_key) k m o.messages (λ e. absurd_entry k n e h) ∙ h,
      here,
    );
    elsewhere = λ k ne.
        get-put_ne (tenant, idempotency_key) k m o.messages
          (λ e. ne (sym (ap (λ (j : Key). j.0) e)));
  }
    where
      absurd_entry :
          (k : Key) (n : OutboxMessage)
          → (tenant, idempotency_key) ≡ k
          → get k o.messages ≡ some n
          → ⊥
      absurd_entry k n e h = cc

module _ (p : Principal) (event : CloudEvent) (idempotency_key : String) (id : String)
    (created_at : Instant) (print : String) (o : Outbox) (v : IsValid o) where
  new_message-fields :
      (next : Option Instant) {m : OutboxMessage}
      → new_message p event idempotency_key next id created_at ≡ ok m
      → (m.event ≡ event) × (has_metadata m.dispatch_status m ≡ true)
  unfolding new_message
  new_message-fields next h = ground arith

  add_new-Advances :
      (next : Option Instant)
      → get (p.tenant_id, idempotency_key) o.messages ≡ none
      → Advances p.tenant_id o (add_new p event idempotency_key next id created_at print o).1
  add_new-Advances next absent =
      from_new (new_message p event idempotency_key next id created_at) refl
    where
      from_new :
          (r : Result OutboxMessage)
          → new_message p event idempotency_key next id created_at ≡ r
          → Advances p.tenant_id o (add_new p event idempotency_key next id created_at print o).1
      from_new (err x) e = rw e (Advances-refl p.tenant_id o v)
      from_new (ok m) e =
          elim (Bool-cases
            (is_taken (get (p.tenant_id, m.id) o.key_by_message_id) idempotency_key)) [
              | inl taken ↦ rw (e, taken) (Advances-refl p.tenant_id o v)
              | inr new_id ↦
                  elim (Bool-cases
                    (is_taken (get (p.tenant_id, event.id) o.key_by_event_id) idempotency_key)) [
                      | inl taken ↦ rw (e, new_id, taken) (Advances-refl p.tenant_id o v)
                      | inr new_event ↦
                          let (same, fits) = new_message-fields next e in
                          rw (e, new_id, new_event)
                            (rw (← same) (
                              store-Advances p.tenant_id idempotency_key print m o new_id
                                (rw same new_event) fits absent v))
                    ]
            ]

  replay_or_add-Advances :
      (next : Option Instant) (existing : Option OutboxMessage)
      → get (p.tenant_id, idempotency_key) o.messages ≡ existing
      → Advances p.tenant_id o
          (replay_or_add existing p event idempotency_key next id created_at print o).1
  replay_or_add-Advances next none e = add_new-Advances next e
  replay_or_add-Advances next (some m) e =
      replayed (get (p.tenant_id, idempotency_key) o.fingerprints)
    where
      replayed : (old : Option String) → Advances p.tenant_id o (replay m old print o).1
      replayed none = Advances-refl p.tenant_id o v
      replayed (some old) = elim (Bool-cases (old == print)) [
        | inl same ↦ rw same (Advances-refl p.tenant_id o v)
        | inr other ↦ rw other (Advances-refl p.tenant_id o v)
      ]

-- The two checks that come first leave the outbox alone where they raise.
guarded :
    (p : Principal) (event : CloudEvent) (o : Outbox) (k : Exec Outbox OutboxMessage)
    → IsValid o
    → Advances p.tenant_id o (k o).1
    → Advances p.tenant_id o
        ((require_trusted_principal p
            >> (raise_if (not (event.tenant_id == p.tenant_id)) (assistant permission_denied) >> k))
          o).1
guarded p event o k v h = elim (Bool-cases (is_trusted p)) [
  | inr unknown ↦ rw unknown (Advances-refl p.tenant_id o v)
  | inl trusted ↦ elim (Bool-cases (event.tenant_id == p.tenant_id)) [
    | inr foreign ↦ rw (trusted, foreign) (Advances-refl p.tenant_id o v)
    | inl own ↦ rw (trusted, own) h
  ]
]

module _ (fingerprint : Write → String) (uuid : String) (created_at : Instant) (p : Principal)
    (event : CloudEvent) (idempotency_key : String) (id : Option String) (o : Outbox)
    (v : IsValid o) where
  -- what is left after the checks and the canonical time
  abbrev scheduled : Option Instant → Exec Outbox OutboxMessage
  scheduled next o =
      replay_or_add (get (p.tenant_id, idempotency_key) o.messages) p event idempotency_key next
        (id_or id ("out_" ++ uuid)) created_at
        (fingerprint (record { event = event; next_attempt_at = next; message_id = id })) o

  scheduled-Advances : (next : Option Instant) → Advances p.tenant_id o (scheduled next o).1
  scheduled-Advances next =
      replay_or_add-Advances p event idempotency_key (id_or id ("out_" ++ uuid)) created_at
        (fingerprint (record { event = event; next_attempt_at = next; message_id = id })) o v next
        (get (p.tenant_id, idempotency_key) o.messages) refl

  -- `add` advances the outbox, however it ends.
  pub add-Advances :
      (next : Option Datetime)
      → Advances p.tenant_id o (add fingerprint uuid created_at p event idempotency_key next id o).1
  unfolding add
  add-Advances none = guarded p event o (scheduled none) v (scheduled-Advances none)
  add-Advances (some (naive t)) =
      guarded p event o (raise value_error) v (Advances-refl p.tenant_id o v)
  add-Advances (some (aware t)) =
      guarded p event o (scheduled (some t)) v (scheduled-Advances (some t))
