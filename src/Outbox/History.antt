-- ===== src/Outbox/History.antt =====
-- What a whole history of calls can and cannot do to a message.
use personal_assistant.Common.{
  ◌≤◌, ◌≡◌, refl, sym, ◌∙◌, ap, subst, ◌≢◌, ◌⊎◌, some, List, [], ◌∷◌, String, arith, All, text_eq,
  pair_eq,
}
use personal_assistant.Common.Dict.{get}
use personal_assistant.Permissions.{Principal}
use personal_assistant.Delivery.{DeliveryStatus, published, failed}
use personal_assistant.Delivery.Machine.{◌⟶◌, lease}
use personal_assistant.Events.{OutboxMessage}
use personal_assistant.Outbox.{Outbox, Key, Write}
use personal_assistant.Outbox.Invariant.{IsValid}
use personal_assistant.Outbox.Advance.{Follows, here, then, identity}
use personal_assistant.Outbox.Calls.{Call, perform, run, perform-Advances, run-Evolves}

-- no edge leaves `published` or `failed`
abbrev pub IsTerminal : DeliveryStatus → Type 0
IsTerminal s = (s ≡ published) ⊎ (s ≡ failed)

not-IsTerminal : {s t : DeliveryStatus} → s ⟶ t → ¬ IsTerminal s
not-IsTerminal lease h = ground arith
not-IsTerminal _ h = ground arith

Follows-terminal : {m m' : OutboxMessage} → Follows m m' → IsTerminal m.dispatch_status → m' ≡ m
Follows-terminal here h = refl
Follows-terminal (then f e) h =
    let same = Follows-terminal f h in
    absurd (
      not-IsTerminal e.status
        (subst (λ (n : OutboxMessage). IsTerminal n.dispatch_status) (sym same) h))

Follows-attempts : {m m' : OutboxMessage} → Follows m m' → m.attempts ≤ m'.attempts
Follows-attempts here = omega arith
Follows-attempts (then f e) = omega (arith, Follows-attempts f, e.attempts)

Follows-identity : {m m' : OutboxMessage} → Follows m m' → identity m' ≡ identity m
Follows-identity here = refl
Follows-identity (then f e) =
    (λ i. (e.id i, e.tenant_id i, e.event i, e.idempotency_key i, e.created_at i))
    ∙ Follows-identity f

module _ (fingerprint : Write → String) where
  -- A published or failed message of a valid outbox is final: after any calls, by any principals,
  -- the same message stands under its key, every field unchanged.
  pub terminal_stays :
      (cs : List (Principal × Call)) (o : Outbox) (k : Key) (m : OutboxMessage)
      → IsValid o
      → get k o.messages ≡ some m
      → IsTerminal m.dispatch_status
      → get k (run fingerprint cs o).messages ≡ some m
  terminal_stays cs o k m v h final =
      let (m', h', f) = run-Evolves fingerprint cs o v k m h in
      h' ∙ ap some (Follows-terminal f final)

  -- No call loses a message of a valid outbox, changes its ids, tenant, event or creation time, or
  -- lowers the number of its attempts.
  pub message_kept :
      (cs : List (Principal × Call)) (o : Outbox) (k : Key) (m : OutboxMessage)
      → IsValid o
      → get k o.messages ≡ some m
      → (m' : OutboxMessage) × (get k (run fingerprint cs o).messages ≡ some m')
        × (identity m' ≡ identity m)
        × (m.attempts ≤ m'.attempts)
  message_kept cs o k m v h =
      let (m', h', f) = run-Evolves fingerprint cs o v k m h in
      (m', h', Follows-identity f, Follows-attempts f)

  -- Calls by principals of other tenants leave a tenant's messages as they were.
  pub tenants_isolated :
      (cs : List (Principal × Call)) (o : Outbox) (k : Key)
      → IsValid o
      → All (λ c. k.0 ≢ c.0.tenant_id) cs
      → get k (run fingerprint cs o).messages ≡ get k o.messages
  unfolding run
  tenants_isolated [] o k v others = refl
  tenants_isolated ((p, c) ∷ cs) o k v others =
      let a = perform-Advances fingerprint p c o v in
      tenants_isolated cs (perform fingerprint p c o) k a.valid others.1 ∙ a.elsewhere k others.0
