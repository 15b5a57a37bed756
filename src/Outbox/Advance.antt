-- ===== src/Outbox/Advance.antt =====
-- How a stored message may change, and how a call may change the outbox: along the delivery
-- machine, within the caller's tenant, and from a valid outbox to a valid one.
pub mod Transitions
pub mod Claims
pub mod Add
use personal_assistant.Common.{
  ℕ, ◌+◌, ◌≤◌, ◌≡◌, refl, sym, ap, ◌∙◌, subst, ◌≢◌, inl, inr, Bool, true, false, Option, none, some,
  List, [], ◌∷◌, String, arith, is_some, All, Bool-cases, Option-cases, text_eq, pair_eq, Eq,
}
use personal_assistant.Common.Dict.{
  Dict, get, put, Distinct, Distinct-put, All-put, get-put, get-put_self, get-put_ne, get-All,
}
use personal_assistant.Delivery.{
  DeliveryStatus, pending, claimed, sending, published, failed, uncertain,
}
use personal_assistant.Delivery.Machine.{◌⟶◌, counted}
use personal_assistant.Common.Time.{Instant}
use personal_assistant.Events.{CloudEvent, OutboxMessage, has_metadata}
use personal_assistant.Outbox.{Outbox, Key, key_eq}
use personal_assistant.Outbox.Transition.{write_message}
use personal_assistant.Outbox.Invariant.{IsRecorded, IsValid, IsSame, write_message-IsValid}

-- One step of one message. Its identity, event and creation time stay, and an attempt is counted
-- exactly when a send starts.
pub record Edge (m m' : OutboxMessage) : Type 0 where
  pub status : m.dispatch_status ⟶ m'.dispatch_status
  pub attempts : m'.attempts ≡ m.attempts + counted m'.dispatch_status
  pub id : m'.id ≡ m.id
  pub tenant_id : m'.tenant_id ≡ m.tenant_id
  pub event : m'.event ≡ m.event
  pub idempotency_key : m'.idempotency_key ≡ m.idempotency_key
  pub created_at : m'.created_at ≡ m.created_at

-- what no step changes
abbrev pub Identity : Type 0
Identity = String × String × CloudEvent × String × Instant

abbrev pub identity : OutboxMessage → Identity
identity m = (m.id, m.tenant_id, m.event, m.idempotency_key, m.created_at)

-- An edge from the status, the attempts and the fields that stay.
pub Edge-from :
    (m m' : OutboxMessage) {s : DeliveryStatus}
    → m.dispatch_status ≡ s
    → s ⟶ m'.dispatch_status
    → m'.attempts ≡ m.attempts + counted m'.dispatch_status
    → identity m' ≡ identity m
    → Edge m m'
Edge-from m m' e step a same = record {
  status = subst (λ s. s ⟶ m'.dispatch_status) (sym e) step;
  attempts = a;
  id = ap (λ (t : Identity). t.0) same;
  tenant_id = ap (λ (t : Identity). t.1) same;
  event = ap (λ (t : Identity). t.2) same;
  idempotency_key = ap (λ (t : Identity). t.3) same;
  created_at = ap (λ (t : Identity). t.4) same;
}

-- Any number of steps.
pub data Follows (m : OutboxMessage) : OutboxMessage → Type 0 where
  here : Follows m m
  then : {m' m'' : OutboxMessage} → Follows m m' → Edge m' m'' → Follows m m''

pub Follows-trans : {m m' m'' : OutboxMessage} → Follows m m' → Follows m' m'' → Follows m m''
Follows-trans f here = f
Follows-trans f (then g e) = then (Follows-trans f g) e

-- A stored message is still stored, under its key, and has followed the machine.
abbrev pub Evolves : Dict Key OutboxMessage → Dict Key OutboxMessage → Type 0
Evolves d d' =
    (k : Key) (m : OutboxMessage)
    → get k d ≡ some m
    → (m' : OutboxMessage) × (get k d' ≡ some m') × Follows m m'

pub record Advances (tenant : String) (o o' : Outbox) : Type 0 where
  pub valid : IsValid o'
  pub evolves : Evolves o.messages o'.messages
  pub elsewhere : (k : Key) → k.0 ≢ tenant → get k o'.messages ≡ get k o.messages

pub Advances-refl : (tenant : String) (o : Outbox) → IsValid o → Advances tenant o o
Advances-refl tenant o v = record {
  valid = v;
  evolves = λ k m h. (m, h, here);
  elsewhere = λ k ne. refl;
}

pub Advances-trans :
    {tenant : String} {o o' o'' : Outbox}
    → Advances tenant o o'
    → Advances tenant o' o''
    → Advances tenant o o''
Advances-trans a b = record {
  valid = b.valid;
  evolves = λ k m h.
      let (m', h', f) = a.evolves k m h in
      let (m'', h'', g) = b.evolves k m' h' in (m'', h'', Follows-trans f g);
  elsewhere = λ k ne. b.elsewhere k ne ∙ a.elsewhere k ne;
}

module _ (key : Key) (m m' : OutboxMessage) (d : Dict Key OutboxMessage) where
  -- A message is replaced along an edge, and the others stay.
  Evolves-put : get key d ≡ some m → Edge m m' → Evolves d (put key m' d)
  Evolves-put stored edge k n h = elim (Bool-cases (key_eq.is_equal key k)) [
    | inl same ↦ (
      m',
      rw get-put (rw same),
      subst (λ n. Follows n m') (first_one ((key_eq.is_equal_iff key k).0 same)) (then here edge),
    )
    | inr other ↦ (n, rw get-put (rw other h), here)
  ]
    where
      first_one : key ≡ k → m ≡ n
      first_one e = cc

-- One message of the tenant is replaced along an edge.
pub write_message-Advances :
    (tenant : String) (key : Key) (m m' : OutboxMessage) (o : Outbox)
    → key.0 ≡ tenant
    → get key o.messages ≡ some m
    → has_metadata m'.dispatch_status m' ≡ true
    → Edge m m'
    → IsValid o
    → Advances tenant o (write_message key m' o)
write_message-Advances tenant key m m' o own stored fits edge v = record {
  valid =
      write_message-IsValid key m m' o (record { same_id = edge.id; same_event = edge.event }) fits
        (get-All (IsRecorded o) key o.messages v.recorded stored) v;
  evolves = Evolves-put key m m' o.messages stored edge;
  elsewhere =
      λ k ne. get-put_ne key k m' o.messages (λ e. ne (sym (ap (λ (j : Key). j.0) e) ∙ own));
}
