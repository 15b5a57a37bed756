-- ===== src/Outbox/Lease.antt =====
-- A lease excludes other claims until it ends.
use text.Mathlib.TextEquality.{eq_iff}
use personal_assistant.Common.{
  ℕ, ◌+◌, ◌<◌, ◌≡◌, refl, sym, ◌∙◌, ap, subst, ◌≢◌, true, Option, some, List, [], ◌∷◌, String,
  arith, All, text_eq, pair_eq,
}
use personal_assistant.Common.Dict.{get, get-put_self, get-put_ne, get-All}
use personal_assistant.Common.Entries.{StoredIn, Unique}
use personal_assistant.Common.Exec.{Result, ok}
use personal_assistant.Common.Text.{strip}
use personal_assistant.Common.Time.{Instant, aware, add_seconds}
use personal_assistant.Permissions.{Principal}
use personal_assistant.Delivery.{claimed}
use personal_assistant.Events.{OutboxMessage}
use personal_assistant.Outbox.{Outbox, Key}
use personal_assistant.Outbox.Transition.{write_message}
use personal_assistant.Outbox.Invariant.{IsRecorded, IsValid}
use personal_assistant.Outbox.Advance.Claims.{claim_due-Advances}
use personal_assistant.Outbox.Claim.{Entry, is_due, claim_message, claim_due}
use personal_assistant.Outbox.Claim.Loop.{assign, values, write_all}
use personal_assistant.Outbox.Claim.Picked.{picked-Unique, picked-StoredIn, picked-due}
use personal_assistant.Outbox.Claim.Spec.{chosen, IsAccepted, picked, claim_due_refines}

-- stored under its key, and leased until `until`
abbrev pub IsLeased : String → Instant → Outbox → Entry → Type 0
IsLeased tenant until o e =
    (get e.0 o.messages ≡ some e.1)
    × (e.0.0 ≡ tenant)
    × (e.1.dispatch_status ≡ claimed)
    × (e.1.claimed_until ≡ some until)

same_value {ℓ} : {A : Type ℓ} {a b : A} → some a ≡ some b → a ≡ b
same_value h = cc

-- writes under other keys leave a message
kept_by_writes :
    (k : Key) (es : List Entry) (o : Outbox)
    → All (λ f. f.0 ≢ k) es
    → get k (write_all es o).messages ≡ get k o.messages
kept_by_writes k [] o ne = refl
kept_by_writes k ((key, m) ∷ es) o ne =
    kept_by_writes k es (write_message key m o) ne.1 ∙ get-put_ne key k m o.messages ne.0

module _ (hex : ℕ → String) (owner tenant : String) (until : Instant) where
  assign-keys :
      (k : Key) (es : List Entry) (count : ℕ)
      → All (λ f. f.0 ≢ k) es
      → All (λ f. f.0 ≢ k) (assign hex owner until count es)
  assign-keys k [] count ne = tt
  assign-keys k ((key, m) ∷ es) count ne = (ne.0, assign-keys k es (count + 1) ne.1)

  -- what is written is leased
  assign-IsLeased :
      (es : List Entry) (count : ℕ) (o : Outbox)
      → Unique es
      → All (λ e. e.0.0 ≡ tenant) es
      → All
          (IsLeased tenant until (write_all (assign hex owner until count es) o))
          (assign hex owner until count es)
  assign-IsLeased [] count o u own = tt
  assign-IsLeased ((key, m) ∷ es) count o u own =
      let m' = claim_message (hex count) owner until m in
      (
        (
          kept_by_writes key (assign hex owner until (count + 1) es) (write_message key m' o)
                (assign-keys key es (count + 1) u.0)
              ∙ get-put_self key m' o.messages,
          own.0,
          refl,
          refl,
        ),
        assign-IsLeased es (count + 1) (write_message key m' o) u.1 own.1,
      )

module _ (q : Principal) (later until : Instant) (event_type : Option String) (o : Outbox)
    (v : IsValid o) (early : later < until) where
  leased_not_due :
      (key : Key) (m : OutboxMessage)
      → m.dispatch_status ≡ claimed
      → m.claimed_until ≡ some until
      → is_due q later event_type (key, m) ≡ true
      → ⊥
  unfolding is_due
  leased_not_due key m status lease due = let d = rw (status, lease) at due in ground arith

  -- Another claim's message is none that is leased already.
  other_id :
      (hex : ℕ → String) (owner : String) (end : Instant) (e : Entry) (fs : List Entry) (count : ℕ)
      → IsLeased q.tenant_id until o e
      → StoredIn o.messages fs
      → All (λ f. is_due q later event_type f ≡ true) fs
      → All (λ f. f.0.0 ≡ q.tenant_id) fs
      → All (λ n. n.id ≢ e.1.id) (values (assign hex owner end count fs))
  other_id hex owner end e [] count leased stored due own = tt
  other_id hex owner end e ((key, n) ∷ fs) count leased stored due own =
      (differs, other_id hex owner end e fs (count + 1) leased stored.1 due.1 own.1)
    where
      indexed_e : get (q.tenant_id, e.1.id) o.key_by_message_id ≡ some e.0.1
      indexed_e =
          rw⁻¹ (leased.1) (get-All (IsRecorded o) e.0 o.messages {v = e.1} v.recorded leased.0).1

      indexed_n : get (q.tenant_id, n.id) o.key_by_message_id ≡ some key.1
      indexed_n = rw⁻¹ own.0 (get-All (IsRecorded o) key o.messages {v = n} v.recorded stored.0).1

      differs : n.id ≢ e.1.id
      differs same =
          let e_key =
            same_value (
              sym indexed_n
              ∙ ap (λ x. get (q.tenant_id, x) o.key_by_message_id) same
              ∙ indexed_e) in
          let keys : key ≡ e.0 = (λ i. ((own.0 ∙ sym leased.1) i, e_key i)) in
          let n_e = same_value (sym stored.0 ∙ ap (λ k. get k o.messages) keys ∙ leased.0) in
          leased_not_due key n (ap (λ (m : OutboxMessage). m.dispatch_status) n_e ∙ leased.2)
            (ap (λ (m : OutboxMessage). m.claimed_until) n_e ∙ leased.3) due.0

  other_ids :
      (hex : ℕ → String) (owner : String) (end : Instant) (es fs : List Entry)
      → All (IsLeased q.tenant_id until o) es
      → StoredIn o.messages fs
      → All (λ f. is_due q later event_type f ≡ true) fs
      → All (λ f. f.0.0 ≡ q.tenant_id) fs
      → All (λ m. All (λ n. n.id ≢ m.id) (values (assign hex owner end 0 fs))) (values es)
  other_ids hex owner end [] fs leased stored due own = tt
  other_ids hex owner end (e ∷ es) fs leased stored due own = (
    other_id hex owner end e fs 0 leased.0 stored due own,
    other_ids hex owner end es fs leased.1 stored due own,
  )

due_of_tenant :
    (p : Principal) (now : Instant) (event_type : Option String) (key : Key) (m : OutboxMessage)
    → is_due p now event_type (key, m) ≡ true
    → key.0 ≡ p.tenant_id
unfolding is_due
due_of_tenant p now event_type key m due = ground (arith, eq_iff key.0 p.tenant_id)

due_tenants :
    (p : Principal) (now : Instant) (event_type : Option String) (es : List Entry)
    → All (λ e. is_due p now event_type e ≡ true) es
    → All (λ e. e.0.0 ≡ p.tenant_id) es
due_tenants p now event_type [] due = tt
due_tenants p now event_type ((key, m) ∷ es) due =
    (due_of_tenant p now event_type key m due.0, due_tenants p now event_type es due.1)

module _ (hex hex' : ℕ → String) (p q : Principal) (now later : Instant) (limit limit' : ℕ)
    (owner owner' : String) (lease lease' : ℕ) (type type' : Option String) (o : Outbox) where
  -- Two accepted calls of `claim_due` for one tenant, the second before the first one's leases
  -- end, on a valid outbox: both return, and no message that the second returns has the id of one
  -- that the first returned, whatever limits, owners and event types they name.
  pub claims_disjoint :
      {until end : Instant}
      → IsValid o
      → IsAccepted p limit lease owner
      → IsAccepted q limit' lease' owner'
      → add_seconds now lease ≡ ok until
      → add_seconds later lease' ≡ ok end
      → q.tenant_id ≡ p.tenant_id
      → later < until
      → (ms : List OutboxMessage) × (ns : List OutboxMessage) × (o' : Outbox) × (claim_due hex p
            (aware now)
            limit
            owner
            lease
            type
            o
          ≡ (ok ms, o'))
        × ((claim_due hex' q (aware later) limit' owner' lease' type' o').0 ≡ ok ns)
        × All (λ m. All (λ n. n.id ≢ m.id) ns) ms
  claims_disjoint {until} {end} v a b fits fits' same early =
      let first = picked p now limit type o in
      let leased = chosen hex p now limit owner until type o in
      let o' = write_all leased o in
      let second = picked q later limit' type' o' in
      let returned = claim_due_refines hex p now limit owner lease type o a fits in
      let v' =
        subst IsValid (ap (λ (r : Result (List OutboxMessage) × Outbox). r.1) returned)
          (claim_due-Advances hex p limit owner lease type o v (aware now)).valid in
      let due = picked-due p now limit type o v in
      let due' = picked-due q later limit' type' o' v' in
      (
        values leased,
        values (chosen hex' q later limit' owner' end type' o'),
        o',
        returned,
        ap (λ (r : Result (List OutboxMessage) × Outbox). r.0)
            (claim_due_refines hex' q later limit' owner' lease' type' o' b fits'),
        other_ids q later until type' o' v' early hex' (strip owner') end leased second
            (rw same (
              assign-IsLeased hex (strip owner) p.tenant_id until first 0 o
                (picked-Unique p now limit type o v) (due_tenants p now type first due)))
            (picked-StoredIn q later limit' type' o' v') due'
            (due_tenants q later type' second due'),
      )
