-- ===== src/Outbox/Advance/Claims.antt =====
-- Claiming due messages advances the outbox, although `claim_due` stores copies that it does not
-- validate.
use text.Mathlib.TextEquality.{eq_iff}
use Prim.Native.String.{◌++◌}
use personal_assistant.Common.{
  ℕ, ◌+◌, ◌≡◌, refl, sym, ap, subst, ◌⊎◌, inl, inr, true, false, Option, none, List, [], ◌∷◌,
  String, arith, All, Bool-cases, text_eq, pair_eq,
}
use personal_assistant.Common.Append.{append-not_empty}
use personal_assistant.Common.Dict.{get-All}
use personal_assistant.Common.Entries.{StoredIn, StoredIn-put, Unique}
use personal_assistant.Common.Exec.{Result}
use personal_assistant.Common.Text.{strip, is_empty}
use personal_assistant.Common.Time.{Instant, Datetime, naive, aware}
use personal_assistant.Permissions.{Principal, is_trusted}
use personal_assistant.Delivery.{pending, claimed, same_status, canonical_utc}
use personal_assistant.Delivery.Machine.{lease, lease_again}
use personal_assistant.Events.{OutboxMessage, has_metadata}
use personal_assistant.Outbox.{Outbox, Key}
use personal_assistant.Outbox.Transition.{write_message}
use personal_assistant.Outbox.Transition.Cases.{same_status_eq}
use personal_assistant.Outbox.Invariant.{IsRecorded, IsValid}
use personal_assistant.Outbox.Advance.{
  Edge, Edge-from, Advances, Advances-refl, Advances-trans, write_message-Advances,
}
use personal_assistant.Outbox.Claim.{Entry, is_due, claim_message, claim_due, claim}
use personal_assistant.Outbox.Claim.Loop.{assign, write_all}
use personal_assistant.Outbox.Claim.Picked.{picked-Unique, picked-StoredIn, picked-due}
use personal_assistant.Outbox.Claim.Spec.{picked, claim_due_cases, claim_due_refines}

token_text : (uuid : String) → is_empty ("claim_" ++ uuid) ≡ false
token_text uuid = append-not_empty "claim_" uuid (omega arith)

module _ (uuid owner : String) (p : Principal) (now until : Instant) (event_type : Option String)
    (named : is_empty owner ≡ false) (key : Key) (m : OutboxMessage)
    (due : is_due p now event_type (key, m) ≡ true) where
  due_tenant : key.0 ≡ p.tenant_id
  unfolding is_due
  due_tenant = ground (arith, eq_iff key.0 p.tenant_id)

  due_status : (m.dispatch_status ≡ pending) ⊎ (m.dispatch_status ≡ claimed)
  unfolding is_due
  due_status = elim (Bool-cases (same_status m.dispatch_status pending)) [
    | inl waiting ↦ inl (same_status_eq m.dispatch_status pending waiting)
    | inr other ↦ inr (same_status_eq m.dispatch_status claimed (ground arith))
  ]

  -- The copy that is not validated passes the validator.
  claim_message-fits :
      has_metadata m.dispatch_status m ≡ true
      → has_metadata claimed (claim_message uuid owner until m) ≡ true
  claim_message-fits fits = elim due_status [
    | inl waiting ↦
        let before : has_metadata pending m ≡ true = rw waiting at fits in
        rw (token_text uuid, named) (ground arith)
    | inr leased ↦
        let before : has_metadata claimed m ≡ true = rw leased at fits in
        rw (token_text uuid, named) (ground arith)
  ]

  claim_message-Edge : Edge m (claim_message uuid owner until m)
  claim_message-Edge = elim due_status [
    | inl waiting ↦ Edge-from m (claim_message uuid owner until m) waiting lease (omega arith) refl
    | inr leased ↦
        Edge-from m (claim_message uuid owner until m) leased lease_again (omega arith) refl
  ]

module _ (hex : ℕ → String) (owner : String) (p : Principal) (now until : Instant)
    (event_type : Option String) (named : is_empty owner ≡ false) where
  abbrev Due : List Entry → Type 0
  Due = All (λ e. is_due p now event_type e ≡ true)

  write_all-Advances :
      (es : List Entry) (count : ℕ) (o : Outbox)
      → IsValid o
      → Unique es
      → StoredIn o.messages es
      → Due es
      → Advances p.tenant_id o (write_all (assign hex owner until count es) o)
  write_all-Advances [] count o v u stored due = Advances-refl p.tenant_id o v
  write_all-Advances ((key, m) ∷ es) count o v u stored due =
      let m' = claim_message (hex count) owner until m in
      let first : Advances p.tenant_id o (write_message key m' o) =
        write_message-Advances p.tenant_id key m m' o
          (due_tenant (hex count) owner p now until event_type named key m due.0) stored.0
          (claim_message-fits (hex count) owner p now until event_type named key m due.0
            (get-All (IsRecorded o) key o.messages v.recorded stored.0).0)
          (claim_message-Edge (hex count) owner p now until event_type named key m due.0) v in
      Advances-trans first (
        write_all-Advances es (count + 1) (write_message key m' o) first.valid u.1
          (StoredIn-put key m' o.messages es u.0 stored.1) due.1)

module _ (hex : ℕ → String) (p : Principal) (limit : ℕ) (owner : String) (lease_seconds : ℕ)
    (event_type : Option String) (o : Outbox) (v : IsValid o) where
  -- `claim_due` advances the outbox, however it ends.
  pub claim_due-Advances :
      (now : Datetime)
      → Advances p.tenant_id o (claim_due hex p now limit owner lease_seconds event_type o).1
  unfolding claim_due canonical_utc
  claim_due-Advances (naive t) = elim (Bool-cases (is_trusted p)) [
    | inr unknown ↦ rw unknown (Advances-refl p.tenant_id o v)
    | inl trusted ↦ rw trusted (Advances-refl p.tenant_id o v)
  ]
  claim_due-Advances (aware now) =
      elim (claim_due_cases hex p now limit owner lease_seconds event_type o) [
        | inl same ↦ subst (Advances p.tenant_id o) (sym same) (Advances-refl p.tenant_id o v)
        | inr (until, a, fits) ↦
            subst (Advances p.tenant_id o)
              (sym (
                ap (λ (r : Result (List OutboxMessage) × Outbox). r.1)
                  (claim_due_refines hex p now limit owner lease_seconds event_type o a fits)))
              (write_all-Advances hex (strip owner) p now until event_type a.owner_text
                (picked p now limit event_type o) 0 o v (picked-Unique p now limit event_type o v)
                (picked-StoredIn p now limit event_type o v)
                (picked-due p now limit event_type o v))
      ]

-- `claim` does what `claim_due` does.
pub claim-Advances :
    (hex : ℕ → String) (p : Principal) (limit : ℕ) (owner : String) (lease_seconds : ℕ) (o : Outbox)
    → IsValid o
    → (now : Instant) → Advances p.tenant_id o (claim hex now p limit owner lease_seconds o).1
unfolding claim
claim-Advances hex p limit owner lease_seconds o v now = elim (Bool-cases (is_trusted p)) [
  | inr unknown ↦ rw unknown (Advances-refl p.tenant_id o v)
  | inl trusted ↦
      rw trusted (claim_due-Advances hex p limit owner lease_seconds none o v (aware now))
]
