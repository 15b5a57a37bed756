-- ===== src/Outbox/Claim.antt =====
-- Claiming due messages and sweeping expired sends: `claim_due` and `sweep_expired_sending`
-- (src/personal_assistant/adapters/persistence/in_memory.py). A limit is a natural number: an
-- integer below zero fails the same test as zero.
pub mod Loop
pub mod Spec
pub mod Picked
pub mod Sweep
use Prim.Native.String.{◌++◌}
use personal_assistant.Common.{
  ℕ, suc, ◌+◌, Bool, true, false, not, ◌&&◌, ◌||◌, Option, none, some, List, [], ◌∷◌, String, leb,
  ltb, nat_eq, ◌==◌, text_eq, pair_eq, if◌then◌else◌,
}
use personal_assistant.Common.Exec.{
  Exec, Result, ok, err, value_error, pure, lift, gets, modify, raise_if, ◌>>=◌, ◌>>◌,
}
use personal_assistant.Common.Dict.{Dict, put}
use personal_assistant.Common.Sort.{sort_by}
use personal_assistant.Common.Text.{strip, is_empty, count_chars, text_leb}
use personal_assistant.Common.Time.{Instant, Datetime, aware, add_seconds}
use personal_assistant.Permissions.{Principal, require_trusted_principal}
use personal_assistant.Delivery.{
  DeliveryStatus, pending, claimed, sending, uncertain, same_status, DeliveryError, canonical_utc,
  is_valid_claim_owner, max_claim_limit, max_claim_lease_seconds, max_claim_owner_length,
}
use personal_assistant.Events.{OutboxMessage, validate}
use personal_assistant.Outbox.{Outbox, Key}
use personal_assistant.Outbox.Transition.{write_message, save, end_with_error}

abbrev pub Entry : Type 0
Entry = Key × OutboxMessage

-- `sorted(items, key=lambda item: (item[1].created_at, item[1].id))`
abbrev pub comes_first : Entry → Entry → Bool
comes_first (j, m) (k, n) =
    ltb m.created_at n.created_at || (nat_eq m.created_at n.created_at && text_leb m.id n.id)

-- the test of an optional deadline, `t is not None and t <= now`
abbrev pub has_passed : Option Instant → Instant → Bool
has_passed none now = false
has_passed (some t) now = leb t now

-- `t is not None and t > now`
abbrev pub is_ahead : Option Instant → Instant → Bool
is_ahead none now = false
is_ahead (some t) now = ltb now t

abbrev pub has_type : Option String → OutboxMessage → Bool
has_type none m = true
has_type (some type) m = m.event.type == type

-- `is_pending or is_expired_claim`
abbrev pub is_available : Instant → OutboxMessage → Bool
is_available now m =
    same_status m.dispatch_status pending
    || (same_status m.dispatch_status claimed && has_passed m.claimed_until now)

-- what the loop does not skip
unfoldable pub is_due : Principal → Instant → Option String → Entry → Bool
is_due p now event_type (key, m) =
    key.0 == p.tenant_id
    && has_type event_type m
    && is_available now m
    && not (is_ahead m.next_attempt_at now)

abbrev pub claim_message : String → String → Instant → OutboxMessage → OutboxMessage
claim_message uuid owner until m = record m {
  dispatch_status = claimed;
  claim_token = some ("claim_" ++ uuid);
  claim_owner = some owner;
  claimed_until = some until;
}

-- The loop, over the candidates that are left; `count` messages are claimed so far. The lease's
-- end is computed in the round, where it may overflow.
module _ (hex : ℕ → String) (p : Principal) (now : Instant) (limit : ℕ) (owner : String)
    (lease_seconds : ℕ) (event_type : Option String) where
  unfoldable pub claim_loop : ℕ → List Entry → Exec Outbox (List OutboxMessage)
  claim_loop count [] = pure []
  claim_loop count ((key, m) ∷ rest) =
      let skip = claim_loop count rest in
      let others = claim_loop (count + 1) rest in
      if not (is_due p now event_type (key, m)) then skip else do
        until ← lift (add_seconds now lease_seconds)
        let updated = claim_message (hex count) owner until m
        modify (write_message key updated)
        taken ← if leb limit (count + 1) then pure [] else others
        pure (updated ∷ taken)

-- the checks on the arguments, in order
unfoldable pub check_claim : ℕ → ℕ → String → Exec Outbox (Unit {0})
check_claim limit lease_seconds owner = do
  raise_if (not (leb 1 limit && leb limit max_claim_limit)) value_error
  raise_if (not (leb 1 lease_seconds && leb lease_seconds max_claim_lease_seconds)) value_error
  raise_if (is_empty (strip owner)) value_error
  raise_if (ltb max_claim_owner_length (count_chars (strip owner))) value_error
  raise_if (not (is_valid_claim_owner (strip owner))) value_error

unfoldable pub claim_due :
    (ℕ → String)
    → Principal
    → Datetime
    → ℕ
    → String
    → ℕ
    → Option String
    → Exec Outbox (List OutboxMessage)
unfolding check_claim
claim_due hex p now limit owner lease_seconds event_type = do
  require_trusted_principal p
  now ← lift (canonical_utc now)
  check_claim limit lease_seconds owner
  candidates ← gets (λ o. sort_by comes_first o.messages)
  claim_loop hex p now limit (strip owner) lease_seconds event_type 0 candidates

-- `claim`: now, of any event type
unfoldable pub claim :
    (ℕ → String) → Instant → Principal → ℕ → String → ℕ → Exec Outbox (List OutboxMessage)
claim hex now p limit owner lease_seconds = do
  require_trusted_principal p
  claim_due hex p (aware now) limit owner lease_seconds none

-- A send whose lease has passed.
unfoldable pub is_stuck : Principal → Instant → Option String → Entry → Bool
is_stuck p now event_type (key, m) =
    key.0 == p.tenant_id
    && has_type event_type m
    && same_status m.dispatch_status sending
    && has_passed m.claimed_until now

module _ (p : Principal) (now : Instant) (limit : ℕ) (error : DeliveryError)
    (event_type : Option String) where
  unfoldable pub sweep_loop : ℕ → List Entry → Exec Outbox (List OutboxMessage)
  sweep_loop count [] = pure []
  sweep_loop count ((key, m) ∷ rest) =
      let skip = sweep_loop count rest in
      let others = sweep_loop (count + 1) rest in
      if not (is_stuck p now event_type (key, m)) then skip else do
        updated ← save key (end_with_error uncertain error m)
        taken ← if leb limit (count + 1) then pure [] else others
        pure (updated ∷ taken)

unfoldable pub sweep_expired_sending :
    Principal → Datetime → DeliveryError → ℕ → Option String → Exec Outbox (List OutboxMessage)
sweep_expired_sending p now error limit event_type = do
  require_trusted_principal p
  now ← lift (canonical_utc now)
  raise_if (not (leb 1 limit && leb limit max_claim_limit)) value_error
  candidates ← gets (λ o. sort_by comes_first o.messages)
  sweep_loop p now limit error event_type 0 candidates
