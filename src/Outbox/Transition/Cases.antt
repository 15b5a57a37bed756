-- ===== src/Outbox/Transition/Cases.antt =====
-- The two ways a transition ends: it raises and leaves the outbox alone, or it replaces one message.
use text.Mathlib.TextEquality.{eq_iff}
use personal_assistant.Common.{
  ◌≡◌, sym, subst, ◌⊎◌, inl, inr, true, false, Option, none, some, String, arith, Bool-cases,
  Option-cases, text_eq, pair_eq,
}
use personal_assistant.Common.Exec.{
  Exn, Result, ok, err, err-ne-ok, assistant, permission_denied, conflict, authentication_required,
  not_found, value_error,
}
use personal_assistant.Common.Dict.{find}
use personal_assistant.Common.Text.{is_empty}
use personal_assistant.Permissions.{Principal, is_trusted}
use personal_assistant.Delivery.{DeliveryStatus, uncertain, same_status}
use personal_assistant.Events.{OutboxMessage, has_metadata, validate}
use personal_assistant.Outbox.{Outbox, Key}
use personal_assistant.Outbox.Transition.{
  is_entry, matches_token, write_message, save, transition, operator_transition,
}

-- An update that passed the checks `P` and the validator, of the entry that the loop found.
abbrev pub Replaces :
    Principal
    → String
    → (OutboxMessage → Type 0)
    → (OutboxMessage → OutboxMessage)
    → Result OutboxMessage × Outbox
    → Outbox
    → Type 0
Replaces p message_id P update r o =
    (e : Key × OutboxMessage) × (find (is_entry p message_id) o.messages ≡ some e)
    × P e.1
    × (has_metadata (update e.1).dispatch_status (update e.1) ≡ true)
    × (r ≡ (ok (update e.1), write_message e.0 (update e.1) o))

abbrev pub Raises : Result OutboxMessage × Outbox → Outbox → Type 0
Raises r o = (x : Exn) × (r ≡ (err x, o))

-- the checks of `_transition`
abbrev pub HasClaim : String → DeliveryStatus → OutboxMessage → Type 0
HasClaim token expected m = (m.claim_token ≡ some token) × (m.dispatch_status ≡ expected)

-- the check of `_operator_transition`
abbrev pub IsUncertain : OutboxMessage → Type 0
IsUncertain m = m.dispatch_status ≡ uncertain

pub same_status_eq : (s t : DeliveryStatus) → same_status s t ≡ true → s ≡ t
same_status_eq s t h = ground arith

matches_token_eq :
    (o : Option String) (token : String) → matches_token o token ≡ true → o ≡ some token
matches_token_eq none token h = ground arith
matches_token_eq (some t) token h = ground (arith, eq_iff t token)

save_cases :
    (p : Principal) (message_id : String) (P : OutboxMessage → Type 0)
    (update : OutboxMessage → OutboxMessage) (e : Key × OutboxMessage) (o : Outbox)
    → find (is_entry p message_id) o.messages ≡ some e
    → P e.1
    → Raises (save e.0 (update e.1) o) o
      ⊎ Replaces p message_id P update (save e.0 (update e.1) o) o
unfolding save validate
save_cases p message_id P update e o found h =
    elim (Bool-cases (has_metadata (update e.1).dispatch_status (update e.1))) [
      | inl fits ↦ inr (e, found, h, fits, rw fits)
      | inr misfit ↦ inl (value_error, rw misfit)
    ]

module _ (p : Principal) (message_id token : String) (expected : DeliveryStatus)
    (update : OutboxMessage → OutboxMessage) (o : Outbox) where
  abbrev Outcome : Result OutboxMessage × Outbox → Type 0
  Outcome r = Raises r o ⊎ Replaces p message_id (HasClaim token expected) update r o

  -- With every check passed, what is left is to save the updated message.
  pub transition-save :
      (e : Key × OutboxMessage)
      → is_trusted p ≡ true
      → is_empty token ≡ false
      → find (is_entry p message_id) o.messages ≡ some e
      → matches_token e.1.claim_token token ≡ true
      → same_status e.1.dispatch_status expected ≡ true
      → transition p message_id token expected update o ≡ save e.0 (update e.1) o
  unfolding transition
  transition-save e trusted given found mine right = rw (trusted, given, found, mine, right)

  after_find :
      (e : Key × OutboxMessage)
      → is_trusted p ≡ true
      → is_empty token ≡ false
      → find (is_entry p message_id) o.messages ≡ some e
      → Outcome (transition p message_id token expected update o)
  unfolding transition
  after_find e trusted given found = elim (Bool-cases (matches_token e.1.claim_token token)) [
    | inr other ↦ inl (assistant permission_denied, rw (trusted, given, found, other))
    | inl mine ↦ elim (Bool-cases (same_status e.1.dispatch_status expected)) [
      | inr wrong ↦ inl (assistant conflict, rw (trusted, given, found, mine, wrong))
      | inl right ↦ subst Outcome (sym (transition-save e trusted given found mine right)) (
          save_cases p message_id (HasClaim token expected) update e o found
            (matches_token_eq _ _ mine, same_status_eq _ _ right))
    ]
  ]

  pub transition_cases :
      Raises (transition p message_id token expected update o) o
      ⊎ Replaces p message_id
          (HasClaim token expected)
          update
          (transition p message_id token expected update o)
          o
  unfolding transition
  transition_cases = elim (Bool-cases (is_trusted p)) [
    | inr unknown ↦ inl (assistant authentication_required, rw unknown)
    | inl trusted ↦ elim (Bool-cases (is_empty token)) [
      | inl missing ↦ inl (assistant permission_denied, rw (trusted, missing))
      | inr given ↦ elim (Option-cases (find (is_entry p message_id) o.messages)) [
        | inl absent ↦ inl (assistant not_found, rw (trusted, given, absent))
        | inr (e, found) ↦ after_find e trusted given found
      ]
    ]
  ]

  -- A transition that returns was called by a trusted principal, with a token.
  pub transition-ok :
      {m : OutboxMessage}
      → (transition p message_id token expected update o).0 ≡ ok m
      → (is_trusted p ≡ true) × (is_empty token ≡ false)
  unfolding transition
  transition-ok h = elim (Bool-cases (is_trusted p)) [
    | inr unknown ↦ absurd (err-ne-ok (rw unknown at h))
    | inl trusted ↦ elim (Bool-cases (is_empty token)) [
      | inl missing ↦ absurd (err-ne-ok (rw (trusted, missing) at h))
      | inr given ↦ (trusted, given)
    ]
  ]

  -- In another status the token is no use.
  pub transition-wrong_status :
      (e : Key × OutboxMessage)
      → is_trusted p ≡ true
      → is_empty token ≡ false
      → find (is_entry p message_id) o.messages ≡ some e
      → matches_token e.1.claim_token token ≡ true
      → same_status e.1.dispatch_status expected ≡ false
      → transition p message_id token expected update o ≡ (err (assistant conflict), o)
  unfolding transition
  transition-wrong_status e trusted given found mine wrong = rw (trusted, given, found, mine, wrong)

module _ (p : Principal) (message_id : String) (update : OutboxMessage → OutboxMessage)
    (o : Outbox) where
  abbrev OperatorOutcome : Result OutboxMessage × Outbox → Type 0
  OperatorOutcome r = Raises r o ⊎ Replaces p message_id IsUncertain update r o

  pub operator_transition-save :
      (e : Key × OutboxMessage)
      → is_trusted p ≡ true
      → find (is_entry p message_id) o.messages ≡ some e
      → same_status e.1.dispatch_status uncertain ≡ true
      → operator_transition p message_id update o ≡ save e.0 (update e.1) o
  unfolding operator_transition
  operator_transition-save e trusted found right = rw (trusted, found, right)

  operator_after_find :
      (e : Key × OutboxMessage)
      → is_trusted p ≡ true
      → find (is_entry p message_id) o.messages ≡ some e
      → OperatorOutcome (operator_transition p message_id update o)
  unfolding operator_transition
  operator_after_find e trusted found =
      elim (Bool-cases (same_status e.1.dispatch_status uncertain)) [
        | inr wrong ↦ inl (assistant conflict, rw (trusted, found, wrong))
        | inl right ↦
            subst OperatorOutcome (sym (operator_transition-save e trusted found right))
              (save_cases p message_id IsUncertain update e o found (same_status_eq _ _ right))
      ]

  pub operator_transition_cases : OperatorOutcome (operator_transition p message_id update o)
  unfolding operator_transition
  operator_transition_cases = elim (Bool-cases (is_trusted p)) [
    | inr unknown ↦ inl (assistant authentication_required, rw unknown)
    | inl trusted ↦ elim (Option-cases (find (is_entry p message_id) o.messages)) [
      | inl absent ↦ inl (assistant not_found, rw (trusted, absent))
      | inr (e, found) ↦ operator_after_find e trusted found
    ]
  ]
