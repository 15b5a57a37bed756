-- ===== src/Outbox/Claim/Loop.antt =====
-- The claim loop computes what a specification without a loop says: the first due candidates, up to
-- the limit, each leased with the next token, and all of them written back.
use personal_assistant.Common.{
  ℕ, zero, suc, ◌+◌, ◌≡◌, refl, inl, inr, Bool, true, false, Option, List, [], ◌∷◌, map, String,
  arith, leb, take, select, Bool-cases,
}
use personal_assistant.Common.Exec.{Exec, Exn, ok, err}
use personal_assistant.Common.Time.{Instant, add_seconds}
use personal_assistant.Permissions.{Principal}
use personal_assistant.Events.{OutboxMessage}
use personal_assistant.Outbox.{Outbox}
use personal_assistant.Outbox.Transition.{write_message}
use personal_assistant.Outbox.Claim.{Entry, is_due, claim_message, claim_loop}

-- the candidates with their leases, tokens numbered from `count`
abbrev pub assign : (ℕ → String) → String → Instant → ℕ → List Entry → List Entry
assign hex owner until count [] = []
assign hex owner until count ((key, m) ∷ es) =
    (key, claim_message (hex count) owner until m) ∷ assign hex owner until (count + 1) es

abbrev pub values : List Entry → List OutboxMessage
values = map (λ e. e.1)

abbrev pub write_all : List Entry → Outbox → Outbox
write_all [] o = o
write_all ((key, m) ∷ es) o = write_all es (write_message key m o)

module _ (hex : ℕ → String) (p : Principal) (now : Instant) (limit : ℕ) (owner : String)
    (lease_seconds : ℕ) (event_type : Option String) where
  abbrev loop : ℕ → List Entry → Exec Outbox (List OutboxMessage)
  loop = claim_loop hex p now limit owner lease_seconds event_type

  abbrev due : Entry → Bool
  due = is_due p now event_type

  module _ {until : Instant} (fits : add_seconds now lease_seconds ≡ ok until) where
    pub claim_loop-ok :
        (es : List Entry) (count n : ℕ) (o : Outbox)
        → count + suc n ≡ limit
        → let chosen = assign hex owner until count (take (suc n) (select due es)) in
          loop count es o ≡ (ok (values chosen), write_all chosen o)
    unfolding claim_loop
    claim_loop-ok [] count n o e = refl
    claim_loop-ok ((key, m) ∷ es) count zero o e = elim (Bool-cases (due (key, m))) [
      | inr skipped ↦ rw skipped (claim_loop-ok es count zero o e)
      | inl leased ↦
          let full : leb limit (count + 1) ≡ true = ground arith in rw (leased, fits, full)
    ]
    claim_loop-ok ((key, m) ∷ es) count (suc n) o e = elim (Bool-cases (due (key, m))) [
      | inr skipped ↦ rw skipped (claim_loop-ok es count (suc n) o e)
      | inl leased ↦
          let more : leb limit (count + 1) ≡ false = ground arith in
          rw (leased, fits, more)
            (rw (
              claim_loop-ok es (count + 1) n
                (write_message key (claim_message (hex count) owner until m) o) (omega arith)))
    ]

  -- A lease past `datetime.max` is refused before anything is written.
  pub claim_loop-overflow :
      {x : Exn}
      → add_seconds now lease_seconds ≡ err x
      → (es : List Entry) (count : ℕ) (o : Outbox) → (loop count es o).1 ≡ o
  unfolding claim_loop
  claim_loop-overflow late [] count o = refl
  claim_loop-overflow late ((key, m) ∷ es) count o = elim (Bool-cases (due (key, m))) [
    | inr skipped ↦ rw skipped (claim_loop-overflow late es count o)
    | inl leased ↦ rw (leased, late)
  ]
