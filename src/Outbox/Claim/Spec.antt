-- ===== src/Outbox/Claim/Spec.antt =====
-- `claim_due` as a whole: which calls are accepted, and what an accepted call returns and writes.
use personal_assistant.Common.{
  ℕ, zero, suc, ◌≤◌, ◌≡◌, refl, ◌⊎◌, inl, inr, true, false, Option, List, String, arith, leb, ltb,
  take, select, Bool-cases,
}
use personal_assistant.Common.Exec.{Result, ok, err, bind-ok, err-ne-ok}
use personal_assistant.Common.Sort.{sort_by}
use personal_assistant.Common.Text.{strip, is_empty, count_chars}
use personal_assistant.Common.Time.{Instant, aware, add_seconds}
use personal_assistant.Permissions.{Principal, is_trusted}
use personal_assistant.Delivery.{canonical_utc, is_valid_claim_owner}
use personal_assistant.Events.{OutboxMessage}
use personal_assistant.Outbox.{Outbox}
use personal_assistant.Outbox.Claim.{Entry, comes_first, is_due, check_claim, claim_loop, claim_due}
use personal_assistant.Outbox.Claim.Loop.{
  assign, values, write_all, claim_loop-ok, claim_loop-overflow,
}

-- The arguments that the checks let through.
pub record IsAccepted (p : Principal) (limit lease_seconds : ℕ) (owner : String) : Type 0 where
  pub verified : is_trusted p ≡ true
  pub some_limit : 1 ≤ limit
  pub limit_bound : limit ≤ 1000
  pub some_lease : 1 ≤ lease_seconds
  pub lease_bound : lease_seconds ≤ 86_400
  pub owner_text : is_empty (strip owner) ≡ false
  pub owner_length : count_chars (strip owner) ≤ 200
  pub owner_pattern : is_valid_claim_owner (strip owner) ≡ true

-- the first `limit` due entries, in the order of creation and id
abbrev pub picked : Principal → Instant → ℕ → Option String → Outbox → List Entry
picked p now limit event_type o =
    take limit (select (is_due p now event_type) (sort_by comes_first o.messages))

-- these, each leased to the stripped owner until `until`
abbrev pub chosen :
    (ℕ → String) → Principal → Instant → ℕ → String → Instant → Option String → Outbox → List Entry
chosen hex p now limit owner until event_type o =
    assign hex (strip owner) until 0 (picked p now limit event_type o)

checked :
    (p : Principal) (limit lease_seconds : ℕ) (owner : String) (o : Outbox)
    → IsAccepted p limit lease_seconds owner
    → check_claim limit lease_seconds owner o ≡ (ok tt, o)
unfolding check_claim
checked p limit lease_seconds owner o a =
    let l1 : leb 1 limit ≡ true = ground arith in
    let l2 : leb limit 1000 ≡ true = ground arith in
    let s1 : leb 1 lease_seconds ≡ true = ground arith in
    let s2 : leb lease_seconds 86_400 ≡ true = ground arith in
    let w : ltb 200 (count_chars (strip owner)) ≡ false = ground arith in
    rw (l1, l2, s1, s2, a.owner_text, w, a.owner_pattern)

loop_refines :
    (hex : ℕ → String) (p : Principal) (now : Instant) (owner : String) (lease_seconds : ℕ)
    (event_type : Option String) (o : Outbox) {until : Instant}
    → add_seconds now lease_seconds ≡ ok until
    → (limit : ℕ) → 1 ≤ limit
    → let leased = chosen hex p now limit owner until event_type o in
      claim_loop hex p now limit
        (strip owner)
        lease_seconds
        event_type
        0
        (sort_by comes_first o.messages)
        o
      ≡ (ok (values leased), write_all leased o)
loop_refines hex p now owner lease_seconds event_type o fits zero h = elim h [ ]
loop_refines hex p now owner lease_seconds event_type o fits (suc n) h =
    claim_loop-ok hex p now (suc n) (strip owner) lease_seconds event_type fits
      (sort_by comes_first o.messages) 0 n o (omega arith)

module _ (hex : ℕ → String) (p : Principal) (now : Instant) (limit : ℕ) (owner : String)
    (lease_seconds : ℕ) (event_type : Option String) (o : Outbox) where
  -- An accepted call returns exactly the first `limit` due messages, in the order of creation and
  -- id, each leased to the stripped owner until the lease ends, and writes exactly these.
  pub claim_due_refines :
      {until : Instant}
      → IsAccepted p limit lease_seconds owner
      → add_seconds now lease_seconds ≡ ok until
      → let leased = chosen hex p now limit owner until event_type o in
        claim_due hex p (aware now) limit owner lease_seconds event_type o
        ≡ (ok (values leased), write_all leased o)
  unfolding claim_due canonical_utc
  claim_due_refines a fits =
      rw (a.verified, checked p limit lease_seconds owner o a)
        (loop_refines hex p now owner lease_seconds event_type o fits limit a.some_limit)

  IsAccepted-by_checks :
      (r : Unit {0})
      → (check_claim limit lease_seconds owner o).0 ≡ ok r
      → is_trusted p ≡ true
      → IsAccepted p limit lease_seconds owner
  unfolding check_claim
  IsAccepted-by_checks r h t = ground arith

  -- A call that returns was accepted.
  pub claim_due-IsAccepted :
      {r : List OutboxMessage}
      → (claim_due hex p (aware now) limit owner lease_seconds event_type o).0 ≡ ok r
      → IsAccepted p limit lease_seconds owner
  unfolding claim_due canonical_utc
  claim_due-IsAccepted h = elim (Bool-cases (is_trusted p)) [
    | inr unknown ↦ absurd (err-ne-ok (rw unknown at h))
    | inl trusted ↦
        let (r, passed, _) =
          bind-ok (check_claim limit lease_seconds owner)
            (λ _ o.
              claim_loop hex p now limit (strip owner) lease_seconds event_type 0
                (sort_by comes_first o.messages) o)
            o (rw trusted at h) in
        IsAccepted-by_checks r passed trusted
  ]

  check_state : (check_claim limit lease_seconds owner o).1 ≡ o
  unfolding check_claim
  check_state = ground arith

  after_check :
      is_trusted p ≡ true
      → (r : Result (Unit {0})) → (check_claim limit lease_seconds owner o).0 ≡ r
      → ((claim_due hex p (aware now) limit owner lease_seconds event_type o).1 ≡ o)
        ⊎ IsAccepted p limit lease_seconds owner
  unfolding claim_due canonical_utc
  after_check trusted (ok u) passed = inr (IsAccepted-by_checks u passed trusted)
  after_check trusted (err x) stopped = inl (rw (trusted, stopped) check_state)

  -- A call leaves the outbox alone, or it was accepted and its lease has an end.
  pub claim_due_cases :
      ((claim_due hex p (aware now) limit owner lease_seconds event_type o).1 ≡ o)
      ⊎ ((until : Instant) × IsAccepted p limit lease_seconds owner
          × (add_seconds now lease_seconds ≡ ok until))
  unfolding claim_due canonical_utc
  claim_due_cases = elim (Bool-cases (is_trusted p)) [
    | inr unknown ↦ inl (rw unknown)
    | inl trusted ↦ elim (after_check trusted (check_claim limit lease_seconds owner o).0 refl) [
      | inl same ↦ inl same
      | inr a ↦ lease_end a (add_seconds now lease_seconds) refl
    ]
  ]
    where
      lease_end :
          IsAccepted p limit lease_seconds owner
          → (r : Result Instant) → add_seconds now lease_seconds ≡ r
          → ((claim_due hex p (aware now) limit owner lease_seconds event_type o).1 ≡ o)
            ⊎ ((until : Instant) × IsAccepted p limit lease_seconds owner
                × (add_seconds now lease_seconds ≡ ok until))
      lease_end a (ok until) e = inr (until, a, e)
      lease_end a (err x) e = inl (
          rw (a.verified, checked p limit lease_seconds owner o a)
            (claim_loop-overflow hex p now limit (strip owner) lease_seconds event_type e
              (sort_by comes_first o.messages) 0 o))
