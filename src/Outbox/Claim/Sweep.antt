-- ===== src/Outbox/Claim/Sweep.antt =====
-- The sweep never raises on a valid outbox: it returns the first expired sends, up to the limit, as
-- `uncertain`, and writes exactly these.
use text.Mathlib.TextEquality.{eq_iff}
use personal_assistant.Common.{
  ℕ, zero, suc, ◌+◌, ◌≤◌, ◌≡◌, refl, sym, ap, subst, inl, inr, Bool, true, false, ◌&&◌, ◌⊎◌, Option,
  some, List, [], ◌∷◌, String, arith, leb, take, select, All, Bool-cases, text_eq, pair_eq,
}
use personal_assistant.Common.Dict.{get, get-All}
use personal_assistant.Common.Entries.{
  StoredIn, StoredIn-put, own-StoredIn, Unique, Unique-sort_by, Unique-select, Unique-take,
  Distinct-Unique, All-select, All-take, select-passes, All-map,
}
use personal_assistant.Common.Exec.{Exec, Result, ok}
use personal_assistant.Common.Sort.{sort_by, All-sort_by}
use personal_assistant.Common.Time.{Instant, naive, aware}
use personal_assistant.Permissions.{Principal, is_trusted}
use personal_assistant.Delivery.{sending, uncertain, DeliveryError, canonical_utc}
use personal_assistant.Delivery.Machine.{lose}
use personal_assistant.Events.{OutboxMessage, has_metadata, validate}
use personal_assistant.Outbox.{Outbox, Key}
use personal_assistant.Outbox.Invariant.{IsRecorded, IsValid}
use personal_assistant.Outbox.Advance.{
  Edge-from, Advances, Advances-refl, Advances-trans, write_message-Advances,
}
use personal_assistant.Outbox.Transition.{write_message, save, end_with_error}
use personal_assistant.Outbox.Transition.Cases.{same_status_eq}
use personal_assistant.Outbox.Claim.{
  Entry, comes_first, is_stuck, sweep_loop, sweep_expired_sending,
}
use personal_assistant.Outbox.Claim.Loop.{values, write_all}

abbrev pub mark : DeliveryError → List Entry → List Entry
mark error [] = []
mark error ((key, m) ∷ es) = (key, end_with_error uncertain error m) ∷ mark error es

abbrev HasMetadata : Entry → Type 0
HasMetadata e = has_metadata e.1.dispatch_status e.1 ≡ true

module _ (p : Principal) (now : Instant) (error : DeliveryError) (event_type : Option String) where
  abbrev stuck : Entry → Bool
  stuck = is_stuck p now event_type

  module _ (key : Key) (m : OutboxMessage) (h : stuck (key, m) ≡ true) where
    stuck_status : m.dispatch_status ≡ sending
    unfolding is_stuck
    stuck_status = same_status_eq m.dispatch_status sending (ground arith)

    stuck_tenant : key.0 ≡ p.tenant_id
    unfolding is_stuck
    stuck_tenant = ground (arith, eq_iff key.0 p.tenant_id)

    -- An expired send may become `uncertain`: it has an attempt and a time of sending.
    marked_fits :
        HasMetadata (key, m) → has_metadata uncertain (end_with_error uncertain error m) ≡ true
    marked_fits fits =
        let before : has_metadata sending m ≡ true = rw stuck_status at fits in ground arith

    save_marked :
        (o : Outbox)
        → HasMetadata (key, m)
        → let m' = end_with_error uncertain error m in
          save key m' o ≡ (ok m', write_message key m' o)
    unfolding save validate
    save_marked o fits = rw (marked_fits fits)

  module _ (limit : ℕ) where
    abbrev loop : ℕ → List Entry → Exec Outbox (List OutboxMessage)
    loop = sweep_loop p now limit error event_type

    sweep_loop-ok :
        (es : List Entry) (count n : ℕ) (o : Outbox)
        → All HasMetadata es
        → count + suc n ≡ limit
        → let marked = mark error (take (suc n) (select stuck es)) in
          loop count es o ≡ (ok (values marked), write_all marked o)
    unfolding sweep_loop
    sweep_loop-ok [] count n o meta e = refl
    sweep_loop-ok ((key, m) ∷ es) count zero o meta e = elim (Bool-cases (stuck (key, m))) [
      | inr skipped ↦ rw skipped (sweep_loop-ok es count zero o meta.1 e)
      | inl expired ↦
          let full : leb limit (count + 1) ≡ true = ground arith in
          rw (expired, save_marked key m expired o meta.0, full)
    ]
    sweep_loop-ok ((key, m) ∷ es) count (suc n) o meta e = elim (Bool-cases (stuck (key, m))) [
      | inr skipped ↦ rw skipped (sweep_loop-ok es count (suc n) o meta.1 e)
      | inl expired ↦
          let more : leb limit (count + 1) ≡ false = ground arith in
          rw (expired, save_marked key m expired o meta.0, more)
            (rw (
              sweep_loop-ok es (count + 1) n
                (write_message key (end_with_error uncertain error m) o) meta.1 (omega arith)))
    ]

  mark-Advances :
      (es : List Entry) (o : Outbox)
      → IsValid o
      → Unique es
      → StoredIn o.messages es
      → All (λ e. stuck e ≡ true) es
      → Advances p.tenant_id o (write_all (mark error es) o)
  mark-Advances [] o v u stored s = Advances-refl p.tenant_id o v
  mark-Advances ((key, m) ∷ es) o v u stored s =
      let m' = end_with_error uncertain error m in
      let first : Advances p.tenant_id o (write_message key m' o) =
        write_message-Advances p.tenant_id key m m' o (stuck_tenant key m s.0) stored.0
          (marked_fits key m s.0 (get-All (IsRecorded o) key o.messages v.recorded stored.0).0)
          (Edge-from m m' (stuck_status key m s.0) lose (omega arith) refl) v in
      Advances-trans first (
        mark-Advances es (write_message key m' o) first.valid u.1
          (StoredIn-put key m' o.messages es u.0 stored.1) s.1)

module _ (p : Principal) (now : Instant) (limit : ℕ) (error : DeliveryError)
    (event_type : Option String) (o : Outbox) (v : IsValid o) where
  abbrev ordered : List Entry
  ordered = sort_by comes_first o.messages

  -- the first `limit` expired sends, in the order of creation and id
  abbrev pub expired_sends : List Entry
  expired_sends = take limit (select (is_stuck p now event_type) ordered)

  abbrev IsStored : Entry → Type 0
  IsStored e = get e.0 o.messages ≡ some e.1

  ordered-HasMetadata : All HasMetadata ordered
  ordered-HasMetadata =
      All-sort_by comes_first HasMetadata o.messages
        (All-map (IsRecorded o) HasMetadata (λ e h. h.0) o.messages v.recorded)

  sweep_from :
      (n : ℕ)
      → 1 ≤ n
      → let marked = mark error (take n (select (is_stuck p now event_type) ordered)) in
        sweep_loop p now n error event_type 0 ordered o ≡ (ok (values marked), write_all marked o)
  sweep_from zero h = elim h [ ]
  sweep_from (suc n) h =
      sweep_loop-ok p now error event_type (suc n) ordered 0 n o ordered-HasMetadata (omega arith)

  -- On a valid outbox a sweep with a limit in range never raises: it returns the first `limit`
  -- expired sends as `uncertain`, without their claims, and writes exactly these.
  pub sweep_refines :
      is_trusted p ≡ true
      → 1 ≤ limit
      → limit ≤ 1000
      → let marked = mark error expired_sends in
        sweep_expired_sending p (aware now) error limit event_type o
        ≡ (ok (values marked), write_all marked o)
  unfolding sweep_expired_sending canonical_utc
  sweep_refines trusted low high =
      let l1 : leb 1 limit ≡ true = ground arith in
      let l2 : leb limit 1000 ≡ true = ground arith in rw (trusted, l1, l2) (sweep_from limit low)

  expired_sends-Advances : Advances p.tenant_id o (write_all (mark error expired_sends) o)
  expired_sends-Advances =
      mark-Advances p now error event_type expired_sends o v
        (Unique-take limit (select (is_stuck p now event_type) ordered) (
          Unique-select (is_stuck p now event_type) ordered
            (Unique-sort_by comes_first o.messages (Distinct-Unique o.messages v.keys))))
        (All-take IsStored limit (select (is_stuck p now event_type) ordered) (
          All-select IsStored (is_stuck p now event_type) ordered
            (All-sort_by comes_first IsStored o.messages (own-StoredIn o.messages v.keys))))
        (All-take (λ e. is_stuck p now event_type e ≡ true) limit
          (select (is_stuck p now event_type) ordered)
          (select-passes (is_stuck p now event_type) ordered))

  sweep_cases :
      ((sweep_expired_sending p (aware now) error limit event_type o).1 ≡ o)
      ⊎ ((is_trusted p ≡ true) × (1 ≤ limit) × (limit ≤ 1000))
  unfolding sweep_expired_sending canonical_utc
  sweep_cases = elim (Bool-cases (is_trusted p)) [
    | inr unknown ↦ inl (rw unknown)
    | inl trusted ↦ elim (Bool-cases (leb 1 limit && leb limit 1000)) [
      | inr outside ↦ inl (rw (trusted, outside))
      | inl inside ↦ inr (trusted, ground arith, ground arith)
    ]
  ]

  -- A sweep advances the outbox, however it ends.
  pub sweep-Advances :
      Advances p.tenant_id o (sweep_expired_sending p (aware now) error limit event_type o).1
  sweep-Advances = elim sweep_cases [
    | inl same ↦ subst (Advances p.tenant_id o) (sym same) (Advances-refl p.tenant_id o v)
    | inr (trusted, low, high) ↦
        subst (Advances p.tenant_id o)
          (sym (
            ap (λ (r : Result (List OutboxMessage) × Outbox). r.1)
              (sweep_refines trusted low high)))
          expired_sends-Advances
  ]

pub sweep_naive :
    (p : Principal) (t limit : ℕ) (error : DeliveryError) (event_type : Option String) (o : Outbox)
    → (sweep_expired_sending p (naive t) error limit event_type o).1 ≡ o
unfolding sweep_expired_sending canonical_utc
sweep_naive p t limit error event_type o = ground arith
