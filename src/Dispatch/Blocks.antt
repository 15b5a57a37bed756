-- ===== src/Dispatch/Blocks.antt =====
-- What a block with one call of the outbox returns, and the outbox that it leaves.
use text.Mathlib.TextEquality.{eq_iff}
use personal_assistant.Common.{
  ◌&&◌, ◌==◌, arith, ◌≡◌, refl, sym, ◌∙◌, ap, text_eq, pair_eq, inl, inr, Bool, true, false,
  Bool-cases, Option, none, some, String,
}
use personal_assistant.Common.Exec.{
  Exec, Exn, ok, assistant, not_found, value_error, ok_inj, err-ne-ok, Result-cases, catch, pure,
  ◌>>=◌, ◌>>◌,
}
use personal_assistant.Common.Dict.{find, find-put, find-passes}
use personal_assistant.Common.Leaves.{Leaves, pure-Leaves, raise-Leaves, bind-Leaves}
use personal_assistant.Common.Text.{is_empty}
use personal_assistant.Permissions.{Principal, is_trusted}
use personal_assistant.Delivery.{DeliveryStatus}
use personal_assistant.Events.{OutboxMessage}
use personal_assistant.Outbox.{Outbox, Key}
use personal_assistant.Outbox.Invariant.{IsValid}
use personal_assistant.Outbox.Transition.{is_entry, transition}
use personal_assistant.Outbox.Transition.Cases.{transition_cases}
use personal_assistant.Scheduler.{mirror_delivery}
use personal_assistant.UnitOfWork.{
  Stores, Transaction, enter, commit, with_transaction, on_scheduler,
}
use personal_assistant.Dispatch.{
  Environment, pass_not_found, mirror_subject, mirror_to, mirror_message, mirror_if_there,
  mirror_terminal,
}

-- The message that the outbox finds under an id of the tenant.
abbrev pub Stored : Principal → String → Outbox → OutboxMessage → Type 0
Stored p id o b = (k : Key) × (find (is_entry p id) o.messages ≡ some (k, b))

-- A transition that returns has found a claimed message in the status, and has stored its update.
pub transition-stores :
    (p : Principal) (id token : String) (expected : DeliveryStatus)
    (update : OutboxMessage → OutboxMessage) (o : Outbox) {b : OutboxMessage}
    → IsValid o
    → ((m : OutboxMessage) → (update m).id ≡ m.id)
    → (transition p id token expected update o).0 ≡ ok b
    → (a : OutboxMessage) × Stored p id o a
      × (b ≡ update a)
      × Stored p id (transition p id token expected update o).1 b
transition-stores p id token expected update o {b} v same h =
    elim (transition_cases p id token expected update o) [
      | inl (x, raised) ↦ absurd (err-ne-ok (rw raised at h))
      | inr (e, found, claim, fits, returned) ↦
          let same_b : update e.1 ≡ b = ok_inj (update e.1) b (rw returned at h) in
          let passes : is_entry p id e.0 (update e.1) ≡ true =
            rw (same e.1) (find-passes (is_entry p id) o.messages found) in
          (
            e.1,
            (e.0, found),
            sym same_b,
            (
              e.0,
              rw returned (
                  find-put (is_entry p id) e.0 e.1 (update e.1) o.messages v.keys found passes
                  ∙ ap (λ (w : OutboxMessage). some (e.0, w)) same_b),
            ),
          )
    ]

pub Stored-id :
    (p : Principal) (id : String) (o : Outbox) {b : OutboxMessage} → Stored p id o b → b.id ≡ id
Stored-id p id o {b} (k, found) =
    let passes : (k.0 == p.tenant_id && b.id == id) ≡ true =
      find-passes (is_entry p id) o.messages found in
    (eq_iff b.id id).0 (ground arith)

pub Stored-unique :
    (p : Principal) (id : String) (o : Outbox) {a b : OutboxMessage}
    → Stored p id o a
    → Stored p id o b
    → a ≡ b
Stored-unique p id o (k, found) (k', found') = cc

-- the outbox, and whether the transaction has rolled back
abbrev pub outbox_of : Transaction → Outbox × Bool
outbox_of t = (t.stores.outbox, t.rolled_back)

module _ (env : Environment) (p : Principal) (v : Outbox × Bool) where
  abbrev Mirrors : Exec Transaction (Unit {0}) → Type 0
  Mirrors m = Leaves outbox_of v (λ _. Unit {0}) m

  mirror_subject-Leaves :
      (subject : String) (m : OutboxMessage) → Mirrors (mirror_subject env p subject m)
  mirror_subject-Leaves subject m =
      bind-Leaves outbox_of v {Q = λ _. Unit {0}}
        (on_scheduler (mirror_delivery env.zone p subject m)) _
        (record { runs = λ t e. (e, λ a h. tt) }) (λ job _. pure-Leaves outbox_of v tt tt)

  pass-Leaves : (x : Exn) → Mirrors (pass_not_found x)
  pass-Leaves (assistant not_found) = pure-Leaves outbox_of v tt tt
  pass-Leaves x = raise-Leaves outbox_of v x

  catch-Leaves :
      (m : Exec Transaction (Unit {0})) (handler : Exn → Exec Transaction (Unit {0}))
      → Mirrors m
      → ((x : Exn) → Mirrors (handler x))
      → Mirrors (catch m handler)
  catch-Leaves m handler lm lh = record {
    runs = λ t e.
        let still = (lm.runs t e).0 in
        elim (Result-cases (m t).0) [
          | inl (x, raised) ↦ rw raised ((lh x).runs (m t).1 still)
          | inr (a, returned) ↦ rw returned (still, λ b h. tt)
        ];
  }

  pub mirror_message-Leaves : (m : OutboxMessage) → Mirrors (mirror_message env p m)
  unfolding mirror_message
  mirror_message-Leaves m = to m.event.subject
    where
      to : (subject : Option String) → Mirrors (mirror_to env p subject m)
      to none = raise-Leaves outbox_of v value_error
      to (some subject) = elim (Bool-cases (is_empty subject)) [
        | inl blank ↦ rw blank (raise-Leaves outbox_of v value_error)
        | inr given ↦ rw given (mirror_subject-Leaves subject m)
      ]

  pub mirror_terminal-Leaves : (m : OutboxMessage) → Mirrors (mirror_terminal env p m)
  unfolding mirror_terminal
  mirror_terminal-Leaves m = to m.event.subject
    where
      to : (subject : Option String) → Mirrors (mirror_if_there env p subject m)
      to none = pure-Leaves outbox_of v tt tt
      to (some subject) = elim (Bool-cases (is_empty subject)) [
        | inl blank ↦ rw blank (pure-Leaves outbox_of v tt tt)
        | inr given ↦ rw given (catch-Leaves _ _ (mirror_subject-Leaves subject m) pass-Leaves)
      ]

-- The end of a block, which commits and returns.
pub record Closes {A B : Type 0} (value : A → B) (last : A → Exec Transaction B) : Type 0 where
  pub closes :
      (a : A) (t : Transaction)
      → t.rolled_back ≡ false
      → last a t ≡ (ok (value a), record t { committed = true })

pub commit-pure-Closes : {A : Type 0} → Closes {A = A} (λ a. a) (λ a. commit >> pure a)
commit-pure-Closes = record { closes = λ a t live. rw live refl }

pub commit-Closes : {A : Type 0} → Closes {A = A} (λ a. tt) (λ a. commit)
commit-Closes = record { closes = λ a t live. rw live refl }

-- A block of a first part, its mirror and a commit: if it returns, then with the value of the first
-- part, and the outbox is what the first part has left.
pub block-ends :
    {A B : Type 0} (p : Principal) (first : Exec Transaction A)
    (mirror : A → Exec Transaction (Unit {0})) (value : A → B) (last : A → Exec Transaction B)
    (s : Stores) {b : B}
    → (first (enter s)).1.rolled_back ≡ false
    → ((a : A) → Leaves outbox_of (outbox_of (first (enter s)).1) (λ _. Unit {0}) (mirror a))
    → Closes value last
    → (with_transaction p (first >>= λ a. mirror a >> last a) s).0 ≡ ok b
    → (a : A) × ((first (enter s)).0 ≡ ok a)
      × (value a ≡ b)
      × ((with_transaction p (first >>= λ a. mirror a >> last a) s).1.outbox
          ≡ (first (enter s)).1.stores.outbox)
unfolding with_transaction
block-ends p first mirror value last s {b} live quiet closing h = elim (Bool-cases (is_trusted p)) [
  | inr unknown ↦ absurd (err-ne-ok (rw unknown at h))
  | inl known ↦ elim (Result-cases (first (enter s)).0) [
    | inl (x, raised) ↦ absurd (err-ne-ok (rw (known, raised) at h))
    | inr (a, returned) ↦ elim (Result-cases (mirror a (first (enter s)).1).0) [
      | inl (x, raised) ↦ absurd (err-ne-ok (rw (known, returned, raised) at h))
      | inr (u, mirrored) ↦
          let still = ((quiet a).runs (first (enter s)).1 refl).0 in
          let alive = ap (λ (v : Outbox × Bool). v.1) still ∙ live in
          let done = closing.closes a (mirror a (first (enter s)).1).1 alive in
          (
            a,
            returned,
            ok_inj (value a) b (rw (known, returned, mirrored, done) at h),
            rw (known, returned, mirrored, done) (ap (λ (v : Outbox × Bool). v.0) still),
          )
    ]
  ]
]
