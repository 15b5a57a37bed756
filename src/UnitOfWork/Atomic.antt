-- ===== src/UnitOfWork/Atomic.antt =====
-- The transaction of src/personal_assistant/adapters/persistence/in_memory_uow.py, seen as one step.
use personal_assistant.Common.{◌≡◌, refl, ap, inl, inr, ◌⊎◌, true, false, Bool-cases}
use personal_assistant.Common.Exec.{
  Exn, Exec, ok, err, assistant, authentication_required, Result-cases,
}
use personal_assistant.Permissions.{Principal, is_trusted}
use personal_assistant.UnitOfWork.{Stores, Transaction, enter, with_transaction}

module _ {ℓ} {A : Type ℓ} (p : Principal) (body : Exec Transaction A) (s : Stores) where
  -- A block that does not roll back by itself is all or nothing, and which of the two is decided.
  -- Exactly one of four things holds: the principal is not trusted, and the block is refused with
  -- all five stores as they were; the block raises, and so does the call, with all stores as they
  -- were, also after a commit; the block returns without a commit, and its value is returned, with
  -- all stores as they were; or the block returns after a commit, and its value is returned and
  -- everything that it wrote stands.
  pub transaction_atomic :
      (body (enter s)).1.rolled_back ≡ false
      → ((is_trusted p ≡ false)
          × (with_transaction p body s ≡ (err (assistant authentication_required), s)))
        ⊎ ((is_trusted p ≡ true)
            × ((x : Exn) × ((body (enter s)).0 ≡ err x) × (with_transaction p body s ≡ (err x, s))))
        ⊎ ((is_trusted p ≡ true)
            × ((body (enter s)).1.committed ≡ false)
            × ((a : A) × ((body (enter s)).0 ≡ ok a) × (with_transaction p body s ≡ (ok a, s))))
        ⊎ ((is_trusted p ≡ true)
            × ((body (enter s)).1.committed ≡ true)
            × ((a : A) × ((body (enter s)).0 ≡ ok a)
                × (with_transaction p body s ≡ (ok a, (body (enter s)).1.stores))))
  unfolding with_transaction
  transaction_atomic plain = elim (Bool-cases (is_trusted p)) [
    | inr unknown ↦ inl (unknown, rw unknown refl)
    | inl known ↦ elim (Result-cases (body (enter s)).0) [
      | inl (x, raised) ↦ inr (inl (known, (x, raised, rw (known, raised, plain) refl)))
      | inr (a, returned) ↦ elim (Bool-cases (body (enter s)).1.committed) [
        | inr open_end ↦
            inr (
              inr
                (inl (known, open_end, (a, returned, rw (known, returned, open_end, plain) refl))))
        | inl done ↦ inr (inr (inr (known, done, (a, returned, rw (known, returned, done) refl))))
      ]
    ]
  ]

  -- The stores are as they were, or they are what a block that returned has left.
  pub transaction_or_nothing :
      (body (enter s)).1.rolled_back ≡ false
      → ((with_transaction p body s).1 ≡ s)
        ⊎ ((a : A) × ((body (enter s)).0 ≡ ok a)
            × ((with_transaction p body s).1 ≡ (body (enter s)).1.stores))
  transaction_or_nothing plain = elim (transaction_atomic plain) [
    | inl (unknown, same) ↦ inl (ap (λ r. r.1) same)
    | inr (inl (known, (x, raised, same))) ↦ inl (ap (λ r. r.1) same)
    | inr (inr (inl (known, open_end, (a, returned, same)))) ↦ inl (ap (λ r. r.1) same)
    | inr (inr (inr (known, done, (a, returned, kept)))) ↦ inr (a, returned, ap (λ r. r.1) kept)
  ]
