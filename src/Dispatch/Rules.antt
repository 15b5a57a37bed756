-- ===== src/Dispatch/Rules.antt =====
-- The rules by which blocks move the stores: sequences, handlers, and calls of the stores.
use personal_assistant.Common.{
  ◌≡◌, refl, inl, inr, Bool, true, false, not, ◌||◌, Bool-cases, String,
}
use personal_assistant.Common.Exec.{
  Exec, Exn, Result, pure, lift, catch, runtime_error, raise_if, modify, Result-cases, ◌>>=◌, ◌>>◌,
}
use personal_assistant.Permissions.{Principal, is_trusted}
use personal_assistant.Outbox.{Outbox}
use personal_assistant.Outbox.Invariant
use personal_assistant.Outbox.Advance.{Advances, Advances-refl}
use personal_assistant.Scheduler.{SchedulerStore}
use personal_assistant.Scheduler.Steps
use personal_assistant.Scheduler.Steps.{Step, IsSame-refl, Step-IsValid, Step-kept, Step-elsewhere}
use personal_assistant.UnitOfWork.{
  Stores, Transaction, enter, mark_committed, commit, is_raised, with_transaction, on_outbox,
  on_scheduler,
}
use personal_assistant.Dispatch.Steps.{
  IsValid, Moves, Moves-IsValid, Moves-refl, Moves-trans, Plain, Keeps,
}

module _ (tenant : String) where
  module _ {ℓ} {A : Type ℓ} where
    pub pure-Plain : (a : A) → Plain tenant (pure a)
    pure-Plain a = record { moves = λ t v r. (Moves-refl tenant t.stores v, r) }

    pub lift-Plain : (a : Result A) → Plain tenant (lift a)
    lift-Plain a = record { moves = λ t v r. (Moves-refl tenant t.stores v, r) }

    pub pure-Keeps : (a : A) → Keeps tenant (pure a)
    pure-Keeps a = record { moves = Moves-refl tenant }

    pub lift-Keeps : (a : Result A) → Keeps tenant (lift a)
    lift-Keeps a = record { moves = Moves-refl tenant }

    pub catch-Plain :
        (m : Exec Transaction A) (h : Exn → Exec Transaction A)
        → Plain tenant m
        → ((x : Exn) → Plain tenant (h x))
        → Plain tenant (catch m h)
    catch-Plain m h pm ph = record {
      moves = λ t v r.
          let (first, still) = pm.moves t v r in
          elim (Result-cases (m t).0) [
            | inl (x, raised) ↦
                let (second, plain) = (ph x).moves (m t).1 (Moves-IsValid tenant first) still in
                rw raised (Moves-trans tenant first second, plain)
            | inr (a, returned) ↦ rw returned (first, still)
          ];
    }

    pub on_outbox-Plain :
        (m : Exec Outbox A)
        → ((o : Outbox) → Invariant.IsValid o → Advances tenant o (m o).1)
        → Plain tenant (on_outbox m)
    on_outbox-Plain m h = record {
      moves = λ t v r. (
        record {
          outbox = h t.stores.outbox v.outbox;
          scheduler_valid = v.scheduler;
          jobs_kept = λ k a g. (a, g, IsSame-refl a);
          jobs_elsewhere = λ k ne. refl;
          calendar = refl;
          events = refl;
          states = refl;
        },
        r,
      );
    }

    pub on_scheduler-Plain :
        (m : Exec SchedulerStore A)
        → ((s : SchedulerStore) → Steps.IsValid s → Step tenant s (m s).1)
        → Plain tenant (on_scheduler m)
    on_scheduler-Plain m h = record {
      moves = λ t v r.
          let step = h t.stores.scheduler v.scheduler in
          (
            record {
              outbox = Advances-refl tenant t.stores.outbox v.outbox;
              scheduler_valid = Step-IsValid tenant step v.scheduler;
              jobs_kept = λ k a g. Step-kept tenant k a step g;
              jobs_elsewhere = λ k ne. Step-elsewhere tenant k step ne;
              calendar = refl;
              events = refl;
              states = refl;
            },
            r,
          );
    }

  module _ {ℓ κ} {A : Type ℓ} {B : Type κ} where
    pub bind-Plain :
        (m : Exec Transaction A) (k : A → Exec Transaction B)
        → Plain tenant m
        → ((a : A) → Plain tenant (k a))
        → Plain tenant (m >>= k)
    bind-Plain m k pm pk = record {
      moves = λ t v r.
          let (first, still) = pm.moves t v r in
          elim (Result-cases (m t).0) [
            | inl (x, raised) ↦ rw raised (first, still)
            | inr (a, returned) ↦
                let (second, plain) = (pk a).moves (m t).1 (Moves-IsValid tenant first) still in
                rw returned (Moves-trans tenant first second, plain)
          ];
    }

    pub bind-Keeps :
        (m : Exec Stores A) (k : A → Exec Stores B)
        → Keeps tenant m
        → ((a : A) → Keeps tenant (k a))
        → Keeps tenant (m >>= k)
    bind-Keeps m k km kk = record {
      moves = λ s v.
          let first = km.moves s v in
          elim (Result-cases (m s).0) [
            | inl (x, raised) ↦ rw raised first
            | inr (a, returned) ↦
                rw returned
                  (Moves-trans tenant first ((kk a).moves (m s).1 (Moves-IsValid tenant first)))
          ];
    }

  pub commit-Plain : Plain tenant commit
  commit-Plain = record { moves = λ t v r. either t v r t.rolled_back }
    where
      either :
          (t : Transaction) (v : IsValid t.stores) (r : t.rolled_back ≡ false) (b : Bool)
          → Moves tenant t.stores ((raise_if b runtime_error >> modify mark_committed) t).1.stores
            × (((raise_if b runtime_error >> modify mark_committed) t).1.rolled_back ≡ false)
      either t v r true = (Moves-refl tenant t.stores v, r)
      either t v r false = (Moves-refl tenant t.stores v, r)

  -- A transaction whose block is plain moves the stores like its block, or not at all.
  pub with_transaction-Keeps {ℓ} :
      {A : Type ℓ} (p : Principal) (body : Exec Transaction A)
      → Plain tenant body
      → Keeps tenant (with_transaction p body)
  unfolding with_transaction
  with_transaction-Keeps p body plain = record {
    moves = λ s v.
        let (moved, still) = plain.moves (enter s) v refl in
        elim (Bool-cases (is_trusted p)) [
          | inr unknown ↦ rw unknown (Moves-refl tenant s v)
          | inl known ↦
              elim (Bool-cases (is_raised (body (enter s)).0 || not (body (enter s)).1.committed)) [
                | inl undone ↦ rw (known, undone, still) (Moves-refl tenant s v)
                | inr kept ↦ rw (known, kept) moved
              ]
        ];
  }
