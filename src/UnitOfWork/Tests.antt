-- ===== src/UnitOfWork/Tests.antt =====
-- A transaction that raises, and one that commits.
use personal_assistant.Common.{◌≡◌, refl, ◌⊎◌, true, false, String, [], ◌∷◌}
use personal_assistant.Common.Exec.{
  Exn, Exec, ok, err, assistant, authentication_required, value_error, raise, pure, ◌>>◌,
}
use personal_assistant.Permissions.{is_trusted}
use personal_assistant.Permissions.Sample.{member}
use personal_assistant.Calendar
use personal_assistant.EventStore
use personal_assistant.Outbox
use personal_assistant.Outbox.{Outbox}
use personal_assistant.Scheduler
use personal_assistant.Workflows
use personal_assistant.UnitOfWork.{Stores, Transaction, enter, commit, on_outbox, with_transaction}
use personal_assistant.UnitOfWork.Atomic.{transaction_atomic}

abbrev nothing : Stores
nothing = record {
  calendar = Calendar.empty;
  scheduler = Scheduler.empty;
  events = EventStore.empty;
  outbox = Outbox.empty;
  states = Workflows.empty;
}

-- an index is written
abbrev scribble : Exec Outbox (Unit {0})
scribble o = (ok tt, record o { fingerprints = (("t1", "k1"), "f") ∷ [] })

-- it writes, commits, and raises
abbrev broken : Exec Transaction String
broken = do on_outbox scribble; commit; raise value_error

-- Test: nothing of it stays.
broken_test : (with_transaction (member "t1") broken nothing).1 ≡ nothing
unfolding with_transaction
broken_test = refl

-- it writes, commits, and returns
abbrev kept : Exec Transaction String
kept = do on_outbox scribble; commit; pure "done"

-- Test: what it wrote stands.
kept_test :
    (with_transaction (member "t1") kept nothing).1.outbox.fingerprints ≡ (("t1", "k1"), "f") ∷ []
unfolding with_transaction
kept_test = refl

transaction_atomic_example :
    ((is_trusted (member "t1") ≡ false)
      × (with_transaction (member "t1") kept nothing
          ≡ (err (assistant authentication_required), nothing)))
    ⊎ ((is_trusted (member "t1") ≡ true)
        × ((x : Exn) × ((kept (enter nothing)).0 ≡ err x)
            × (with_transaction (member "t1") kept nothing ≡ (err x, nothing))))
    ⊎ ((is_trusted (member "t1") ≡ true)
        × ((kept (enter nothing)).1.committed ≡ false)
        × ((a : String) × ((kept (enter nothing)).0 ≡ ok a)
            × (with_transaction (member "t1") kept nothing ≡ (ok a, nothing))))
    ⊎ ((is_trusted (member "t1") ≡ true)
        × ((kept (enter nothing)).1.committed ≡ true)
        × ((a : String) × ((kept (enter nothing)).0 ≡ ok a)
            × (with_transaction (member "t1") kept nothing
                ≡ (ok a, (kept (enter nothing)).1.stores))))
transaction_atomic_example = transaction_atomic (member "t1") kept nothing refl
