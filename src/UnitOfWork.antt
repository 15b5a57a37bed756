-- ===== src/UnitOfWork.antt =====
-- The unit of work over the five reminder stores: `InMemoryReminderTransaction` and
-- `InMemoryReminderUnitOfWork` (src/personal_assistant/adapters/persistence/in_memory_uow.py), with
-- the snapshots of the stores. All locks are held from `__enter__` to `__exit__`, so a block is one
-- step, and inside its block a transaction is active.
pub mod Atomic
pub mod Views
mod Tests
use personal_assistant.Common.{Bool, true, false, not, ◌||◌, if◌then◌else◌}
use personal_assistant.Common.Exec.{
  Exec, Result, ok, err, runtime_error, raise_if, modify, pure, ◌>>=◌, ◌>>◌,
}
use personal_assistant.Permissions.{Principal, require_trusted_principal}
use personal_assistant.Calendar.{Calendar}
use personal_assistant.Scheduler.{SchedulerStore}
use personal_assistant.EventStore.{EventStore}
use personal_assistant.Outbox.{Outbox}
use personal_assistant.Workflows.{WorkflowStateStore}

-- the participants, in the order of their locks
pub record Stores : Type 0 where
  pub calendar : Calendar
  pub scheduler : SchedulerStore
  pub events : EventStore
  pub outbox : Outbox
  pub states : WorkflowStateStore

pub record Transaction : Type 0 where
  pub stores : Stores
  pub committed : Bool
  pub rolled_back : Bool

-- after `__enter__`
abbrev pub enter : Stores → Transaction
enter s = record { stores = s; committed = false; rolled_back = false }

abbrev pub mark_committed : Transaction → Transaction
mark_committed t = record t { committed = true }

abbrev pub commit : Exec Transaction (Unit {0})
commit t = (raise_if t.rolled_back runtime_error >> modify mark_committed) t

-- `_restore_reminder_transaction` of each store: its dicts come from the snapshot, which is the
-- store as it was, since values are immutable here.
abbrev pub restore_calendar : Calendar → Calendar → Calendar
restore_calendar snapshot s = record s {
  events = snapshot.events;
  key_by_event_id = snapshot.key_by_event_id;
  fingerprints = snapshot.fingerprints;
}

abbrev pub restore_scheduler : SchedulerStore → SchedulerStore → SchedulerStore
restore_scheduler snapshot s = record s {
  jobs = snapshot.jobs;
  key_by_reminder_id = snapshot.key_by_reminder_id;
}

abbrev pub restore_events : EventStore → EventStore → EventStore
restore_events snapshot s = record s {
  events = snapshot.events;
  fingerprints = snapshot.fingerprints;
}

abbrev pub restore_outbox : Outbox → Outbox → Outbox
restore_outbox snapshot s = record s {
  messages = snapshot.messages;
  key_by_message_id = snapshot.key_by_message_id;
  key_by_event_id = snapshot.key_by_event_id;
  fingerprints = snapshot.fingerprints;
}

abbrev pub restore_states : WorkflowStateStore → WorkflowStateStore → WorkflowStateStore
restore_states snapshot s = record s {
  states = snapshot.states;
  key_by_workflow_id = snapshot.key_by_workflow_id;
}

-- the participants are restored one by one, the last one first
abbrev pub restore : Stores → Stores → Stores
restore snapshots s0 =
    let s1 = record s0 { states = restore_states snapshots.states s0.states } in
    let s2 = record s1 { outbox = restore_outbox snapshots.outbox s1.outbox } in
    let s3 = record s2 { events = restore_events snapshots.events s2.events } in
    let s4 = record s3 { scheduler = restore_scheduler snapshots.scheduler s3.scheduler } in
    record s4 { calendar = restore_calendar snapshots.calendar s4.calendar }

-- `rollback`
abbrev pub rollback : Stores → Transaction → Transaction
rollback snapshots t =
    if t.rolled_back
    then t
    else record { stores = restore snapshots t.stores; committed = false; rolled_back = true }

abbrev pub is_raised {ℓ} : {A : Type ℓ} → Result A → Bool
is_raised (ok a) = false
is_raised (err x) = true

-- `__exit__`: what the block raised, or a block without a commit, is rolled back
abbrev pub leave {ℓ} : {A : Type ℓ} → Stores → Result A → Transaction → Transaction
leave snapshots r t = if is_raised r || not t.committed then rollback snapshots t else t

-- `with unit_of_work.begin(principal) as transaction: body`
abbrev pub run_block {ℓ} : {A : Type ℓ} → Exec Transaction A → Exec Stores A
run_block body s = ((body (enter s)).0, (leave s (body (enter s)).0 (body (enter s)).1).stores)

unfoldable pub with_transaction {ℓ} : {A : Type ℓ} → Principal → Exec Transaction A → Exec Stores A
with_transaction p body = do require_trusted_principal p; run_block body

-- a call of one of the transaction's stores
module _ {ℓ} {A : Type ℓ} where
  abbrev pub on_outbox : Exec Outbox A → Exec Transaction A
  on_outbox m t = (
    (m t.stores.outbox).0,
    record t { stores = record (t.stores) { outbox = (m t.stores.outbox).1 } },
  )

  abbrev pub on_scheduler : Exec SchedulerStore A → Exec Transaction A
  on_scheduler m t = (
    (m t.stores.scheduler).0,
    record t { stores = record (t.stores) { scheduler = (m t.stores.scheduler).1 } },
  )

  abbrev pub on_calendar : Exec Calendar A → Exec Transaction A
  on_calendar m t = (
    (m t.stores.calendar).0,
    record t { stores = record (t.stores) { calendar = (m t.stores.calendar).1 } },
  )

  abbrev pub on_events : Exec EventStore A → Exec Transaction A
  on_events m t = (
    (m t.stores.events).0,
    record t { stores = record (t.stores) { events = (m t.stores.events).1 } },
  )

  abbrev pub on_states : Exec WorkflowStateStore A → Exec Transaction A
  on_states m t = (
    (m t.stores.states).0,
    record t { stores = record (t.stores) { states = (m t.stores.states).1 } },
  )

  -- a call of the workflow store outside a transaction
  abbrev pub with_states : Exec WorkflowStateStore A → Exec Stores A
  with_states m s = ((m s.states).0, record s { states = (m s.states).1 })
