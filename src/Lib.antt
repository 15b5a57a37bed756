-- ===== src/Lib.antt =====
-- personal_assistant: a multi-tenant assistant that creates reminders behind approvals and delivers
-- them through a durable outbox. This library models the stores that decide what is delivered, by
-- whom and how often, and the permission checks in front of them, and proves what they promise.
--
-- Parts, and the code that they model (paths from the repository's root):
-- - Common: Python exceptions and methods (Exec, Pure), dicts (Dict), text (Text), sorting
--   (Sort), datetimes as instants in microseconds (Time), the index that three stores share
--   (Index), texts in JSON (Json), computations that leave a part of their object alone (Leaves).
-- - Delivery: the delivery states, errors and claim limits of
--   src/personal_assistant/application/dto/delivery.py. Delivery.Machine is its state machine.
-- - Events: `CloudEvent` and `OutboxMessage` with the validator of its state metadata, of
--   src/personal_assistant/application/dto/events.py.
-- - Permissions: tiers, principals, permission decisions, approval grants and
--   `require_approval`, of src/personal_assistant/domain/common/permissions.py and identity.py.
-- - Outbox: `InMemoryOutbox` of src/personal_assistant/adapters/persistence/in_memory.py. `add`
--   stands in Outbox, the transitions of one message in Outbox.Transition, `claim_due` and the
--   sweep in Outbox.Claim, and histories of all calls in Outbox.Calls.
-- - Workflows: `WorkflowState` of src/personal_assistant/application/dto/workflows.py and
--   `InMemoryWorkflowStateStore` of in_memory.py.
-- - Approvals: `PendingApproval` of src/personal_assistant/application/dto/commands.py and
--   `InMemoryApprovalStore` of in_memory.py, which issues the grants that Permissions checks.
-- - Scheduler: `ScheduledReminder` of src/personal_assistant/application/ports/scheduler.py and
--   `ReminderScheduler` of src/personal_assistant/adapters/outbound/scheduler/local.py, which
--   mirrors the delivery of outbox messages.
-- - EventStore: `InMemoryEventStore` of in_memory.py.
-- - Calendar: `LocalCalendarTool` of src/personal_assistant/adapters/outbound/calendar/local.py
--   with the requests and results of src/personal_assistant/application/ports/calendar.py. It
--   calls `require_approval`.
-- - UnitOfWork: the transaction over the five stores of
--   src/personal_assistant/adapters/persistence/in_memory_uow.py, with the restore of each store
--   field by field.
-- - Identity: the identity of a reminder, its keys and its effect ids, of
--   src/personal_assistant/domain/reminders/idempotency.py, with the canonical JSON below them.
-- - Reminders: extractions and parse results of
--   src/personal_assistant/domain/reminders/models.py, and the draft that waits for approval, of
--   workflow_state.py beside it.
-- - Guardrails: scans and findings of src/personal_assistant/domain/common/guardrails.py, and
--   their enforcement in src/personal_assistant/application/use_cases/runtime.py.
-- - Creation: `ReminderWorkflow` of src/personal_assistant/application/use_cases/reminders.py.
--   Creation has its input, its result and its `Environment`, Creation.Extraction the extraction
--   with the model as a fallback, Creation.Answers the replies, Creation.Ask the way before
--   approval, Creation.Writes the writes to all five stores, Creation.Flow `run` with the approved
--   way, which makes these writes in one transaction of UnitOfWork. Its grant comes from
--   Approvals, and Dispatch delivers what it puts in the outbox.
-- - Commands: `ConversationCommandService` of
--   src/personal_assistant/application/use_cases/commands.py over Creation and Approvals, with the
--   values of src/personal_assistant/application/dto/commands.py and channels.py. Commands.Text
--   reads texts, Commands.Inputs checks what the workflow is given, Commands.Requests has the
--   commands that change state, Commands.Router the others and `handle`. Its `Services` hold what
--   comes from outside.
-- - Dispatch: `DispatchDueReminders` of
--   src/personal_assistant/application/use_cases/reminder_notifications_dispatch.py over the
--   outbox and the scheduler in transactions. Dispatch.Helpers models
--   reminder_notifications_helpers.py beside it and the values of
--   src/personal_assistant/application/ports/notifications.py. The port and the approval provider
--   are functions in its `Environment`, and both may raise. Dispatch.Loop has the loop and the
--   operator's resolution of uncertain messages. Dispatch.Blocks, Dispatch.Rounds and
--   Dispatch.Settled are about its transactions, Dispatch.Answers, Dispatch.Fates and
--   Dispatch.Claimed about one answer, one round and the whole.
--
-- How code becomes definitions. A store is a record of its dicts, and a method is an `Exec`: a
-- function from the store to a result and the store that is left, also when an exception is
-- raised. Each store has one lock, which a method holds while it works, so that a method is one
-- step, and the interleavings of several threads are the sequences of calls by principals that
-- `run` goes through. Messages are immutable here, so a deep copy is the value itself. The clock,
-- `uuid4`, SHA-256 (`fingerprint`, `sha256`), Unicode normal forms, the matches of the regular
-- expressions (`finditer`), the reminder parser (`extract`), the language model, the reply texts
-- and the time zone database (`zone`) are arguments. Two properties assume something of them:
-- identity_unique that the hash tells the documents of two identities apart, and draft_kept that
-- pydantic reads the datetimes and the number back that were written. Loops are recursions on the
-- list that they go through. The only fuel is that of `decimal`, which writes a number in digits:
-- n has at most n + 1 of them, which is the fuel that it is given. Integers are Python's, without
-- a bound; limits, lease lengths and minutes are natural numbers, since a negative limit or lease
-- fails the same test as zero. Instants end at `datetime.max`, where addition raises.
--
-- Not modelled: message texts and contexts of exceptions; `isinstance` tests that reject values of
-- other types; the validators that only concern time zones or blank space, which are behind the
-- types or written as a strip where a value is built; the traces that the use cases write, and so
-- the trace ids in results; `_DirectReminderTransaction`, the stand-in of the workflow for a
-- missing unit of work; the reminder parser, the privacy and the memory modules; the PostgreSQL
-- adapter, whose behaviour is in SQL; the HTTP, administration, configuration, channel and model
-- adapters, which are input and output; the evaluation harness and the repository's tools.
pub mod Common
pub mod Permissions
pub mod Delivery
pub mod Events
pub mod Identity
pub mod Guardrails
pub mod Reminders
pub mod EventStore
pub mod Calendar
pub mod Outbox
pub mod Workflows
pub mod Approvals
pub mod Scheduler
pub mod UnitOfWork
pub mod Creation
pub mod Commands
pub mod Dispatch
