-- ===== src/Scheduler.antt =====
-- Scheduled reminders (`ScheduledReminder`, src/personal_assistant/application/ports/scheduler.py)
-- and the local scheduler, `ReminderScheduler`
-- (src/personal_assistant/adapters/outbound/scheduler/local.py). The time zone database is the
-- parameter `zone`: what `ZoneInfo(value).key` gives, or `none` where it raises. The clock and
-- `uuid4().hex` are arguments, and `minutes_before` is not negative.
pub mod Reminder
pub mod Steps
pub mod Methods
pub mod Calls
pub mod Due
pub mod Replay
mod Tests
use Prim.Native.String.{◌++◌}
use personal_assistant.Common.{
  ℕ, Bool, true, false, not, ◌&&◌, ◌||◌, Option, none, some, List, [], ◌∷◌, map, select, String,
  leb, ltb, nat_eq, ◌==◌, text_eq, pair_eq, if◌then◌else◌,
}
use personal_assistant.Common.Exec.{
  Exec, Result, ok, err, assistant, permission_denied, conflict, not_found, value_error, pure, lift,
  raise, gets, modify, or_raise, raise_if, ◌>>=◌, ◌>>◌,
}
use personal_assistant.Common.Dict.{Dict, get, put, find}
use personal_assistant.Common.Index.{Key, key_eq, is_taken}
use personal_assistant.Common.Sort.{sort_by}
use personal_assistant.Common.Text.{is_empty, count_chars, text_leb, all_chars}
use personal_assistant.Common.Time.{Instant, Datetime, naive, aware, sub_minutes}
use personal_assistant.Permissions.{Principal, require_trusted_principal}
use personal_assistant.Delivery.{DeliveryStatus, pending, published, same_status, DeliveryError}
use personal_assistant.Events.{OutboxMessage}
use Reminder.{ScheduledReminder, validate_reminder}

pub record SchedulerStore : Type 0 where
  pub jobs : Dict Key ScheduledReminder  -- `_jobs_by_key`
  pub key_by_reminder_id : Dict Key String

abbrev pub empty : SchedulerStore
empty = record { jobs = []; key_by_reminder_id = [] }

-- the arguments of `schedule_before_event`, but for the two ids
pub record Request : Type 0 where
  pub calendar_event_id : String
  pub starts_at : Datetime
  pub channel : String
  pub recipient : String
  pub body : String
  pub timezone : String
  pub source_event_id : String
  pub payload_fingerprint : String
  pub minutes_before : ℕ

-- `starts_at` in UTC, less the minutes
abbrev pub notice_time : Datetime → ℕ → Result Instant
notice_time (naive t) minutes_before = err value_error
notice_time (aware t) minutes_before = sub_minutes t minutes_before

abbrev pub new_job : Principal → Request → Instant → String → String → ScheduledReminder
new_job p r notify_at idempotency_key reminder_id = record {
  reminder_id = reminder_id;
  tenant_id = p.tenant_id;
  calendar_event_id = r.calendar_event_id;
  notify_at = notify_at;
  timezone = r.timezone;
  source_event_id = r.source_event_id;
  payload_fingerprint = r.payload_fingerprint;
  channel = r.channel;
  recipient = r.recipient;
  body = r.body;
  idempotency_key = idempotency_key;
  delivery_status = pending;
  attempts = 0;
  next_attempt_at = none;
  sending_at = none;
  published_at = none;
  last_error = none;
  sent = false;
}

-- the eight fields that a replay must repeat
abbrev pub is_same_job : ScheduledReminder → ScheduledReminder → Bool
is_same_job existing job =
    existing.calendar_event_id == job.calendar_event_id
    && nat_eq existing.notify_at job.notify_at
    && existing.timezone == job.timezone
    && existing.source_event_id == job.source_event_id
    && existing.payload_fingerprint == job.payload_fingerprint
    && existing.channel == job.channel
    && existing.recipient == job.recipient
    && existing.body == job.body

abbrev pub write_job : Key → ScheduledReminder → SchedulerStore → SchedulerStore
write_job key job s = record s { jobs = put key job s.jobs }

abbrev pub store_job : String → String → ScheduledReminder → SchedulerStore → SchedulerStore
store_job tenant idempotency_key job s = record {
  jobs = put (tenant, idempotency_key) job s.jobs;
  key_by_reminder_id = put (tenant, job.reminder_id) idempotency_key s.key_by_reminder_id;
}

abbrev pub replay_or_schedule :
    Principal
    → String
    → ScheduledReminder
    → Option ScheduledReminder
    → Exec SchedulerStore ScheduledReminder
replay_or_schedule p idempotency_key job (some existing) = do
  raise_if (not (is_same_job existing job)) (assistant conflict)
  pure existing
replay_or_schedule p idempotency_key job none = do
  existing_key ← gets (λ s. get (p.tenant_id, job.reminder_id) s.key_by_reminder_id)
  raise_if (is_taken existing_key idempotency_key) (assistant conflict)
  modify (store_job p.tenant_id idempotency_key job)
  pure job

abbrev pub id_or : Option String → String → String
id_or none fresh = fresh
id_or (some id) fresh = id

-- the fields that mirror the delivery of a message
abbrev pub mirror : OutboxMessage → ScheduledReminder → ScheduledReminder
mirror m job = record job {
  delivery_status = m.dispatch_status;
  attempts = m.attempts;
  next_attempt_at = m.next_attempt_at;
  sending_at = m.sending_at;
  published_at = m.published_at;
  last_error = m.last_error;
  sent = not (same_status m.dispatch_status pending);
}

-- `message.event.subject != reminder_id`
abbrev pub is_subject : Option String → String → Bool
is_subject none reminder_id = false
is_subject (some subject) reminder_id = subject == reminder_id

abbrev pub is_job : Principal → String → Key → ScheduledReminder → Bool
is_job p reminder_id key job = key.0 == p.tenant_id && job.reminder_id == reminder_id

module _ (zone : String → Option String) where
  unfoldable pub schedule_before_event :
      String → Principal → Request → String → Option String → Exec SchedulerStore ScheduledReminder
  schedule_before_event uuid p r idempotency_key reminder_id = do
    require_trusted_principal p
    notify_at ← lift (notice_time r.starts_at r.minutes_before)
    job ← lift (
        validate_reminder zone
          (new_job p r notify_at idempotency_key (id_or reminder_id ("rem_" ++ uuid))))
    existing ← gets (λ s. get (p.tenant_id, idempotency_key) s.jobs)
    replay_or_schedule p idempotency_key job existing

  unfoldable pub mirror_delivery :
      Principal → String → OutboxMessage → Exec SchedulerStore ScheduledReminder
  mirror_delivery p reminder_id m = do
    require_trusted_principal p
    raise_if (not (m.tenant_id == p.tenant_id) || not (is_subject m.event.subject reminder_id))
        (assistant permission_denied)
    found ← gets (λ s. find (is_job p reminder_id) s.jobs)
    entry ← or_raise found (assistant not_found)
    updated ← lift (validate_reminder zone (mirror m entry.1))
    modify (write_job entry.0 updated)
    pure updated

abbrev pub mark : Instant → ScheduledReminder → ScheduledReminder
mark now job = record job { delivery_status = published; sent = true; published_at = some now }

unfoldable pub mark_sent : Instant → Principal → String → Exec SchedulerStore ScheduledReminder
mark_sent now p reminder_id = do
  require_trusted_principal p
  found ← gets (λ s. find (is_job p reminder_id) s.jobs)
  entry ← or_raise found (assistant not_found)
  modify (write_job entry.0 (mark now entry.1))
  pure (mark now entry.1)

-- `job.next_attempt_at is None or job.next_attempt_at <= now`
abbrev pub may_attempt : Option Instant → Instant → Bool
may_attempt none now = true
may_attempt (some t) now = leb t now

unfoldable pub is_due : Principal → Instant → ScheduledReminder → Bool
is_due p now job =
    job.tenant_id == p.tenant_id
    && same_status job.delivery_status pending
    && leb job.notify_at now
    && may_attempt job.next_attempt_at now

-- `key=lambda job: (job.notify_at, job.reminder_id)`
unfoldable pub comes_first : ScheduledReminder → ScheduledReminder → Bool
comes_first a b =
    ltb a.notify_at b.notify_at
    || (nat_eq a.notify_at b.notify_at && text_leb a.reminder_id b.reminder_id)

abbrev pub due_jobs : Principal → Instant → Dict Key ScheduledReminder → List ScheduledReminder
due_jobs p now jobs = sort_by comes_first (select (is_due p now) (map (λ e. e.1) jobs))

abbrev pub due_at : Principal → Datetime → Exec SchedulerStore (List ScheduledReminder)
due_at p (naive t) = raise value_error
due_at p (aware now) = gets (λ s. due_jobs p now s.jobs)

unfoldable pub due : Principal → Datetime → Exec SchedulerStore (List ScheduledReminder)
due p now = do require_trusted_principal p; due_at p now

unfoldable pub list_for_tenant : Principal → Exec SchedulerStore (List ScheduledReminder)
list_for_tenant p = do
  require_trusted_principal p
  gets (λ s. map (λ e. e.1) (select (λ e. e.0.0 == p.tenant_id) s.jobs))
