-- ===== src/Scheduler/Tests.antt =====
-- The scheduler on concrete reminders.
use mathlib.Core.List.{Perm}
use personal_assistant.Common.{
  ◌≡◌, refl, ◌↔◌, Bool, true, false, Option, none, some, List, [], ◌∷◌, select, String, text_eq,
  pair_eq,
}
use personal_assistant.Common.Dict.{get, put}
use personal_assistant.Common.Exec.{ok}
use personal_assistant.Common.Text.{count_chars, all_chars}
use personal_assistant.Common.Time.{aware, sub_minutes}
use personal_assistant.Permissions.{Principal}
use personal_assistant.Permissions.Sample.{member}
use personal_assistant.Delivery.{pending}
use personal_assistant.Scheduler
use personal_assistant.Scheduler.{SchedulerStore, Request, empty, due, is_due, comes_first}
use personal_assistant.Scheduler.Reminder.{ScheduledReminder, validate_reminder, is_fingerprint}
use personal_assistant.Scheduler.Steps.{IsValid, IsSame, empty-IsValid, scheduled, Step-IsValid}
use personal_assistant.Scheduler.Calls
use personal_assistant.Scheduler.Calls.{Call, run, scheduler-IsValid, reminder_kept}
use personal_assistant.Scheduler.Due.{IsDue, InOrder, due_exact}
use personal_assistant.Scheduler.Replay.{schedule_again}

abbrev print : String
print = "0123456789abcdef0123456789abcdef0123456789abcdef0123456789abcdef"

abbrev zone : String → Option String
zone name = some name

abbrev request : Request
request = record {
  calendar_event_id = "cal_1";
  starts_at = aware 3_000_000_000;
  channel = "telegram";
  recipient = "r1";
  body = "call mum";
  timezone = "UTC";
  source_event_id = "e1";
  payload_fingerprint = print;
  minutes_before = 30;
}

abbrev planned : ScheduledReminder
planned = record {
  reminder_id = "rem_1";
  tenant_id = "t1";
  calendar_event_id = "cal_1";
  notify_at = 1_200_000_000;
  timezone = "UTC";
  source_event_id = "e1";
  payload_fingerprint = print;
  channel = "telegram";
  recipient = "r1";
  body = "call mum";
  idempotency_key = "k1";
  delivery_status = pending;
  attempts = 0;
  next_attempt_at = none;
  sending_at = none;
  published_at = none;
  last_error = none;
  sent = false;
}

abbrev one : SchedulerStore
one = record {
  jobs = (("t1", "k1"), planned) ∷ [];
  key_by_reminder_id = (("t1", "rem_1"), "k1") ∷ [];
}

one-IsValid : IsValid one
unfolding get put
one-IsValid =
    Step-IsValid "t1" {s = empty} {s' = one} (scheduled planned refl refl refl refl) empty-IsValid

abbrev history : List (Principal × Call)
history =
    (member "t1", Calls.schedule_before_event "1" request "k1" none)
    ∷ (member "t2", Calls.mark_sent 8 "rem_1")
    ∷ (member "t1", Calls.mark_sent 9 "rem_1")
    ∷ []

abbrev foreign : List (Principal × Call)
foreign = (member "t2", Calls.mark_sent 8 "rem_1") ∷ []

scheduler-IsValid_example : IsValid (run zone history empty)
scheduler-IsValid_example = scheduler-IsValid zone history

reminder_kept_example :
    (b : ScheduledReminder) × (get ("t1", "k1") (run zone history one).jobs ≡ some b)
    × IsSame planned b
unfolding get
reminder_kept_example = reminder_kept zone history one ("t1", "k1") planned one-IsValid refl

due_exact_example :
    (jobs : List ScheduledReminder) × (due (member "t1") (aware 1_200_000_000) one ≡ (ok jobs, one))
    × (keep : ScheduledReminder → Bool) × ((job : ScheduledReminder)
        → (keep job ≡ true) ↔ IsDue (member "t1") 1_200_000_000 job)
    × Perm jobs (select keep (planned ∷ []))
    × InOrder jobs
due_exact_example = due_exact (member "t1") 1_200_000_000 one refl

scheduled_once :
    Scheduler.schedule_before_event zone "1" (member "t1") request "k1" none empty
    ≡ (ok planned, one)
unfolding Scheduler.schedule_before_event sub_minutes validate_reminder is_fingerprint count_chars
    all_chars get put
scheduled_once = refl

schedule_again_example :
    Scheduler.schedule_before_event zone "2" (member "t1") request "k1" (some "other") one
    ≡ (ok planned, one)
unfolding Scheduler.schedule_before_event sub_minutes validate_reminder is_fingerprint count_chars
    all_chars get put
schedule_again_example =
    schedule_again zone (member "t1") request "k1" "1" "2" none (some "other") empty {j = planned}
      refl
