-- ===== src/Scheduler/Calls.antt =====
-- Histories of calls of the scheduler.
use personal_assistant.Common.{
  ◌≡◌, refl, ◌∙◌, ◌≢◌, Option, some, List, [], ◌∷◌, String, All, text_eq, pair_eq,
}
use personal_assistant.Common.Dict.{get}
use personal_assistant.Common.Index.{Key}
use personal_assistant.Common.Time.{Instant}
use personal_assistant.Permissions.{Principal}
use personal_assistant.Events.{OutboxMessage}
use personal_assistant.Scheduler
use personal_assistant.Scheduler.{SchedulerStore, Request, empty}
use personal_assistant.Scheduler.Reminder.{ScheduledReminder}
use personal_assistant.Scheduler.Steps.{
  IsValid, empty-IsValid, IsSame, IsSame-refl, IsSame-trans, Step, Step-IsValid, Step-kept,
  Step-elsewhere,
}
use personal_assistant.Scheduler.Methods.{schedule-Step, mirror-Step, mark_sent-Step}

-- A call that writes the scheduler, with what it reads of the clock and of `uuid4`.
pub data Call : Type 0 where
  schedule_before_event : String → Request → String → Option String → Call
  mirror_delivery : String → OutboxMessage → Call
  mark_sent : Instant → String → Call

module _ (zone : String → Option String) where
  -- the scheduler that a call leaves, whether it returned or raised
  unfoldable pub perform : Principal → Call → SchedulerStore → SchedulerStore
  perform p (schedule_before_event uuid r key id) s =
      (Scheduler.schedule_before_event zone uuid p r key id s).1
  perform p (mirror_delivery id m) s = (Scheduler.mirror_delivery zone p id m s).1
  perform p (mark_sent now id) s = (Scheduler.mark_sent now p id s).1

  unfoldable pub run : List (Principal × Call) → SchedulerStore → SchedulerStore
  run [] s = s
  run ((p, c) ∷ cs) s = run cs (perform p c s)

  pub perform-Step :
      (p : Principal) (c : Call) (s : SchedulerStore)
      → IsValid s
      → Step p.tenant_id s (perform p c s)
  unfolding perform
  perform-Step p (schedule_before_event uuid r key id) s v = schedule-Step zone p s uuid r key id
  perform-Step p (mirror_delivery id m) s v = mirror-Step zone p s id m v
  perform-Step p (mark_sent now id) s v = mark_sent-Step zone p s now id v

  run-IsValid : (cs : List (Principal × Call)) (s : SchedulerStore) → IsValid s → IsValid (run cs s)
  unfolding run
  run-IsValid [] s v = v
  run-IsValid ((p, c) ∷ cs) s v =
      run-IsValid cs (perform p c s) (Step-IsValid p.tenant_id (perform-Step p c s v) v)

  -- Whatever calls any principals make on an empty scheduler, no key is stored twice, every job
  -- stands under its tenant and idempotency key, the index of reminder ids finds that key, and a
  -- job is marked as sent exactly if its delivery status is not pending.
  pub scheduler-IsValid : (cs : List (Principal × Call)) → IsValid (run cs empty)
  scheduler-IsValid cs = run-IsValid cs empty empty-IsValid

  -- No call loses a job of a valid scheduler or changes its ids, its notice time, its fingerprint,
  -- its channel, its recipient or its body.
  pub reminder_kept :
      (cs : List (Principal × Call)) (s : SchedulerStore) (k : Key) (a : ScheduledReminder)
      → IsValid s
      → get k s.jobs ≡ some a
      → (b : ScheduledReminder) × (get k (run cs s).jobs ≡ some b) × IsSame a b
  unfolding run
  reminder_kept [] s k a v h = (a, h, IsSame-refl a)
  reminder_kept ((p, c) ∷ cs) s k a v h =
      let step = perform-Step p c s v in
      let (b, g, e) = Step-kept p.tenant_id k a step h in
      let (b', g', e') = reminder_kept cs (perform p c s) k b (Step-IsValid p.tenant_id step v) g in
      (b', g', IsSame-trans e e')

  -- Calls by principals of other tenants leave a tenant's jobs as they were.
  reminder_tenants :
      (cs : List (Principal × Call)) (s : SchedulerStore) (k : Key)
      → IsValid s
      → All (λ c. k.0 ≢ c.0.tenant_id) cs
      → get k (run cs s).jobs ≡ get k s.jobs
  unfolding run
  reminder_tenants [] s k v others = refl
  reminder_tenants ((p, c) ∷ cs) s k v others =
      let step = perform-Step p c s v in
      reminder_tenants cs (perform p c s) k (Step-IsValid p.tenant_id step v) others.1
      ∙ Step-elsewhere p.tenant_id k step others.0
