-- ===== src/Scheduler/Replay.antt =====
-- `schedule_before_event` is idempotent.
use text.Mathlib.TextEquality.{eq_iff}
use Prim.Native.String.{◌++◌}
use personal_assistant.Common.{
  ◌≡◌, refl, inl, inr, true, Option, String, arith, Bool-cases, Option-cases, text_eq, pair_eq,
  nat_eq_iff,
}
use personal_assistant.Common.Exec.{Result, ok, err-ne-ok, Result-cases}
use personal_assistant.Common.Dict.{get, get-put_self}
use personal_assistant.Common.Index.{is_taken}
use personal_assistant.Common.Time.{Instant}
use personal_assistant.Permissions.{Principal, is_trusted}
use personal_assistant.Scheduler.Reminder.{ScheduledReminder, validate_reminder}
use personal_assistant.Scheduler.{
  SchedulerStore, Request, notice_time, new_job, id_or, is_same_job, store_job, replay_or_schedule,
  schedule_before_event,
}

is_same_job_self : (job : ScheduledReminder) → is_same_job job job ≡ true
is_same_job_self job =
    rw
      (
        (eq_iff job.calendar_event_id job.calendar_event_id).1 refl,
        (nat_eq_iff job.notify_at job.notify_at).1 refl,
        (eq_iff job.timezone job.timezone).1 refl,
        (eq_iff job.source_event_id job.source_event_id).1 refl,
        (eq_iff job.payload_fingerprint job.payload_fingerprint).1 refl,
        (eq_iff job.channel job.channel).1 refl,
        (eq_iff job.recipient job.recipient).1 refl,
        (eq_iff job.body job.body).1 refl,
      )
      refl

module _ (p : Principal) (key : String) (s : SchedulerStore) where
  -- The second time the job is found, whatever its id is.
  replay_again :
      (job j : ScheduledReminder) (id : String)
      → (replay_or_schedule p key job (get (p.tenant_id, key) s.jobs) s).0 ≡ ok j
      → let s' = (replay_or_schedule p key job (get (p.tenant_id, key) s.jobs) s).1 in
        replay_or_schedule p key
          (record job { reminder_id = id })
          (get (p.tenant_id, key) s'.jobs)
          s'
        ≡ (ok j, s')
  replay_again job j id h = elim (Option-cases (get (p.tenant_id, key) s.jobs)) [
    | inr (existing, stored) ↦ elim (Bool-cases (is_same_job existing job)) [
      | inl equal ↦
          let e : ◌≡◌ {A = Result ScheduledReminder} (ok existing) (ok j) =
            rw (stored, equal) at h in
          rw (stored, equal, stored, equal) (λ i. (e i, s))
      | inr differs ↦ absurd (err-ne-ok (rw (stored, differs) at h))
    ]
    | inl fresh ↦
        elim (Bool-cases (is_taken (get (p.tenant_id, job.reminder_id) s.key_by_reminder_id) key)) [
          | inl used ↦ absurd (err-ne-ok (rw (fresh, used) at h))
          | inr free ↦
              let e : ◌≡◌ {A = Result ScheduledReminder} (ok job) (ok j) = rw (fresh, free) at h in
              rw (fresh, free, get-put_self (p.tenant_id, key) job s.jobs, is_same_job_self job)
                (λ i. (e i, store_job p.tenant_id key job s))
        ]
  ]

module _ (zone : String → Option String) (p : Principal) (r : Request) (key : String) where
  -- Only the id of the validated job depends on the id that is passed.
  validated_again :
      (t : Instant) (id other : String) {job : ScheduledReminder}
      → validate_reminder zone (new_job p r t key id) ≡ ok job
      → validate_reminder zone (new_job p r t key other) ≡ ok (record job { reminder_id = other })
  unfolding validate_reminder
  validated_again t id other {job} h = elim (Option-cases (zone r.timezone)) [
    | inl unknown ↦ absurd (ground arith)
    | inr (z, known) ↦ ground arith
  ]

  -- A call that returns a job returns the same job again, and changes nothing, when it is made
  -- once more, whatever reminder id is passed then and whatever `uuid4` gives.
  pub schedule_again :
      (uuid uuid' : String) (id id' : Option String) (s : SchedulerStore) {j : ScheduledReminder}
      → (schedule_before_event zone uuid p r key id s).0 ≡ ok j
      → let s' = (schedule_before_event zone uuid p r key id s).1 in
        schedule_before_event zone uuid' p r key id' s' ≡ (ok j, s')
  unfolding schedule_before_event
  schedule_again uuid uuid' id id' s {j} h = elim (Bool-cases (is_trusted p)) [
    | inr unknown ↦ absurd (err-ne-ok (rw unknown at h))
    | inl known ↦ elim (Result-cases (notice_time r.starts_at r.minutes_before)) [
      | inl (x, early) ↦ absurd (err-ne-ok (rw (known, early) at h))
      | inr (t, timed) ↦
          elim (Result-cases
            (validate_reminder zone (new_job p r t key (id_or id ("rem_" ++ uuid))))) [
              | inl (x, misfit) ↦ absurd (err-ne-ok (rw (known, timed, misfit) at h))
              | inr (job, fits) ↦
                  rw
                    (
                      known,
                      timed,
                      fits,
                      validated_again t (id_or id ("rem_" ++ uuid)) (id_or id' ("rem_" ++ uuid'))
                          {job = job} fits,
                    )
                    (replay_again p key s job j (id_or id' ("rem_" ++ uuid'))
                      (rw (known, timed, fits) at h))
            ]
    ]
  ]
