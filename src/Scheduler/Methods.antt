-- ===== src/Scheduler/Methods.antt =====
-- The methods of the scheduler, on every branch.
use text.Mathlib.TextEquality.{eq_iff}
use Prim.Native.String.{◌++◌}
use personal_assistant.Common.{
  ◌≡◌, refl, subst, inl, inr, Bool, true, not, ◌&&◌, ◌||◌, Option, some, String, arith, Bool-cases,
  Option-cases, text_eq, pair_eq, ◌==◌,
}
use personal_assistant.Common.Exec.{ok, assistant, permission_denied, conflict, not_found}
use personal_assistant.Common.Guards.{after-raise_if, after-lift, after-or_raise}
use personal_assistant.Common.Dict.{get, find, find-passes, find-get}
use personal_assistant.Common.Index.{Key, is_taken}
use personal_assistant.Common.Time.{Instant}
use personal_assistant.Permissions.{Principal, is_trusted}
use personal_assistant.Delivery.{pending, same_status}
use personal_assistant.Events.{OutboxMessage}
use personal_assistant.Scheduler.Reminder.{ScheduledReminder, validate_reminder}
use personal_assistant.Scheduler.{
  SchedulerStore, Request, notice_time, new_job, id_or, is_same_job, replay_or_schedule,
  schedule_before_event, mirror, is_subject, is_job, mirror_delivery, mark, mark_sent,
}
use personal_assistant.Scheduler.Steps.{
  IsValid, IsMirrored, IsSame, Step, same, scheduled, replaced,
}

module _ (zone : String → Option String) where
  -- The validator keeps all but the zone's spelling, and sets `sent`.
  pub validate_reminder-ok :
      (a : ScheduledReminder) {b : ScheduledReminder}
      → validate_reminder zone a ≡ ok b
      → IsSame a b × IsMirrored b
  unfolding validate_reminder
  validate_reminder-ok a {b} h = elim (Option-cases (zone a.timezone)) [
    | inl unknown ↦ absurd (ground arith)
    | inr (z, known) ↦
        let e : record a { timezone = z; sent = not (same_status a.delivery_status pending) } ≡ b =
          ground arith in
        subst (λ b. IsSame a b × IsMirrored b) e
          (
            record {
              reminder_id = refl;
              tenant_id = refl;
              idempotency_key = refl;
              calendar_event_id = refl;
              notify_at = refl;
              source_event_id = refl;
              payload_fingerprint = refl;
              channel = refl;
              recipient = refl;
              body = refl;
            },
            refl,
          )
  ]

  module _ (p : Principal) (s : SchedulerStore) where
    schedule_job-Step :
        (key : String) (job : ScheduledReminder)
        → job.tenant_id ≡ p.tenant_id
        → job.idempotency_key ≡ key
        → IsMirrored job
        → Step p.tenant_id s (replay_or_schedule p key job (get (p.tenant_id, key) s.jobs) s).1
    schedule_job-Step key job own own_key mirror =
        elim (Option-cases (get (p.tenant_id, key) s.jobs)) [
          | inr (existing, stored) ↦ rw stored (
              after-raise_if (Step p.tenant_id s) s same (not (is_same_job existing job))
                (assistant conflict) (λ s. (ok existing, s)) (λ e. same))
          | inl fresh ↦
              rw fresh
                (elim (Bool-cases
                  (is_taken (get (p.tenant_id, job.reminder_id) s.key_by_reminder_id) key)) [
                    | inl used ↦ rw used same
                    | inr free ↦ rw free (
                        rw⁻¹ own_key
                          (scheduled job own mirror (rw own_key fresh) (rw own_key free)))
                  ])
        ]

    pub schedule-Step :
        (uuid : String) (r : Request) (key : String) (id : Option String)
        → Step p.tenant_id s (schedule_before_event zone uuid p r key id s).1
    unfolding schedule_before_event
    schedule-Step uuid r key id = elim (Bool-cases (is_trusted p)) [
      | inr unknown ↦ rw unknown same
      | inl known ↦ rw known (
          after-lift (Step p.tenant_id s) s same (notice_time r.starts_at r.minutes_before) _
            (λ t e.
              after-lift (Step p.tenant_id s) s same
                (validate_reminder zone (new_job p r t key (id_or id ("rem_" ++ uuid)))) _
                (λ job f.
                  let (k, m) =
                    validate_reminder-ok (new_job p r t key (id_or id ("rem_" ++ uuid))) {b = job}
                      f in
                  schedule_job-Step key job k.tenant_id k.idempotency_key m)))
    ]

    -- the entry that a loop over the jobs stops at
    job_found :
        (reminder_id : String) {e : Key × ScheduledReminder}
        → IsValid s
        → find (is_job p reminder_id) s.jobs ≡ some e
        → (e.0.0 ≡ p.tenant_id) × (get e.0 s.jobs ≡ some e.1)
    job_found reminder_id {e} v found = (
      (eq_iff e.0.0 p.tenant_id).0 (
          both (e.0.0 == p.tenant_id) (e.1.reminder_id == reminder_id)
            (find-passes (is_job p reminder_id) s.jobs {e = e} found)),
      find-get (is_job p reminder_id) s.jobs {k = e.0} {v = e.1} v.keys found,
    )
      where
        both : (a b : Bool) → (a && b) ≡ true → a ≡ true
        both a b h = ground arith

    pub mirror-Step :
        (reminder_id : String) (m : OutboxMessage)
        → IsValid s
        → Step p.tenant_id s (mirror_delivery zone p reminder_id m s).1
    unfolding mirror_delivery
    mirror-Step reminder_id m v = elim (Bool-cases (is_trusted p)) [
      | inr unknown ↦ rw unknown same
      | inl known ↦ rw known (
          after-raise_if (Step p.tenant_id s) s same
            (not (m.tenant_id == p.tenant_id) || not (is_subject m.event.subject reminder_id))
            (assistant permission_denied) _
            (λ ours.
              after-or_raise (Step p.tenant_id s) s same (find (is_job p reminder_id) s.jobs)
                (assistant not_found) _
                (λ entry found.
                  after-lift (Step p.tenant_id s) s same (validate_reminder zone (mirror m entry.1))
                    _
                    (λ b fits.
                      let (own, stored) = job_found reminder_id {e = entry} v found in
                      let (k, sent) = validate_reminder-ok (mirror m entry.1) {b = b} fits in
                      replaced entry.0 entry.1 b own stored (mirrored_same entry.1 k) sent))))
    ]
      where
        mirrored_same :
            (a : ScheduledReminder) {b : ScheduledReminder} → IsSame (mirror m a) b → IsSame a b
        mirrored_same a k = record {
          reminder_id = k.reminder_id;
          tenant_id = k.tenant_id;
          idempotency_key = k.idempotency_key;
          calendar_event_id = k.calendar_event_id;
          notify_at = k.notify_at;
          source_event_id = k.source_event_id;
          payload_fingerprint = k.payload_fingerprint;
          channel = k.channel;
          recipient = k.recipient;
          body = k.body;
        }

    pub mark_sent-Step :
        (now : Instant) (reminder_id : String)
        → IsValid s
        → Step p.tenant_id s (mark_sent now p reminder_id s).1
    unfolding mark_sent
    mark_sent-Step now reminder_id v = elim (Bool-cases (is_trusted p)) [
      | inr unknown ↦ rw unknown same
      | inl known ↦ rw known (
          after-or_raise (Step p.tenant_id s) s same (find (is_job p reminder_id) s.jobs)
            (assistant not_found) _
            (λ entry found.
              let (own, stored) = job_found reminder_id {e = entry} v found in
              replaced entry.0 entry.1 (mark now entry.1) own stored (marked_same entry.1) refl))
    ]
      where
        marked_same : (a : ScheduledReminder) → IsSame a (mark now a)
        marked_same a = record {
          reminder_id = refl;
          tenant_id = refl;
          idempotency_key = refl;
          calendar_event_id = refl;
          notify_at = refl;
          source_event_id = refl;
          payload_fingerprint = refl;
          channel = refl;
          recipient = refl;
          body = refl;
        }
