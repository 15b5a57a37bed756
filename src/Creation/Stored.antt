-- ===== src/Creation/Stored.antt =====
-- What a write that returns has stored, in each of the five stores.
use Prim.Native.String.{◌++◌}
use personal_assistant.Common.{
  ◌≡◌, refl, ◌∙◌, ap, inl, inr, true, not, ◌||◌, Option, none, some, String, Bool-cases,
  Option-cases, ◌==◌, text_eq, pair_eq,
}
use personal_assistant.Common.Exec.{ok, Result-cases, ok_inj, err-ne-ok}
use personal_assistant.Common.Dict.{get, get-put_self}
use personal_assistant.Common.Index.{is_taken}
use personal_assistant.Common.Time.{Instant}
use personal_assistant.Permissions.{Principal, ApprovalGrant, is_trusted}
use personal_assistant.Permissions.Tiers.{p3}
use personal_assistant.Permissions.Approval.{require_approval}
use personal_assistant.Events.{CloudEvent}
use personal_assistant.EventStore.{EventStore, replay_or_append, append}
use personal_assistant.Calendar.{
  Calendar, CalendarEventRequest, CalendarEventResult, event_id_or, new_result, reuse_or_create,
  create_event,
}
use personal_assistant.Scheduler.{
  SchedulerStore, Request, notice_time, new_job, id_or, is_same_job, replay_or_schedule,
  schedule_before_event,
}
use personal_assistant.Scheduler.Reminder.{ScheduledReminder, validate_reminder}
use personal_assistant.Workflows.{
  WorkflowState, WorkflowStateStore, same_text, is_frozen, check_existing, upsert,
}

module _ (p : Principal) where
  module _ (fingerprint : CloudEvent → String) (event : CloudEvent) (s : EventStore)
      {e : CloudEvent} where
    replay-stored :
        (o : Option CloudEvent)
        → get (p.tenant_id, event.id) s.events ≡ o
        → (replay_or_append (p.tenant_id, event.id) event (fingerprint event) o s).0 ≡ ok e
        → get
            (p.tenant_id, event.id)
            (replay_or_append (p.tenant_id, event.id) event (fingerprint event) o s).1.events
          ≡ some e
    replay-stored none there h =
        get-put_self (p.tenant_id, event.id) event s.events ∙ ap some (ok_inj event e h)
    replay-stored (some old) there h =
        elim (Option-cases (get (p.tenant_id, event.id) s.fingerprints)) [
          | inl missing ↦ absurd (err-ne-ok (rw missing at h))
          | inr (print, found) ↦ elim (Bool-cases (print == fingerprint event)) [
            | inr differs ↦ absurd (err-ne-ok (rw (found, differs) at h))
            | inl same ↦ rw (found, same) (there ∙ ap some (ok_inj old e (rw (found, same) at h)))
          ]
        ]

    pub append-stored :
        (append fingerprint p event s).0 ≡ ok e
        → get (p.tenant_id, event.id) (append fingerprint p event s).1.events ≡ some e
    unfolding append
    append-stored h = elim (Bool-cases (is_trusted p)) [
      | inr unknown ↦ absurd (err-ne-ok (rw unknown at h))
      | inl known ↦ elim (Bool-cases (event.tenant_id == p.tenant_id)) [
        | inr other ↦ absurd (err-ne-ok (rw (known, other) at h))
        | inl own ↦
            rw (known, own)
              (replay-stored (get (p.tenant_id, event.id) s.events) refl (rw (known, own) at h))
      ]
    ]

  module _ (fingerprint : WorkflowState → String) (w : WorkflowState) (s : WorkflowStateStore) where
    check_existing_state : (o : Option WorkflowState) → (check_existing fingerprint w o s).1 ≡ s
    check_existing_state none = refl
    check_existing_state (some old) =
        elim (Bool-cases
          (not (old.workflow_id == w.workflow_id) || not (old.workflow_type == w.workflow_type))) [
            | inl changed ↦ rw changed refl
            | inr same ↦
                elim (Bool-cases (same_text old.payload_fingerprint w.payload_fingerprint)) [
                  | inr differs ↦ rw (same, differs) refl
                  | inl equal ↦ elim (Bool-cases (is_frozen fingerprint old w)) [
                    | inl frozen ↦ rw (same, equal, frozen) refl
                    | inr thawed ↦ rw (same, equal, thawed) refl
                  ]
                ]
          ]

    -- The state that is written is found under its key.
    pub upsert-stored :
        {x : WorkflowState}
        → (upsert fingerprint p w s).0 ≡ ok x
        → get (p.tenant_id, w.idempotency_key) (upsert fingerprint p w s).1.states ≡ some w
    unfolding upsert
    upsert-stored {x} h = elim (Bool-cases (is_trusted p)) [
      | inr unknown ↦ absurd (err-ne-ok (rw unknown at h))
      | inl known ↦ elim (Bool-cases (w.tenant_id == p.tenant_id)) [
        | inr other ↦ absurd (err-ne-ok (rw (known, other) at h))
        | inl own ↦
            elim (Bool-cases (
              is_taken (get (p.tenant_id, w.workflow_id) s.key_by_workflow_id) w.idempotency_key)) [
                | inl used ↦ absurd (err-ne-ok (rw (known, own, used) at h))
                | inr free ↦
                    elim (Result-cases
                      (check_existing fingerprint w (get (p.tenant_id, w.idempotency_key) s.states)
                        s).0) [
                          | inl (e, refused) ↦
                              absurd (err-ne-ok (rw (known, own, free, refused) at h))
                          | inr (u, passed) ↦
                              rw
                                (
                                  known,
                                  own,
                                  free,
                                  passed,
                                  check_existing_state
                                      (get (p.tenant_id, w.idempotency_key) s.states),
                                )
                                (get-put_self (p.tenant_id, w.idempotency_key) w s.states)
                        ]
              ]
      ]
    ]

  module _ (key : String) (job : ScheduledReminder) (s : SchedulerStore) where
    replay_job-stored :
        (o : Option ScheduledReminder) {x : ScheduledReminder}
        → get (p.tenant_id, key) s.jobs ≡ o
        → (replay_or_schedule p key job o s).0 ≡ ok x
        → get (p.tenant_id, key) (replay_or_schedule p key job o s).1.jobs ≡ some x
    replay_job-stored none {x} there h =
        elim (Bool-cases (is_taken (get (p.tenant_id, job.reminder_id) s.key_by_reminder_id) key)) [
          | inl used ↦ absurd (err-ne-ok (rw used at h))
          | inr free ↦
              rw free
                (get-put_self (p.tenant_id, key) job s.jobs ∙ ap some (ok_inj job x (rw free at h)))
        ]
    replay_job-stored (some old) {x} there h = elim (Bool-cases (is_same_job old job)) [
      | inr differs ↦ absurd (err-ne-ok (rw differs at h))
      | inl same ↦ rw same (there ∙ ap some (ok_inj old x (rw same at h)))
    ]

  pub schedule-stored :
      (zone : String → Option String) (uuid : String) (r : Request) (key : String)
      (id : Option String) (s : SchedulerStore) {job : ScheduledReminder}
      → (schedule_before_event zone uuid p r key id s).0 ≡ ok job
      → get (p.tenant_id, key) (schedule_before_event zone uuid p r key id s).1.jobs ≡ some job
  unfolding schedule_before_event
  schedule-stored zone uuid r key id s {job} h = elim (Bool-cases (is_trusted p)) [
    | inr unknown ↦ absurd (err-ne-ok (rw unknown at h))
    | inl known ↦ elim (Result-cases (notice_time r.starts_at r.minutes_before)) [
      | inl (x, early) ↦ absurd (err-ne-ok (rw (known, early) at h))
      | inr (t, time) ↦
          elim (Result-cases
            (validate_reminder zone (new_job p r t key (id_or id ("rem_" ++ uuid))))) [
              | inl (x, refused) ↦ absurd (err-ne-ok (rw (known, time, refused) at h))
              | inr (j, valid) ↦
                  rw (known, time, valid)
                    (replay_job-stored key j s (get (p.tenant_id, key) s.jobs) {x = job} refl
                      (rw (known, time, valid) at h))
            ]
    ]
  ]

  module _ (zone : String → Option String) (r : CalendarEventRequest) (print id : String)
      (s : Calendar) where
    -- a stored event answers with its own id
    abbrev Holds : Calendar → CalendarEventResult → Type 0
    Holds s' x =
        (c : CalendarEventResult) × (get (p.tenant_id, r.idempotency_key) s'.events ≡ some c)
        × (c.event_id ≡ x.event_id)

    reuse-stored :
        (o : Option CalendarEventResult) {x : CalendarEventResult}
        → get (p.tenant_id, r.idempotency_key) s.events ≡ o
        → (reuse_or_create zone p r print id o s).0 ≡ ok x
        → Holds (reuse_or_create zone p r print id o s).1 x
    reuse-stored none {x} there h =
        elim (Bool-cases (is_taken (get (p.tenant_id, id) s.key_by_event_id) r.idempotency_key)) [
          | inl used ↦ absurd (err-ne-ok (rw used at h))
          | inr free ↦ elim (Option-cases (zone r.timezone)) [
            | inl unknown ↦ absurd (err-ne-ok (rw (free, unknown) at h))
            | inr (key, zoned) ↦
                rw (free, zoned)
                  (
                    new_result r id key,
                    get-put_self (p.tenant_id, r.idempotency_key) (new_result r id key) s.events,
                    ap (λ (c : CalendarEventResult). c.event_id)
                        (ok_inj (new_result r id key) x (rw (free, zoned) at h)),
                  )
          ]
        ]
    reuse-stored (some old) {x} there h =
        elim (Option-cases (get (p.tenant_id, r.idempotency_key) s.fingerprints)) [
          | inl missing ↦ absurd (err-ne-ok (rw missing at h))
          | inr (stored, found) ↦ elim (Bool-cases (stored == print)) [
            | inr differs ↦ absurd (err-ne-ok (rw (found, differs) at h))
            | inl same ↦
                rw (found, same)
                  (
                    old,
                    there,
                    ap (λ (c : CalendarEventResult). c.event_id)
                        (ok_inj (record old { reused = true }) x (rw (found, same) at h)),
                  )
          ]
        ]

  pub create_event-stored :
      (zone : String → Option String) (fingerprint : CalendarEventRequest → String) (uuid : String)
      (now : Instant) (r : CalendarEventRequest) (approval : Option ApprovalGrant) (s : Calendar)
      {x : CalendarEventResult}
      → (create_event zone fingerprint uuid now p r approval s).0 ≡ ok x
      → (c : CalendarEventResult) × (get
            (p.tenant_id, r.idempotency_key)
            (create_event zone fingerprint uuid now p r approval s).1.events
          ≡ some c)
        × (c.event_id ≡ x.event_id)
  unfolding create_event
  create_event-stored zone fingerprint uuid now r approval s {x} h =
      elim (Result-cases
        (require_approval p p3 approval "calendar.create_event" r.idempotency_key none now)) [
          | inl (e, refused) ↦ absurd (err-ne-ok (rw refused at h))
          | inr (d, passed) ↦ rw passed (
              reuse-stored zone r (fingerprint (record r { event_id = none }))
                (event_id_or r.event_id ("cal_" ++ uuid)) s
                (get (p.tenant_id, r.idempotency_key) s.events) {x = x} refl (rw passed at h))
        ]
