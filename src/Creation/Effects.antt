-- ===== src/Creation/Effects.antt =====
-- The effects of an approved run.
use Prim.Native.String.{◌++◌}
use personal_assistant.Common.{◌≡◌, refl, sym, subst, ◌∙◌, ap, some, String, text_eq, pair_eq}
use personal_assistant.Common.Exec.{Exec, ok, bind-ok, lift}
use personal_assistant.Common.Dict.{get, get-put}
use personal_assistant.Common.Time.{aware}
use personal_assistant.Permissions.{Principal}
use personal_assistant.Events.{CloudEvent, OutboxMessage, text}
use personal_assistant.Calendar.{Calendar, CalendarEventResult, create_event}
use personal_assistant.Scheduler.{SchedulerStore, schedule_before_event}
use personal_assistant.Scheduler.Reminder.{ScheduledReminder}
use personal_assistant.EventStore.{EventStore, append}
use personal_assistant.Outbox.{Outbox, add}
use personal_assistant.Workflows.{
  completed, WorkflowState, WorkflowStateStore, update, transition, upsert,
}
use personal_assistant.UnitOfWork.{
  Stores, enter, on_calendar, on_scheduler, on_events, on_outbox, on_states,
}
use personal_assistant.Reminders.{ReminderExtraction}
use personal_assistant.Creation.{ReminderWorkflowInput, Environment, ReminderIdempotency}
use personal_assistant.Creation.Answers.{guarded}
use personal_assistant.Creation.Writes.{
  Outcome, calendar_request, notice_request, created_event, requested_event, completed_state,
  create_all,
}
use personal_assistant.Creation.Stored.{
  append-stored, upsert-stored, schedule-stored, create_event-stored,
}
use personal_assistant.Creation.StoredMessage.{add-stored}

-- All effects of one reminder are there, and its workflow is completed and names them.
pub record Complete (tenant : String) (id : ReminderIdempotency) (s : Stores) : Type 0 where
  pub event : CalendarEventResult
  pub event_stored : get (tenant, id.key ++ ":calendar") s.calendar.events ≡ some event
  pub job : ScheduledReminder
  pub job_stored : get (tenant, id.key ++ ":notify") s.scheduler.jobs ≡ some job
  pub creation : CloudEvent
  pub creation_stored :
      get (tenant, id.effect_ids.reminder_created_event_id) s.events.events ≡ some creation
  pub message : OutboxMessage
  pub message_stored : get (tenant, id.key ++ ":outbox") s.outbox.messages ≡ some message
  pub state : WorkflowState
  pub state_stored : get (tenant, id.key) s.states.states ≡ some state
  pub state_completed : state.status ≡ completed
  pub names_event : get "calendar_event_id" state.content ≡ some (text event.event_id)
  pub names_job : get "reminder_id" state.content ≡ some (text job.reminder_id)

module _ (env : Environment) (p : Principal) (r : ReminderWorkflowInput) (id : ReminderIdempotency)
    (w : WorkflowState) (e : ReminderExtraction) where
  names :
      (c : CalendarEventResult) (job : ScheduledReminder)
      → let d = (completed_state env p r id e c job w).content in
        (get "calendar_event_id" d ≡ some (text c.event_id))
        × (get "reminder_id" d ≡ some (text job.reminder_id))
  unfolding transition update
  names c job = (simp get-put, simp get-put)

  completed_state_fields :
      (c : CalendarEventResult) (job : ScheduledReminder)
      → w.idempotency_key ≡ id.key
      → ((completed_state env p r id e c job w).idempotency_key ≡ id.key)
        × ((completed_state env p r id e c job w).status ≡ completed)
  unfolding transition
  completed_state_fields c job own = (own, refl)

  -- the writes, in their order
  abbrev pub make : Exec Calendar CalendarEventResult
  make =
      create_event env.zone env.print_request env.uuid (env.moment 1) p
        (calendar_request env p r id e) r.approval

  abbrev pub plan : CalendarEventResult → String → Exec SchedulerStore ScheduledReminder
  plan c body =
      schedule_before_event env.zone env.uuid p (notice_request env p r id e c body)
        (id.key ++ ":notify") (some id.effect_ids.reminder_id)

  abbrev pub record_event : CalendarEventResult → ScheduledReminder → Exec EventStore CloudEvent
  record_event c job = append env.print_event p (created_event env p r id e c job)

  abbrev pub send : CalendarEventResult → ScheduledReminder → Exec Outbox OutboxMessage
  send c job =
      add env.print_write env.uuid env.clock p (requested_event env p r id e c job)
        (id.key ++ ":outbox") (some (aware job.notify_at)) (some id.effect_ids.outbox_message_id)

  abbrev pub finish :
      CalendarEventResult → ScheduledReminder → Exec WorkflowStateStore WorkflowState
  finish c job = upsert env.print_state p (completed_state env p r id e c job w)

  writes-Complete :
      (s : Stores) (c : CalendarEventResult) (body : String) (job : ScheduledReminder)
      (ev : CloudEvent) (m : OutboxMessage) (saved : WorkflowState)
      → w.idempotency_key ≡ id.key
      → (make s.calendar).0 ≡ ok c
      → guarded env p r id (env.replies.reminder_notification_body e.title) ≡ ok body
      → (plan c body s.scheduler).0 ≡ ok job
      → (record_event c job s.events).0 ≡ ok ev
      → (send c job s.outbox).0 ≡ ok m
      → (finish c job s.states).0 ≡ ok saved
      → Complete p.tenant_id id (create_all env p r id w e (enter s)).1.stores
  unfolding create_all
  writes-Complete s c body job ev m saved own c_made said planned appended added written =
      let (c', c_stored, same) =
        create_event-stored p env.zone env.print_request env.uuid (env.moment 1)
          (calendar_request env p r id e) r.approval s.calendar {x = c} c_made in
      rw (c_made, said, planned, appended, added, written)
        (record {
          event = c';
          event_stored = c_stored;
          job = job;
          job_stored =
              schedule-stored p env.zone env.uuid (notice_request env p r id e c body)
                (id.key ++ ":notify") (some id.effect_ids.reminder_id) s.scheduler {job = job}
                planned;
          creation = ev;
          creation_stored =
              append-stored p env.print_event (created_event env p r id e c job) s.events {e = ev}
                appended;
          message = m;
          message_stored =
              add-stored p (requested_event env p r id e c job) (id.key ++ ":outbox") s.outbox
                env.print_write env.uuid env.clock (some (aware job.notify_at))
                (some id.effect_ids.outbox_message_id) {m = m} added;
          state = completed_state env p r id e c job w;
          state_stored =
              subst
                (λ k.
                  get (p.tenant_id, k) (finish c job s.states).1.states
                  ≡ some (completed_state env p r id e c job w))
                (completed_state_fields c job own).0
                (upsert-stored p env.print_state (completed_state env p r id e c job w) s.states
                  {x = saved} written);
          state_completed = (completed_state_fields c job own).1;
          names_event = (names c job).0 ∙ ap (λ i. some (text i)) (sym same);
          names_job = (names c job).1;
        })

  -- Where the writes of an approved run have returned, all effects are there.
  pub create_all-Complete :
      (s : Stores) {o : Outcome}
      → w.idempotency_key ≡ id.key
      → (create_all env p r id w e (enter s)).0 ≡ ok o
      → Complete p.tenant_id id (create_all env p r id w e (enter s)).1.stores
  unfolding create_all
  create_all-Complete s {o} own h =
      let t = enter s in
      let (c, c_made, h1) = bind-ok (on_calendar make) _ t {b = o} h in
      let t1 = (on_calendar make t).1 in
      let (body, said, h2) =
        bind-ok (lift (guarded env p r id (env.replies.reminder_notification_body e.title))) _ t1
          {b = o} h1 in
      let (job, planned, h3) = bind-ok (on_scheduler (plan c body)) _ t1 {b = o} h2 in
      let t2 = (on_scheduler (plan c body) t1).1 in
      let (ev, appended, h4) = bind-ok (on_events (record_event c job)) _ t2 {b = o} h3 in
      let t3 = (on_events (record_event c job) t2).1 in
      let (m, added, h5) = bind-ok (on_outbox (send c job)) _ t3 {b = o} h4 in
      let t4 = (on_outbox (send c job) t3).1 in
      let (saved, written, h6) = bind-ok (on_states (finish c job)) _ t4 {b = o} h5 in
      writes-Complete s c body job ev m saved own c_made said planned appended added written
