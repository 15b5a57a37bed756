-- ===== src/Scheduler/Steps.antt =====
-- What one call may do to the scheduler, and what it keeps.
use personal_assistant.Common.{
  ◌≡◌, refl, sym, ◌∙◌, ap, subst, ◌≢◌, inl, inr, false, not, none, some, String, Bool-cases,
  text_eq, pair_eq,
}
use personal_assistant.Common.Dict.{get, put, get-put, get-put_ne, Distinct, Distinct-put}
use personal_assistant.Common.Index.{
  Key, key_eq, is_taken, IsIndexed, insert-IsIndexed, replace-IsIndexed, get-put_cases,
}
use personal_assistant.Delivery.{pending, same_status}
use personal_assistant.Scheduler.Reminder.{ScheduledReminder}
use personal_assistant.Scheduler.{SchedulerStore, empty, write_job, store_job}

-- what `sent` mirrors
abbrev pub IsMirrored : ScheduledReminder → Type 0
IsMirrored job = job.sent ≡ not (same_status job.delivery_status pending)

pub record IsValid (s : SchedulerStore) : Type 0 where
  pub keys : Distinct s.jobs
  pub indexed :
      IsIndexed
        (λ j. j.tenant_id)
        (λ j. j.idempotency_key)
        (λ j. j.reminder_id)
        s.jobs
        s.key_by_reminder_id
  pub mirrored : (k : Key) (job : ScheduledReminder) → get k s.jobs ≡ some job → IsMirrored job

pub empty-IsValid : IsValid empty
unfolding get
empty-IsValid = record { keys = tt; indexed = λ k v h. cc; mirrored = λ k v h. cc }

-- everything but the delivery and the spelling of the time zone
pub record IsSame (a b : ScheduledReminder) : Type 0 where
  pub reminder_id : b.reminder_id ≡ a.reminder_id
  pub tenant_id : b.tenant_id ≡ a.tenant_id
  pub idempotency_key : b.idempotency_key ≡ a.idempotency_key
  pub calendar_event_id : b.calendar_event_id ≡ a.calendar_event_id
  pub notify_at : b.notify_at ≡ a.notify_at
  pub source_event_id : b.source_event_id ≡ a.source_event_id
  pub payload_fingerprint : b.payload_fingerprint ≡ a.payload_fingerprint
  pub channel : b.channel ≡ a.channel
  pub recipient : b.recipient ≡ a.recipient
  pub body : b.body ≡ a.body

pub IsSame-refl : (a : ScheduledReminder) → IsSame a a
IsSame-refl a = record {
  reminder_id = refl;
  tenant_id = refl;
  idempotency_key = refl;
  calendar_event_id = refl;
  notify_at = refl;
  source_event_id = refl;
  payload_fingerprint = refl;
  channel = refl;
  recipient = refl;
  body = refl;
}

pub IsSame-trans : {a b c : ScheduledReminder} → IsSame a b → IsSame b c → IsSame a c
IsSame-trans f g = record {
  reminder_id = g.reminder_id ∙ f.reminder_id;
  tenant_id = g.tenant_id ∙ f.tenant_id;
  idempotency_key = g.idempotency_key ∙ f.idempotency_key;
  calendar_event_id = g.calendar_event_id ∙ f.calendar_event_id;
  notify_at = g.notify_at ∙ f.notify_at;
  source_event_id = g.source_event_id ∙ f.source_event_id;
  payload_fingerprint = g.payload_fingerprint ∙ f.payload_fingerprint;
  channel = g.channel ∙ f.channel;
  recipient = g.recipient ∙ f.recipient;
  body = g.body ∙ f.body;
}

pub data Step (tenant : String) (s : SchedulerStore) : SchedulerStore → Type 0 where
  same : Step tenant s s
  scheduled :
      (job : ScheduledReminder)
      → job.tenant_id ≡ tenant
      → IsMirrored job
      → get (tenant, job.idempotency_key) s.jobs ≡ none
      → is_taken (get (tenant, job.reminder_id) s.key_by_reminder_id) job.idempotency_key ≡ false
      → Step tenant s (store_job tenant job.idempotency_key job s)
  replaced :
      (k : Key) (a b : ScheduledReminder)
      → k.0 ≡ tenant
      → get k s.jobs ≡ some a
      → IsSame a b
      → IsMirrored b
      → Step tenant s (write_job k b s)

module _ (tenant : String) where
  pub Step-IsValid : {s s' : SchedulerStore} → Step tenant s s' → IsValid s → IsValid s'
  Step-IsValid same v = v
  Step-IsValid {s} (scheduled job own mirror fresh free) v = record {
    keys = Distinct-put (tenant, job.idempotency_key) job s.jobs v.keys;
    indexed =
        subst
          (λ t.
            IsIndexed (λ j. j.tenant_id) (λ j. j.idempotency_key) (λ j. j.reminder_id)
              (put (t, job.idempotency_key) job s.jobs)
              (put (t, job.reminder_id) job.idempotency_key s.key_by_reminder_id))
          own
          (insert-IsIndexed (λ j. j.tenant_id) (λ j. j.idempotency_key) (λ j. j.reminder_id) job
            s.jobs s.key_by_reminder_id (rw own free) v.indexed);
    mirrored = λ k j.
        get-put_cases (λ k j. IsMirrored j) (tenant, job.idempotency_key) k job j s.jobs mirror
          (v.mirrored k j);
  }
  Step-IsValid {s} (replaced k a b own stored e mirror) v = record {
    keys = Distinct-put k b s.jobs v.keys;
    indexed =
        replace-IsIndexed (λ j. j.tenant_id) (λ j. j.idempotency_key) (λ j. j.reminder_id) b s.jobs
          s.key_by_reminder_id k a stored e.tenant_id e.idempotency_key e.reminder_id v.indexed;
    mirrored = λ i j. get-put_cases (λ k j. IsMirrored j) k i b j s.jobs mirror (v.mirrored i j);
  }

  -- A stored job stays stored under its key, with its identity.
  pub Step-kept :
      {s s' : SchedulerStore} (i : Key) (c : ScheduledReminder)
      → Step tenant s s'
      → get i s.jobs ≡ some c
      → (d : ScheduledReminder) × (get i s'.jobs ≡ some d) × IsSame c d
  Step-kept i c same h = (c, h, IsSame-refl c)
  Step-kept {s} i c (scheduled job own mirror fresh free) h = (
    c,
    get-put_ne (tenant, job.idempotency_key) i job s.jobs (λ e. missing (rw⁻¹ e fresh)) ∙ h,
    IsSame-refl c,
  )
    where
      missing : get i s.jobs ≡ none → ⊥
      missing g = cc
  Step-kept {s} i c (replaced k a b own stored e mirror) h =
      elim (Bool-cases (key_eq.is_equal k i)) [
        | inr other ↦ (c, rw get-put (rw other h), IsSame-refl c)
        | inl hit ↦ (
          b,
          rw get-put (rw hit refl),
          subst (λ x. IsSame x b) (first_one ((key_eq.is_equal_iff k i).0 hit)) e,
        )
      ]
    where
      first_one : k ≡ i → a ≡ c
      first_one q = cc

  pub Step-elsewhere :
      {s s' : SchedulerStore} (i : Key)
      → Step tenant s s'
      → i.0 ≢ tenant
      → get i s'.jobs ≡ get i s.jobs
  Step-elsewhere i same ne = refl
  Step-elsewhere {s} i (scheduled job own mirror fresh free) ne =
      get-put_ne (tenant, job.idempotency_key) i job s.jobs
        (λ e. ne (sym (ap (λ (j : Key). j.0) e)))
  Step-elsewhere {s} i (replaced k a b own stored e mirror) ne =
      get-put_ne k i b s.jobs (λ q. ne (sym (ap (λ (j : Key). j.0) q) ∙ own))
