-- ===== src/Scheduler/Due.antt =====
-- The reminders that `due` returns.
use mathlib.Core.List.{Perm}
use text.Mathlib.TextEquality.{eq_iff}
use personal_assistant.Common.{
  ◌≡◌, refl, ◌⊎◌, inl, inr, ◌↔◌, ◌≤◌, ◌<◌, Bool, true, false, Bool-cases, Option, none, some, List,
  [], ◌∷◌, map, select, arith, ltb, text_eq,
}
use personal_assistant.Common.Exec.{ok}
use personal_assistant.Common.Sort.{sort_by-perm, sort_by-IsSorted, Starts, IsSorted}
use personal_assistant.Common.Text.{text_leb, text_leb-total}
use personal_assistant.Common.Time.{Instant, aware}
use personal_assistant.Permissions.{Principal, is_trusted}
use personal_assistant.Delivery.{pending, same_status}
use personal_assistant.Outbox.Transition.Cases.{same_status_eq}
use personal_assistant.Scheduler.Reminder.{ScheduledReminder}
use personal_assistant.Scheduler.{SchedulerStore, may_attempt, is_due, comes_first, due_jobs, due}

-- A reminder is due: it is the tenant's own and still pending, its notice time has come, and the
-- next attempt is not set for later.
pub record IsDue (p : Principal) (now : Instant) (job : ScheduledReminder) : Type 0 where
  pub own : job.tenant_id ≡ p.tenant_id
  pub waits : job.delivery_status ≡ pending
  pub noticed : job.notify_at ≤ now
  pub attempt :
      (job.next_attempt_at ≡ none) ⊎ ((t : Instant) × (job.next_attempt_at ≡ some t) × (t ≤ now))

-- An earlier notice time, or the same one and an id that does not come later.
abbrev pub NotAfter : ScheduledReminder → ScheduledReminder → Type 0
NotAfter a b =
    (a.notify_at < b.notify_at)
    ⊎ ((a.notify_at ≡ b.notify_at) × (text_leb a.reminder_id b.reminder_id ≡ true))

abbrev pub Leads : ScheduledReminder → List ScheduledReminder → Type 0
Leads a [] = Unit
Leads a (b ∷ bs) = NotAfter a b

abbrev pub InOrder : List ScheduledReminder → Type 0
InOrder [] = Unit
InOrder (a ∷ xs) = Leads a xs × InOrder xs

comes_first-total : (a b : ScheduledReminder) → comes_first a b ≡ false → comes_first b a ≡ true
unfolding comes_first
comes_first-total a b h = ground (arith, text_leb-total a.reminder_id b.reminder_id)

comes_first-NotAfter : (a b : ScheduledReminder) → comes_first a b ≡ true → NotAfter a b
unfolding comes_first
comes_first-NotAfter a b h = elim (Bool-cases (ltb a.notify_at b.notify_at)) [
  | inl earlier ↦ inl (ground arith)
  | inr not_earlier ↦ inr (ground arith, ground arith)
]

Starts-Leads :
    (a : ScheduledReminder) (bs : List ScheduledReminder) → Starts comes_first a bs → Leads a bs
Starts-Leads a [] h = tt
Starts-Leads a (b ∷ bs) h = comes_first-NotAfter a b h

IsSorted-InOrder : (xs : List ScheduledReminder) → IsSorted comes_first xs → InOrder xs
IsSorted-InOrder [] h = tt
IsSorted-InOrder (a ∷ xs) h = (Starts-Leads a xs h.0, IsSorted-InOrder xs h.1)

may_attempt-to :
    (o : Option Instant) (now : Instant)
    → may_attempt o now ≡ true
    → (o ≡ none) ⊎ ((t : Instant) × (o ≡ some t) × (t ≤ now))
may_attempt-to none now h = inl refl
may_attempt-to (some t) now h = inr (t, refl, ground arith)

may_attempt-from :
    (o : Option Instant) (now : Instant)
    → (o ≡ none) ⊎ ((t : Instant) × (o ≡ some t) × (t ≤ now))
    → may_attempt o now ≡ true
may_attempt-from o now (inl never) = rw never refl
may_attempt-from o now (inr (t, set, passed)) = rw set (ground arith)

is_due_iff :
    (p : Principal) (now : Instant) (job : ScheduledReminder)
    → (is_due p now job ≡ true) ↔ IsDue p now job
unfolding is_due
is_due_iff p now job = (to, from)
  where
    to : is_due p now job ≡ true → IsDue p now job
    to h = record {
      own = (eq_iff job.tenant_id p.tenant_id).0 (ground arith);
      waits = same_status_eq job.delivery_status pending (ground arith);
      noticed = ground arith;
      attempt = may_attempt-to job.next_attempt_at now (ground arith);
    }

    from : IsDue p now job → is_due p now job ≡ true
    from d =
        let own = (eq_iff job.tenant_id p.tenant_id).1 d.own in
        let waits : same_status job.delivery_status pending ≡ true = rw (d.waits) refl in
        let passed = may_attempt-from job.next_attempt_at now d.attempt in
        let noticed = d.noticed in ground arith

-- For a trusted principal and an aware time `due` returns, and changes nothing: the stored
-- reminders that are due (the tenant's own, pending, with a notice time that has come and no next
-- attempt set for later), each as often as it is stored, and no other, in the order of their notice
-- times and, where these are the same, of their ids.
pub due_exact :
    (p : Principal) (now : Instant) (s : SchedulerStore)
    → is_trusted p ≡ true
    → (jobs : List ScheduledReminder) × (due p (aware now) s ≡ (ok jobs, s))
      × (keep : ScheduledReminder → Bool) × ((job : ScheduledReminder)
          → (keep job ≡ true) ↔ IsDue p now job)
      × Perm jobs (select keep (map (λ e. e.1) s.jobs))
      × InOrder jobs
unfolding due
due_exact p now s known =
    let chosen = select (is_due p now) (map (λ e. e.1) s.jobs) in
    (
      due_jobs p now s.jobs,
      rw known refl,
      is_due p now,
      is_due_iff p now,
      sort_by-perm comes_first chosen,
      IsSorted-InOrder (due_jobs p now s.jobs)
          (sort_by-IsSorted comes_first comes_first-total chosen),
    )
