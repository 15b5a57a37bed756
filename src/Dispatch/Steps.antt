-- ===== src/Dispatch/Steps.antt =====
-- What a block may do to the stores: the outbox advances along the delivery machine, the scheduler
-- keeps its jobs, both stay valid, and the other three stores are not touched.
use personal_assistant.Common.{◌≡◌, refl, ◌∙◌, ◌≢◌, false, some, String, text_eq, pair_eq}
use personal_assistant.Common.Dict.{get}
use personal_assistant.Common.Exec.{Exec}
use personal_assistant.Common.Index.{Key}
use personal_assistant.Outbox.Invariant
use personal_assistant.Outbox.Advance.{Advances, Advances-refl, Advances-trans}
use personal_assistant.Scheduler.Reminder.{ScheduledReminder}
use personal_assistant.Scheduler.Steps
use personal_assistant.Scheduler.Steps.{
  Step, IsSame, IsSame-refl, IsSame-trans, Step-IsValid, Step-kept, Step-elsewhere,
}
use personal_assistant.UnitOfWork.{Stores, Transaction}

pub record IsValid (s : Stores) : Type 0 where
  pub outbox : Invariant.IsValid s.outbox
  pub scheduler : Steps.IsValid s.scheduler

pub record Moves (tenant : String) (s s' : Stores) : Type 0 where
  pub outbox : Advances tenant s.outbox s'.outbox
  pub scheduler_valid : Steps.IsValid s'.scheduler
  pub jobs_kept :
      (k : Key) (a : ScheduledReminder)
      → get k s.scheduler.jobs ≡ some a
      → (b : ScheduledReminder) × (get k s'.scheduler.jobs ≡ some b) × IsSame a b
  pub jobs_elsewhere : (k : Key) → k.0 ≢ tenant → get k s'.scheduler.jobs ≡ get k s.scheduler.jobs
  pub calendar : s'.calendar ≡ s.calendar
  pub events : s'.events ≡ s.events
  pub states : s'.states ≡ s.states

module _ (tenant : String) where
  pub Moves-IsValid : {s s' : Stores} → Moves tenant s s' → IsValid s'
  Moves-IsValid m = record { outbox = m.outbox.valid; scheduler = m.scheduler_valid }

  pub Moves-refl : (s : Stores) → IsValid s → Moves tenant s s
  Moves-refl s v = record {
    outbox = Advances-refl tenant s.outbox v.outbox;
    scheduler_valid = v.scheduler;
    jobs_kept = λ k a h. (a, h, IsSame-refl a);
    jobs_elsewhere = λ k ne. refl;
    calendar = refl;
    events = refl;
    states = refl;
  }

  pub Moves-trans :
      {s s' s'' : Stores} → Moves tenant s s' → Moves tenant s' s'' → Moves tenant s s''
  Moves-trans m n = record {
    outbox = Advances-trans m.outbox n.outbox;
    scheduler_valid = n.scheduler_valid;
    jobs_kept = λ k a h.
        let (b, g, e) = m.jobs_kept k a h in
        let (c, g', e') = n.jobs_kept k b g in (c, g', IsSame-trans e e');
    jobs_elsewhere = λ k ne. n.jobs_elsewhere k ne ∙ m.jobs_elsewhere k ne;
    calendar = n.calendar ∙ m.calendar;
    events = n.events ∙ m.events;
    states = n.states ∙ m.states;
  }

-- a block inside a transaction, which does not roll back by itself
pub record Plain {ℓ} {A : Type ℓ} (tenant : String) (m : Exec Transaction A) : Type 0 where
  pub moves :
      (t : Transaction)
      → IsValid t.stores
      → t.rolled_back ≡ false
      → Moves tenant t.stores (m t).1.stores × ((m t).1.rolled_back ≡ false)

-- a computation on the stores
pub record Keeps {ℓ} {A : Type ℓ} (tenant : String) (m : Exec Stores A) : Type 0 where
  pub moves : (s : Stores) → IsValid s → Moves tenant s (m s).1
