-- ===== src/Commands/Quiet.antt =====
-- The commands other than an approval have no effect.
use personal_assistant.Common.{
  ◌≡◌, sym, ap, Bool, true, false, not, if◌then◌else◌, none, some, String,
}
use personal_assistant.Common.Exec.{
  Exec, Result, ok, err, assistant, value_error, type_error, runtime_error, overflow_error,
  key_error, index_error, ok_inj, err-ne-ok, lift, gets, raise_if, ◌>>=◌,
}
use personal_assistant.Common.Pure
use personal_assistant.Common.Text.{strip, strip_field, is_empty}
use personal_assistant.Common.Time.{Instant}
use personal_assistant.Common.Leaves.{
  Leaves, lift-Leaves, pure-Leaves, raise-Leaves, raise_if-Leaves, bind-Leaves,
}
use personal_assistant.Permissions.{Principal, is_trusted, require_trusted_principal}
use personal_assistant.Calendar.{Calendar}
use personal_assistant.Scheduler.{SchedulerStore}
use personal_assistant.EventStore.{EventStore}
use personal_assistant.Outbox.{Outbox}
use personal_assistant.Approvals.{ApprovalStore, create}
use personal_assistant.UnitOfWork.{Stores}
use personal_assistant.UnitOfWork.Views.{effects}
use personal_assistant.Creation.{AgentStatus, ReminderWorkflowInput, ReminderWorkflowResult}
use personal_assistant.Creation.Flow.{run}
use personal_assistant.Creation.Unapproved.{run-effects}
use personal_assistant.Commands.{
  CommandKind, NormalizedMessage, Services, Conversation, with_stores, with_approvals,
  with_calendar, with_events, with_outbox, attempt, attempted, answer,
}
use personal_assistant.Commands.Inputs.{filled, is_channel, new_input, message_key, workflow_answer}
use personal_assistant.Commands.Requests.{
  new_request, new_approval, approval_answer, answer_request, create_reminder, start_reminder,
}

abbrev pub Effects : Type 0
Effects = Calendar × SchedulerStore × EventStore × Outbox

-- what a conversation has done
abbrev pub effects_of : Conversation → Effects
effects_of c = effects c.stores

abbrev pub Quiet {ℓ} : {A : Type ℓ} → Effects → Exec Conversation A → Type ℓ
Quiet x m = Leaves effects_of x (λ _. Unit {0}) m

-- a list of a store is read
pub reading-Leaves {ℓ κ} :
    {S : Type ℓ} {A : Type κ} (p : Principal) (f : S → A) (s : S)
    → Leaves (λ s. s) s (λ _. Unit {0}) (require_trusted_principal p >>= λ _. gets f)
reading-Leaves p f s =
    bind-Leaves (λ s. s) s (raise_if (not (is_trusted p)) _) (λ _. gets f)
      (raise_if-Leaves (λ s. s) s (not (is_trusted p)) _)
      (λ _ _. record { runs = λ t e. (e, λ a h. tt) })

module _ {ℓ} {A : Type ℓ} (x : Effects) where
  pub lift-Quiet : (r : Result A) → Quiet x (lift r)
  lift-Quiet r = lift-Leaves effects_of x r (λ a h. tt)

  pub with_approvals-Quiet : (m : Exec ApprovalStore A) → Quiet x (with_approvals m)
  with_approvals-Quiet m = record { runs = λ c e. (e, λ a h. tt) }

  pub with_stores-Quiet :
      (m : Exec Stores A) → Leaves effects x (λ _. Unit {0}) m → Quiet x (with_stores m)
  with_stores-Quiet m lm = record { runs = λ c e. ((lm.runs c.stores e).0, λ a h. tt) }

  pub with_calendar-effects :
      (m : Exec Calendar A)
      → Leaves (λ s. s) x.0 (λ _. Unit {0}) m
      → Leaves effects x (λ _. Unit {0}) (with_calendar m)
  with_calendar-effects m lm = record {
    runs = λ s e.
        let still = (lm.runs s.calendar (ap (λ (v : Effects). v.0) e)).0 in
        (λ i. (still i, (e i).1, (e i).2, (e i).3), λ a h. tt);
  }

  pub with_events-effects :
      (m : Exec EventStore A)
      → Leaves (λ s. s) x.2 (λ _. Unit {0}) m
      → Leaves effects x (λ _. Unit {0}) (with_events m)
  with_events-effects m lm = record {
    runs = λ s e.
        let still = (lm.runs s.events (ap (λ (v : Effects). v.2) e)).0 in
        (λ i. ((e i).0, (e i).1, still i, (e i).3), λ a h. tt);
  }

  pub with_outbox-effects :
      (m : Exec Outbox A)
      → Leaves (λ s. s) x.3 (λ _. Unit {0}) m
      → Leaves effects x (λ _. Unit {0}) (with_outbox m)
  with_outbox-effects m lm = record {
    runs = λ s e.
        let still = (lm.runs s.outbox (ap (λ (v : Effects). v.3) e)).0 in
        (λ i. ((e i).0, (e i).1, (e i).2, still i), λ a h. tt);
  }

attempted-Quiet :
    {A : Type 0} (x : Effects) (r : Result A) → Quiet x (attempted {S = Conversation} r)
attempted-Quiet x (ok a) = pure-Leaves effects_of x (some a) tt
attempted-Quiet x (err (assistant code)) = pure-Leaves effects_of x none tt
attempted-Quiet x (err value_error) = raise-Leaves effects_of x value_error
attempted-Quiet x (err type_error) = raise-Leaves effects_of x type_error
attempted-Quiet x (err runtime_error) = raise-Leaves effects_of x runtime_error
attempted-Quiet x (err overflow_error) = raise-Leaves effects_of x overflow_error
attempted-Quiet x (err key_error) = raise-Leaves effects_of x key_error
attempted-Quiet x (err index_error) = raise-Leaves effects_of x index_error

pub attempt-Quiet :
    {A : Type 0} (x : Effects) (m : Exec ApprovalStore A) → Quiet x (attempt (with_approvals m))
attempt-Quiet x m = record {
  runs = λ c e.
      (attempted-Quiet x (m c.approvals).0).runs (record c { approvals = (m c.approvals).1 }) e;
}

pub either-Quiet {ℓ} :
    {A : Type ℓ} (x : Effects) (b : Bool) {m m' : Exec Conversation A}
    → Quiet x m
    → Quiet x m'
    → Quiet x (if b then m else m')
either-Quiet x true q q' = q
either-Quiet x false q q' = q'

-- A validated input keeps its approval.
pub new_input-approval :
    (r : ReminderWorkflowInput) {r' : ReminderWorkflowInput}
    → new_input r ≡ ok r'
    → r'.approval ≡ r.approval
unfolding new_input
new_input-approval r {r'} h =
    let (a, _, h1) = Pure.bind-ok (filled r.message_id) _ {b = r'} h in
    let (b, _, h2) = Pure.bind-ok (filled r.source_event_id) _ {b = r'} h1 in
    let (c, _, h3) = Pure.bind-ok (filled r.conversation_id) _ {b = r'} h2 in
    let (d, _, h4) = Pure.bind-ok (filled r.text) _ {b = r'} h3 in
    let (e, _, h5) = Pure.bind-ok (filled r.recipient) _ {b = r'} h4 in
    let (f, _, h6) = Pure.bind-ok (filled r.timezone) _ {b = r'} h5 in
    checked (is_channel (strip_field r.channel)) _ h6
  where
    checked :
        (b : Bool) (v : ReminderWorkflowInput)
        → (if b then ok v else err value_error) ≡ ok r'
        → r'.approval ≡ v.approval
    checked true v h = sym (ap (λ (w : ReminderWorkflowInput). w.approval) (ok_inj v r' h))
    checked false v h = absurd (err-ne-ok h)

module _ (env : Services) (p : Principal) (x : Effects) where
  pub answer-Quiet :
      (outcome : AgentStatus) (kind : CommandKind) (reply : String)
      → Quiet x (lift (answer outcome kind reply))
  answer-Quiet outcome kind reply = lift-Quiet x (answer outcome kind reply)

  answer_request-Quiet :
      (m : NormalizedMessage) (key content : String) (now : Instant) (y : ReminderWorkflowResult)
      → Quiet x (answer_request env p m key content now y)
  answer_request-Quiet m key content now y =
      either-Quiet x y.approval_required
        (bind-Leaves effects_of x _ _ (lift-Quiet x (new_approval env p m key content now y))
          (λ wanted _.
            bind-Leaves effects_of x _ _
              (with_approvals-Quiet x (create env.print_approval p wanted))
              (λ a _. lift-Quiet x (approval_answer env p y a))))
        (lift-Quiet x (workflow_answer CommandKind.reminder_create y))

  pub create_reminder-Quiet :
      (m : NormalizedMessage) (content : String) (now : Instant) (timezone : String)
      → Quiet x (create_reminder env p m content now timezone)
  unfolding create_reminder
  create_reminder-Quiet m content now timezone =
      either-Quiet x (is_empty (strip content))
        (answer-Quiet AgentStatus.needs_clarification CommandKind.reminder_create
          env.replies.reminder_missing_text)
        started
    where
      started : Quiet x (start_reminder env p m content now timezone)
      started = bind-Leaves effects_of x _ _ (lift-Quiet x (message_key env.workflow p m)) (λ key _.
          bind-Leaves effects_of x _ _
            (lift-Leaves effects_of x {Q = λ r. r.approval ≡ none}
              (new_input
                (record (new_request env p m content now timezone) { idempotency_key = some key }))
              (λ r valid. new_input-approval _ {r' = r} valid))
            (λ r unapproved.
              bind-Leaves effects_of x _ _
                (with_stores-Quiet x (run env.workflow p r)
                  (run-effects env.workflow p r x unapproved))
                (λ y _. answer_request-Quiet m key content now y)))
