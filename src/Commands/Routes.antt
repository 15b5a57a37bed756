-- ===== src/Commands/Routes.antt =====
-- The routes of a message other than an approval have no effect.
use personal_assistant.Common.{◌≡◌, refl, Option, none, some, List, [], ◌∷◌, String}
use personal_assistant.Common.Text.{strip, is_empty}
use personal_assistant.Common.Time.{Instant}
use personal_assistant.Common.Leaves.{bind-Leaves}
use personal_assistant.Permissions.{Principal}
use personal_assistant.Calendar.{list_events}
use personal_assistant.EventStore
use personal_assistant.EventStore.{EventStore}
use personal_assistant.Outbox
use personal_assistant.Outbox.{Outbox}
use personal_assistant.Workflows
use personal_assistant.Approvals.{PendingApproval, list_pending, reject}
use personal_assistant.UnitOfWork.{with_states}
use personal_assistant.UnitOfWork.Views.{with_states-effects}
use personal_assistant.Creation.{AgentStatus}
use personal_assistant.Commands.{
  CommandKind, NormalizedMessage, InferredCommandIntent, Services, with_approvals, with_calendar,
  with_events, with_outbox,
}
use personal_assistant.Commands.Requests.{cancel_answer, cancel_part, cancel_command}
use personal_assistant.Commands.Text.{second_part, looks_like_reminder}
use personal_assistant.Commands.Router.{
  Route, help_command, unsupported_command, status_command, agenda_command, pending_answer,
  pending_command, plain_command, remind_inferred, inferred_command, free_command, infer_with,
  follow,
}
use personal_assistant.Commands.Quiet.{
  Effects, effects_of, Quiet, reading-Leaves, with_approvals-Quiet, with_stores-Quiet,
  with_calendar-effects, with_events-effects, with_outbox-effects, either-Quiet, attempt-Quiet,
  answer-Quiet, create_reminder-Quiet,
}

module _ (env : Services) (p : Principal) (x : Effects) where
  pending-Quiet : Quiet x (with_approvals (list_pending p))
  pending-Quiet = with_approvals-Quiet x (list_pending p)

  status-Quiet : Quiet x (status_command env p)
  unfolding EventStore.list_for_tenant Outbox.list_for_tenant
  status-Quiet = bind-Leaves effects_of x _ _ pending-Quiet (λ pending _.
      bind-Leaves effects_of x _ _
        (with_stores-Quiet x (with_states (Workflows.list_for_tenant p))
          (with_states-effects x (Workflows.list_for_tenant p)))
        (λ states _.
          bind-Leaves effects_of x _ _
            (with_stores-Quiet x (with_events (EventStore.list_for_tenant p))
              (with_events-effects x (EventStore.list_for_tenant p) (reading-Leaves p _ x.2)))
            (λ events _.
              bind-Leaves effects_of x _ _
                (with_stores-Quiet x (with_outbox (Outbox.list_for_tenant p))
                  (with_outbox-effects x (Outbox.list_for_tenant p) (reading-Leaves p _ x.3)))
                (λ messages _. answer-Quiet env p x AgentStatus.completed CommandKind.status _))))

  agenda-Quiet : Quiet x (agenda_command env p)
  unfolding list_events
  agenda-Quiet =
      bind-Leaves effects_of x _ _
        (with_stores-Quiet x (with_calendar (list_events p))
          (with_calendar-effects x (list_events p) (reading-Leaves p _ x.0)))
        (λ events _. answer-Quiet env p x AgentStatus.completed CommandKind.agenda _)

  pending_answer-Quiet : (l : List PendingApproval) → Quiet x (pending_answer env p l)
  pending_answer-Quiet [] =
      answer-Quiet env p x AgentStatus.completed CommandKind.pending_approvals _
  pending_answer-Quiet (a ∷ l) =
      answer-Quiet env p x AgentStatus.escalated CommandKind.pending_approvals _

  pending_command-Quiet : Quiet x (pending_command env p)
  pending_command-Quiet = bind-Leaves effects_of x _ _ pending-Quiet (λ l _. pending_answer-Quiet l)

  unsupported-Quiet : Quiet x (unsupported_command env p)
  unsupported-Quiet = answer-Quiet env p x AgentStatus.declined CommandKind.unsupported _

  help-Quiet : Quiet x (help_command env p)
  help-Quiet = answer-Quiet env p x AgentStatus.completed CommandKind.help _

  cancel_answer-Quiet : (o : Option PendingApproval) → Quiet x (cancel_answer env p o)
  cancel_answer-Quiet none = answer-Quiet env p x AgentStatus.failed CommandKind.cancel _
  cancel_answer-Quiet (some a) = answer-Quiet env p x AgentStatus.completed CommandKind.cancel _

  cancel-Quiet : (o : Option String) → Quiet x (cancel_part env p o)
  cancel-Quiet none = answer-Quiet env p x AgentStatus.needs_clarification CommandKind.cancel _
  cancel-Quiet (some id) =
      bind-Leaves effects_of x _ _ (attempt-Quiet x (reject env.decided_at p (strip id)))
        (λ rejected _. cancel_answer-Quiet rejected)

  cancel_command-Quiet : (content : String) → Quiet x (cancel_command env p content)
  unfolding cancel_command
  cancel_command-Quiet content = cancel-Quiet (second_part content)

  module _ (m : NormalizedMessage) (now : Instant) (timezone : String) where
    plain-Quiet : Quiet x (plain_command env p m now timezone)
    unfolding plain_command
    plain-Quiet =
        either-Quiet x (looks_like_reminder env.lower (strip m.text))
          (create_reminder-Quiet env p x m _ now timezone) unsupported-Quiet

    remind-Quiet : (wish : Option String) → Quiet x (remind_inferred env p m wish now timezone)
    remind-Quiet none = unsupported-Quiet
    remind-Quiet (some wish) =
        either-Quiet x (is_empty wish) unsupported-Quiet
          (create_reminder-Quiet env p x m _ now timezone)

    inferred-Quiet :
        (kind : CommandKind) (wish : Option String)
        → Quiet x (inferred_command env p m kind wish now timezone)
    inferred-Quiet CommandKind.start wish = unsupported-Quiet
    inferred-Quiet CommandKind.help wish = help-Quiet
    inferred-Quiet CommandKind.status wish = status-Quiet
    inferred-Quiet CommandKind.reminder_create wish = remind-Quiet wish
    inferred-Quiet CommandKind.agenda wish = agenda-Quiet
    inferred-Quiet CommandKind.pending_approvals wish = pending_command-Quiet
    inferred-Quiet CommandKind.approve wish = unsupported-Quiet
    inferred-Quiet CommandKind.cancel wish = unsupported-Quiet
    inferred-Quiet CommandKind.unsupported wish = unsupported-Quiet

    free-Quiet : (i : Option InferredCommandIntent) → Quiet x (free_command env p m i now timezone)
    free-Quiet none = plain-Quiet
    free-Quiet (some i) = inferred-Quiet i.kind i.reminder_text

    -- Every route but the approval leaves the effects as they are.
    pub follow-Quiet :
        (r : Route) → (r ≡ Route.approve → ⊥) → Quiet x (follow env p r m now timezone)
    follow-Quiet Route.start ne = answer-Quiet env p x AgentStatus.completed CommandKind.start _
    follow-Quiet Route.help ne = help-Quiet
    follow-Quiet Route.status ne = status-Quiet
    follow-Quiet Route.agenda ne = agenda-Quiet
    follow-Quiet Route.pending_approvals ne = pending_command-Quiet
    follow-Quiet Route.approve ne = absurd (ne refl)
    follow-Quiet Route.cancel ne = cancel_command-Quiet (strip m.text)
    follow-Quiet Route.remind ne = create_reminder-Quiet env p x m _ now timezone
    follow-Quiet Route.free ne = free-Quiet (infer_with env p env.infer m)
    follow-Quiet Route.plain ne = plain-Quiet
