-- ===== src/Commands/Whole.antt =====
-- What a message does as a whole (`handle`).
use personal_assistant.Common.{◌≡◌, refl, inl, inr, ◌⊎◌, String, text_eq, pair_eq}
use personal_assistant.Common.Text.{strip}
use personal_assistant.Common.Time.{Instant}
use personal_assistant.Permissions.{Principal}
use personal_assistant.Workflows.Steps.{IsValid}
use personal_assistant.Commands.{NormalizedMessage, Services, Conversation}
use personal_assistant.Commands.Router.{Route, route, follow, handle}
use personal_assistant.Commands.Quiet.{effects_of}
use personal_assistant.Commands.Routes.{follow-Quiet}
use personal_assistant.Commands.Granted.{Granted, command-cases}

module _ (env : Services) (p : Principal) (m : NormalizedMessage) (now : Instant)
    (timezone : String) (c : Conversation) where
  follow-cases :
      (r : Route)
      → IsValid c.stores.states
      → (effects_of (follow env p r m now timezone c).1 ≡ effects_of c)
        ⊎ ((r ≡ Route.approve)
            × Granted env p c (strip m.text) (follow env p r m now timezone c).1.stores)
  follow-cases Route.approve v = elim (command-cases env p c (strip m.text) v) [
    | inl quiet ↦ inl quiet
    | inr done ↦ inr (refl, done)
  ]
  follow-cases Route.start v =
      inl
        ((follow-Quiet env p (effects_of c) m now timezone Route.start (λ e. absurd cc)).runs c
          refl).0
  follow-cases Route.help v =
      inl
        ((follow-Quiet env p (effects_of c) m now timezone Route.help (λ e. absurd cc)).runs c
          refl).0
  follow-cases Route.status v =
      inl
        ((follow-Quiet env p (effects_of c) m now timezone Route.status (λ e. absurd cc)).runs c
          refl).0
  follow-cases Route.agenda v =
      inl
        ((follow-Quiet env p (effects_of c) m now timezone Route.agenda (λ e. absurd cc)).runs c
          refl).0
  follow-cases Route.pending_approvals v =
      inl
        ((follow-Quiet env p (effects_of c) m now timezone Route.pending_approvals
            (λ e. absurd cc)).runs
          c refl).0
  follow-cases Route.cancel v =
      inl
        ((follow-Quiet env p (effects_of c) m now timezone Route.cancel (λ e. absurd cc)).runs c
          refl).0
  follow-cases Route.remind v =
      inl
        ((follow-Quiet env p (effects_of c) m now timezone Route.remind (λ e. absurd cc)).runs c
          refl).0
  follow-cases Route.free v =
      inl
        ((follow-Quiet env p (effects_of c) m now timezone Route.free (λ e. absurd cc)).runs c
          refl).0
  follow-cases Route.plain v =
      inl
        ((follow-Quiet env p (effects_of c) m now timezone Route.plain (λ e. absurd cc)).runs c
          refl).0

  -- Where the workflow store is valid, only an approval has an effect: whatever a message says, either the calendar, the scheduled
  -- reminders, the event store and the outbox are as before, or the message is an approve command
  -- that names a stored approval of the principal's own for a reminder, the approval store has
  -- granted the call, the grant covers it, and the run of the approved request has left all
  -- effects of one reminder and a completed workflow.
  pub only_approvals_act :
      IsValid c.stores.states
      → (effects_of (handle env p m now timezone c).1 ≡ effects_of c)
        ⊎ ((route env p m ≡ Route.approve)
            × Granted env p c (strip m.text) (handle env p m now timezone c).1.stores)
  unfolding handle
  only_approvals_act v = follow-cases (route env p m) v
