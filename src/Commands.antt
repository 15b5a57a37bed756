-- ===== src/Commands.antt =====
-- `ConversationCommandService`, the command router for channel messages
-- (src/personal_assistant/application/use_cases/commands.py), with its results
-- (src/personal_assistant/application/dto/commands.py) and its messages
-- (src/personal_assistant/application/dto/channels.py). What it gets from outside is `Services`:
-- the environment of the workflow, `str.lower`, the model that infers intents, and the reply texts.
-- The traces that it writes are left out.
pub mod Text
pub mod Inputs
pub mod Requests
pub mod Router
pub mod Quiet
pub mod Routes
pub mod Granted
pub mod Whole
pub mod Cancelled
mod Tests
use personal_assistant.Common.{
  ℕ, Bool, true, Option, none, some, List, [], ◌∷◌, String, if◌then◌else◌,
}
use personal_assistant.Common.Exec.{Exec, Exn, Result, ok, err, assistant, value_error, raise, pure}
use personal_assistant.Common.Dict.{Dict}
use personal_assistant.Common.Text.{strip_field, is_empty}
use personal_assistant.Common.Time.{Instant}
use personal_assistant.Events.{Json}
use personal_assistant.Calendar.{Calendar}
use personal_assistant.EventStore.{EventStore}
use personal_assistant.Outbox.{Outbox}
use personal_assistant.Approvals.{ApprovalStore, HashedApproval}
use personal_assistant.UnitOfWork.{Stores}
use personal_assistant.Creation.{AgentStatus, Environment}

pub data CommandKind : Type 0 where
  start help status reminder_create agenda pending_approvals approve cancel unsupported :
      CommandKind

pub record CommandResult : Type 0 where
  pub status : AgentStatus
  pub kind : CommandKind
  pub reply : String
  pub approval_id : Option String
  pub dispatch_required : Bool
  pub metadata : Dict String Json

-- the fields of `NormalizedMessage` that the router reads
pub record NormalizedMessage : Type 0 where
  pub channel : String
  pub conversation_id : String
  pub message_id : String
  pub source_event_id : String
  pub text : String
  pub command : Option String
  pub command_args : String

-- the confidence by whether it reaches the threshold of 0.65
pub record InferredCommandIntent : Type 0 where
  pub kind : CommandKind
  pub is_confident : Bool
  pub reminder_text : Option String

-- the texts of `AssistantReplies` that the router uses
pub record CommandReplies : Type 0 where
  pub start : String
  pub help : String
  pub unsupported : String
  pub status : ℕ → ℕ → ℕ → ℕ → String
  pub agenda_empty : String
  pub agenda : List (Instant × String × String) → String
  pub pending_empty : String
  pub pending_approvals : List (String × String × String) → String
  pub reminder_missing_text : String
  pub approval_command_hint : String → String
  pub approve_missing_id : String
  pub approval_not_found : String
  pub approval_type_unsupported : String
  pub approval_failed : String
  pub cancel_missing_id : String
  pub approval_cancel_failed : String
  pub approval_cancelled : String

pub record Services : Type 0 where
  pub workflow : Environment
  pub lower : String → String
  -- the model, if one is configured; its valid intent, or `none` if the call raises
  pub infer : Option (NormalizedMessage → String → Option InferredCommandIntent)
  pub print_approval : HashedApproval → String
  pub decided_at : Instant
  pub replies : CommandReplies

-- the stores that a conversation reads and writes
pub record Conversation : Type 0 where
  pub stores : Stores
  pub approvals : ApprovalStore

module _ {ℓ} {A : Type ℓ} where
  abbrev pub with_stores : Exec Stores A → Exec Conversation A
  with_stores m c = ((m c.stores).0, record c { stores = (m c.stores).1 })

  abbrev pub with_approvals : Exec ApprovalStore A → Exec Conversation A
  with_approvals m c = ((m c.approvals).0, record c { approvals = (m c.approvals).1 })

  abbrev pub with_calendar : Exec Calendar A → Exec Stores A
  with_calendar m s = ((m s.calendar).0, record s { calendar = (m s.calendar).1 })

  abbrev pub with_events : Exec EventStore A → Exec Stores A
  with_events m s = ((m s.events).0, record s { events = (m s.events).1 })

  abbrev pub with_outbox : Exec Outbox A → Exec Stores A
  with_outbox m s = ((m s.outbox).0, record s { outbox = (m s.outbox).1 })

-- `try: m` where an `AssistantError` is caught
module _ {ℓ κ} {S : Type ℓ} {A : Type κ} where
  abbrev pub attempted : Result A → Exec S (Option A)
  attempted (ok a) = pure (some a)
  attempted (err (assistant code)) = pure none
  attempted (err x) = raise x

  abbrev pub attempt : Exec S A → Exec S (Option A)
  attempt m s = attempted (m s).0 (m s).1

-- the reply of a result is stripped and not empty
unfoldable pub new_result : CommandResult → Result CommandResult
new_result r =
    if is_empty (strip_field r.reply)
    then err value_error
    else ok (record r { reply = strip_field r.reply })

abbrev pub answer : AgentStatus → CommandKind → String → Result CommandResult
answer outcome kind reply = new_result (record {
  status = outcome;
  kind = kind;
  reply = reply;
  approval_id = none;
  dispatch_required = true;
  metadata = [];
})
