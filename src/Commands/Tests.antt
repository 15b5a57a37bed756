-- ===== src/Commands/Tests.antt =====
-- A conversation in which a reminder is approved.
use personal_assistant.Common.{◌≡◌, refl, ◌⊎◌, true, Option, none, some, [], ◌∷◌, String}
use personal_assistant.Permissions.Sample.{member}
use personal_assistant.Workflows.Steps.{empty-IsValid}
use personal_assistant.Approvals.{PendingApproval, pending, cancelled}
use personal_assistant.Creation.Sample
use personal_assistant.Creation.Sample.{print, key}
use personal_assistant.Commands.{
  CommandResult, NormalizedMessage, CommandReplies, Services, Conversation,
}
use personal_assistant.Commands.Router.{Route, route, handle}
use personal_assistant.Commands.Quiet.{effects_of}
use personal_assistant.Commands.Cancelled.{cancelled_stays}
use personal_assistant.Commands.Granted.{Granted}
use personal_assistant.Commands.Whole.{only_approvals_act}

abbrev replies : CommandReplies
replies = record {
  start = "hi";
  help = "help";
  unsupported = "?";
  status = λ a b c d. "status";
  agenda_empty = "empty";
  agenda = λ rows. "agenda";
  pending_empty = "none";
  pending_approvals = λ rows. "pending";
  reminder_missing_text = "what?";
  approval_command_hint = λ id. id;
  approve_missing_id = "which?";
  approval_not_found = "not found";
  approval_type_unsupported = "type";
  approval_failed = "failed";
  cancel_missing_id = "which?";
  approval_cancel_failed = "failed";
  approval_cancelled = "cancelled";
}

abbrev services : Services
services = record {
  workflow = Sample.env;
  lower = λ s. s;
  infer = none;
  print_approval = λ a. print;
  decided_at = 6;
  replies = replies;
}

abbrev waiting : PendingApproval
waiting = record {
  approval_id = "ap_0123456789";
  tenant_id = "t1";
  principal_id = "alice";
  action = "calendar.create_event";
  resource =
      "reminder:v2:0123456789abcdef0123456789abcdef0123456789abcdef0123456789abcdef:calendar";
  tier = "P3";
  workflow_kind = "reminder.create";
  message_id = "m1";
  source_event_id = "e1";
  conversation_id = "c1";
  channel = "telegram";
  recipient = "c1";
  request_text = "call mum";
  request_now = 5;
  timezone = "UTC";
  idempotency_key = key;
  payload_fingerprint = print;
  status = pending;
  created_at = 5;
  updated_at = none;
}

abbrev conversation : Conversation
conversation = record {
  stores = Sample.empty;
  approvals = record {
    approvals = (("t1", "ap_0123456789"), waiting) ∷ [];
    id_by_key = ((("t1", "alice"), ("reminder.create", key)), "ap_0123456789") ∷ [];
    fingerprints = (("t1", "ap_0123456789"), print) ∷ [];
  };
}

abbrev approval_message : NormalizedMessage
approval_message = record {
  channel = "telegram";
  conversation_id = "c1";
  message_id = "m2";
  source_event_id = "e2";
  text = "/aprobar ap_0123456789 ";
  command = none;
  command_args = "";
}

only_approvals_act_example :
    (effects_of (handle services (member "t1") approval_message 9 "UTC" conversation).1
      ≡ effects_of conversation)
    ⊎ ((route services (member "t1") approval_message ≡ Route.approve)
        × Granted services
            (member "t1")
            conversation
            "/aprobar ap_0123456789"
            (handle services (member "t1") approval_message 9 "UTC" conversation).1.stores)
unfolding personal_assistant.Common.Text.strip
only_approvals_act_example =
    only_approvals_act services (member "t1") approval_message 9 "UTC" conversation empty-IsValid

abbrev cancelled_waiting : PendingApproval
cancelled_waiting = record waiting { status = cancelled; updated_at = some 6 }

abbrev cancelled_conversation : Conversation
cancelled_conversation = record {
  stores = Sample.empty;
  approvals = record (conversation.approvals) {
    approvals = (("t1", "ap_0123456789"), cancelled_waiting) ∷ [];
  };
}

cancelled_stays_example :
    (handle services (member "t1") approval_message 9 "UTC" cancelled_conversation).1
    ≡ cancelled_conversation
unfolding route personal_assistant.Common.Text.strip personal_assistant.Commands.Text.second_part
    personal_assistant.Common.Dict.get
cancelled_stays_example =
    cancelled_stays services (member "t1") cancelled_conversation cancelled_waiting refl refl
      approval_message 9 "UTC" "ap_0123456789" refl refl refl
