-- ===== src/Creation/Sample.antt =====
-- A sample environment and empty stores for the tests.
use personal_assistant.Common.{Option, none, some, [], String}
use personal_assistant.Common.Time.{aware}
use personal_assistant.Events.{Json, text, other}
use personal_assistant.Calendar
use personal_assistant.Scheduler
use personal_assistant.EventStore
use personal_assistant.Outbox
use personal_assistant.Workflows
use personal_assistant.Workflows.{WorkflowState, completed}
use personal_assistant.UnitOfWork.{Stores}
use personal_assistant.Reminders.{Codec, ReminderExtraction, parsed}
use personal_assistant.Creation.{Environment, Replies}

abbrev pub read_text : Json → Option String
read_text (text v) = some v
read_text (other v) = some v

abbrev pub codec : Codec
codec = record {
  isoformat = λ t. "1970-01-01T00:00:05+00:00";
  read_datetime = λ j. some (aware 5);
  read_confidence = read_text;
}

abbrev pub extraction : ReminderExtraction
extraction = record {
  title = "call mum";
  timezone = "UTC";
  starts_at = 3_600_000_000;
  notify_at = none;
  confidence = "0.9";
}

abbrev pub replies : Replies
replies = record {
  reminder_clarification = λ r. "?";
  reminder_duplicate = "ok";
  reminder_needs_approval = λ t. t;
  reminder_notification_body = λ t. t;
  reminder_created = λ t n b. t;
}

abbrev pub env : Environment
env = record {
  zone = λ name. some name;
  codec = codec;
  fromisoformat = λ t. none;
  sha256 = λ t. "0123456789abcdef0123456789abcdef0123456789abcdef0123456789abcdef";
  nfc = λ t. t;
  casefold = λ t. t;
  print_request = λ r. "p";
  print_event = λ e. "p";
  print_write = λ w. "p";
  print_state = λ w. "p";
  finditer = λ l t. [];
  extract = λ t now z. parsed extraction;
  llm = none;
  replies = replies;
  minutes_before = 30;
  clock = 7;
  moment = λ n. 6;
  uuid = "u1";
}

abbrev pub print : String
print = "0123456789abcdef0123456789abcdef0123456789abcdef0123456789abcdef"

abbrev pub key : String
key = "reminder:v2:0123456789abcdef0123456789abcdef0123456789abcdef0123456789abcdef"

abbrev pub empty : Stores
empty = record {
  calendar = Calendar.empty;
  scheduler = Scheduler.empty;
  events = EventStore.empty;
  outbox = Outbox.empty;
  states = Workflows.empty;
}
