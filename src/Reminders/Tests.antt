-- ===== src/Reminders/Tests.antt =====
-- A draft that waits for approval.
use personal_assistant.Common.{◌≡◌, refl, Option, none, some, [], String}
use personal_assistant.Common.Exec.{ok}
use personal_assistant.Common.Pure.{◌>>=◌}
use personal_assistant.Workflows.{update}
use personal_assistant.Common.Time.{aware}
use personal_assistant.Common.Text.{strip_field}
use personal_assistant.Events.{Json, text, other}
use personal_assistant.Reminders.{
  Codec, ReminderExtraction, validate_extraction, draft_of, from_extraction, to_extraction,
  to_workflow_data, from_mapping,
}
use personal_assistant.Reminders.Draft.{IsReadBack, draft_kept}

abbrev read_text : Json → Option String
read_text (text v) = some v
read_text (other v) = some v

-- one moment, which is written as one text
abbrev codec : Codec
codec = record {
  isoformat = λ t. "1970-01-01T00:00:05+00:00";
  read_datetime = λ j. some (aware 5);
  read_confidence = read_text;
}

abbrev zone : String → Option String
zone name = some name

abbrev extraction : ReminderExtraction
extraction = record {
  title = "call mum";
  timezone = "UTC";
  starts_at = 5;
  notify_at = none;
  confidence = "0.9";
}

is_read_back : IsReadBack codec zone extraction
is_read_back = record { start = refl; notice = λ t h. cc; confidence = refl }

valid : validate_extraction zone extraction ≡ ok extraction
unfolding validate_extraction strip_field
valid = refl

draft_kept_example :
    (from_extraction zone extraction ≡ ok (draft_of zone extraction))
    × ((from_mapping codec zone (update (to_workflow_data codec (draft_of zone extraction)) [])
          >>= to_extraction zone)
        ≡ ok extraction)
draft_kept_example = draft_kept codec zone extraction [] valid is_read_back
