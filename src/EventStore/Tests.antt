-- ===== src/EventStore/Tests.antt =====
-- The event store on concrete events.
use personal_assistant.Common.{◌≡◌, refl, none, some, List, [], ◌∷◌, String, text_eq, pair_eq}
use personal_assistant.Common.Dict.{get}
use personal_assistant.Permissions.{Principal}
use personal_assistant.Permissions.Sample.{member}
use personal_assistant.Events.{CloudEvent}
use personal_assistant.EventStore.{EventStore}
use personal_assistant.EventStore.History.{append_all, events_kept}

abbrev created : CloudEvent
created = record {
  id = "e1";
  specversion = "1.0";
  type = "reminder.created";
  source = "assistant";
  subject = none;
  tenant_id = "t1";
  correlation_id = "c1";
  causation_id = none;
  source_event_id = none;
  payload_fingerprint = none;
  timezone = none;
  payload = [];
  time = 1;
}

abbrev print : CloudEvent → String
print e = e.type

abbrev one : EventStore
one = record {
  events = (("t1", "e1"), created) ∷ [];
  fingerprints = (("t1", "e1"), "reminder.created") ∷ [];
}

abbrev appends : List (Principal × CloudEvent)
appends =
    (member "t1", record created { type = "other" })
    ∷ (member "t1", record created { id = "e2" })
    ∷ (member "t2", created)
    ∷ []

events_kept_example : get ("t1", "e1") (append_all print appends one).events ≡ some created
unfolding get
events_kept_example = events_kept print appends one ("t1", "e1") created refl
