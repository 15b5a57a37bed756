-- ===== src/Calendar.antt =====
-- The local calendar: `LocalCalendarTool`
-- (src/personal_assistant/adapters/outbound/calendar/local.py) with the request and the result of
-- src/personal_assistant/application/ports/calendar.py. `_fingerprint` of a request's JSON is the
-- parameter `fingerprint`, the time zone database is `zone`, and the clock and `uuid4().hex` are
-- arguments.
pub mod Laws
mod Tests
use Prim.Native.String.{◌++◌}
use personal_assistant.Common.{
  Bool, true, false, not, Option, none, some, List, [], map, select, String, is_none, ◌==◌, text_eq,
  pair_eq, if◌then◌else◌,
}
use personal_assistant.Common.Exec.{
  Exec, assistant, conflict, key_error, value_error, pure, lift, gets, modify, or_raise, raise_if,
  ◌>>=◌, ◌>>◌,
}
use personal_assistant.Common.Dict.{Dict, get, put}
use personal_assistant.Common.Index.{Key, is_taken}
use personal_assistant.Common.Text.{is_empty}
use personal_assistant.Common.Time.{Instant}
use personal_assistant.Permissions.{Principal, ApprovalGrant, require_trusted_principal}
use personal_assistant.Permissions.Tiers.{p3}
use personal_assistant.Permissions.Approval.{require_approval}

pub record CalendarEventRequest : Type 0 where
  pub event_id : Option String
  pub title : String
  pub starts_at : Instant
  pub ends_at : Option Instant
  pub timezone : String
  pub idempotency_key : String
  pub source_event_id : Option String
  pub payload_fingerprint : Option String

pub record CalendarEventResult : Type 0 where
  pub event_id : String
  pub title : String
  pub starts_at : Instant
  pub timezone : String
  pub idempotency_key : String
  pub source_event_id : Option String
  pub payload_fingerprint : Option String
  pub reused : Bool

pub record Calendar : Type 0 where
  pub events : Dict Key CalendarEventResult  -- `_events_by_key`
  pub key_by_event_id : Dict Key String
  pub fingerprints : Dict Key String

abbrev pub empty : Calendar
empty = record { events = []; key_by_event_id = []; fingerprints = [] }

-- `request.event_id or f"cal_{uuid4().hex}"`
abbrev pub event_id_or : Option String → String → String
event_id_or none fresh = fresh
event_id_or (some id) fresh = if is_empty id then fresh else id

-- the values of the new result, before its time zone is checked
abbrev pub new_result : CalendarEventRequest → String → String → CalendarEventResult
new_result r event_id timezone = record {
  event_id = event_id;
  title = r.title;
  starts_at = r.starts_at;
  timezone = timezone;
  idempotency_key = r.idempotency_key;
  source_event_id = r.source_event_id;
  payload_fingerprint = r.payload_fingerprint;
  reused = false;
}

abbrev pub store_result : String → CalendarEventResult → String → Calendar → Calendar
store_result tenant e print s = record {
  events = put (tenant, e.idempotency_key) e s.events;
  key_by_event_id = put (tenant, e.event_id) e.idempotency_key s.key_by_event_id;
  fingerprints = put (tenant, e.idempotency_key) print s.fingerprints;
}

module _ (zone : String → Option String) where
  abbrev pub reuse_or_create :
      Principal
      → CalendarEventRequest
      → String
      → String
      → Option CalendarEventResult
      → Exec Calendar CalendarEventResult
  reuse_or_create p r print event_id (some existing) = do
    stored ← gets (λ s. get (p.tenant_id, r.idempotency_key) s.fingerprints)
    old ← or_raise stored key_error
    raise_if (not (old == print)) (assistant conflict)
    pure (record existing { reused = true })
  reuse_or_create p r print event_id none = do
    existing_key ← gets (λ s. get (p.tenant_id, event_id) s.key_by_event_id)
    raise_if (is_taken existing_key r.idempotency_key) (assistant conflict)
    timezone ← or_raise (zone r.timezone) value_error
    modify (store_result p.tenant_id (new_result r event_id timezone) print)
    pure (new_result r event_id timezone)

  unfoldable pub create_event :
      (CalendarEventRequest → String)
      → String
      → Instant
      → Principal
      → CalendarEventRequest
      → Option ApprovalGrant
      → Exec Calendar CalendarEventResult
  create_event fingerprint uuid now p r approval = do
    decision ←
        lift (require_approval p p3 approval "calendar.create_event" r.idempotency_key none now)
    existing ← gets (λ s. get (p.tenant_id, r.idempotency_key) s.events)
    reuse_or_create p r (fingerprint (record r { event_id = none }))
        (event_id_or r.event_id ("cal_" ++ uuid)) existing

unfoldable pub list_events : Principal → Exec Calendar (List CalendarEventResult)
list_events p = do
  require_trusted_principal p
  gets (λ s. map (λ e. e.1) (select (λ e. e.0.0 == p.tenant_id) s.events))
