-- ===== src/EventStore.antt =====
-- The in-memory event store: `InMemoryEventStore`
-- (src/personal_assistant/adapters/persistence/in_memory.py). `_fingerprint` of an event's JSON is
-- the parameter `fingerprint`.
pub mod History
mod Tests
use personal_assistant.Common.{
  Bool, not, Option, none, some, List, [], map, select, String, ◌==◌, text_eq, pair_eq,
}
use personal_assistant.Common.Exec.{
  Exec, assistant, permission_denied, conflict, key_error, pure, gets, modify, or_raise, raise_if,
  ◌>>=◌, ◌>>◌,
}
use personal_assistant.Common.Dict.{Dict, get, put}
use personal_assistant.Common.Index.{Key}
use personal_assistant.Permissions.{Principal, require_trusted_principal}
use personal_assistant.Events.{CloudEvent}

pub record EventStore : Type 0 where
  pub events : Dict Key CloudEvent  -- `_events_by_key`
  pub fingerprints : Dict Key String

abbrev pub empty : EventStore
empty = record { events = []; fingerprints = [] }

abbrev pub store_event : Key → CloudEvent → String → EventStore → EventStore
store_event key event print s = record {
  events = put key event s.events;
  fingerprints = put key print s.fingerprints;
}

abbrev pub replay_or_append :
    Key → CloudEvent → String → Option CloudEvent → Exec EventStore CloudEvent
replay_or_append key event print none = do modify (store_event key event print); pure event
replay_or_append key event print (some existing) = do
  stored ← gets (λ s. get key s.fingerprints)
  old ← or_raise stored key_error
  raise_if (not (old == print)) (assistant conflict)
  pure existing

unfoldable pub append : (CloudEvent → String) → Principal → CloudEvent → Exec EventStore CloudEvent
append fingerprint p event = do
  require_trusted_principal p
  raise_if (not (event.tenant_id == p.tenant_id)) (assistant permission_denied)
  existing ← gets (λ s. get (p.tenant_id, event.id) s.events)
  replay_or_append (p.tenant_id, event.id) event (fingerprint event) existing

unfoldable pub list_for_tenant : Principal → Exec EventStore (List CloudEvent)
list_for_tenant p = do
  require_trusted_principal p
  gets (λ s. map (λ e. e.1) (select (λ e. e.0.0 == p.tenant_id) s.events))
