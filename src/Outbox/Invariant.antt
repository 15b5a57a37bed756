-- ===== src/Outbox/Invariant.antt =====
-- What holds of the outbox between two calls, and that every method keeps it.
use personal_assistant.Common.{
  ◌≡◌, inl, inr, true, some, is_some, All, Bool-cases, text_eq, pair_eq,
}
use personal_assistant.Common.Dict.{get, Distinct, Distinct-put, All-put}
use personal_assistant.Events.{OutboxMessage, has_metadata, validate}
use personal_assistant.Outbox.{Outbox, Key, empty}
use personal_assistant.Outbox.Transition.{write_message, save}

-- A stored message passes the validator, and the three other dicts know it by its id, by its
-- event's id and by its key.
abbrev pub IsRecorded : Outbox → Key × OutboxMessage → Type 0
IsRecorded o (key, m) =
    (has_metadata m.dispatch_status m ≡ true)
    × (get (key.0, m.id) o.key_by_message_id ≡ some key.1)
    × (get (key.0, m.event.id) o.key_by_event_id ≡ some key.1)
    × (is_some (get key o.fingerprints) ≡ true)

pub record IsValid (o : Outbox) : Type 0 where
  pub keys : Distinct o.messages
  pub recorded : All (IsRecorded o) o.messages

pub empty-IsValid : IsValid empty
empty-IsValid = record { keys = tt; recorded = tt }

-- The message that replaces one under its key has the same id and event.
pub record IsSame (m m' : OutboxMessage) : Type 0 where
  pub same_id : m'.id ≡ m.id
  pub same_event : m'.event ≡ m.event

pub write_message-IsValid :
    (key : Key) (m m' : OutboxMessage) (o : Outbox)
    → IsSame m m'
    → has_metadata m'.dispatch_status m' ≡ true
    → IsRecorded o (key, m)
    → IsValid o
    → IsValid (write_message key m' o)
write_message-IsValid key m m' o same fits old v = record {
  keys = Distinct-put key m' o.messages v.keys;
  recorded =
      All-put (IsRecorded o) key m' o.messages
        (fits, rw same.same_id old.1, rw same.same_event old.2, old.3) v.recorded;
}

pub save-IsValid :
    (key : Key) (m m' : OutboxMessage) (o : Outbox)
    → IsSame m m'
    → IsRecorded o (key, m)
    → IsValid o
    → IsValid (save key m' o).1
unfolding save validate
save-IsValid key m m' o same old v = elim (Bool-cases (has_metadata m'.dispatch_status m')) [
  | inl fits ↦ rw fits (write_message-IsValid key m m' o same fits old v)
  | inr misfit ↦ rw misfit v
]
