-- ===== src/Outbox/Claim/Picked.antt =====
-- The entries that `claim_due` picks: due, stored, and of different keys.
use personal_assistant.Common.{
  ℕ, ◌≡◌, Bool, true, Option, List, String, select, All, text_eq, pair_eq,
}
use personal_assistant.Common.Entries.{
  StoredIn, own-StoredIn, Unique, Unique-sort_by, Unique-select, Unique-take, Distinct-Unique,
  All-select, All-take, select-passes,
}
use personal_assistant.Common.Dict.{get}
use personal_assistant.Common.Sort.{sort_by, All-sort_by}
use personal_assistant.Common.Time.{Instant}
use personal_assistant.Common.{some}
use personal_assistant.Permissions.{Principal}
use personal_assistant.Outbox.{Outbox}
use personal_assistant.Outbox.Invariant.{IsValid}
use personal_assistant.Outbox.Claim.{Entry, comes_first, is_due}
use personal_assistant.Outbox.Claim.Spec.{picked}

module _ (p : Principal) (now : Instant) (limit : ℕ) (event_type : Option String) (o : Outbox)
    (v : IsValid o) where
  abbrev ordered : List Entry
  ordered = sort_by comes_first o.messages

  abbrev due : Entry → Bool
  due = is_due p now event_type

  pub picked-Unique : Unique (picked p now limit event_type o)
  picked-Unique = Unique-take limit (select due ordered) (
      Unique-select due ordered
        (Unique-sort_by comes_first o.messages (Distinct-Unique o.messages v.keys)))

  abbrev IsStored : Entry → Type 0
  IsStored e = get e.0 o.messages ≡ some e.1

  pub picked-StoredIn : StoredIn o.messages (picked p now limit event_type o)
  picked-StoredIn = All-take IsStored limit (select due ordered) (
      All-select IsStored due ordered
        (All-sort_by comes_first IsStored o.messages (own-StoredIn o.messages v.keys)))

  pub picked-due : All (λ e. is_due p now event_type e ≡ true) (picked p now limit event_type o)
  picked-due =
      All-take (λ e. is_due p now event_type e ≡ true) limit (select due ordered)
        (select-passes due ordered)
