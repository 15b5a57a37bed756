-- ===== src/Calendar/Laws.antt =====
-- `create_event` of `LocalCalendarTool`
-- (src/personal_assistant/adapters/outbound/calendar/local.py): its guard and its replay.
use text.Mathlib.TextEquality.{eq_iff}
use Prim.Native.String.{◌++◌}
use personal_assistant.Common.{
  ◌≤◌, ◌≡◌, ◌≢◌, refl, inl, inr, ◌⊎◌, true, false, Option, none, some, String, arith, Bool-cases,
  Option-cases, ◌==◌, text_eq, pair_eq,
}
use personal_assistant.Common.Exec.{
  Exn, Result, ok, err, assistant, conflict, value_error, key_error, err-ne-ok, Result-cases,
}
use personal_assistant.Common.Dict.{get, get-put_self, get-put_ne}
use personal_assistant.Common.Index.{Key, is_taken}
use personal_assistant.Common.Time.{Instant}
use personal_assistant.Permissions.{Principal, ApprovalGrant, PermissionDecision, is_trusted}
use personal_assistant.Permissions.Tiers.{p3, rank}
use personal_assistant.Permissions.Approval.{require_approval}
use personal_assistant.Permissions.Laws.{Covers, require_approval_sound}
use personal_assistant.Calendar.{
  CalendarEventRequest, CalendarEventResult, Calendar, event_id_or, new_result, store_result,
  reuse_or_create, create_event,
}

module _ (zone : String → Option String) (fingerprint : CalendarEventRequest → String)
    (p : Principal) (r : CalendarEventRequest) where
  -- The key was free. The event is now stored under it, with the title and the time of the request,
  -- and what is stored under other keys is as it was.
  abbrev pub IsCreated : CalendarEventResult → Calendar → Calendar → Type 0
  IsCreated e s s' =
      (get (p.tenant_id, r.idempotency_key) s.events ≡ none)
      × (get (p.tenant_id, r.idempotency_key) s'.events ≡ some e)
      × (e.title ≡ r.title)
      × (e.starts_at ≡ r.starts_at)
      × (e.reused ≡ false)
      × ((k : Key) → (p.tenant_id, r.idempotency_key) ≢ k → get k s'.events ≡ get k s.events)

  -- the event was there, and nothing changes
  abbrev pub IsReused : CalendarEventResult → Calendar → Calendar → Type 0
  IsReused e s s' =
      (stored : CalendarEventResult) × (get (p.tenant_id, r.idempotency_key) s.events ≡ some stored)
      × (e ≡ record stored { reused = true })
      × (s' ≡ s)

  abbrev pub Raises : Result CalendarEventResult × Calendar → Calendar → Type 0
  Raises x s = (error : Exn) × (x ≡ (err error, s))

  abbrev pub Returns : Result CalendarEventResult × Calendar → Calendar → Type 0
  Returns x s = (e : CalendarEventResult) × (x.0 ≡ ok e) × (IsCreated e s x.1 ⊎ IsReused e s x.1)

  reuse_or_create-cases :
      (print id : String) (s : Calendar)
      → let x =
          reuse_or_create zone p r print id (get (p.tenant_id, r.idempotency_key) s.events) s in
        Raises x s ⊎ Returns x s
  reuse_or_create-cases print id s =
      elim (Option-cases (get (p.tenant_id, r.idempotency_key) s.events)) [
        | inl fresh ↦
            elim (Bool-cases
              (is_taken (get (p.tenant_id, id) s.key_by_event_id) r.idempotency_key)) [
                | inl used ↦ inl (assistant conflict, rw (fresh, used) refl)
                | inr free ↦ elim (Option-cases (zone r.timezone)) [
                  | inl unknown ↦ inl (value_error, rw (fresh, free, unknown) refl)
                  | inr (z, known) ↦ inr (
                    new_result r id z,
                    rw (fresh, free, known) refl,
                    inl (
                      fresh,
                      rw (fresh, free, known)
                          (get-put_self (p.tenant_id, r.idempotency_key) (new_result r id z)
                            s.events),
                      refl,
                      refl,
                      refl,
                      λ k ne.
                          rw (fresh, free, known)
                            (get-put_ne (p.tenant_id, r.idempotency_key) k (new_result r id z)
                              s.events ne),
                    ),
                  )
                ]
              ]
        | inr (stored, found) ↦
            elim (Option-cases (get (p.tenant_id, r.idempotency_key) s.fingerprints)) [
              | inl none_there ↦ inl (key_error, rw (found, none_there) refl)
              | inr (old, printed) ↦ elim (Bool-cases (old == print)) [
                | inr other ↦ inl (assistant conflict, rw (found, printed, other) refl)
                | inl same ↦ inr (
                  record stored { reused = true },
                  rw (found, printed, same) refl,
                  inr (stored, found, refl, rw (found, printed, same) refl),
                )
              ]
            ]
      ]

  -- Every call of `create_event` either raises and leaves the calendar as it was, or it was
  -- approved: a trusted principal of tier P3 or above, with a grant that covers the creation of an
  -- event under this very idempotency key at this moment. Then it returns a new event with the title
  -- and the time of the request, which it has stored under the key where none was, with all other
  -- events as they were; or it returns the event that was stored there, marked as reused, and
  -- changes nothing.
  pub calendar_guarded :
      (uuid : String) (now : Instant) (approval : Option ApprovalGrant) (s : Calendar)
      → Raises (create_event zone fingerprint uuid now p r approval s) s
        ⊎ (Returns (create_event zone fingerprint uuid now p r approval s) s
            × (is_trusted p ≡ true)
            × (3 ≤ rank p.permission_tier)
            × ((a : ApprovalGrant) × (approval ≡ some a)
                × Covers a p p3 "calendar.create_event" r.idempotency_key none now))
  unfolding create_event
  calendar_guarded uuid now approval s =
      elim (Result-cases
        (require_approval p p3 approval "calendar.create_event" r.idempotency_key none now)) [
          | inl (x, refused) ↦ inl (x, rw refused refl)
          | inr (d, passed) ↦ elim (reuse_or_create-cases _ _ s) [
            | inl (x, raised) ↦ inl (x, rw passed raised)
            | inr returned ↦
                let (known, high, form, grant) =
                  require_approval_sound p p3 approval "calendar.create_event" r.idempotency_key
                    none now {d = d} (omega arith) passed in
                inr (rw passed returned, known, high, grant)
          ]
        ]

  -- The second time the event is found, with the same fingerprint.
  reuse_again :
      (print id id' : String) (s : Calendar) (e : CalendarEventResult)
      → (reuse_or_create zone p r print id (get (p.tenant_id, r.idempotency_key) s.events) s).0
        ≡ ok e
      → let s' =
          (reuse_or_create zone p r print id (get (p.tenant_id, r.idempotency_key) s.events) s).1 in
        reuse_or_create zone p r print id' (get (p.tenant_id, r.idempotency_key) s'.events) s'
        ≡ (ok (record e { reused = true }), s')
  reuse_again print id id' s e h =
      elim (Option-cases (get (p.tenant_id, r.idempotency_key) s.events)) [
        | inl fresh ↦
            elim (Bool-cases
              (is_taken (get (p.tenant_id, id) s.key_by_event_id) r.idempotency_key)) [
                | inl used ↦ absurd (err-ne-ok (rw (fresh, used) at h))
                | inr free ↦ elim (Option-cases (zone r.timezone)) [
                  | inl unknown ↦ absurd (err-ne-ok (rw (fresh, free, unknown) at h))
                  | inr (z, known) ↦
                      let e' : ◌≡◌ {A = Result CalendarEventResult} (ok (new_result r id z))
                          (ok e) =
                        rw (fresh, free, known) at h in
                      let f : new_result r id z ≡ e = ground arith in
                      rw
                        (
                          fresh,
                          free,
                          known,
                          get-put_self (p.tenant_id, r.idempotency_key) (new_result r id z)
                              s.events,
                          get-put_self (p.tenant_id, r.idempotency_key) print s.fingerprints,
                          (eq_iff print print).1 refl,
                        )
                        (λ i. (
                          ok (record (f i) { reused = true }),
                          store_result p.tenant_id (new_result r id z) print s,
                        ))
                ]
              ]
        | inr (existing, stored) ↦
            elim (Option-cases (get (p.tenant_id, r.idempotency_key) s.fingerprints)) [
              | inl missing ↦ absurd (err-ne-ok (rw (stored, missing) at h))
              | inr (old, there) ↦ elim (Bool-cases (old == print)) [
                | inr differs ↦ absurd (err-ne-ok (rw (stored, there, differs) at h))
                | inl equal ↦
                    let e' : ◌≡◌ {A = Result CalendarEventResult}
                        (ok (record existing { reused = true })) (ok e) =
                      rw (stored, there, equal) at h in
                    let f : record existing { reused = true } ≡ e = ground arith in
                    rw (stored, there, equal, stored, there, equal)
                      (λ i. (ok (record (f i) { reused = true }), s))
              ]
            ]
      ]

  -- A call that returns an event returns the same event as reused, and changes nothing, when it is
  -- made once more with any grant that passes then, whatever `uuid4` gives.
  create_event_again :
      (uuid uuid' : String) (now later : Instant) (approval approval' : Option ApprovalGrant)
      (s : Calendar) {e : CalendarEventResult} {d : PermissionDecision}
      → (create_event zone fingerprint uuid now p r approval s).0 ≡ ok e
      → require_approval p p3 approval' "calendar.create_event" r.idempotency_key none later ≡ ok d
      → let s' = (create_event zone fingerprint uuid now p r approval s).1 in
        create_event zone fingerprint uuid' later p r approval' s'
        ≡ (ok (record e { reused = true }), s')
  unfolding create_event
  create_event_again uuid uuid' now later approval approval' s {e} {d} h passes =
      elim (Result-cases
        (require_approval p p3 approval "calendar.create_event" r.idempotency_key none now)) [
          | inl (x, refused) ↦ absurd (err-ne-ok (rw refused at h))
          | inr (d', passed) ↦
              rw (passed, passes)
                (reuse_again (fingerprint (record r { event_id = none }))
                  (event_id_or r.event_id ("cal_" ++ uuid))
                  (event_id_or r.event_id ("cal_" ++ uuid')) s e (rw passed at h))
        ]
