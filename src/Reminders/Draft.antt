-- ===== src/Reminders/Draft.antt =====
-- The draft in a workflow's data.
use personal_assistant.Common.{Option, none, some, String, ◌≡◌, refl, text_eq}
use personal_assistant.Common.Exec.{ok}
use personal_assistant.Common.Pure.{◌>>=◌}
use personal_assistant.Common.Dict.{Dict, get, get-put}
use personal_assistant.Common.Time.{Instant, aware}
use personal_assistant.Events.{Json, text, other}
use personal_assistant.Workflows.{update}
use personal_assistant.Reminders.{
  ReminderExtraction, ReminderDraft, Codec, validate_extraction, draft_of, from_extraction,
  to_extraction, moment_value, read_optional, to_workflow_data, from_mapping,
}

module _ (codec : Codec) (zone : String → Option String) (e : ReminderExtraction) where
  -- pydantic reads what was written for the extraction
  pub record IsReadBack : Type 0 where
    pub start : codec.read_datetime (text (codec.isoformat e.starts_at)) ≡ some (aware e.starts_at)
    pub notice :
        (t : Instant)
        → e.notify_at ≡ some t
        → codec.read_datetime (text (codec.isoformat t)) ≡ some (aware t)
    pub confidence : codec.read_confidence (other e.confidence) ≡ some e.confidence

  merged :
      (d : ReminderDraft) (content : Dict String Json)
      → let c = update (to_workflow_data codec d) content in
        (get "title" c ≡ some (text d.title))
        × (get "timezone" c ≡ some (text d.timezone))
        × (get "starts_at" c ≡ some (text (codec.isoformat d.starts_at)))
        × (get "notify_at" c ≡ some (moment_value codec d.notify_at))
        × (get "confidence" c ≡ some (other d.confidence))
  unfolding update to_workflow_data
  merged d content = (simp get-put, simp get-put, simp get-put, simp get-put, simp get-put)

  read_notice :
      (o : Option Instant)
      → ((t : Instant)
          → o ≡ some t
          → codec.read_datetime (text (codec.isoformat t)) ≡ some (aware t))
      → read_optional codec (some (moment_value codec o)) ≡ ok o
  read_notice none h = refl
  read_notice (some t) h = rw (h t refl) refl

  -- What a run before approval writes for a valid extraction is what the approved run reads: over
  -- any data that the workflow held, if pydantic reads the datetimes and the confidence back.
  pub draft_kept :
      (content : Dict String Json)
      → validate_extraction zone e ≡ ok e
      → IsReadBack
      → (from_extraction zone e ≡ ok (draft_of zone e))
        × ((from_mapping codec zone (update (to_workflow_data codec (draft_of zone e)) content)
              >>= to_extraction zone)
            ≡ ok e)
  unfolding from_extraction to_extraction from_mapping
  draft_kept content valid back =
      let (title, timezone, start, notice, confidence) = merged (draft_of zone e) content in
      (
        rw valid refl,
        rw
            (
              title,
              timezone,
              start,
              notice,
              confidence,
              back.start,
              back.confidence,
              read_notice e.notify_at back.notice,
              valid,
              valid,
            )
            refl,
      )
