-- ===== src/Commands/Text.antt =====
-- How the router reads the text of a message: `_looks_like_reminder`, `_extract_reminder_text`,
-- `_workflow_text_from_inferred_reminder` and `_approval_id`
-- (src/personal_assistant/application/use_cases/commands.py).
use Prim.Native.Char.{code}
use Prim.Native.Nat.{suc, zero}
use Prim.Native.String.{◌++◌}
use personal_assistant.Common.{
  ℕ, Bool, true, false, ◌&&◌, ◌||◌, Option, none, some, List, [], ◌∷◌, String, nat_eq,
  if◌then◌else◌,
}
use personal_assistant.Common.Text.{strip, strip_left, is_space, is_empty}
use personal_assistant.Guardrails.{slice}

-- `s.startswith(prefix)`, the prefix first
unfoldable pub starts_with : String → String → Bool
starts_with String.[] s = true
starts_with (String.◌∷◌ c prefix) String.[] = false
starts_with (String.◌∷◌ c prefix) (String.◌∷◌ d s) =
    nat_eq (code c) (code d) && starts_with prefix s

-- `needle in s`
unfoldable pub contains : String → String → Bool
unfolding starts_with
contains needle String.[] = starts_with needle String.[]
contains needle (String.◌∷◌ c s) = starts_with needle (String.◌∷◌ c s) || contains needle s

-- `s[n:]`
unfoldable pub drop_chars : ℕ → String → String
drop_chars zero s = s
drop_chars (suc n) String.[] = String.[]
drop_chars (suc n) (String.◌∷◌ c s) = drop_chars n s

-- what follows the first word
unfoldable pub drop_word : String → String
drop_word String.[] = String.[]
drop_word (String.◌∷◌ c s) =
    let rest = drop_word s in if is_space (code c) then String.◌∷◌ c s else rest

-- the second of the two parts of `s.split(maxsplit=1)`, if there are two
unfoldable pub second_part : String → Option String
unfolding drop_word strip_left is_space
second_part s =
    let rest = strip_left is_space (drop_word (strip_left is_space s)) in
    if is_empty rest then none else some rest

abbrev pub reminder_prefixes : List String
reminder_prefixes =
    "/recordar " ∷ "recuérdame " ∷ "recuerdame " ∷ "recordarme " ∷ "puedes recordarme "
    ∷ "podrías recordarme " ∷ "necesito que me recuerdes " ∷ "quiero que me recuerdes "
    ∷ "me recuerdas " ∷ "me recuerdes " ∷ "agéndame " ∷ "agendame " ∷ "agendarme " ∷ "agenda "
    ∷ "agendar " ∷ "avísame " ∷ "avisame " ∷ "me avisas " ∷ "me puedes avisar " ∷ []

abbrev pub starts_with_any : List String → String → Bool
starts_with_any [] s = false
starts_with_any (prefix ∷ prefixes) s = starts_with prefix s || starts_with_any prefixes s

module _ (lower : String → String) where
  unfoldable pub looks_like_reminder : String → Bool
  unfolding starts_with contains
  looks_like_reminder text =
      let normalized = lower (strip text) in
      starts_with_any reminder_prefixes normalized
      || (contains "cita" normalized && contains "las " normalized)

  abbrev pub text_or_empty : Option String → String
  text_or_empty none = ""
  text_or_empty (some s) = strip s

  unfoldable pub extract_reminder_text : String → String
  unfolding starts_with second_part drop_chars
  extract_reminder_text text =
      let stripped = strip text in
      if starts_with "/recordar " (lower stripped)
      then strip (drop_chars 10 stripped)
      else if starts_with "/" (lower stripped)
      then text_or_empty (second_part stripped)
      else stripped

unfoldable pub workflow_text : String → String → String
workflow_text original reminder_text =
    if is_empty (strip reminder_text) then original else "recordatorio " ++ strip reminder_text

-- `_approval_id`: ten digits of a hash
unfoldable pub approval_id_of : (String → String) → String → String → String → String
unfolding slice
approval_id_of sha256 tenant_id principal_id key =
    "ap_" ++ slice (sha256 (tenant_id ++ ":" ++ principal_id ++ ":" ++ key)) 0 10
