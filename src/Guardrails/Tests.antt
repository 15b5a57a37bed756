-- ===== src/Guardrails/Tests.antt =====
-- A text that no pattern finds, and a prompt with a medium finding.
use personal_assistant.Common.{
  ℕ, ◌≡◌, refl, ◌↔◌, List, [], ◌∷◌, String, ◌==◌, text_eq, if◌then◌else◌,
}
use personal_assistant.Common.Exec.{ok}
use personal_assistant.Common.Text.{strip_field, count_chars}
use personal_assistant.Guardrails.{
  medium, pii, GuardrailFinding, content_policy_output_patterns, prompt_injection_patterns,
  pii_patterns, guarded_reply, scan_prompt, new_finding, enforce_prompt_scan,
}
use personal_assistant.Guardrails.Laws.{NoHigh, guarded_reply_iff, enforce_prompt-NoHigh}

-- an address is found at the start of the text
abbrev finditer : String → String → List (ℕ × ℕ)
finditer label text = if label == "email" then (0, 5) ∷ [] else []

abbrev address : GuardrailFinding
address = record {
  category = pii;
  severity = medium;
  label = "email";
  start = 0;
  end = 5;
  excerpt = "a@b.c";
}

address_found : scan_prompt finditer "a@b.c" ≡ ok (address ∷ [])
unfolding scan_prompt new_finding strip_field count_chars
address_found = refl

address_passes : enforce_prompt_scan (address ∷ []) ≡ ok tt
unfolding enforce_prompt_scan
address_passes = refl

enforce_prompt-NoHigh_example :
    NoHigh finditer "a@b.c" prompt_injection_patterns × NoHigh finditer "a@b.c" pii_patterns
enforce_prompt-NoHigh_example =
    enforce_prompt-NoHigh finditer "a@b.c" {fs = address ∷ []} address_found address_passes

guarded_reply_iff_example :
    (guarded_reply finditer "hola" ≡ ok "hola")
    ↔ ((◌≡◌ {A = String} "hola" "hola") × NoHigh finditer "hola" content_policy_output_patterns)
guarded_reply_iff_example = guarded_reply_iff finditer "hola" "hola"
