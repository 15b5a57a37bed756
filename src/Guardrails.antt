-- ===== src/Guardrails.antt =====
-- The guardrails on prompts and on assistant output
-- (src/personal_assistant/domain/common/guardrails.py) and how the use cases enforce a scan
-- (src/personal_assistant/application/use_cases/runtime.py). The regular expressions are the
-- parameter `finditer`: the start and end of each match of the pattern with this label.
pub mod Laws
mod Tests
use Prim.Native.Char.{Char, code}
use personal_assistant.Common.{
  ℕ, zero, suc, ◌+◌, ◌-◌, Bool, true, false, ◌&&◌, ◌||◌, List, [], ◌∷◌, ◌++◌, String, leb, nat_eq,
  if◌then◌else◌,
}
use personal_assistant.Common.Exec.{
  Exn, ErrorCode, Result, ok, err, assistant, value_error, guardrail_blocked, pii_detected,
  prompt_injection_detected,
}
use personal_assistant.Common.Pure
use personal_assistant.Common.Pure.{◌>>=◌, ◌>>◌}
use personal_assistant.Common.Text.{strip_field, count_chars}

pub data GuardrailCategory : Type 0 where
  prompt_injection pii content_policy : GuardrailCategory

pub data GuardrailSeverity : Type 0 where
  low medium high : GuardrailSeverity

pub record GuardrailFinding : Type 0 where
  pub category : GuardrailCategory
  pub severity : GuardrailSeverity
  pub label : String
  pub start : ℕ
  pub end : ℕ
  pub excerpt : String

-- `finding.severity == GuardrailSeverity.HIGH`
abbrev pub is_high : GuardrailSeverity → Bool
is_high high = true
is_high _ = false

-- `GuardrailResult.blocked`
abbrev pub is_blocked : List GuardrailFinding → Bool
is_blocked [] = false
is_blocked (f ∷ fs) = is_high f.severity || is_blocked fs

abbrev pub Patterns : Type 0
Patterns = List (String × GuardrailSeverity)

abbrev pub prompt_injection_patterns : Patterns
prompt_injection_patterns =
    ("ignore_instructions", high)
    ∷ ("reveal_system_prompt", high)
    ∷ ("jailbreak", high)
    ∷ ("tool_exfiltration", high)
    ∷ []

abbrev pub pii_patterns : Patterns
pii_patterns = ("email", medium) ∷ ("phone", medium) ∷ ("ssn", high) ∷ ("credit_card", high) ∷ []

abbrev pub content_policy_input_patterns : Patterns
content_policy_input_patterns =
    ("cp_in_001_violent_threat", medium) ∷ ("cp_in_002_secret_sharing", medium) ∷ []

abbrev pub content_policy_output_patterns : Patterns
content_policy_output_patterns =
    ("cp_out_001_credential_material", high)
    ∷ ("cp_out_002_exfiltration_instruction", high)
    ∷ ("cp_out_003_hidden_instruction_leak", high)
    ∷ ("cp_out_004_destructive_action", high)
    ∷ []

-- `text[start:end]` for a start that is not negative
unfoldable pub slice : String → ℕ → ℕ → String
slice String.[] start end = String.[]
slice (String.◌∷◌ c s) (suc start) end = slice s start (end - 1)
slice (String.◌∷◌ c s) zero zero = String.[]
slice (String.◌∷◌ c s) zero (suc end) = String.◌∷◌ c (slice s zero end)

-- `replace("\n", " ")`
unfoldable pub flatten : String → String
flatten String.[] = String.[]
flatten (String.◌∷◌ c s) = String.◌∷◌ (if nat_eq (code c) 10 then " " else c) (flatten s)

-- `_excerpt`: twenty characters on each side, as far as there are any
unfoldable pub excerpt_of : String → ℕ → ℕ → String
unfolding slice flatten
excerpt_of text start end = flatten (slice text (start - 20) (end + 20))

-- the fields are stripped, and an excerpt is at most 160 characters long
unfoldable pub new_finding :
    GuardrailCategory → GuardrailSeverity → String → String → ℕ × ℕ → Result GuardrailFinding
unfolding excerpt_of
new_finding category severity label text (start, end) =
    if leb (count_chars (strip_field (excerpt_of text start end))) 160
    then ok (record {
      category = category;
      severity = severity;
      label = label;
      start = start;
      end = end;
      excerpt = strip_field (excerpt_of text start end);
    })
    else err value_error

module _ (finditer : String → String → List (ℕ × ℕ)) where
  abbrev pub scan_matches :
      GuardrailCategory
      → GuardrailSeverity
      → String
      → String
      → List (ℕ × ℕ)
      → Result (List GuardrailFinding)
  scan_matches category severity label text [] = ok []
  scan_matches category severity label text (m ∷ ms) = do
    finding ← new_finding category severity label text m
    rest ← scan_matches category severity label text ms
    ok (finding ∷ rest)

  -- `for label, pattern, severity in patterns: for match in pattern.finditer(text)`
  abbrev pub scan_patterns : GuardrailCategory → String → Patterns → Result (List GuardrailFinding)
  scan_patterns category text [] = ok []
  scan_patterns category text ((label, severity) ∷ ps) = do
    findings ← scan_matches category severity label text (finditer label text)
    rest ← scan_patterns category text ps
    ok (findings ++ rest)

  unfoldable pub scan_prompt : String → Result (List GuardrailFinding)
  scan_prompt text = do
    injections ← scan_patterns prompt_injection text prompt_injection_patterns
    personal ← scan_patterns pii text pii_patterns
    abuse ← scan_patterns content_policy text content_policy_input_patterns
    ok (injections ++ personal ++ abuse)

  unfoldable pub scan_output : String → Result (List GuardrailFinding)
  scan_output text = scan_patterns content_policy text content_policy_output_patterns

-- `GuardrailCategory.PROMPT_INJECTION.value in categories`
abbrev pub is_injection : GuardrailCategory → Bool
is_injection prompt_injection = true
is_injection _ = false

abbrev pub has_injection : List GuardrailFinding → Bool
has_injection [] = false
has_injection (f ∷ fs) = is_injection f.category || has_injection fs

abbrev pub prompt_code : List GuardrailFinding → ErrorCode
prompt_code fs = if has_injection fs then prompt_injection_detected else pii_detected

unfoldable pub enforce_prompt_scan : List GuardrailFinding → Result (Unit {0})
enforce_prompt_scan fs = if is_blocked fs then err (assistant (prompt_code fs)) else ok tt

unfoldable pub enforce_output_scan : List GuardrailFinding → Result (Unit {0})
enforce_output_scan fs = if is_blocked fs then err (assistant guardrail_blocked) else ok tt

pub data GuardrailAction : Type 0 where
  blocked flagged allowed : GuardrailAction

abbrev pub is_nil : List GuardrailFinding → Bool
is_nil [] = true
is_nil (f ∷ fs) = false

unfoldable pub derive_guardrail_action : List GuardrailFinding → GuardrailAction
derive_guardrail_action fs =
    if is_blocked fs then blocked else if is_nil fs then allowed else flagged

module _ (finditer : String → String → List (ℕ × ℕ)) where
  unfoldable pub assert_prompt_safe : String → Result (List GuardrailFinding)
  unfolding scan_prompt
  assert_prompt_safe text = do
    result ← scan_prompt finditer text
    Pure.raise_if (is_blocked result) (assistant (prompt_code result))
    ok result

  unfoldable pub assert_output_safe : String → Result (List GuardrailFinding)
  unfolding scan_output
  assert_output_safe text = do
    result ← scan_output finditer text
    Pure.raise_if (is_blocked result) (assistant guardrail_blocked)
    ok result

  -- the text, if the scan of it passes: the value of `_guarded_reply`
  unfoldable pub guarded_reply : String → Result String
  unfolding scan_output enforce_output_scan
  guarded_reply text = do result ← scan_output finditer text; enforce_output_scan result; ok text
