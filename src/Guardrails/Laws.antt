-- ===== src/Guardrails/Laws.antt =====
-- What the scans let through.
use personal_assistant.Common.{
  ℕ, List, [], ◌∷◌, ◌++◌, String, true, false, ◌≡◌, refl, ◌∙◌, sym, ap, ◌↔◌, Bool-cases, inl, inr,
  ◌||◌, arith,
}
use personal_assistant.Common.Exec.{ok, ok_inj}
use personal_assistant.Common.Pure.{◌>>◌, bind-ok}
use personal_assistant.Guardrails.{
  GuardrailFinding, GuardrailSeverity, GuardrailCategory, Patterns, is_high, is_blocked,
  scan_matches, scan_patterns, scan_prompt, scan_output, enforce_prompt_scan, enforce_output_scan,
  guarded_reply, new_finding, prompt_injection, pii, content_policy, prompt_injection_patterns,
  pii_patterns, content_policy_input_patterns, content_policy_output_patterns,
}

is_blocked-append :
    (a b : List GuardrailFinding) → is_blocked (a ++ b) ≡ (is_blocked a || is_blocked b)
is_blocked-append [] b = refl
is_blocked-append (f ∷ a) b = ground (arith, is_blocked-append a b)

new_finding-severity :
    (c : GuardrailCategory) (v : GuardrailSeverity) (label text : String) (m : ℕ × ℕ)
    {f : GuardrailFinding}
    → new_finding c v label text m ≡ ok f
    → f.severity ≡ v
unfolding new_finding
new_finding-severity c v label text (start, end) h = ground arith

-- A finding of high severity blocks.
high-blocks :
    (v : GuardrailSeverity) (f : GuardrailFinding) (fs rest : List GuardrailFinding)
    → is_high v ≡ true
    → f.severity ≡ v
    → f ∷ rest ≡ fs
    → is_blocked fs ≡ false
    → ⊥
high-blocks v f fs rest grave s e passes =
    let blocks : is_blocked (f ∷ rest) ≡ true = rw (s, grave) refl in
    let passes' : is_blocked (f ∷ rest) ≡ false = ap is_blocked e ∙ passes in cc

-- Where a whole list passes, its parts do.
append-passes :
    (a b fs : List GuardrailFinding)
    → a ++ b ≡ fs
    → is_blocked fs ≡ false
    → (is_blocked a ≡ false) × (is_blocked b ≡ false)
append-passes a b fs e passes =
    let whole : (is_blocked a || is_blocked b) ≡ false =
      sym (is_blocked-append a b) ∙ ap is_blocked e ∙ passes in
    ground arith

enforce_output-passes :
    (text : String) (fs : List GuardrailFinding) {reply : String}
    → (enforce_output_scan fs >> ok text) ≡ ok reply
    → (reply ≡ text) × (is_blocked fs ≡ false)
unfolding enforce_output_scan
enforce_output-passes text fs {reply} h = elim (Bool-cases (is_blocked fs)) [
  | inl blocked ↦ absurd (refused blocked)
  | inr passes ↦ (same passes, passes)
]
  where
    refused : is_blocked fs ≡ true → ⊥
    refused blocked = ground arith

    same : is_blocked fs ≡ false → reply ≡ text
    same passes = ground arith

enforce_prompt-passes :
    (fs : List GuardrailFinding) → enforce_prompt_scan fs ≡ ok tt → is_blocked fs ≡ false
unfolding enforce_prompt_scan
enforce_prompt-passes fs h = ground arith

module _ (finditer : String → String → List (ℕ × ℕ)) (text : String) where
  -- no pattern of high severity matches
  abbrev pub NoHigh : Patterns → Type 0
  NoHigh [] = Unit
  NoHigh ((label, severity) ∷ ps) = (is_high severity ≡ true → finditer label text ≡ []) × NoHigh ps

  matches-blocked :
      (c : GuardrailCategory) (v : GuardrailSeverity) (label : String) (ms : List (ℕ × ℕ))
      {fs : List GuardrailFinding}
      → is_high v ≡ true
      → scan_matches finditer c v label text ms ≡ ok fs
      → is_blocked fs ≡ false
      → ms ≡ []
  matches-blocked c v label [] grave h open_ = refl
  matches-blocked c v label (m ∷ ms) {fs} grave h passes =
      let (f, found, h') = bind-ok (new_finding c v label text m) _ {b = fs} h in
      let (rest, more, e) = bind-ok (scan_matches finditer c v label text ms) _ {b = fs} h' in
      let s = new_finding-severity c v label text m {f = f} found in
      absurd (high-blocks v f fs rest grave s (ok_inj (f ∷ rest) fs e) passes)

  patterns-pass :
      (c : GuardrailCategory) (ps : Patterns) {fs : List GuardrailFinding}
      → scan_patterns finditer c text ps ≡ ok fs
      → is_blocked fs ≡ false
      → NoHigh ps
  patterns-pass c [] h passes = tt
  patterns-pass c ((label, v) ∷ ps) {fs} h passes =
      let (a, first, h') =
        bind-ok (scan_matches finditer c v label text (finditer label text)) _ {b = fs} h in
      let (b, rest, e) = bind-ok (scan_patterns finditer c text ps) _ {b = fs} h' in
      let (p, q) = append-passes a b fs (ok_inj (a ++ b) fs e) passes in
      (
        λ grave. matches-blocked c v label (finditer label text) {fs = a} grave first p,
        patterns-pass c ps {fs = b} rest q,
      )

  -- A reply goes out exactly if no rule of the output policy matches it, and goes out unchanged.
  pub guarded_reply_iff :
      (reply : String)
      → (guarded_reply finditer text ≡ ok reply)
        ↔ ((reply ≡ text) × NoHigh content_policy_output_patterns)
  unfolding guarded_reply scan_output enforce_output_scan
  guarded_reply_iff reply = (passed, passes)
    where
      passed :
          guarded_reply finditer text ≡ ok reply
          → (reply ≡ text) × NoHigh content_policy_output_patterns
      passed h =
          let (fs, scanned, h') =
            bind-ok (scan_patterns finditer content_policy text content_policy_output_patterns) _
              {b = reply} h in
          let (same, clear) = enforce_output-passes text fs {reply = reply} h' in
          (
            same,
            patterns-pass content_policy content_policy_output_patterns {fs = fs} scanned clear,
          )

      passes :
          (reply ≡ text) × NoHigh content_policy_output_patterns
          → guarded_reply finditer text ≡ ok reply
      passes (same, (a, (b, (c, (d, e))))) = rw (a refl, b refl, c refl, d refl, same) refl

  -- A prompt whose scan is enforced without an error matches no pattern of high severity: no
  -- injection pattern, and neither a social security number nor a card number.
  pub enforce_prompt-NoHigh :
      {fs : List GuardrailFinding}
      → scan_prompt finditer text ≡ ok fs
      → enforce_prompt_scan fs ≡ ok tt
      → NoHigh prompt_injection_patterns × NoHigh pii_patterns
  unfolding scan_prompt
  enforce_prompt-NoHigh {fs} h passes =
      let (a, first, h') =
        bind-ok (scan_patterns finditer prompt_injection text prompt_injection_patterns) _ {b = fs}
          h in
      let (b, second, h'') = bind-ok (scan_patterns finditer pii text pii_patterns) _ {b = fs} h' in
      let (c, third, e) =
        bind-ok (scan_patterns finditer content_policy text content_policy_input_patterns) _
          {b = fs} h'' in
      let (ab, _) =
        append-passes (a ++ b) c fs (ok_inj (a ++ b ++ c) fs e) (enforce_prompt-passes fs passes) in
      let (p, q) = append-passes a b (a ++ b) refl ab in
      (
        patterns-pass prompt_injection prompt_injection_patterns {fs = a} first p,
        patterns-pass pii pii_patterns {fs = b} second q,
      )
