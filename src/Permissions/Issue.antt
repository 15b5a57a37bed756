-- ===== src/Permissions/Issue.antt =====
-- Grants that the runtime issues are accepted for the call they were issued for, and a
-- permission that holds at one tier holds at every lower one.
use personal_assistant.Common.{
  ◌≤◌, ◌<◌, ◌≡◌, refl, sym, subst, true, Option, none, some, List, [], ◌∷◌, String, arith, text_eq,
}
use personal_assistant.Common.Exec.{ok}
use personal_assistant.Common.Text.{strip_field}
use personal_assistant.Common.Time.{Instant, Datetime, naive, aware}
use personal_assistant.Permissions.Tiers.{PermissionTier, rank}
use personal_assistant.Permissions.{
  Principal, PermissionRequest, ApprovalGrant, Permission, granted, legacy, any_satisfies,
  satisfies, decide_grant, evaluate_permission, canonical_expiry, trusted_grant, issue, strip_hash,
}
use personal_assistant.Permissions.Laws.{Covers, Unexpired, MatchesHash}

-- A text with no blank space at its ends.
abbrev pub IsStripped : String → Type 0
IsStripped s = strip_field s ≡ s

same_hash : (h : Option String) → strip_hash h ≡ h → MatchesHash h (strip_hash h)
same_hash none e = tt
same_hash (some h) e = e

-- The expiry that the caller asks for, if any, is aware and not yet reached.
abbrev pub ExpiresAfter : Instant → Option Datetime → Type 0
ExpiresAfter now none = Unit
ExpiresAfter now (some (naive t)) = ⊥
ExpiresAfter now (some (aware t)) = now < t

expiry-Unexpired :
    (now : Instant) (expires : Option Datetime)
    → ExpiresAfter now expires
    → (expiry : Option Instant) × (canonical_expiry expires ≡ ok expiry) × Unexpired expiry now
expiry-Unexpired now none h = (none, refl, tt)
expiry-Unexpired now (some (naive t)) h = absurd h
expiry-Unexpired now (some (aware t)) h = (some t, refl, h)

issue_from :
    (p : Principal) (tier : PermissionTier) (action resource id : String)
    (expires : Option Datetime) {expiry : Option Instant} (hash : Option String) {a : ApprovalGrant}
    → issue p action tier resource id expires hash ≡ ok a
    → canonical_expiry expires ≡ ok expiry
    → a ≡ trusted_grant p action tier resource id expiry hash
unfolding issue
issue_from p tier action resource id expires hash h e = ground arith

-- A grant that `issue` returns covers the call that it was issued for, at every tier up to its
-- own and until it expires, if the texts have no blank space at their ends.
pub issue-Covers :
    (p : Principal) (required tier : PermissionTier) (action resource id : String)
    (expires : Option Datetime) (hash : Option String) (now : Instant) {a : ApprovalGrant}
    → issue p action tier resource id expires hash ≡ ok a
    → IsStripped p.tenant_id
    → IsStripped p.principal_id
    → IsStripped action
    → IsStripped resource
    → strip_hash hash ≡ hash
    → rank required ≤ rank tier
    → ExpiresAfter now expires
    → Covers a p required action resource hash now
issue-Covers p required tier action resource id expires hash now h st sp sa sr sh le after =
    let (expiry, e, unexpired) = expiry-Unexpired now expires after in
    subst (λ a. Covers a p required action resource hash now)
      (sym (issue_from p tier action resource id expires hash h e))
      (record {
        from_runtime = refl;
        approved = refl;
        same_tenant = st;
        same_principal = sp;
        same_action = sa;
        same_resource = sr;
        high_enough = le;
        unexpired = unexpired;
        same_hash = same_hash hash sh;
      })

satisfies_lower :
    (name : String) (low high : PermissionTier) (g : Permission)
    → rank low ≤ rank high
    → satisfies name high g ≡ true
    → satisfies name low g ≡ true
satisfies_lower name low high (granted g) le h = ground arith
satisfies_lower name low high (legacy text) le h = h

any_satisfies_lower :
    (name : String) (low high : PermissionTier) (gs : List Permission)
    → rank low ≤ rank high
    → any_satisfies name high gs ≡ true
    → any_satisfies name low gs ≡ true
unfolding any_satisfies
any_satisfies_lower name low high [] le h = h
any_satisfies_lower name low high (g ∷ gs) le h =
    ground (arith, satisfies_lower name low high g le, any_satisfies_lower name low high gs le)

decide_grant_lower :
    (p : Principal) (request : PermissionRequest) (low : PermissionTier) (name : Option String)
    → rank low ≤ rank request.required_tier
    → (decide_grant p request name).allowed ≡ true
    → (decide_grant p (record request { required_tier = low }) name).allowed ≡ true
decide_grant_lower p request low none le h = refl
decide_grant_lower p request low (some name) le h =
    any_satisfies_lower name low request.required_tier p.permissions le h

-- A request that is allowed stays allowed when only its required tier is lowered.
evaluate_permission_lower :
    (p : Principal) (request : PermissionRequest) (low : PermissionTier)
    → rank low ≤ rank request.required_tier
    → (evaluate_permission p request).allowed ≡ true
    → (evaluate_permission p (record request { required_tier = low })).allowed ≡ true
unfolding evaluate_permission
evaluate_permission_lower p request low le h =
    ground (arith, decide_grant_lower p request low request.permission le)
