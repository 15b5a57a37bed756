-- ===== src/Permissions.antt =====
-- Permission tiers, principals, permission requests and approval grants
-- (src/personal_assistant/domain/common/permissions.py and identity.py). A principal stands here,
-- below the checks that read it. The clock of `require_approval` is the argument `now`.
pub mod Tiers
pub mod Approval
pub mod Laws
pub mod Issue
pub mod Sample
mod Tests
use personal_assistant.Common.{
  ℕ, Bool, true, false, not, ◌&&◌, ◌||◌, Option, none, some, List, [], ◌∷◌, ◌++◌, String, leb, ltb,
  is_some, is_none, ◌==◌, text_eq, if◌then◌else◌,
}
use personal_assistant.Common.Exec.{
  Exec, Result, ok, err, assistant, authentication_required, permission_denied, value_error,
  raise_if,
}
use personal_assistant.Common.Pure
use personal_assistant.Common.Pure.{◌>>=◌, ◌>>◌}
use personal_assistant.Common.Text.{strip, strip_field, is_empty, count_chars}
use personal_assistant.Common.Time.{Instant, Datetime, naive, aware}
use Tiers.{PermissionTier, p0, p3, rank, allows}

pub record PermissionGrant : Type 0 where
  pub name : String
  pub tier : PermissionTier

-- A permission of a principal-like object: a grant, or an item of another class, which is known
-- by `str(item).strip().lower()`.
pub data Permission : Type 0 where
  granted : PermissionGrant → Permission
  legacy : String → Permission

-- `trusted_source` is the private attribute `_trusted_source`.
pub record Principal : Type 0 where
  pub principal_id : String
  pub tenant_id : String
  pub auth_subject : String
  pub auth_provider : Option String
  pub permission_tier : PermissionTier
  pub permissions : List Permission
  pub scopes : List String
  pub trusted_source : Option String

abbrev pub is_trusted : Principal → Bool
is_trusted p = is_some p.trusted_source

unfoldable pub mark_trusted : Principal → String → Result Principal
mark_trusted p source =
    if is_empty (strip source)
    then err value_error
    else ok (record p { trusted_source = some source })

-- `require_trusted_principal`, within a method of any object
abbrev pub require_trusted_principal {ℓ} : {S : Type ℓ} → Principal → Exec S (Unit {0})
require_trusted_principal p = raise_if (not (is_trusted p)) (assistant authentication_required)

-- `permission` is normalized already.
pub record PermissionRequest : Type 0 where
  pub action : String
  pub resource : String
  pub required_tier : PermissionTier
  pub permission : Option String

-- the length limits of a stripped text field
unfoldable pub has_length : ℕ → ℕ → String → Bool
has_length low high s = leb low (count_chars s) && leb (count_chars s) high

-- `PermissionRequest(action=…, resource=…, required_tier=…)`, as every caller writes it. The case
-- folding of the two texts is left out, since no check reads them.
unfoldable pub permission_request : String → String → PermissionTier → Result PermissionRequest
permission_request action resource tier = do
  Pure.raise_if (not (has_length 1 120 (strip_field action))) value_error
  Pure.raise_if (not (has_length 1 200 (strip_field resource))) value_error
  Pure.raise_if (is_empty (strip (strip_field action))) value_error
  Pure.raise_if (is_empty (strip (strip_field resource))) value_error
  ok (record {
    action = strip (strip_field action);
    resource = strip (strip_field resource);
    required_tier = tier;
    permission = none;
  })

pub data Reason : Type 0 where
  unverified tier_too_low tier_satisfied grant_satisfied missing_grant : Reason

pub record PermissionDecision : Type 0 where
  pub allowed : Bool
  pub required_tier : PermissionTier
  pub principal_tier : PermissionTier
  pub reason : Reason

-- one round of the two scans over the permissions
abbrev pub satisfies : String → PermissionTier → Permission → Bool
satisfies name required (granted g) = g.name == name && allows g.tier required
satisfies name required (legacy text) = text == name

unfoldable pub any_satisfies : String → PermissionTier → List Permission → Bool
any_satisfies name required [] = false
any_satisfies name required (g ∷ gs) = satisfies name required g || any_satisfies name required gs

abbrev pub decide_grant : Principal → PermissionRequest → Option String → PermissionDecision
decide_grant p request none = record {
  allowed = true;
  required_tier = request.required_tier;
  principal_tier = p.permission_tier;
  reason = tier_satisfied;
}
decide_grant p request (some name) =
    let allowed = any_satisfies name request.required_tier p.permissions in
    record {
      allowed = allowed;
      required_tier = request.required_tier;
      principal_tier = p.permission_tier;
      reason = if allowed then grant_satisfied else missing_grant;
    }

unfoldable pub evaluate_permission : Principal → PermissionRequest → PermissionDecision
evaluate_permission p request =
    if not (is_trusted p)
    then record {
      allowed = false;
      required_tier = request.required_tier;
      principal_tier = p0;
      reason = unverified;
    }
    else if not (allows p.permission_tier request.required_tier)
    then record {
      allowed = false;
      required_tier = request.required_tier;
      principal_tier = p.permission_tier;
      reason = tier_too_low;
    }
    else decide_grant p request request.permission

unfoldable pub require_permission : Principal → PermissionRequest → Result PermissionDecision
require_permission p request =
    let decision = evaluate_permission p request in
    if not decision.allowed then err (assistant permission_denied) else ok decision

pub record ApprovalGrant : Type 0 where
  pub approval_id : String
  pub tenant_id : String
  pub principal_id : String
  pub action : String
  pub resource : String
  pub tier : PermissionTier
  pub approved : Bool
  pub expires_at : Option Instant
  pub request_hash : Option String
  pub trusted_source : Option String

-- `validate_expiry_timezone`
abbrev pub canonical_expiry : Option Datetime → Result (Option Instant)
canonical_expiry none = ok none
canonical_expiry (some (naive t)) = err value_error
canonical_expiry (some (aware t)) = ok (some t)

abbrev pub strip_hash : Option String → Option String
strip_hash none = none
strip_hash (some s) = some (strip_field s)

-- the grant that `issue` builds, its texts stripped by the model
abbrev pub trusted_grant :
    Principal
    → String
    → PermissionTier
    → String
    → String
    → Option Instant
    → Option String
    → ApprovalGrant
trusted_grant p action tier resource approval_id expiry request_hash = record {
  approval_id = strip_field approval_id;
  tenant_id = strip_field p.tenant_id;
  principal_id = strip_field p.principal_id;
  action = strip_field action;
  resource = strip_field resource;
  tier = tier;
  approved = true;
  expires_at = expiry;
  request_hash = strip_hash request_hash;
  trusted_source = some "trusted_runtime";
}

-- `ApprovalGrant.issue`, the one place that sets the trusted source
unfoldable pub issue :
    Principal
    → String
    → PermissionTier
    → String
    → String
    → Option Datetime
    → Option String
    → Result ApprovalGrant
issue p action tier resource approval_id expires_at request_hash = do
  Pure.raise_if (is_empty (strip_field approval_id)) value_error
  Pure.raise_if (is_empty (strip_field p.tenant_id)) value_error
  Pure.raise_if (is_empty (strip_field p.principal_id)) value_error
  Pure.raise_if (is_empty (strip_field action)) value_error
  Pure.raise_if (is_empty (strip_field resource)) value_error
  expiry ← canonical_expiry expires_at
  ok (trusted_grant p action tier resource approval_id expiry request_hash)
