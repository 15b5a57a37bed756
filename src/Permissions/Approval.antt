-- ===== src/Permissions/Approval.antt =====
-- `require_approval` (src/personal_assistant/domain/common/permissions.py): the errors of an
-- approval grant, collected in the order of the source, and the check that raises on any.
use personal_assistant.Common.{
  ◌≡◌, refl, arith, Bool, true, false, not, Option, none, some, List, [], ◌∷◌, String, leb, ltb,
  is_some, ◌==◌, text_eq, if◌then◌else◌,
}
use personal_assistant.Common.Exec.{Result, ok, err, assistant, permission_denied}
use personal_assistant.Common.Pure.{◌>>=◌}
use personal_assistant.Common.Time.{Instant}
use personal_assistant.Permissions.Tiers.{PermissionTier, p3, rank, allows}
use personal_assistant.Permissions.{
  Principal, PermissionDecision, ApprovalGrant, permission_request, require_permission,
}

pub data ApprovalError : Type 0 where
  not_trusted not_approved tenant_mismatch principal_mismatch action_mismatch : ApprovalError
  resource_mismatch tier_low expired request_hash_mismatch : ApprovalError

unfoldable pub note : Bool → ApprovalError → List ApprovalError → List ApprovalError
note test e errors = if test then e ∷ errors else errors

-- No error is noted exactly if the test fails and none is noted behind it.
pub note-nil :
    (test : Bool) (e : ApprovalError) (errors : List ApprovalError)
    → note test e errors ≡ []
    → (test ≡ false) × (errors ≡ [])
unfolding note
note-nil true e errors h = ground arith
note-nil false e errors h = (refl, h)

abbrev pub is_expired : Option Instant → Instant → Bool
is_expired none now = false
is_expired (some t) now = leb t now

abbrev pub hash_differs : Option String → Option String → Bool
hash_differs none actual = false
hash_differs (some h) none = true
hash_differs (some h) (some a) = not (a == h)

unfoldable pub approval_errors :
    Principal
    → PermissionTier
    → ApprovalGrant
    → String
    → String
    → Option String
    → Instant
    → List ApprovalError
approval_errors p required a action resource request_hash now =
    note (not (is_some a.trusted_source)) not_trusted (
      note (not a.approved) not_approved (
        note (not (a.tenant_id == p.tenant_id)) tenant_mismatch (
          note (not (a.principal_id == p.principal_id)) principal_mismatch (
            note (not (a.action == action)) action_mismatch (
              note (not (a.resource == resource)) resource_mismatch (
                note (not (allows a.tier required)) tier_low (
                  note (is_expired a.expires_at now) expired (
                    note (hash_differs request_hash a.request_hash) request_hash_mismatch []))))))))

abbrev pub accept_if_none : List ApprovalError → PermissionDecision → Result PermissionDecision
accept_if_none [] decision = ok decision
accept_if_none (e ∷ es) decision = err (assistant permission_denied)

abbrev pub check_approval :
    Principal
    → PermissionTier
    → Option ApprovalGrant
    → String
    → String
    → Option String
    → Instant
    → PermissionDecision
    → Result PermissionDecision
check_approval p required none action resource request_hash now decision =
    if leb (rank p3) (rank required) then err (assistant permission_denied) else ok decision
check_approval p required (some a) action resource request_hash now decision =
    if ltb (rank required) (rank p3)
    then ok decision
    else accept_if_none (approval_errors p required a action resource request_hash now) decision

-- the decision on the tier alone, which comes first
unfoldable pub permitted : Principal → PermissionTier → String → String → Result PermissionDecision
permitted p required action resource = do
  request ← permission_request action resource required
  require_permission p request

unfoldable pub require_approval :
    Principal
    → PermissionTier
    → Option ApprovalGrant
    → String
    → String
    → Option String
    → Instant
    → Result PermissionDecision
require_approval p required approval action resource request_hash now = do
  decision ← permitted p required action resource
  check_approval p required approval action resource request_hash now decision
