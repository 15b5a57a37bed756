-- ===== src/Approvals.antt =====
-- Approval requests (`PendingApproval`, src/personal_assistant/application/dto/commands.py) and
-- their in-memory store, `InMemoryApprovalStore`
-- (src/personal_assistant/adapters/persistence/in_memory.py). The clock is an argument;
-- `_fingerprint` of the hashed fields' JSON is the parameter `fingerprint`.
pub mod Steps
pub mod Decisions
pub mod Grants
pub mod Create
mod Tests
use personal_assistant.Common.{
  Eq, Bool, true, false, not, ◌&&◌, ◌||◌, Option, none, some, List, [], map, select, String, ltb,
  ◌==◌, text_eq, pair_eq, if◌then◌else◌,
}
use personal_assistant.Common.Exec.{
  Exec, assistant, permission_denied, validation_failed, conflict, not_found, key_error, pure,
  raise, lift, gets, modify, or_raise, raise_if, ◌>>=◌, ◌>>◌,
}
use personal_assistant.Common.Dict.{Dict, get, put}
use personal_assistant.Common.Index.{Key}
use personal_assistant.Common.Time.{Instant}
use personal_assistant.Permissions.Tiers.{PermissionTier, p3, rank, parse_tier}
use personal_assistant.Permissions.{
  Principal, require_trusted_principal, permission_request, require_permission, ApprovalGrant,
  issue,
}

pub data PendingApprovalStatus : Type 0 where
  pending approved cancelled : PendingApprovalStatus

abbrev pub is_pending : PendingApprovalStatus → Bool
is_pending pending = true
is_pending _ = false

pub record PendingApproval : Type 0 where
  pub approval_id : String
  pub tenant_id : String
  pub principal_id : String
  pub action : String
  pub resource : String
  pub tier : String
  pub workflow_kind : String
  pub message_id : String
  pub source_event_id : String
  pub conversation_id : String
  pub channel : String
  pub recipient : String
  pub request_text : String
  pub request_now : Instant
  pub timezone : String
  pub idempotency_key : String
  pub payload_fingerprint : String
  pub status : PendingApprovalStatus
  pub created_at : Instant
  pub updated_at : Option Instant

-- what `_approval_hash` fingerprints: neither the status nor the times
pub record HashedApproval : Type 0 where
  pub approval_id : String
  pub tenant_id : String
  pub principal_id : String
  pub action : String
  pub resource : String
  pub tier : String
  pub workflow_kind : String
  pub idempotency_key : String
  pub message_id : String
  pub source_event_id : String
  pub conversation_id : String
  pub channel : String
  pub recipient : String
  pub request_text : String
  pub timezone : String
  pub payload_fingerprint : String

unfoldable pub approval_hash : (HashedApproval → String) → PendingApproval → String
approval_hash fingerprint a = fingerprint (record {
  approval_id = a.approval_id;
  tenant_id = a.tenant_id;
  principal_id = a.principal_id;
  action = a.action;
  resource = a.resource;
  tier = a.tier;
  workflow_kind = a.workflow_kind;
  idempotency_key = a.idempotency_key;
  message_id = a.message_id;
  source_event_id = a.source_event_id;
  conversation_id = a.conversation_id;
  channel = a.channel;
  recipient = a.recipient;
  request_text = a.request_text;
  timezone = a.timezone;
  payload_fingerprint = a.payload_fingerprint;
})

-- ((tenant, principal), (workflow kind, idempotency key))
abbrev pub RequestKey : Type 0
RequestKey = Key × Key

instance abbrev pub request_key_eq : Eq RequestKey
request_key_eq = pair_eq ⦃e = pair_eq⦄ ⦃f = pair_eq⦄

pub record ApprovalStore : Type 0 where
  pub approvals : Dict Key PendingApproval  -- `_approvals_by_id`
  pub id_by_key : Dict RequestKey String
  pub fingerprints : Dict Key String

abbrev pub empty : ApprovalStore
empty = record { approvals = []; id_by_key = []; fingerprints = [] }

abbrev pub request_key : Principal → PendingApproval → RequestKey
request_key p a = ((p.tenant_id, p.principal_id), (a.workflow_kind, a.idempotency_key))

-- the three writes of `create`
abbrev pub store_approval : Principal → PendingApproval → String → ApprovalStore → ApprovalStore
store_approval p a print s = record {
  approvals = put (p.tenant_id, a.approval_id) a s.approvals;
  id_by_key = put (request_key p a) a.approval_id s.id_by_key;
  fingerprints = put (p.tenant_id, a.approval_id) print s.fingerprints;
}

-- `existing_id is not None`
abbrev pub replay_or_create :
    Principal → PendingApproval → String → Option String → Exec ApprovalStore PendingApproval
replay_or_create p a print none = do modify (store_approval p a print); pure a
replay_or_create p a print (some existing_id) = do
  stored ← gets (λ s. get (p.tenant_id, existing_id) s.fingerprints)
  old ← or_raise stored key_error
  raise_if (not (old == print)) (assistant conflict)
  found ← gets (λ s. get (p.tenant_id, existing_id) s.approvals)
  or_raise found key_error

unfoldable pub create :
    (HashedApproval → String) → Principal → PendingApproval → Exec ApprovalStore PendingApproval
create fingerprint p a = do
  require_trusted_principal p
  raise_if (not (a.tenant_id == p.tenant_id) || not (a.principal_id == p.principal_id))
      (assistant permission_denied)
  tier ← lift (parse_tier a.tier)
  raise_if (ltb (rank tier) (rank p3)) (assistant validation_failed)
  existing_id ← gets (λ s. get (request_key p a) s.id_by_key)
  replay_or_create p a (approval_hash fingerprint a) existing_id

-- the approval if it belongs to the principal
abbrev pub own_approval : Principal → Option PendingApproval → Option PendingApproval
own_approval p none = none
own_approval p (some a) = if a.principal_id == p.principal_id then some a else none

-- `get`
unfoldable pub find_approval : Principal → String → Exec ApprovalStore (Option PendingApproval)
find_approval p id = do
  require_trusted_principal p
  gets (λ s. own_approval p (get (p.tenant_id, id) s.approvals))

abbrev pub is_own : Principal → Key × PendingApproval → Bool
is_own p e = e.0.0 == p.tenant_id && e.1.principal_id == p.principal_id

unfoldable pub list_pending : Principal → Exec ApprovalStore (List PendingApproval)
list_pending p = do
  require_trusted_principal p
  gets (λ s. map (λ e. e.1) (select (λ e. is_own p e && is_pending e.1.status) s.approvals))

unfoldable pub list_for_tenant : Principal → Exec ApprovalStore (List PendingApproval)
list_for_tenant p = do
  require_trusted_principal p
  gets (λ s. map (λ e. e.1) (select (is_own p) s.approvals))

abbrev pub write_approval : Key → PendingApproval → ApprovalStore → ApprovalStore
write_approval key a s = record s { approvals = put key a s.approvals }

-- `approval.model_copy(update={"status": …, "updated_at": …})`, written under the id
abbrev pub decide :
    Instant
    → Principal
    → String
    → PendingApprovalStatus
    → PendingApproval
    → Exec ApprovalStore PendingApproval
decide now p id status a = do
  let updated = record a { status = status; updated_at = some now }
  modify (write_approval (p.tenant_id, id) updated)
  pure updated

unfoldable pub mark_approved : Instant → Principal → String → Exec ApprovalStore PendingApproval
unfolding find_approval
mark_approved now p id = do
  found ← find_approval p id
  a ← or_raise found (assistant not_found)
  if not (is_pending a.status) then pure a else decide now p id approved a

abbrev pub is_cancelled : PendingApprovalStatus → Bool
is_cancelled cancelled = true
is_cancelled _ = false

abbrev pub is_approved : PendingApprovalStatus → Bool
is_approved approved = true
is_approved _ = false

unfoldable pub approve :
    (HashedApproval → String) → Instant → Principal → String → Exec ApprovalStore ApprovalGrant
unfolding find_approval mark_approved
approve fingerprint now p id = do
  found ← find_approval p id
  a ← or_raise found (assistant not_found)
  raise_if (is_cancelled a.status) (assistant permission_denied)
  tier ← lift (parse_tier a.tier)
  request ← lift (permission_request a.action a.resource tier)
  decision ← lift (require_permission p request)
  b ← if is_pending a.status then mark_approved now p id else pure a
  lift (issue p b.action tier b.resource b.approval_id none (some (approval_hash fingerprint b)))

unfoldable pub cancel : Instant → Principal → String → Exec ApprovalStore PendingApproval
unfolding find_approval
cancel now p id = do
  found ← find_approval p id
  a ← or_raise found (assistant not_found)
  raise_if (is_approved a.status) (assistant conflict)
  if is_cancelled a.status then pure a else decide now p id cancelled a

unfoldable pub reject : Instant → Principal → String → Exec ApprovalStore PendingApproval
unfolding cancel
reject = cancel
