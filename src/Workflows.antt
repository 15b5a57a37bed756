-- ===== src/Workflows.antt =====
-- Workflow states (src/personal_assistant/application/dto/workflows.py) and their in-memory store,
-- `InMemoryWorkflowStateStore` (src/personal_assistant/adapters/persistence/in_memory.py). The
-- clock is an argument; `_fingerprint` of a state's JSON is the parameter `fingerprint`.
pub mod Steps
pub mod Methods
pub mod Calls
pub mod Laws
pub mod Election
mod Tests
use personal_assistant.Common.{
  Bool, true, false, not, ◌&&◌, ◌||◌, Option, none, some, List, [], ◌∷◌, map, select, String,
  is_none, ◌==◌, text_eq, pair_eq, if◌then◌else◌,
}
use personal_assistant.Common.Exec.{
  Exec, Exn, assistant, permission_denied, conflict, value_error, pure, gets, modify, raise_if,
  ◌>>=◌, ◌>>◌,
}
use personal_assistant.Common.Dict.{Dict, get, put}
use personal_assistant.Common.Index.{Key, key_eq, is_taken}
use personal_assistant.Common.Text.{is_empty}
use personal_assistant.Common.Time.{Instant}
use personal_assistant.Permissions.{Principal, require_trusted_principal}
use personal_assistant.Events.{Json}

pub data WorkflowStatus : Type 0 where
  pending running waiting_approval completed failed : WorkflowStatus

abbrev pub same_status : WorkflowStatus → WorkflowStatus → Bool
same_status pending pending = true
same_status running running = true
same_status waiting_approval waiting_approval = true
same_status completed completed = true
same_status failed failed = true
same_status _ _ = false

-- `status in {completed, failed}`
abbrev pub is_terminal : WorkflowStatus → Bool
is_terminal s = same_status s completed || same_status s failed

pub record WorkflowState : Type 0 where
  pub workflow_id : String
  pub tenant_id : String
  pub workflow_type : String
  pub status : WorkflowStatus
  pub step : String
  pub idempotency_key : String
  pub payload_fingerprint : Option String
  pub content : Dict String Json  -- `data`
  pub created_at : Instant
  pub updated_at : Instant

-- `status or self.status`: every status is a text that is not empty
abbrev pub status_or : Option WorkflowStatus → WorkflowStatus → WorkflowStatus
status_or none old = old
status_or (some s) old = s

-- `step or self.step`
abbrev pub step_or : Option String → String → String
step_or none old = old
step_or (some s) old = if is_empty s then old else s

-- `merged.update(data)`
unfoldable pub update : Dict String Json → Dict String Json → Dict String Json
update [] merged = merged
update ((k, v) ∷ d) merged = update d (put k v merged)

abbrev pub update_with : Option (Dict String Json) → Dict String Json → Dict String Json
update_with none merged = merged
update_with (some d) merged = update d merged

unfoldable pub transition :
    Instant
    → Option WorkflowStatus
    → Option String
    → Option (Dict String Json)
    → WorkflowState
    → WorkflowState
transition now status step content s = record s {
  status = status_or status s.status;
  step = step_or step s.step;
  content = update_with content s.content;
  updated_at = now;
}

pub record WorkflowStateRegistration : Type 0 where
  pub state : WorkflowState
  pub replayed : Bool
  pub resumed : Bool

pub record WorkflowStateStore : Type 0 where
  pub states : Dict Key WorkflowState  -- `_states_by_key`
  pub key_by_workflow_id : Dict Key String

abbrev pub empty : WorkflowStateStore
empty = record { states = []; key_by_workflow_id = [] }

abbrev pub require_matching_tenant : Principal → WorkflowState → Exec WorkflowStateStore (Unit {0})
require_matching_tenant p state =
    raise_if (not (state.tenant_id == p.tenant_id)) (assistant permission_denied)

-- `==` of two texts or `None`
abbrev pub same_text : Option String → Option String → Bool
same_text none none = true
same_text (some a) (some b) = a == b
same_text _ _ = false

-- `ReminderIdempotencyConflict` is an `AssistantError` with the code `conflict`
abbrev pub raise_if_payload_conflicts :
    WorkflowState → WorkflowState → Exec WorkflowStateStore (Unit {0})
raise_if_payload_conflicts existing candidate =
    raise_if (not (same_text existing.payload_fingerprint candidate.payload_fingerprint))
      (assistant conflict)

-- `saved`, under its two keys
abbrev pub write_state : String → WorkflowState → WorkflowStateStore → WorkflowStateStore
write_state tenant state s = record {
  states = put (tenant, state.idempotency_key) state s.states;
  key_by_workflow_id = put (tenant, state.workflow_id) state.idempotency_key s.key_by_workflow_id;
}

abbrev pub write_resumed : Key → WorkflowState → WorkflowStateStore → WorkflowStateStore
write_resumed key state s = record s { states = put key state s.states }

-- a stored workflow waits for approval at the step that the caller resumes from
abbrev pub can_resume : Option String → WorkflowState → Bool
can_resume none existing = false
can_resume (some step) existing =
    same_status existing.status waiting_approval && existing.step == step

abbrev pub resume :
    Instant → Key → WorkflowState → Exec WorkflowStateStore WorkflowStateRegistration
resume now key existing = do
  let resumed = transition now (some running) none none existing
  modify (write_resumed key resumed)
  pure (record { state = resumed; replayed = false; resumed = true })

abbrev pub replay_state :
    Instant
    → Principal
    → WorkflowState
    → Option String
    → WorkflowState
    → Exec WorkflowStateStore WorkflowStateRegistration
replay_state now p state resume_from_step existing = do
  raise_if_payload_conflicts existing state
  raise_if (not (existing.workflow_type == state.workflow_type)) (assistant conflict)
  if can_resume resume_from_step existing
      then resume now (p.tenant_id, state.idempotency_key) existing
      else pure (record { state = existing; replayed = true; resumed = false })

-- the check of both writers that a workflow id keeps its key
abbrev pub require_own_id : Principal → WorkflowState → Exec WorkflowStateStore (Unit {0})
require_own_id p state = do
  existing_key ← gets (λ s. get (p.tenant_id, state.workflow_id) s.key_by_workflow_id)
  raise_if (is_taken existing_key state.idempotency_key) (assistant conflict)

abbrev pub register_state :
    Principal → WorkflowState → Exec WorkflowStateStore WorkflowStateRegistration
register_state p state = do
  require_own_id p state
  modify (write_state p.tenant_id state)
  pure (record { state = state; replayed = false; resumed = false })

abbrev pub replay_or_register :
    Instant
    → Principal
    → WorkflowState
    → Option String
    → Option WorkflowState
    → Exec WorkflowStateStore WorkflowStateRegistration
replay_or_register now p state resume_from_step none = register_state p state
replay_or_register now p state resume_from_step (some existing) =
    replay_state now p state resume_from_step existing

unfoldable pub register_or_replay :
    Instant
    → Principal
    → WorkflowState
    → Option String
    → Exec WorkflowStateStore WorkflowStateRegistration
register_or_replay now p state resume_from_step = do
  require_trusted_principal p
  require_matching_tenant p state
  raise_if (is_none state.payload_fingerprint) value_error
  existing ← gets (λ s. get (p.tenant_id, state.idempotency_key) s.states)
  replay_or_register now p state resume_from_step existing

module _ (fingerprint : WorkflowState → String) where
  -- a terminal state may only be written again as it is
  abbrev pub is_frozen : WorkflowState → WorkflowState → Bool
  is_frozen existing state =
      is_terminal existing.status
      && (not (same_status state.status existing.status)
          || not (fingerprint state == fingerprint existing))

  abbrev pub check_existing :
      WorkflowState → Option WorkflowState → Exec WorkflowStateStore (Unit {0})
  check_existing state none = pure tt
  check_existing state (some existing) = do
    raise_if
        (not (existing.workflow_id == state.workflow_id)
          || not (existing.workflow_type == state.workflow_type))
        (assistant conflict)
    raise_if_payload_conflicts existing state
    raise_if (is_frozen existing state) (assistant conflict)

  unfoldable pub upsert : Principal → WorkflowState → Exec WorkflowStateStore WorkflowState
  upsert p state = do
    require_trusted_principal p
    require_matching_tenant p state
    require_own_id p state
    existing ← gets (λ s. get (p.tenant_id, state.idempotency_key) s.states)
    check_existing state existing
    modify (write_state p.tenant_id state)
    pure state

unfoldable pub get_by_idempotency_key :
    Principal → String → Exec WorkflowStateStore (Option WorkflowState)
get_by_idempotency_key p key = do
  require_trusted_principal p
  gets (λ s. get (p.tenant_id, key) s.states)

unfoldable pub list_for_tenant : Principal → Exec WorkflowStateStore (List WorkflowState)
list_for_tenant p = do
  require_trusted_principal p
  gets (λ s. map (λ e. e.1) (select (λ e. e.0.0 == p.tenant_id) s.states))
