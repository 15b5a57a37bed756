-- ===== src/Workflows/Calls.antt =====
-- Histories of calls of the workflow store.
use personal_assistant.Common.{List, [], ◌∷◌, Option, String, text_eq, pair_eq}
use personal_assistant.Common.Time.{Instant}
use personal_assistant.Permissions.{Principal}
use personal_assistant.Workflows
use personal_assistant.Workflows.{WorkflowState, WorkflowStateStore}
use personal_assistant.Workflows.Steps.{IsValid, Follows-refl, Follows-trans, Evolves, Advances}
use personal_assistant.Workflows.Methods.{register-Advances, upsert-Advances}

-- A call that writes the store, with the clock's value where it is read.
pub data Call : Type 0 where
  register_or_replay : Instant → WorkflowState → Option String → Call
  upsert : WorkflowState → Call

module _ (fingerprint : WorkflowState → String) where
  -- the store that a call leaves, whether it returned or raised
  unfoldable pub perform : Principal → Call → WorkflowStateStore → WorkflowStateStore
  perform p (register_or_replay now state step) s =
      (Workflows.register_or_replay now p state step s).1
  perform p (upsert state) s = (Workflows.upsert fingerprint p state s).1

  unfoldable pub run : List (Principal × Call) → WorkflowStateStore → WorkflowStateStore
  run [] s = s
  run ((p, c) ∷ cs) s = run cs (perform p c s)

  pub perform-Advances :
      (p : Principal) (c : Call) (s : WorkflowStateStore)
      → IsValid s
      → Advances fingerprint p.tenant_id s (perform p c s)
  unfolding perform
  perform-Advances p (register_or_replay now state step) s v =
      register-Advances fingerprint now p state step s v
  perform-Advances p (upsert state) s v = upsert-Advances fingerprint p state s v

  pub run-IsValid :
      (cs : List (Principal × Call)) (s : WorkflowStateStore) → IsValid s → IsValid (run cs s)
  unfolding run
  run-IsValid [] s v = v
  run-IsValid ((p, c) ∷ cs) s v = run-IsValid cs (perform p c s) (perform-Advances p c s v).valid

  pub run-Evolves :
      (cs : List (Principal × Call)) (s : WorkflowStateStore)
      → IsValid s
      → Evolves fingerprint s.states (run cs s).states
  unfolding run
  run-Evolves [] s v k a h = (a, h, Follows-refl fingerprint a)
  run-Evolves ((p, c) ∷ cs) s v k a h =
      let w = perform-Advances p c s v in
      let (b, g, f) = w.evolves k a h in
      let (b', g', f') = run-Evolves cs (perform p c s) w.valid k b g in
      (b', g', Follows-trans fingerprint f f')
