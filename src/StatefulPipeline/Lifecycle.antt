-- ===== src/StatefulPipeline/Lifecycle.antt =====
-- The start and the end of src/utils/stateful-pipeline-manager.ts.
use chris_tencent_db_agent_m.Prelude.{
  ℕ, String, true, Option, none, some, List, [], ◌∷◌, or_else, if◌then◌else◌,
}
use chris_tencent_db_agent_m.Prelude.Maps.{Map}
use chris_tencent_db_agent_m.Pipeline.State.{SessionState}
use chris_tencent_db_agent_m.StateBackend.State.{Backend}
use chris_tencent_db_agent_m.StateBackend.Sessions.{
  Patch, get_session_state, update_session_state, list_active_sessions,
}
use chris_tencent_db_agent_m.StatefulPipeline.{Manager}

-- Every field of the restored state is given, a missing `warmup_threshold` as 0.
whole_patch : SessionState → Option ℕ → Patch
whole_patch s warmup = record {
  conversation_count = some s.conversation_count;
  last_extraction_time = some s.last_extraction_time;
  last_extraction_updated_time = some s.last_extraction_updated_time;
  last_active_time = some s.last_active_time;
  l2_pending_l1_count = some s.l2_pending_l1_count;
  warmup_threshold = some (or_else warmup 0);
  l2_last_extraction_time = some s.l2_last_extraction_time;
}

restore_over : ℕ → Map (SessionState × Option ℕ) → Manager → Manager
unfolding whole_patch
restore_over now [] m = m
restore_over now ((key, (state, warmup)) ∷ rest) m = restore_over now rest (
    if m.should_skip key then m else record m {
      backend =
          update_session_state now m.default_instance_id key (whole_patch state warmup) m.backend;
    })

unfoldable pub start : ℕ → Map (SessionState × Option ℕ) → Manager → Manager
unfolding restore_over
start now states m = if m.destroyed then m else restore_over now states m

states_of : String → List String → Backend → Map SessionState
states_of id [] b = []
states_of id (key ∷ keys) b =
    let rest = states_of id keys b in
    elim (get_session_state id key b) [ none ↦ rest | some state ↦ (key, state) ∷ rest ]

persist_current_states : Manager → Manager
unfolding states_of
persist_current_states m =
    let id = m.default_instance_id in
    if m.has_persister
    then record m {
      persisted = states_of id (list_active_sessions id m.backend) m.backend ∷ m.persisted;
    }
    else m

unfoldable pub destroy : Manager → Manager
unfolding persist_current_states
destroy m = if m.destroyed then m else persist_current_states (record m { destroyed = true })
