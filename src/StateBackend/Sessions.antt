-- ===== src/StateBackend/Sessions.antt =====
-- The message buffers and the session states of src/core/state/local-backend.ts.
pub mod Buffers
use Prim.Native.String.{len, slice}
use text.Mathlib.Text.{starts_with}
use chris_tencent_db_agent_m.Prelude.{
  ℕ, String, Bool, true, false, Option, none, some, List, [], ◌∷◌, ◌++◌, length, or_else,
  if◌then◌else◌,
}
use chris_tencent_db_agent_m.Prelude.Maps
use chris_tencent_db_agent_m.Prelude.Maps.{Map}
use chris_tencent_db_agent_m.Pipeline.State.{SessionState}
use chris_tencent_db_agent_m.StateBackend.State.{Backend, k, prefix_of, default_state}

unfoldable pub buffer_at : Backend → String → List String
buffer_at b key = or_else (Maps.get b.buffers key) []

unfoldable pub append_buffer : String → String → String → Backend → Backend
unfolding buffer_at
append_buffer instance_id session_id message b =
    let key = k instance_id session_id in
    record b { buffers = Maps.set b.buffers key (buffer_at b key ++ (message ∷ [])) }

drained : List String → String → Backend → Backend × List String
drained [] key b = (b, [])
drained (m ∷ ms) key b = (record b { buffers = Maps.delete b.buffers key }, m ∷ ms)

unfoldable pub drain_buffer : String → String → Backend → Backend × List String
unfolding buffer_at drained
drain_buffer instance_id session_id b =
    let key = k instance_id session_id in drained (buffer_at b key) key b

unfoldable pub get_buffer_length : String → String → Backend → ℕ
unfolding buffer_at
get_buffer_length instance_id session_id b = length (buffer_at b (k instance_id session_id))

unfoldable pub get_session_state : String → String → Backend → Option SessionState
get_session_state instance_id session_id b = Maps.get b.session_states (k instance_id session_id)

-- `Partial<PipelineSessionState>`.
pub record Patch : Type 0 where
  pub conversation_count : Option ℕ
  pub last_extraction_time : Option String
  pub last_extraction_updated_time : Option String
  pub last_active_time : Option ℕ
  pub l2_pending_l1_count : Option ℕ
  pub warmup_threshold : Option ℕ
  pub l2_last_extraction_time : Option String

unfoldable pub patched : Patch → SessionState → SessionState
patched p s = record {
  conversation_count = or_else p.conversation_count s.conversation_count;
  last_extraction_time = or_else p.last_extraction_time s.last_extraction_time;
  last_extraction_updated_time =
      or_else p.last_extraction_updated_time s.last_extraction_updated_time;
  last_active_time = or_else p.last_active_time s.last_active_time;
  l2_pending_l1_count = or_else p.l2_pending_l1_count s.l2_pending_l1_count;
  warmup_threshold = or_else p.warmup_threshold s.warmup_threshold;
  l2_last_extraction_time = or_else p.l2_last_extraction_time s.l2_last_extraction_time;
}

unfoldable pub update_session_state : ℕ → String → String → Patch → Backend → Backend
unfolding patched default_state
update_session_state now instance_id session_id patch b =
    let key = k instance_id session_id in
    let current = or_else (Maps.get b.session_states key) (default_state now) in
    record b { session_states = Maps.set b.session_states key (patched patch current) }

unfoldable pub delete_session_state : String → String → Backend → Backend
delete_session_state instance_id session_id b =
    let key = k instance_id session_id in
    record b {
      session_states = Maps.delete b.session_states key;
      buffers = Maps.delete b.buffers key;
    }

sessions_in : String → Map SessionState → List String
sessions_in prefix [] = []
sessions_in prefix ((key, state) ∷ rest) =
    let others = sessions_in prefix rest in
    if starts_with key prefix then slice key (len prefix) (len key) ∷ others else others

unfoldable pub list_active_sessions : String → Backend → List String
unfolding sessions_in
list_active_sessions instance_id b = sessions_in (prefix_of instance_id) b.session_states
