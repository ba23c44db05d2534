-- ===== src/StatefulPipeline.antt =====
-- `StatefulPipelineManager` of src/utils/stateful-pipeline-manager.ts over the backend of
-- src/core/state/local-backend.ts. A call runs without another between its awaits. What comes from
-- outside is in the configuration: the session filter, the digits of a number, the epoch ms of an
-- ISO time (0 for an invalid one), and the JSON text of a task's data, by its type and instance. The runners
-- are only stored in the source, and are left out.
pub mod Worker
pub mod Lifecycle
pub mod Warmup
pub mod Timers
pub mod Agreement
pub mod Flush
pub mod Examples
use Prim.Native.String.{◌++◌ as glue}
use chris_tencent_db_agent_m.Prelude.{
  ℕ, ◌+◌, ◌*◌, String, Bool, true, false, ◌||◌, not, Option, none, some, List, [], ◌∷◌, ◌++◌, leb,
  ltb, ◌==◌, max, min, or_else, str_eq, if◌then◌else◌,
}
use chris_tencent_db_agent_m.Prelude.Maps.{Map}
use chris_tencent_db_agent_m.Pipeline.State.{SessionState}
use chris_tencent_db_agent_m.StateBackend.State.{TaskPayload, TaskType, l1, flush, Effect, Backend}
use chris_tencent_db_agent_m.StateBackend.Sessions.{
  Patch, get_session_state, update_session_state, list_active_sessions,
}
use chris_tencent_db_agent_m.StateBackend.Timers.{set_timer, set_timer_if_earlier, remove_timer}
use chris_tencent_db_agent_m.StateBackend.Tasks.{enqueue_task}
use chris_tencent_db_agent_m.StateBackend.Capture.{CaptureParams, capture_atomic}

pub record Config : Type 0 where
  pub l1_idle_timeout_ms : ℕ
  pub every_n_conversations : ℕ
  pub enable_warmup : Bool
  pub l2_delay_after_l1_ms : ℕ
  pub l2_min_interval_ms : ℕ
  pub l2_max_interval_ms : ℕ
  pub should_skip : String → Bool
  pub digits : ℕ → String
  pub epoch_of : String → ℕ
  pub task_data : TaskType → String → String
  pub has_persister : Bool

pub record Manager : Type 0 where
  pub config : Config
  pub open config use *
  pub backend : Backend
  pub default_instance_id : String
  pub destroyed : Bool
  pub active_instances : List String
  pub persisted : List (Map SessionState)

unfoldable pub get_effective_threshold : Config → ℕ → ℕ
get_effective_threshold c warmup =
    if not c.enable_warmup
    then c.every_n_conversations
    else if leb warmup 0
    then c.every_n_conversations
    else min warmup c.every_n_conversations

unfoldable pub effective_id : Option String → Manager → String
effective_id given m = or_else given m.default_instance_id

-- Where most calls return at once.
unfoldable pub is_refused : Option String → Manager → Bool
unfolding effective_id
is_refused given m = m.destroyed || str_eq (effective_id given m) "__unset__"

empty_patch : Patch
empty_patch = record {
  conversation_count = none;
  last_extraction_time = none;
  last_extraction_updated_time = none;
  last_active_time = none;
  l2_pending_l1_count = none;
  warmup_threshold = none;
  l2_last_extraction_time = none;
}

unfoldable pub next_threshold : Config → ℕ → ℕ
next_threshold c current = if leb c.every_n_conversations (current * 2) then 0 else current * 2

unfoldable pub warmup_patch : Config → ℕ → Patch
unfolding next_threshold empty_patch
warmup_patch c current = record empty_patch {
  conversation_count = some 0;
  warmup_threshold = some (next_threshold c current);
}

-- `advanceWarmupInBackend`: it writes under the default instance id.
unfoldable pub advance_warmup_in_backend : ℕ → String → ℕ → Manager → Manager
unfolding warmup_patch
advance_warmup_in_backend now key current m =
    if not m.enable_warmup || leb current 0 then m else record m {
      backend =
          update_session_state now m.default_instance_id key (warmup_patch m.config current)
            m.backend;
    }

warmup_of : Option SessionState → ℕ → ℕ
warmup_of none default = default
warmup_of (some state) default = state.warmup_threshold

contains : String → List String → Bool
contains i [] = false
contains i (j ∷ js) = str_eq j i || contains i js

activate : String → List String → List String
unfolding contains
activate i js = if contains i js then js else js ++ (i ∷ [])

unfoldable pub task_of : TaskType → String → ℕ → String → String → Manager → TaskPayload
task_of type prefix now id key m = record {
  id = glue prefix (glue key (glue "-" (m.digits now)));
  task_type = type;
  instance_id = id;
  session_id = key;
  priority = 0;
  data_json = some (m.task_data type id);
  created_at = now;
}

unfoldable pub capture_params : ℕ → String → String → ℕ → Manager → CaptureParams
unfolding warmup_of task_of get_effective_threshold
capture_params now id key rounds m = record {
  instance_id = id;
  session_id = key;
  message_json = "[]";
  threshold =
      get_effective_threshold m.config
        (warmup_of (get_session_state id key m.backend) (if m.enable_warmup then 1 else 0));
  fire_at_ms = now + m.l1_idle_timeout_ms;
  timer_member = glue key ":L1_idle";
  task_payload = task_of l1 "L1-" now id key m;
  now_ms = now;
  rounds = rounds;
}

unfoldable pub notify_with : ℕ → String → String → ℕ → Manager → Manager × List Effect
unfolding warmup_of activate advance_warmup_in_backend capture_params
notify_with now id key rounds m =
    let warmup = warmup_of (get_session_state id key m.backend) 1 in
    let (captured, result) = capture_atomic (capture_params now id key rounds m) m.backend in
    let m' = record m { backend = captured.0; active_instances = activate id m.active_instances } in
    (if result.triggered then advance_warmup_in_backend now key warmup m' else m', captured.1)

-- `notifyConversation`: `none` if it throws.
unfoldable pub notify_conversation :
    ℕ → String → Option String → Option ℕ → Manager → Option (Manager × List Effect)
unfolding effective_id notify_with
notify_conversation now key given rounds m =
    if m.destroyed || m.should_skip key
    then some (m, [])
    else if str_eq (effective_id given m) "__unset__"
    then none
    else some (notify_with now (effective_id given m) key (or_else rounds 1) m)

flush_over : Option SessionState → ℕ → String → String → Manager → Manager × List Effect
unfolding task_of
flush_over none now id key m = (m, [])
flush_over (some state) now id key m =
    if state.conversation_count == 0
    then (m, [])
    else let (b1, es) = remove_timer id (glue key ":L1_idle") m.backend in
      let (b2, more) = enqueue_task (task_of flush "flush-" now id key m) b1 in
      (record m { backend = b2 }, es ++ more)

unfoldable pub flush_session : ℕ → String → Option String → Manager → Manager × List Effect
unfolding is_refused flush_over effective_id
flush_session now key given m =
    if m.should_skip key || is_refused given m
    then (m, [])
    else flush_over (get_session_state (effective_id given m) key m.backend) now
        (effective_id given m) key m
