-- ===== src/StateBackend/State.antt =====
-- The data of src/core/state/types.ts and the fields of `LocalStateBackend` of
-- src/core/state/local-backend.ts. What the host and the callers see is a list of effects. A call
-- reads the clock once, `now`; promises are numbers.
use Prim.Native.String.{◌++◌ as glue}
use chris_tencent_db_agent_m.Prelude.{ℕ, String, Bool, false, Option, List, []}
use chris_tencent_db_agent_m.Prelude.Maps.{Map}
use chris_tencent_db_agent_m.Pipeline.State.{SessionState}

pub record TimerEntry : Type 0 where
  pub member : String
  pub fire_at_ms : ℕ

pub data TaskType : Type 0 where
  l1 l2 l3 flush offload_l1 offload_l15 offload_l2 : TaskType

-- `data` is the JSON text of the field of that name, which the backend never reads.
pub record TaskPayload : Type 0 where
  pub id : String
  pub task_type : TaskType
  pub instance_id : String
  pub session_id : String
  pub priority : ℕ
  pub data_json : Option String
  pub created_at : ℕ

pub record InternalTimer : Type 0 where
  pub member : String
  pub fire_at_ms : ℕ
  pub handle : Option ℕ

pub record Lock : Type 0 where
  pub owner_id : String
  pub expire_at : ℕ

-- A call of `consumeTask` that waits: its promise, and the handle of its timeout.
pub record Waiter : Type 0 where
  pub promise : ℕ
  pub timer : ℕ

pub data Effect : Type 0 where
  set_timeout : ℕ → ℕ → Effect  -- the handle, and the delay in ms
  clear_timeout : ℕ → Effect
  timer_expired : TimerEntry → Effect  -- `onTimerExpired` is called
  resolved : ℕ → Option TaskPayload → Effect

-- `has_listener`: an `onTimerExpired` is given. `handles` numbers the calls of `setTimeout`.
pub record Backend : Type 0 where
  pub session_states : Map SessionState
  pub buffers : Map (List String)
  pub timers : Map InternalTimer
  pub task_queue : List TaskPayload
  pub locks : Map Lock
  pub consume_waiters : List Waiter
  pub has_listener : Bool
  pub destroyed : Bool
  pub handles : ℕ

unfoldable pub init : Bool → Backend
init listener = record {
  session_states = [];
  buffers = [];
  timers = [];
  task_queue = [];
  locks = [];
  consume_waiters = [];
  has_listener = listener;
  destroyed = false;
  handles = 0;
}

-- The prefix of an instance's keys, and the key of a session or of a timer's member.
unfoldable pub prefix_of : String → String
prefix_of instance_id = glue instance_id ":"

unfoldable pub k : String → String → String
k instance_id session_id = glue (glue instance_id ":") session_id

unfoldable pub default_state : ℕ → SessionState
default_state now = record {
  conversation_count = 0;
  last_extraction_time = "";
  last_extraction_updated_time = "";
  last_active_time = now;
  l2_pending_l1_count = 0;
  warmup_threshold = 0;
  l2_last_extraction_time = "";
}
