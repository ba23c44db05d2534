-- ===== src/Pipeline/State.antt =====
-- The data of src/utils/pipeline-manager.ts, and the access to its maps. Times are in ms. The
-- asynchronous functions are cut at their `await`s: what a task in flight waits for is its phase.
-- The runners, the persister, the clock, the session filter and the ISO format of a time come from
-- outside: the filter and the format are functions of the configuration, a time is an argument.
use chris_tencent_db_agent_m.Prelude.{ℕ, String, Bool, true, false, Option, List, [], ◌∷◌, or_else}
use chris_tencent_db_agent_m.Prelude.Maps
use chris_tencent_db_agent_m.Prelude.Maps.{Map}
use chris_tencent_db_agent_m.SerialQueue
use chris_tencent_db_agent_m.SerialQueue.{Queue}
use chris_tencent_db_agent_m.ManagedTimer
use chris_tencent_db_agent_m.ManagedTimer.{Timer}

pub record CapturedMessage : Type 0 where
  pub role : String
  pub content : String
  pub timestamp : String

-- `PipelineSessionState` of src/utils/checkpoint.ts.
pub record SessionState : Type 0 where
  pub conversation_count : ℕ
  pub last_extraction_time : String
  pub last_extraction_updated_time : String
  pub last_active_time : ℕ
  pub l2_pending_l1_count : ℕ
  pub warmup_threshold : ℕ
  pub l2_last_extraction_time : String

pub record Config : Type 0 where
  pub l1_idle_timeout_ms : ℕ
  pub every_n_conversations : ℕ
  pub enable_warmup : Bool
  pub l2_delay_after_l1_ms : ℕ
  pub l2_min_interval_ms : ℕ
  pub l2_max_interval_ms : ℕ
  pub session_active_window_ms : ℕ
  pub should_skip : String → Bool
  pub iso_string : ℕ → String
  pub has_l1_runner : Bool
  pub has_l2_runner : Bool
  pub has_l3_runner : Bool
  pub has_persister : Bool

abbrev pub l1_retry_delay_ms : ℕ
l1_retry_delay_ms = 30_000

abbrev pub l1_max_retries : ℕ
l1_max_retries = 5

abbrev pub session_gc_inactive_multiplier : ℕ
session_gc_inactive_multiplier = 3

abbrev pub session_gc_every_n_notifications : ℕ
session_gc_every_n_notifications = 50

pub data Source : Type 0 where
  delay_after_l1 max_interval : Source

-- The closures that the timers hold.
pub data Callback : Type 0 where
  on_l1_idle_timeout : String → Callback
  on_l2_timer_fired : String → Source → Callback

pub record SessionTimers : Type 0 where
  pub l1_idle : Timer Callback
  pub l2_schedule : Timer Callback
  pub l1_queued : Bool
  pub l2_queued : Bool
  pub l1_retry_count : ℕ

-- What the L1 runner's result says of the rows that it left.
pub record Backlog : Type 0 where
  pub has_full_backlog : Bool
  pub has_more : Bool

-- Where the L1 task in flight waits: for its runner, for `persistStates`, or for nothing more.
-- `none` is the result of a run with no runner set, or of a runner that returns nothing.
pub data L1Phase : Type 0 where
  no_task : L1Phase
  at_runner : String → List CapturedMessage → L1Phase
  at_persist : String → Option Backlog → L1Phase
  at_end : String → L1Phase

-- The flag tells the full update from the cold-start skip.
pub data L2Phase : Type 0 where
  no_task : L2Phase
  at_runner : String → Option String → L2Phase
  at_persist : String → Bool → L2Phase
  at_end : String → L2Phase

pub data L3Phase : Type 0 where
  no_task at_runner at_end : L3Phase

-- `handles` numbers the calls of `setTimeout`, `persisted` holds the snapshots given to the
-- persister, newest first, and `resolved` the `onIdle` waiters of the L1 queue that are resolved.
pub record Manager : Type 0 where
  pub config : Config
  pub open config use *
  pub l1_queue : Queue String
  pub l2_queue : Queue String
  pub l3_queue : Queue (Unit {0})
  pub l3_pending : Bool
  pub l3_running : Bool
  pub session_states : Map SessionState
  pub session_timers : Map SessionTimers
  pub message_buffers : Map (List CapturedMessage)
  pub l2_last_run_time : Map ℕ
  pub destroyed : Bool
  pub notify_counter : ℕ
  pub l1_phase : L1Phase
  pub l2_phase : L2Phase
  pub l3_phase : L3Phase
  pub handles : ℕ
  pub persisted : List (Map SessionState)
  pub resolved : List ℕ

unfoldable pub init : Config → Manager
unfolding SerialQueue.new
init config = record {
  config = config;
  l1_queue = SerialQueue.new;
  l2_queue = SerialQueue.new;
  l3_queue = SerialQueue.new;
  l3_pending = false;
  l3_running = false;
  session_states = [];
  session_timers = [];
  message_buffers = [];
  l2_last_run_time = [];
  destroyed = false;
  notify_counter = 0;
  l1_phase = L1Phase.no_task;
  l2_phase = L2Phase.no_task;
  l3_phase = L3Phase.no_task;
  handles = 0;
  persisted = [];
  resolved = [];
}

abbrev pub new_timers : SessionTimers
new_timers = record {
  l1_idle = ManagedTimer.new;
  l2_schedule = ManagedTimer.new;
  l1_queued = false;
  l2_queued = false;
  l1_retry_count = 0;
}

-- The timers that `getOrCreateTimers` returns.
unfoldable pub timers_of : Manager → String → SessionTimers
timers_of m key = or_else (Maps.get m.session_timers key) new_timers

-- `getOrCreateTimers`, then a write to the object that it returns.
unfoldable pub put_timers : Manager → String → SessionTimers → Manager
put_timers m key timers = record m { session_timers = Maps.set m.session_timers key timers }

unfoldable pub buffer_of : Manager → String → List CapturedMessage
buffer_of m key = or_else (Maps.get m.message_buffers key) []

unfoldable pub put_buffer : Manager → String → List CapturedMessage → Manager
put_buffer m key buffer = record m { message_buffers = Maps.set m.message_buffers key buffer }

unfoldable pub put_state : Manager → String → SessionState → Manager
put_state m key state = record m { session_states = Maps.set m.session_states key state }

unfoldable pub new_state : Config → ℕ → SessionState
new_state c now = record {
  conversation_count = 0;
  last_extraction_time = "";
  last_extraction_updated_time = "";
  last_active_time = now;
  l2_pending_l1_count = 0;
  warmup_threshold = elim c.enable_warmup [ true ↦ 1 | false ↦ 0 ];
  l2_last_extraction_time = "";
}

-- The persister's failure is caught, and it writes nothing of the manager's.
unfoldable pub persist_states : Manager → Manager
persist_states m = elim m.has_persister [
  | true ↦ record m { persisted = m.session_states ∷ m.persisted }
  | false ↦ m
]
