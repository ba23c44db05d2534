-- ===== src/Worker.antt =====
-- `PipelineWorker` of src/services/pipeline-worker.ts over the backend of
-- src/core/state/local-backend.ts. Its tasks carry no message id, so that nothing is acknowledged, and
-- the recovery of pending messages does not start. A consumed task is a job; `processTask` is cut at
-- the `await`s of a job's sleeps and of its executor, so that the jobs of the coroutines interleave.
pub mod Locks
pub mod Jobs
pub mod Ends
pub mod Retries
pub mod Released
pub mod Lifecycle
pub mod Examples
use Prim.Native.String.{◌++◌ as glue}
use chris_tencent_db_agent_m.Prelude.{
  ℕ, ◌+◌, ◌*◌, ◌^◌, String, Bool, true, false, Option, none, some, List, [], ◌∷◌, ◌++◌, or_else,
}
use chris_tencent_db_agent_m.Prelude.Maps.{Map}
use chris_tencent_db_agent_m.StateBackend.State.{TaskPayload, Backend}

pub data Granularity : Type 0 where
  by_session by_instance : Granularity

-- What comes from outside: the reading and writing of a task's data, the digits of a number, the ISO
-- format of a time, the trace context of a cascaded task, and the callbacks, which the server gives.
pub record Config : Type 0 where
  pub worker_id : String
  pub lock_ttl_ms : ℕ
  pub max_retries : ℕ
  pub retry_base_delay_ms : ℕ
  pub granularity : Granularity
  pub retry_count_of : Option String → Option ℕ
  pub with_retry_count : ℕ → Option String → Option String
  pub mmd_file_of : Option String → Option String
  pub with_trace : Option String → Option String
  pub digits : ℕ → String
  pub iso_string : ℕ → String
  pub type_name : TaskPayload → String
  pub on_l1_complete : ℕ → String → String → Backend → Backend
  pub on_l2_complete : ℕ → String → String → Backend → Backend

pub record DeadLetter : Type 0 where
  pub task : TaskPayload
  pub error : String
  pub retry_count : ℕ
  pub dead_at : ℕ

-- Where a job waits: for its lock until a deadline, for its executor, or out of a failure's delay.
-- A job that has a lock may learn that it is lost. The deferred tasks are what the executor left in
-- `_deferredEnqueue`.
pub data Phase : Type 0 where
  awaits_lock : String → ℕ → ℕ → Phase
  executes : Option String → Bool → Phase
  sleeps : Option String → Bool → List TaskPayload → Phase

pub record Job : Type 0 where
  pub task : TaskPayload
  pub phase : Phase

pub record Metrics : Type 0 where
  pub tasks_consumed : ℕ
  pub tasks_completed : ℕ
  pub tasks_failed : ℕ
  pub tasks_retried : ℕ
  pub tasks_dead_lettered : ℕ
  pub lock_conflicts : ℕ
  pub lock_renew_failed : ℕ
  pub lock_lost_during_execution : ℕ
  pub execution_aborted : ℕ

pub record Worker : Type 0 where
  pub config : Config
  pub open config use *
  pub backend : Backend
  pub running : Bool
  pub destroyed : Bool
  pub active_locks : List String
  pub running_tasks : Map TaskPayload
  pub dead_letters : List DeadLetter
  pub metrics : Metrics

unfoldable pub retry_count : Config → TaskPayload → ℕ
retry_count c task = or_else (c.retry_count_of task.data_json) 0

-- 5 s, 15 s, 45 s, … for the default base.
unfoldable retry_delay : Config → TaskPayload → ℕ
unfolding retry_count
retry_delay c task = c.retry_base_delay_ms * 3 ^ retry_count c task
