-- ===== src/Worker/Locks.antt =====
-- The lock of a task in src/services/pipeline-worker.ts.
use Prim.Native.String.{◌++◌ as glue}
use chris_tencent_db_agent_m.Prelude.{String, Option, none, some, or_else}
use chris_tencent_db_agent_m.StateBackend.State.{
  TaskPayload, TaskType, l3, offload_l1, offload_l15, offload_l2,
}
use chris_tencent_db_agent_m.Worker.{Config, Granularity, by_session, by_instance}

instance_key : TaskPayload → String
instance_key task = glue "pipeline:{" (glue task.instance_id "}")

session_key : TaskPayload → String
session_key task = glue "pipeline:{" (glue task.instance_id (glue "}:" task.session_id))

keyed : Granularity → TaskType → TaskPayload → String
unfolding instance_key session_key
keyed by_instance type task = instance_key task
keyed by_session l3 task = instance_key task
keyed by_session type task = session_key task

key_at : TaskType → Config → TaskPayload → Option String
unfolding keyed
key_at offload_l1 c task = none
key_at offload_l15 c task = none
key_at offload_l2 c task = some (
    glue "pipeline:{" (
      glue task.instance_id
        (glue "}:offload-l2:" (or_else (c.mmd_file_of task.data_json) "default"))))
key_at type c task = some (keyed c.granularity type task)

-- `getLockKey`: none for a task that needs no lock.
unfoldable pub lock_key : Config → TaskPayload → Option String
unfolding key_at
lock_key c task = key_at task.task_type c task
