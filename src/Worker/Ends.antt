-- ===== src/Worker/Ends.antt =====
-- What follows the execution of a task in src/services/pipeline-worker.ts: the cascade, the dead
-- letter, the retry, and the release of what the job held.
use Prim.Native.String.{◌++◌ as glue}
use chris_tencent_db_agent_m.Prelude.{
  ℕ, suc, ◌+◌, String, Bool, Option, none, some, List, [], ◌∷◌, ◌++◌, keep, not, str_eq,
  if◌then◌else◌,
}
use chris_tencent_db_agent_m.Prelude.Maps
use chris_tencent_db_agent_m.StateBackend.State.{TaskPayload, TaskType, l1, l2, l3, flush, Effect}
use chris_tencent_db_agent_m.StateBackend.Sessions.{Patch, update_session_state}
use chris_tencent_db_agent_m.StateBackend.Timers.{remove_timer}
use chris_tencent_db_agent_m.StateBackend.Tasks.{enqueue_task}
use chris_tencent_db_agent_m.StateBackend.Locks.{release_lock}
use chris_tencent_db_agent_m.Worker.{Config, Worker, retry_count}

-- A call of the backend's `enqueueTask`.
unfoldable pub enqueue : TaskPayload → Worker → Worker × List Effect
enqueue task w = let (b, es) = enqueue_task task w.backend in (record w { backend = b }, es)

unfoldable pub enqueue_all : List TaskPayload → Worker → Worker × List Effect
unfolding enqueue
enqueue_all [] w = (w, [])
enqueue_all (task ∷ tasks) w =
    let (w', es) = enqueue task w in let (w'', more) = enqueue_all tasks w' in (w'', es ++ more)

no_patch : Patch
no_patch = record {
  conversation_count = none;
  last_extraction_time = none;
  last_extraction_updated_time = none;
  last_active_time = none;
  l2_pending_l1_count = none;
  warmup_threshold = none;
  l2_last_extraction_time = none;
}

patch_of : Config → TaskType → ℕ → Patch
unfolding no_patch
patch_of c l2 now = record no_patch {
  l2_pending_l1_count = some 0;
  l2_last_extraction_time = some (c.iso_string now);
}
patch_of c type now = record no_patch { conversation_count = some 0; l2_pending_l1_count = some 1 }

l3_task : Config → ℕ → TaskPayload → TaskPayload
l3_task c now task = record {
  id = glue "L3-" (glue task.instance_id (glue "-" (c.digits now)));
  task_type = l3;
  instance_id = task.instance_id;
  session_id = task.session_id;
  priority = 2;
  data_json = c.with_trace task.data_json;
  created_at = now;
}

after_l1 : ℕ → TaskPayload → Worker → Worker × List Effect
unfolding patch_of
after_l1 now task w =
    let b =
      update_session_state now task.instance_id task.session_id (patch_of w.config l1 now)
        w.backend in
    (record w { backend = w.on_l1_complete now task.session_id task.instance_id b }, [])

after_l2 : ℕ → TaskPayload → Worker → Worker × List Effect
unfolding patch_of enqueue l3_task
after_l2 now task w =
    let (w', es) = enqueue (l3_task w.config now task) w in
    let b =
      update_session_state now task.instance_id task.session_id (patch_of w.config l2 now)
        w'.backend in
    (record w' { backend = w.on_l2_complete now task.session_id task.instance_id b }, es)

cascade_at : TaskType → ℕ → Bool → TaskPayload → Worker → Worker × List Effect
unfolding after_l1 after_l2
cascade_at l1 now skipped task w = after_l1 now task w
cascade_at flush now skipped task w = after_l1 now task w
cascade_at l2 now skipped task w = if skipped then (w, []) else after_l2 now task w
cascade_at type now skipped task w = (w, [])

-- `cascadeSchedule`; the flag is the task's `_l2Skipped`.
unfoldable pub cascade_schedule : ℕ → Bool → TaskPayload → Worker → Worker × List Effect
unfolding cascade_at
cascade_schedule now skipped task w = cascade_at task.task_type now skipped task w

unfoldable pub move_to_dead_letter : ℕ → String → TaskPayload → Worker → Worker × List Effect
move_to_dead_letter now error task w =
    let (b1, es) = remove_timer task.instance_id (glue task.session_id ":L1_idle") w.backend in
    let (b2, more) = remove_timer task.instance_id (glue task.session_id ":L2_schedule") b1 in
    (
      record w {
        backend = b2;
        dead_letters =
            w.dead_letters
            ++ (record {
              task = task;
              error = error;
              retry_count = retry_count w.config task;
              dead_at = now;
            }
                ∷ []);
        metrics = record w.metrics { tasks_dead_lettered = suc w.metrics.tasks_dead_lettered };
      },
      es ++ more,
    )

-- The task that `reEnqueue` enqueues.
unfoldable pub retried_task : Config → ℕ → TaskPayload → TaskPayload
unfolding retry_count
retried_task c now task =
    let next = retry_count c task + 1 in
    record task {
      id = glue (c.type_name task) (
          glue "-" (
            glue task.session_id (glue "-retry" (glue (c.digits next) (glue "-" (c.digits now))))));
      data_json = c.with_retry_count next task.data_json;
      created_at = now;
    }

free_lock : Option String → Worker → Worker
free_lock none w = w
free_lock (some key) w = record w {
  active_locks = keep (λ k. not (str_eq k key)) w.active_locks;
  backend = release_lock key w.worker_id w.backend;
}

-- The `finally` of `processTask`.
unfoldable pub wind_up :
    Option String → TaskPayload → List TaskPayload → Worker → Worker × List Effect
unfolding free_lock enqueue_all
wind_up lock task deferred w =
    enqueue_all deferred
      (free_lock lock (record w { running_tasks = Maps.delete w.running_tasks task.id }))
