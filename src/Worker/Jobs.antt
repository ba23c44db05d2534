-- ===== src/Worker/Jobs.antt =====
-- The steps of a job in src/services/pipeline-worker.ts. A step gives the job that goes on, if it
-- does not end.
pub mod Losses
use chris_tencent_db_agent_m.Prelude.{
  ℕ, suc, ◌+◌, ◌*◌, String, Bool, true, false, ◌&&◌, Option, none, some, List, [], ◌∷◌, ◌++◌, ltb,
  min, if◌then◌else◌,
}
use chris_tencent_db_agent_m.Prelude.Maps
use chris_tencent_db_agent_m.StateBackend.State.{TaskPayload, TaskType, offload_l2, Effect}
use chris_tencent_db_agent_m.StateBackend.Locks.{acquire_lock, renew_lock}
use chris_tencent_db_agent_m.Worker.{Phase, awaits_lock, executes, sleeps, Job, Worker, retry_count}
use chris_tencent_db_agent_m.Worker.Locks.{lock_key}
use chris_tencent_db_agent_m.Worker.Ends.{
  enqueue, cascade_schedule, move_to_dead_letter, retried_task, wind_up,
}

-- The worker after a step, the host's effects, and the job that goes on.
pub record Step : Type 0 where
  pub worker : Worker
  pub effects : List Effect
  pub jobs : List Job

goes_on : Job → Worker → Step
goes_on job w = record { worker = w; effects = []; jobs = job ∷ [] }

-- The job is over.
ended : Worker × List Effect → Step
ended r = record { worker = r.0; effects = r.1; jobs = [] }

-- The lock is acquired, or none is needed: the executor is called.
begin_execution : Option String → TaskPayload → Worker → Step
unfolding goes_on
begin_execution lock task w =
    goes_on (record { task = task; phase = executes lock false })
      (record w {
        active_locks = elim lock [ none ↦ w.active_locks | some key ↦ key ∷ w.active_locks ];
        running_tasks = Maps.set w.running_tasks task.id task;
      })

skips_on_conflict : TaskType → Bool
skips_on_conflict offload_l2 = true
skips_on_conflict _ = false

-- `while (Date.now() < deadline && this.running)`.
wait_or_drop : ℕ → String → ℕ → ℕ → TaskPayload → Worker → Step
unfolding goes_on ended
wait_or_drop now key deadline delay task w =
    if ltb now deadline && w.running
    then goes_on (record { task = task; phase = awaits_lock key deadline delay }) w
    else ended (w, [])

begin_locked : ℕ → String → TaskPayload → Worker → Step
unfolding begin_execution wait_or_drop skips_on_conflict ended
begin_locked now key task w =
    let (b, locked) = acquire_lock now key w.worker_id w.lock_ttl_ms w.backend in
    let w' = record w { backend = b } in
    let conflict = record w' {
      metrics = record w.metrics { lock_conflicts = suc w.metrics.lock_conflicts };
    } in
    if locked
    then begin_execution (some key) task w'
    else if skips_on_conflict task.task_type
    then ended (conflict, [])
    else wait_or_drop now key (now + w.lock_ttl_ms) 200 task conflict

begin_at : Option String → ℕ → TaskPayload → Worker → Step
unfolding begin_execution begin_locked
begin_at none now task w = begin_execution none task w
begin_at (some key) now task w = begin_locked now key task w

-- `processTask` of a consumed task, up to its first sleep or the executor.
unfoldable pub process_task : ℕ → TaskPayload → Worker → Step
unfolding begin_at
process_task now task w =
    begin_at (lock_key w.config task) now task
      (record w { metrics = record w.metrics { tasks_consumed = suc w.metrics.tasks_consumed } })

-- A job that sleeps for its lock wakes up. Any other stays where it is.
wake_at : Phase → ℕ → TaskPayload → Worker → Step
unfolding begin_execution wait_or_drop goes_on
wake_at (awaits_lock key deadline delay) now task w =
    let (b, locked) = acquire_lock now key w.worker_id w.lock_ttl_ms w.backend in
    let w' = record w { backend = b } in
    if locked
    then begin_execution (some key) task w'
    else wait_or_drop now key deadline (min (delay * 3) 5000) task w'
wake_at phase now task w = goes_on (record { task = task; phase = phase }) w

-- A tick of the renewal's interval: `answers` is false if the call throws. A job that has lost its
-- lock has stopped the interval.
renewed : ℕ → Bool → String → Worker → Worker × Bool
renewed now answers key w =
    let (b, ok) = renew_lock now key w.worker_id w.lock_ttl_ms w.backend in
    if answers && ok then (record w { backend = b }, false) else (
      record w {
        metrics = record w.metrics {
          lock_renew_failed = suc w.metrics.lock_renew_failed;
          execution_aborted = suc w.metrics.execution_aborted;
        };
      },
      true,
    )

renew_at : Phase → ℕ → Bool → TaskPayload → Worker → Step
unfolding renewed goes_on
renew_at (executes (some key) false) now answers task w =
    let (w', lost) = renewed now answers key w in
    goes_on (record { task = task; phase = executes (some key) lost }) w'
renew_at (sleeps (some key) false deferred) now answers task w =
    let (w', lost) = renewed now answers key w in
    goes_on (record { task = task; phase = sleeps (some key) lost deferred }) w'
renew_at phase now answers task w = goes_on (record { task = task; phase = phase }) w

-- The executor returns: whether it marked the task as `_l2Skipped`, and what it deferred.
return_at : Phase → ℕ → Bool → List TaskPayload → TaskPayload → Worker → Step
unfolding goes_on ended
return_at (executes none lost) now skipped deferred task w = ended (
    wind_up none task deferred
      (record w { metrics = record w.metrics { tasks_completed = suc w.metrics.tasks_completed } }))
return_at (executes (some key) true) now skipped deferred task w = ended (
    wind_up (some key) task deferred (record w {
      metrics = record w.metrics {
        lock_lost_during_execution = suc w.metrics.lock_lost_during_execution;
      };
    }))
return_at (executes (some key) false) now skipped deferred task w =
    let (w', es) = cascade_schedule now skipped task (record w {
      metrics = record w.metrics { tasks_completed = suc w.metrics.tasks_completed };
    }) in
    let (w'', more) = wind_up (some key) task deferred w' in ended (w'', es ++ more)
return_at phase now skipped deferred task w = goes_on (record { task = task; phase = phase }) w

-- The executor throws, and the lock, if there is one, is not lost.
fail : Option String → ℕ → String → List TaskPayload → TaskPayload → Worker → Step
unfolding goes_on ended
fail lock now error deferred task w =
    let failed = record w {
      metrics = record w.metrics { tasks_failed = suc w.metrics.tasks_failed };
    } in
    let (w', es) = move_to_dead_letter now error task failed in
    let (w'', more) = wind_up lock task deferred w' in
    if ltb (retry_count w.config task) w.max_retries
    then goes_on (record { task = task; phase = sleeps lock false deferred }) failed
    else ended (w'', es ++ more)

throw_at : Phase → ℕ → String → List TaskPayload → TaskPayload → Worker → Step
unfolding fail ended goes_on
throw_at (executes none lost) now error deferred task w = fail none now error deferred task w
throw_at (executes (some key) true) now error deferred task w = ended (
    wind_up (some key) task deferred
      (record w { metrics = record w.metrics { tasks_failed = suc w.metrics.tasks_failed } }))
throw_at (executes (some key) false) now error deferred task w =
    fail (some key) now error deferred task w
throw_at phase now error deferred task w = goes_on (record { task = task; phase = phase }) w

-- The delay after a failure is over.
retry_at : Phase → ℕ → TaskPayload → Worker → Step
unfolding goes_on ended
retry_at (sleeps lock lost deferred) now task w =
    let (w', es) = enqueue (retried_task w.config now task) w in
    let (w'', more) = wind_up lock task deferred (record w' {
      metrics = record w'.metrics { tasks_retried = suc w'.metrics.tasks_retried };
    }) in
    ended (w'', es ++ more)
retry_at phase now task w = goes_on (record { task = task; phase = phase }) w

-- What a job that is in flight may meet.
pub data Turn : Type 0 where
  wakes : ℕ → Turn
  renews : ℕ → Bool → Turn
  returns : ℕ → Bool → List TaskPayload → Turn
  throws : ℕ → String → List TaskPayload → Turn
  retries : ℕ → Turn

unfoldable pub job_step : Turn → Job → Worker → Step
unfolding wake_at renew_at return_at throw_at retry_at
job_step (wakes now) job w = wake_at job.phase now job.task w
job_step (renews now answers) job w = renew_at job.phase now answers job.task w
job_step (returns now skipped deferred) job w = return_at job.phase now skipped deferred job.task w
job_step (throws now error deferred) job w = throw_at job.phase now error deferred job.task w
job_step (retries now) job w = retry_at job.phase now job.task w
