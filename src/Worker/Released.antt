-- ===== src/Worker/Released.antt =====
-- That a job of src/services/pipeline-worker.ts keeps nothing when it ends.
use chris_tencent_db_agent_m.Prelude.{
  ◌≡◌, ◌≢◌, sym, subst, String, true, false, Option, none, some, List, [], ◌∷◌, arith, ltb, if_elim,
  eq_iff,
}
use chris_tencent_db_agent_m.Prelude.Maps
use chris_tencent_db_agent_m.Prelude.Maps.{Map, get-delete}
use chris_tencent_db_agent_m.StateBackend.State.{TaskPayload, Lock, Backend}
use chris_tencent_db_agent_m.StateBackend.Tasks.{enqueue_task}
use chris_tencent_db_agent_m.StateBackend.Locks.Exclusion.{not-release}
use chris_tencent_db_agent_m.Worker.{Job, Phase, awaits_lock, executes, sleeps, Worker, retry_count}
use chris_tencent_db_agent_m.Worker.Ends.{wind_up, enqueue, enqueue_all}
use chris_tencent_db_agent_m.Worker.Jobs.{
  Step, Turn, wakes, renews, returns, throws, retries, job_step,
}

-- The lock of a job that executes or sleeps after a failure.
abbrev pub held : Phase → Option String
held (awaits_lock key deadline delay) = none
held (executes lock lost) = lock
held (sleeps lock lost deferred) = lock

-- The worker does not have the lock, and does not list the task as running.
abbrev pub IsReleased : String → String → Worker → Type 0
IsReleased key id w =
    ((l : Lock) → Maps.get w.backend.locks key ≡ some l → l.owner_id ≢ w.worker_id)
    × (Maps.get w.running_tasks id ≡ none)

locks-enqueue : (task : TaskPayload) (b : Backend) → (enqueue_task task b).0.locks ≡ b.locks
unfolding enqueue_task
locks-enqueue task b = ground arith

enqueue_all-IsReleased :
    (tasks : List TaskPayload) (key id : String) (w : Worker)
    → IsReleased key id w
    → IsReleased key id (enqueue_all tasks w).0
unfolding enqueue_all enqueue
enqueue_all-IsReleased [] key id w h = h
enqueue_all-IsReleased (task ∷ tasks) key id w h =
    enqueue_all-IsReleased tasks key id (record w { backend = (enqueue_task task w.backend).0 })
      (
        subst (λ (m : Map Lock). (l : Lock) → Maps.get m key ≡ some l → l.owner_id ≢ w.worker_id)
            (sym (locks-enqueue task w.backend)) h.0,
        h.1,
      )

wind_up-IsReleased :
    (key : String) (task : TaskPayload) (tasks : List TaskPayload) (w : Worker)
    → IsReleased key task.id (wind_up (some key) task tasks w).0
unfolding wind_up
wind_up-IsReleased key task tasks w = enqueue_all-IsReleased tasks key task.id _ (
  not-release key w.worker_id w.backend,
  ground (arith, get-delete w.running_tasks task.id task.id, eq_iff task.id task.id),
)

freed :
    (k key : String) (task : TaskPayload) (tasks : List TaskPayload) (w : Worker)
    → some k ≡ some key
    → IsReleased key task.id (wind_up (some k) task tasks w).0
freed k key task tasks w h =
    subst (λ (j : String). IsReleased j task.id (wind_up (some k) task tasks w).0)
      (ground (arith, h)) (wind_up-IsReleased k task tasks w)

-- A step that ends a job has released its lock and its entry.
abbrev Frees : String → String → Step → Type 0
Frees key id s = s.jobs ≡ [] → IsReleased key id s.worker

step-Frees :
    (turn : Turn) (phase : Phase) (task : TaskPayload) (w : Worker) (key : String)
    → held phase ≡ some key
    → Frees key task.id (job_step turn (record { task = task; phase = phase }) w)
unfolding job_step
step-Frees turn (awaits_lock k d e) task w key h = ground arith
step-Frees turn (executes none lost) task w key h = ground arith
step-Frees turn (sleeps none lost deferred) task w key h = ground arith
step-Frees (wakes now) (executes (some k) lost) task w key h = λ n. cc n
step-Frees (wakes now) (sleeps (some k) lost deferred) task w key h = λ n. cc n
step-Frees (renews now answers) (executes (some k) true) task w key h = λ n. cc n
step-Frees (renews now answers) (executes (some k) false) task w key h = λ n. cc n
step-Frees (renews now answers) (sleeps (some k) true deferred) task w key h = λ n. cc n
step-Frees (renews now answers) (sleeps (some k) false deferred) task w key h = λ n. cc n
step-Frees (returns now skipped deferred) (executes (some k) true) task w key h =
    λ n. freed k key task deferred _ h
step-Frees (returns now skipped deferred) (executes (some k) false) task w key h =
    λ n. freed k key task deferred _ h
step-Frees (returns now skipped deferred) (sleeps (some k) lost defer) task w key h = λ n. cc n
step-Frees (throws now error deferred) (executes (some k) true) task w key h =
    λ n. freed k key task deferred _ h
step-Frees (throws now error deferred) (executes (some k) false) task w key h =
    if_elim (Frees key task.id) (ltb (retry_count w.config task) w.max_retries) _ _
      (λ again n. cc n) (λ over n. freed k key task deferred _ h)
step-Frees (throws now error deferred) (sleeps (some k) lost defer) task w key h = λ n. cc n
step-Frees (retries now) (executes (some k) lost) task w key h = λ n. cc n
step-Frees (retries now) (sleeps (some k) lost deferred) task w key h =
    λ n. freed k key task deferred _ h

-- When a step ends a job that had a lock, by success, failure or loss of the lock, the lock is not
-- the worker's in the backend, and the task is not among the running ones.
pub ends-IsReleased :
    (turn : Turn) (job : Job) (w : Worker) (key : String)
    → held job.phase ≡ some key
    → (job_step turn job w).jobs ≡ []
    → IsReleased key job.task.id (job_step turn job w).worker
ends-IsReleased turn job w key h = step-Frees turn job.phase job.task w key h
