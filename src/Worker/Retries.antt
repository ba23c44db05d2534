-- ===== src/Worker/Retries.antt =====
-- How often src/services/pipeline-worker.ts executes a task that always fails, where each execution
-- takes the task that the queue of src/core/state/local-backend.ts gives.
use mathlib.Core.List.{append-nil}
use chris_tencent_db_agent_m.Prelude.{
  ℕ, zero, suc, ◌+◌, ◌≡◌, ◌<◌, refl, sym, ap, ◌∙◌, subst, String, true, false, Option, none, some,
  List, [], ◌∷◌, ◌++◌, length, arith, ltb, if_then, if_else,
}
use chris_tencent_db_agent_m.StateBackend.State.{TaskPayload, Effect, Backend, resolved}
use chris_tencent_db_agent_m.StateBackend.Tasks.{enqueue_task, consume_task}
use chris_tencent_db_agent_m.StateBackend.Tasks.Frame.{enqueue-empty, consume-only, consume-none}
use chris_tencent_db_agent_m.StateBackend.Timers.Frame.{remove_timer-frame}
use chris_tencent_db_agent_m.StateBackend.Locks.Frame.{release-frame}
use chris_tencent_db_agent_m.Worker.{
  Config, DeadLetter, Job, Metrics, executes, sleeps, Worker, retry_count,
}
use chris_tencent_db_agent_m.Worker.Ends.{retried_task, wind_up, enqueue, move_to_dead_letter}
use chris_tencent_db_agent_m.Worker.Jobs.{Step, throws, retries, job_step}

executing : Option String → TaskPayload → Job
executing lock task = record { task = task; phase = executes lock false }

after_failure : ℕ → List Job → Worker → Worker
after_failure now [] w = w
after_failure now (job ∷ jobs) w = (job_step (retries now) job w).worker

-- The executor throws, and if the job goes on its delay is over.
attempt : ℕ → String → Option String → TaskPayload → Worker → Worker
unfolding executing after_failure
attempt now error lock task w =
    let s = job_step (throws now error []) (executing lock task) w in
    after_failure now s.jobs s.worker

-- The task that a call of consumeTask is given at once.
given_task : List Effect → Option TaskPayload
given_task (resolved promise o ∷ es) = o
given_task _ = none

attempt_taken : ℕ → String → Option String → Option TaskPayload → Worker → Worker
attempt_taken now error lock none w = w
attempt_taken now error lock (some task) w = attempt now error lock task w

-- A task is consumed for each of the times, if there is one, and its execution fails. The
-- executions have the lock that the task needs.
pub fail_all : List ℕ → String → Option String → Worker → Worker
unfolding attempt_taken given_task
fail_all [] error lock w = w
fail_all (now ∷ times) error lock w =
    let (b, es) = consume_task 0 0 w.backend in
    fail_all times error lock
      (attempt_taken now error lock (given_task es) (record w { backend = b }))

-- Writing the retry count into a task's data and reading it back.
abbrev pub ReadsBack : Config → Type 0
ReadsBack c = (n : ℕ) (d : Option String) → c.retry_count_of (c.with_retry_count n d) ≡ some n

count-retried :
    (c : Config) (now : ℕ) (task : TaskPayload)
    → ReadsBack c
    → retry_count c (retried_task c now task) ≡ retry_count c task + 1
unfolding retry_count retried_task
count-retried c now task law = ground (arith, law (retry_count c task + 1) task.data_json)

-- One execution, after which just the given tasks are queued and the given records dead letters.
Attempted : List TaskPayload → List DeadLetter → ℕ → Worker → Worker → Type 0
Attempted queue letters again w w' =
    (w'.config ≡ w.config)
    × (w'.backend.task_queue ≡ queue)
    × (w'.backend.consume_waiters ≡ [])
    × (w'.metrics.tasks_failed ≡ w.metrics.tasks_failed + 1)
    × (w'.metrics.tasks_retried ≡ w.metrics.tasks_retried + again)
    × (w'.dead_letters ≡ w.dead_letters ++ letters)

-- What the end of a job leaves alone.
wind_up-Frame :
    (lock : Option String) (task : TaskPayload) (w : Worker)
    → let w' = (wind_up lock task [] w).0 in
      (w'.config ≡ w.config)
      × (w'.backend.task_queue ≡ w.backend.task_queue)
      × (w'.backend.consume_waiters ≡ w.backend.consume_waiters)
      × (w'.metrics ≡ w.metrics)
      × (w'.dead_letters ≡ w.dead_letters)
unfolding wind_up
wind_up-Frame none task w = (refl, refl, refl, refl, refl)
wind_up-Frame (some key) task w =
    let r = release-frame key w.worker_id w.backend in (refl, r.0, r.1, refl, refl)

failed : Worker → Worker
failed w = record w { metrics = record w.metrics { tasks_failed = suc w.metrics.tasks_failed } }

retried-attempt :
    (now : ℕ) (error : String) (lock : Option String) (task : TaskPayload) (w : Worker)
    → ltb (retry_count w.config task) w.max_retries ≡ true
    → attempt now error lock task w
      ≡ (job_step
          (retries now)
          (record { task = task; phase = sleeps lock false [] })
          (failed w)).worker
unfolding attempt executing after_failure job_step failed
retried-attempt now error none task w h =
    ap (λ (s : Step). after_failure now s.jobs s.worker) (if_then _ _ _ h)
retried-attempt now error (some key) task w h =
    ap (λ (s : Step). after_failure now s.jobs s.worker) (if_then _ _ _ h)

dead-attempt :
    (now : ℕ) (error : String) (lock : Option String) (task : TaskPayload) (w : Worker)
    → ltb (retry_count w.config task) w.max_retries ≡ false
    → attempt now error lock task w
      ≡ (wind_up lock task [] (move_to_dead_letter now error task (failed w)).0).0
unfolding attempt executing after_failure job_step failed
dead-attempt now error none task w h =
    ap (λ (s : Step). after_failure now s.jobs s.worker) (if_else _ _ _ h)
dead-attempt now error (some key) task w h =
    ap (λ (s : Step). after_failure now s.jobs s.worker) (if_else _ _ _ h)

retried-Attempted :
    (now : ℕ) (error : String) (lock : Option String) (task : TaskPayload) (w : Worker)
    → ltb (retry_count w.config task) w.max_retries ≡ true
    → w.backend.task_queue ≡ []
    → w.backend.consume_waiters ≡ []
    → Attempted (retried_task w.config now task ∷ []) [] 1 w (attempt now error lock task w)
unfolding Attempted job_step enqueue failed
retried-Attempted now error lock task w h e f =
    let next = retried_task w.config now task in
    let q = enqueue-empty next w.backend e f in
    let w1 : Worker = record (failed w) {
      backend = (enqueue_task next w.backend).0;
      metrics = record (failed w).metrics { tasks_retried = suc w.metrics.tasks_retried };
    } in
    let r = wind_up-Frame lock task w1 in
    subst (Attempted (next ∷ []) [] 1 w) (sym (retried-attempt now error lock task w h)) (
      r.0,
      r.1 ∙ q.0,
      r.2 ∙ q.1,
      omega (arith, ap (λ (m : Metrics). m.tasks_failed) r.3),
      omega (arith, ap (λ (m : Metrics). m.tasks_retried) r.3),
      r.4 ∙ sym (append-nil w.dead_letters),
    )

dead-Attempted :
    (now : ℕ) (error : String) (lock : Option String) (task : TaskPayload) (w : Worker)
    → ltb (retry_count w.config task) w.max_retries ≡ false
    → w.backend.task_queue ≡ []
    → w.backend.consume_waiters ≡ []
    → Attempted []
        (record {
          task = task;
          error = error;
          retry_count = retry_count w.config task;
          dead_at = now;
        }
          ∷ [])
        0
        w
        (attempt now error lock task w)
unfolding Attempted failed move_to_dead_letter
dead-Attempted now error lock task w h e f =
    let r = wind_up-Frame lock task (move_to_dead_letter now error task (failed w)).0 in
    subst (Attempted [] _ 0 w) (sym (dead-attempt now error lock task w h)) (
      r.0,
      r.1 ∙ (remove_timer-frame _ _ _).2 ∙ (remove_timer-frame _ _ w.backend).2 ∙ e,
      r.2 ∙ (remove_timer-frame _ _ _).3 ∙ (remove_timer-frame _ _ w.backend).3 ∙ f,
      omega (arith, ap (λ (m : Metrics). m.tasks_failed) r.3),
      omega (arith, ap (λ (m : Metrics). m.tasks_retried) r.3),
      r.4,
    )

-- The worker once the only task of the queue is consumed.
emptied : Worker → Worker
emptied w = record w { backend = record w.backend { task_queue = [] } }

fail_all-only :
    (now : ℕ) (times : List ℕ) (error : String) (lock : Option String) (task : TaskPayload)
    (w : Worker)
    → w.backend.task_queue ≡ task ∷ []
    → fail_all (now ∷ times) error lock w
      ≡ fail_all times error lock (attempt now error lock task (emptied w))
unfolding fail_all emptied attempt_taken given_task
fail_all-only now times error lock task w e =
    ap
      (λ (r : Backend × List Effect).
        fail_all times error lock
          (attempt_taken now error lock (given_task r.1) (record w { backend = r.0 })))
      (consume-only 0 0 task w.backend e)

fail_all-none :
    (times : List ℕ) (error : String) (lock : Option String) (w : Worker)
    → w.backend.task_queue ≡ []
    → fail_all times error lock w ≡ w
unfolding fail_all attempt_taken given_task
fail_all-none [] error lock w e = refl
fail_all-none (now ∷ times) error lock w e =
    ap
      (λ (r : Backend × List Effect).
        fail_all times error lock
          (attempt_taken now error lock (given_task r.1) (record w { backend = r.0 })))
      (consume-none 0 w.backend e)
    ∙ fail_all-none times error lock w e

-- The task has been executed once and `n` times again, nothing is queued, and there is one dead
-- letter more, of the task's session and type, with the error and the full retry count.
abbrev pub IsDoomed : String → TaskPayload → ℕ → Worker → Worker → Type 0
IsDoomed error task n w w' =
    (w'.backend.task_queue ≡ [])
    × (w'.metrics.tasks_failed ≡ w.metrics.tasks_failed + n + 1)
    × (w'.metrics.tasks_retried ≡ w.metrics.tasks_retried + n)
    × (letter : DeadLetter) × (w'.dead_letters ≡ w.dead_letters ++ (letter ∷ []))
    × (letter.retry_count ≡ w.max_retries)
    × (letter.error ≡ error)
    × (letter.task.session_id ≡ task.session_id)
    × (letter.task.task_type ≡ task.task_type)

dead-IsDoomed :
    (now : ℕ) (times : List ℕ) (error : String) (lock : Option String) (task : TaskPayload)
    (w : Worker)
    → w.backend.consume_waiters ≡ []
    → retry_count w.config task ≡ w.max_retries
    → IsDoomed error task 0 w (fail_all times error lock (attempt now error lock task (emptied w)))
unfolding emptied Attempted
dead-IsDoomed now times error lock task w f e =
    let w' = attempt now error lock task (emptied w) in
    let r = dead-Attempted now error lock task (emptied w) (ground arith) refl f in
    subst (IsDoomed error task 0 w) (sym (fail_all-none times error lock w' r.1))
      (r.1, omega (arith, r.3), omega (arith, r.4), _, r.5, e, refl, refl, refl)

again-IsDoomed :
    (n : ℕ) (error : String) (next task : TaskPayload) (w w1 w' : Worker)
    → Attempted (next ∷ []) [] 1 w w1
    → next.session_id ≡ task.session_id
    → next.task_type ≡ task.task_type
    → IsDoomed error next n w1 w'
    → IsDoomed error task (suc n) w w'
unfolding Attempted
again-IsDoomed n error next task w w1 w' r s t (q, f, a, letter, d, c, e, s', t') = (
  q,
  omega (arith, f, r.3),
  omega (arith, a, r.4),
  letter,
  d ∙ ap (◌++ (letter ∷ [])) (r.5 ∙ append-nil w.dead_letters),
  c ∙ ap (λ (x : Config). x.max_retries) r.0,
  e,
  s' ∙ s,
  t' ∙ t,
)

-- Where the retry count can be read back from a task's data and a task is alone in the queue of a
-- backend without waiting calls, given more times than the task's retry count is below the limit,
-- each of which consumes a task if there is one and lets its execution fail: the task is executed
-- once and again as often as its count is below the limit, each time as what the failure before it
-- has enqueued; then nothing is queued, and there is one dead letter more, with the error, the
-- limit as its retry count, and the task's session and type. The executions have the lock that the
-- task needs.
pub fail_all-IsDoomed :
    (times : List ℕ) (error : String) (lock : Option String) (task : TaskPayload) (w : Worker)
    (n : ℕ)
    → ReadsBack w.config
    → w.backend.task_queue ≡ task ∷ []
    → w.backend.consume_waiters ≡ []
    → retry_count w.config task + n ≡ w.max_retries
    → n < length times
    → IsDoomed error task n w (fail_all times error lock w)
unfolding emptied retried_task Attempted
fail_all-IsDoomed [] error lock task w n law q f e h = absurd (omega arith)
fail_all-IsDoomed (now ∷ times) error lock task w zero law q f e h =
    subst (IsDoomed error task 0 w) (sym (fail_all-only now times error lock task w q))
      (dead-IsDoomed now times error lock task w f (omega arith))
fail_all-IsDoomed (now ∷ times) error lock task w (suc n) law q f e h =
    let next = retried_task w.config now task in
    let w1 = attempt now error lock task (emptied w) in
    let r = retried-Attempted now error lock task (emptied w) (ground arith) refl f in
    subst (IsDoomed error task (suc n) w) (sym (fail_all-only now times error lock task w q)) (
      again-IsDoomed n error next task (emptied w) w1 (fail_all times error lock w1) r refl refl (
        fail_all-IsDoomed times error lock next w1 n (subst ReadsBack (sym r.0) law) r.1 r.2
          (subst (λ (x : Config). retry_count x next + n ≡ x.max_retries) (sym r.0)
            (omega (arith, count-retried w.config now task law, e)))
          (omega arith)))
