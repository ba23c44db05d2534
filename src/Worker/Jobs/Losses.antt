-- ===== src/Worker/Jobs/Losses.antt =====
-- What a failure in src/services/pipeline-worker.ts does with the tasks of its job.
use mathlib.Core.List.{append-nil}
use Prim.Native.String.{◌++◌ as glue}
use chris_tencent_db_agent_m.Prelude.{
  suc, sym, ◌∙◌, subst, ℕ, ◌+◌, ◌≡◌, ap, String, Bool, true, false, Option, none, some, List, [],
  ◌∷◌, ◌++◌, map, arith, ltb, if_elim, if◌then◌else◌,
}
use chris_tencent_db_agent_m.StateBackend.State.{TaskPayload, Effect, Backend}
use chris_tencent_db_agent_m.StateBackend.Tasks.{enqueue_task}
use chris_tencent_db_agent_m.StateBackend.Tasks.Order.{count, count-append}
use chris_tencent_db_agent_m.StateBackend.Tasks.Delivery.{
  received, received-append, received-enqueue, settled_after, settled_after-append, enqueue-Tracks,
}
use chris_tencent_db_agent_m.StateBackend.Tasks.Pending.{ArePending, Tracks, pending-Tracks}
use chris_tencent_db_agent_m.StateBackend.Timers.{remove_timer}
use chris_tencent_db_agent_m.StateBackend.Timers.Frame.{remove_timer-frame}
use chris_tencent_db_agent_m.StateBackend.Locks.Frame.{release-frame}
use chris_tencent_db_agent_m.Worker.{
  DeadLetter, Phase, awaits_lock, executes, sleeps, Job, Worker, retry_count,
}
use chris_tencent_db_agent_m.Worker.Ends.{
  retried_task, enqueue, enqueue_all, wind_up, move_to_dead_letter,
}
use chris_tencent_db_agent_m.Worker.Jobs.{
  Step, Turn, wakes, renews, returns, throws, retries, job_step, fail, retry_at,
}

abbrev pub owed_in : Phase → TaskPayload → List TaskPayload
owed_in (sleeps lock lost deferred) task = task ∷ deferred
owed_in phase task = task ∷ []

-- The tasks that jobs still have to see to: their own, and those that one enqueues at its end.
abbrev pub owed : List Job → List TaskPayload
owed [] = []
owed (job ∷ jobs) = owed_in job.phase job.task ++ owed jobs

abbrev pub deferred_by : Turn → List TaskPayload
deferred_by (throws now error deferred) = deferred
deferred_by turn = []

-- The execution of a job throws while its lock is not lost, or the delay after that is over.
abbrev pub IsFailure : Turn → Phase → Type 0
IsFailure (throws now error deferred) (executes none lost) = Unit
IsFailure (throws now error deferred) (executes (some key) false) = Unit
IsFailure (retries now) (sleeps lock lost deferred) = Unit
IsFailure turn phase = ⊥

abbrev pub dead_tasks : Worker → List TaskPayload
dead_tasks w = map (λ (l : DeadLetter). l.task) w.dead_letters

module _ (test : TaskPayload → Bool) where
  -- The tasks that the effects give to calls whose promise is not settled yet, those in the queue,
  -- and the dead ones.
  abbrev pub count_out : List ℕ → Worker → List Effect → ℕ
  count_out settled w es =
      count test (received settled es) + count test w.backend.task_queue + count test (dead_tasks w)

  count_out-append :
      (s : List ℕ) (w : Worker) (es more : List Effect)
      → count_out s w (es ++ more)
        ≡ count test (received s es) + count_out (settled_after s es) w more
  count_out-append s w es more = omega (
    arith,
    ap (count test) (received-append s es more),
    count-append test (received s es) (received (settled_after s es) more),
  )

  count_out-enqueue_all :
      (tasks : List TaskPayload) (s used : List ℕ) (w : Worker)
      → Tracks s used w.backend.consume_waiters
      → let r = enqueue_all tasks w in count_out s r.0 r.1 ≡ count_out s w [] + count test tasks
  unfolding enqueue_all enqueue
  count_out-enqueue_all [] s used w v = omega arith
  count_out-enqueue_all (task ∷ tasks) s used w v =
      let (b, es) = enqueue_task task w.backend in
      let w' : Worker = record w { backend = b } in
      let (w'', more) = enqueue_all tasks w' in
      omega (
        arith,
        received-enqueue test task s used w.backend v,
        count_out-enqueue_all tasks (settled_after s es) used w'
            (enqueue-Tracks task s used w.backend v),
        count_out-append s w'' es more,
        count-append test (task ∷ []) tasks,
      )

  count_out-wind_up :
      (lock : Option String) (task : TaskPayload) (tasks : List TaskPayload) (s used : List ℕ)
      (w : Worker)
      → Tracks s used w.backend.consume_waiters
      → let r = wind_up lock task tasks w in
        count_out s r.0 r.1 ≡ count_out s w [] + count test tasks
  unfolding wind_up
  count_out-wind_up none task tasks s used w v = count_out-enqueue_all tasks s used _ v
  count_out-wind_up (some key) task tasks s used w v =
      let r = release-frame key w.worker_id w.backend in
      count_out-enqueue_all tasks s used _ (subst (Tracks s used) (sym r.1) v)
      ∙ omega (arith, ap (count test) r.0)

  count-removed :
      (s : List ℕ) (i m : String) (b : Backend) → count test (received s (remove_timer i m b).1) ≡ 0
  unfolding remove_timer
  count-removed s i m b = ground arith

  settled-removed :
      (s : List ℕ) (i m : String) (b : Backend) → settled_after s (remove_timer i m b).1 ≡ s
  unfolding remove_timer settled_after
  settled-removed s i m b = ground arith

  count-dead :
      (xs ys : List DeadLetter)
      → let tasks : List DeadLetter → List TaskPayload = map (λ (l : DeadLetter). l.task) in
        count test (tasks (xs ++ ys)) ≡ count test (tasks xs) + count test (tasks ys)
  count-dead [] ys = omega arith
  count-dead (x ∷ xs) ys = ground (arith, count-dead xs ys)

  count_out-dead :
      (now : ℕ) (error : String) (task : TaskPayload) (s : List ℕ) (w : Worker)
      → let r = move_to_dead_letter now error task w in
        (count_out s r.0 r.1 ≡ count_out s w [] + count test (task ∷ []))
        × (settled_after s r.1 ≡ s)
        × (r.0.backend.consume_waiters ≡ w.backend.consume_waiters)
  unfolding move_to_dead_letter
  count_out-dead now error task s w =
      let i = task.instance_id in
      let m1 = glue task.session_id ":L1_idle" in
      let m2 = glue task.session_id ":L2_schedule" in
      let (b1, es) = remove_timer i m1 w.backend in
      let (b2, more) = remove_timer i m2 b1 in
      let q1 = remove_timer-frame i m1 w.backend in
      let q2 = remove_timer-frame i m2 b1 in
      (
        omega (
          arith,
          count-removed s i m1 w.backend,
          count-removed (settled_after s es) i m2 b1,
          ap (count test) (received-append s es more),
          count-append test (received s es) (received (settled_after s es) more),
          ap (count test) q1.2,
          ap (count test) q2.2,
          count-dead w.dead_letters (
              record {
                task = task;
                error = error;
                retry_count = retry_count w.config task;
                dead_at = now;
              }
              ∷ []),
        ),
        settled_after-append s es more
            ∙ settled-removed (settled_after s es) i m2 b1
            ∙ settled-removed s i m1 w.backend,
        q2.3 ∙ q1.3,
      )

  -- What goes out and what is still owed, beside what was before.
  Keeps : List TaskPayload → Worker → Step → Type 0
  Keeps tasks w s =
      count test (owed s.jobs) + count_out [] s.worker s.effects
      ≡ count_out [] w [] + count test tasks

  count-same : (t u : TaskPayload) → test t ≡ test u → count test (t ∷ []) ≡ count test (u ∷ [])
  count-same t u e = ap (λ b. if b then suc 0 else 0) e

  failed-Keeps :
      (lock : Option String) (now : ℕ) (error : String) (deferred : List TaskPayload)
      (task : TaskPayload) (used : List ℕ) (w : Worker)
      → Tracks [] used w.backend.consume_waiters
      → Keeps (task ∷ deferred) w (fail lock now error deferred task w)
  unfolding Keeps fail
  failed-Keeps lock now error deferred task used w v =
      let failed : Worker = record w {
        metrics = record w.metrics { tasks_failed = suc w.metrics.tasks_failed };
      } in
      let (w1, es) = move_to_dead_letter now error task failed in
      let (w2, more) = wind_up lock task deferred w1 in
      let d = count_out-dead now error task [] failed in
      if_elim (Keeps (task ∷ deferred) w) (ltb (retry_count w.config task) w.max_retries) _ _
        (λ _. ground (arith, ap (count test) (append-nil deferred)))
        (λ _. omega (
          arith,
          count_out-append [] w2 es more,
          ap (λ s. count_out s w2 more) d.1,
          count_out-wind_up lock task deferred [] used w1 (subst (Tracks [] used) (sym d.2) v),
          d.0,
          count-append test (task ∷ []) deferred,
        ))

  retried-Keeps :
      (lock : Option String) (lost : Bool) (now : ℕ) (deferred : List TaskPayload)
      (task : TaskPayload) (used : List ℕ) (w : Worker)
      → Tracks [] used w.backend.consume_waiters
      → test (retried_task w.config now task) ≡ test task
      → Keeps (task ∷ deferred) w (retry_at (sleeps lock lost deferred) now task w)
  unfolding Keeps retry_at enqueue
  retried-Keeps lock lost now deferred task used w v same =
      let next = retried_task w.config now task in
      let (b, es) = enqueue_task next w.backend in
      let w1 : Worker = record w {
        backend = b;
        metrics = record w.metrics { tasks_retried = suc w.metrics.tasks_retried };
      } in
      let (w2, more) = wind_up lock task deferred w1 in
      omega (
        arith,
        count_out-append [] w2 es more,
        count_out-wind_up lock task deferred (settled_after [] es) used w1
            (enqueue-Tracks next [] used w.backend v),
        received-enqueue test next [] used w.backend v,
        count-append test (task ∷ []) deferred,
        count-same next task same,
      )

  failure-at :
      (turn : Turn) (phase : Phase) (task : TaskPayload) (used : List ℕ) (w : Worker)
      → Tracks [] used w.backend.consume_waiters
      → ((now : ℕ) → test (retried_task w.config now task) ≡ test task)
      → IsFailure turn phase
      → let s = job_step turn (record { task = task; phase = phase }) w in
        count test (owed s.jobs) + count_out [] s.worker s.effects
        ≡ count_out [] w [] + count test (owed_in phase task) + count test (deferred_by turn)
  unfolding job_step Keeps
  failure-at (throws now error deferred) (executes none lost) task used w v same f = omega (
    arith,
    failed-Keeps none now error deferred task used w v,
    count-append test (task ∷ []) deferred,
  )
  failure-at (throws now error deferred) (executes (some key) false) task used w v same f = omega (
    arith,
    failed-Keeps (some key) now error deferred task used w v,
    count-append test (task ∷ []) deferred,
  )
  failure-at (retries now) (sleeps lock lost deferred) task used w v same f =
      omega (arith, retried-Keeps lock lost now deferred task used w v (same now))
  failure-at (throws now error deferred) (executes (some key) true) task used w v same f = absurd f
  failure-at (throws now error deferred) (awaits_lock key d e) task used w v same f = absurd f
  failure-at (throws now error deferred) (sleeps lock lost d) task used w v same f = absurd f
  failure-at (retries now) (executes lock lost) task used w v same f = absurd f
  failure-at (retries now) (awaits_lock key d e) task used w v same f = absurd f
  failure-at (wakes now) phase task used w v same f = absurd f
  failure-at (renews now answers) phase task used w v same f = absurd f
  failure-at (returns now skipped deferred) phase task used w v same f = absurd f

-- When the execution of a job throws while its lock is not lost, or the delay after that is over,
-- with a backend whose waiting calls have different promises of which none is settled, then of the
-- tasks that pass a test which the job's task passes just if the retried ones do there are as many
-- before and after: before it those queued, the dead ones, those that the job owes (its own and,
-- in the delay, those that it enqueues at its end), and those that the executor defers; after it
-- those that resolve a promise which is not settled yet, those queued, the dead ones, and those
-- that the job still owes.
pub count_out-job_step :
    (test : TaskPayload → Bool) (turn : Turn) (job : Job) (used : List ℕ) (w : Worker)
    → ArePending [] used w.backend.consume_waiters
    → ((now : ℕ) → test (retried_task w.config now job.task) ≡ test job.task)
    → IsFailure turn job.phase
    → let s = job_step turn job w in
      count test (owed s.jobs) + count_out test [] s.worker s.effects
      ≡ count_out test [] w []
        + count test (owed_in job.phase job.task)
        + count test (deferred_by turn)
count_out-job_step test turn job used w v same f =
    failure-at test turn job.phase job.task used w (pending-Tracks used w.backend.consume_waiters v)
      same f
