-- ===== src/Worker/Examples.antt =====
-- Runs of the worker of src/services/pipeline-worker.ts.
use Prim.Native.String.{[] as empty, ◌∷◌ as char_then}
use chris_tencent_db_agent_m.Prelude.{
  ℕ, zero, suc, ◌≡◌, refl, ◌+◌, Bool, str_eq, String, true, false, Option, none, some, [], ◌∷◌,
  arith,
}
use chris_tencent_db_agent_m.StateBackend.State.{TaskPayload, l1, init}
use chris_tencent_db_agent_m.Worker.{Config, by_session, executes, sleeps, Job, Worker, retry_count}
use chris_tencent_db_agent_m.Worker.Jobs.{Step, retries, returns, job_step}
use chris_tencent_db_agent_m.Worker.Jobs.Losses.{owed, count_out, count_out-job_step}
use chris_tencent_db_agent_m.StateBackend.Tasks.Order.{count}
use chris_tencent_db_agent_m.Worker.Ends.{retried_task}
use chris_tencent_db_agent_m.Worker.Released.{IsReleased, ends-IsReleased}
use chris_tencent_db_agent_m.Worker.Retries.{ReadsBack, IsDoomed, fail_all, fail_all-IsDoomed}

-- A number in unary, which can be read back.
abbrev tally : ℕ → String
tally zero = ""
tally (suc n) = char_then "i" (tally n)

abbrev read : String → ℕ
read empty = 0
read (char_then c s) = suc (read s)

read-tally : (n : ℕ) → read (tally n) ≡ n
read-tally zero = refl
read-tally (suc n) = ground (arith, read-tally n)

abbrev read_data : Option String → Option ℕ
read_data none = none
read_data (some s) = some (read s)

-- Three attempts.
abbrev config : Config
config = record {
  worker_id = "w1";
  lock_ttl_ms = 1000;
  max_retries = 2;
  retry_base_delay_ms = 5000;
  granularity = by_session;
  retry_count_of = read_data;
  with_retry_count = λ n _. some (tally n);
  mmd_file_of = λ d. d;
  with_trace = λ d. d;
  digits = tally;
  iso_string = tally;
  type_name = λ task. "L1";
  on_l1_complete = λ now session inst b. b;
  on_l2_complete = λ now session inst b. b;
}

abbrev worker : Worker
worker = record {
  config = config;
  backend = init false;
  running = true;
  destroyed = false;
  active_locks = [];
  running_tasks = [];
  dead_letters = [];
  metrics = record {
    tasks_consumed = 0;
    tasks_completed = 0;
    tasks_failed = 0;
    tasks_retried = 0;
    tasks_dead_lettered = 0;
    lock_conflicts = 0;
    lock_renew_failed = 0;
    lock_lost_during_execution = 0;
    execution_aborted = 0;
  };
}

abbrev task : TaskPayload
task = record {
  id = "t";
  task_type = l1;
  instance_id = "a";
  session_id = "s";
  priority = 0;
  data_json = none;
  created_at = 0;
}

reads_back : ReadsBack config
reads_back n d = ground (arith, read-tally n)

no_count : retry_count config task ≡ 0
unfolding retry_count
no_count = refl

abbrev queued : Worker
queued = record worker { backend = record (init false) { task_queue = task ∷ [] } }

fail_all-IsDoomed_example :
    IsDoomed "down" task 2 queued (fail_all (10 ∷ 20 ∷ 30 ∷ []) "down" (some "k") queued)
unfolding init
fail_all-IsDoomed_example =
    fail_all-IsDoomed (10 ∷ 20 ∷ 30 ∷ []) "down" (some "k") task queued 2 reads_back refl refl
      (omega (arith, no_count)) (omega arith)

abbrev done : Step
done =
    job_step (returns 50 false []) (record { task = task; phase = executes (some "k") false })
      worker

no_jobs : done.jobs ≡ []
unfolding job_step
no_jobs = refl

ends-IsReleased_example : IsReleased "k" "t" done.worker
ends-IsReleased_example =
    ends-IsReleased (returns 50 false [])
      (record { task = task; phase = executes (some "k") false }) worker "k" refl no_jobs

abbrev of_session : TaskPayload → Bool
of_session t = str_eq t.session_id "s"

-- The delay after a failure is over, and the executor has left a task to be enqueued.
abbrev failed_job : Job
failed_job = record { task = task; phase = sleeps (some "k") false (task ∷ []) }

stays : (now : ℕ) → of_session (retried_task config now task) ≡ of_session task
unfolding retried_task
stays now = refl

-- A call of consumeTask waits.
abbrev awaited : Worker
awaited = record worker {
  backend = record (init false) { consume_waiters = record { promise = 1; timer = 0 } ∷ [] };
}

count_out-job_step_example :
    let s = job_step (retries 90) failed_job awaited in
    count of_session (owed s.jobs) + count_out of_session [] s.worker s.effects
    ≡ count_out of_session [] awaited [] + count of_session (task ∷ task ∷ []) + count of_session []
count_out-job_step_example =
    count_out-job_step of_session (retries 90) failed_job (1 ∷ []) awaited (refl, refl, tt, tt)
      stays tt
