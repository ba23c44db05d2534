-- ===== src/StateBackend/Examples.antt =====
-- Tests of src/core/state/local-backend.ts, and its theorems at concrete inputs.
use chris_tencent_db_agent_m.Prelude.{
  ℕ, ◌+◌, ◌≡◌, refl, arith, String, Bool, true, none, some, List, [], ◌∷◌, leb, eq_iff, inr,
}
use chris_tencent_db_agent_m.Prelude.Maps
use chris_tencent_db_agent_m.StateBackend.State.{
  TaskPayload, TaskType, InternalTimer, Backend, init,
}
use chris_tencent_db_agent_m.StateBackend.Tasks.{comes_after, insert, enqueue_task, consume_task}
use chris_tencent_db_agent_m.StateBackend.Tasks.Order
use chris_tencent_db_agent_m.StateBackend.Tasks.Order.{
  IsOrdered, IsFirst, IsFed, delivered, count, enqueued, run-IsOrdered, enqueues, consumes,
  times_out,
}
use chris_tencent_db_agent_m.StateBackend.Tasks.Delivery.{received, received-run}
use chris_tencent_db_agent_m.StateBackend.Locks.Exclusion
use chris_tencent_db_agent_m.StateBackend.Locks.Exclusion.{
  Holds, run-Holds, acquired, acquires, renews, releases,
}
use chris_tencent_db_agent_m.StateBackend.Capture.{CaptureParams, capture_atomic}
use chris_tencent_db_agent_m.StateBackend.Capture.Outcomes.{Outcome, total, capture_atomic-Outcome}

abbrev task : String → ℕ → ℕ → TaskPayload
task id priority created_at = record {
  id = id;
  task_type = TaskType.l1;
  instance_id = "i";
  session_id = "s";
  priority = priority;
  data_json = none;
  created_at = created_at;
}

-- A flush at low priority waits; then L1 tasks come, out of order, and a worker takes one.
abbrev ops : List Order.Op
ops =
    enqueues (task "l1-b" 0 20)
    ∷ enqueues (task "l1-a" 0 10)
    ∷ consumes 1 5000
    ∷ consumes 2 5000
    ∷ consumes 3 5000
    ∷ consumes 4 5000
    ∷ enqueues (task "late" 0 30)
    ∷ []

abbrev loaded : Backend
loaded = record (init true) { task_queue = task "flush" 1 5 ∷ [] }

delivered_of_ops :
    delivered (Order.run ops loaded).1
    ≡ task "l1-a" 0 10 ∷ task "l1-b" 0 20 ∷ task "flush" 1 5 ∷ task "late" 0 30 ∷ []
unfolding Order.run Order.step enqueue_task consume_task insert comes_after init
delivered_of_ops = refl

run-IsOrdered_example : IsOrdered (Order.run ops loaded).0.task_queue
run-IsOrdered_example = run-IsOrdered ops loaded (tt, tt)

abbrev urgent : TaskPayload → Bool
urgent t = leb t.priority 0

-- Two calls wait; the first one times out, and so the second one gets the task.
abbrev waited_for : List Order.Op
waited_for =
    consumes 1 500
    ∷ consumes 2 5000
    ∷ times_out 1
    ∷ enqueues (task "l1-a" 0 10)
    ∷ enqueues (task "l1-b" 0 20)
    ∷ []

received-run_example :
    count urgent (received [] (Order.run waited_for (init true)).1)
      + count urgent (Order.run waited_for (init true)).0.task_queue
    ≡ count urgent [] + count urgent (enqueued waited_for)
unfolding init
received-run_example =
    received-run urgent waited_for [] (init true) (ground arith, (ground arith, (ground arith, tt)))
      tt

abbrev locked : Backend
locked = record (init true) { locks = ("flush", record { owner_id = "a"; expire_at = 900 }) ∷ [] }

abbrev others : List Exclusion.Op
others = acquires 100 "flush" "b" 50 ∷ renews 200 "flush" "c" 50 ∷ acquires 800 "flush" "b" 50 ∷ []

run-Holds_example :
    Holds "flush" "a" 850 (Exclusion.run others locked) × (acquired "flush" others locked ≡ 0)
unfolding Maps.get
run-Holds_example =
    run-Holds "flush" "a" 850 others locked
      (ground arith, (inr (λ e. ground (arith, eq_iff "c" "a")), (ground arith, tt)))
      (record { owner_id = "a"; expire_at = 900 }, refl, refl, ground arith)

abbrev armed : InternalTimer
armed = record { member = "s:L1_idle"; fire_at_ms = 500; handle = some 0 }

abbrev timed : Backend
timed = record (init true) { timers = ("i:s:L1_idle", armed) ∷ [] }

abbrev capture : CaptureParams
capture = record {
  instance_id = "i";
  session_id = "s";
  message_json = "[]";
  threshold = 2;
  fire_at_ms = 60_000;
  timer_member = "s:L1_idle";
  task_payload = task "L1-s" 0 1000;
  now_ms = 1000;
  rounds = 2;
}

capture_atomic-Outcome_example :
    Outcome capture
      (init true)
      (leb 2 (total capture (init true)))
      (capture_atomic capture (init true))
capture_atomic-Outcome_example = capture_atomic-Outcome capture (init true)
