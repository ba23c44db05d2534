-- ===== src/StateBackend/Tasks/Frame.antt =====
-- What the task queue of src/core/state/local-backend.ts leaves alone.
use chris_tencent_db_agent_m.Prelude.{◌≡◌, arith, [], ◌∷◌, ℕ, ap, some, none}
use chris_tencent_db_agent_m.StateBackend.State.{TaskPayload, Backend, resolved}
use chris_tencent_db_agent_m.StateBackend.Tasks.{enqueue_task, consume_task, consume_from}

pub enqueue-frame :
    (task : TaskPayload) (b : Backend)
    → let b' = (enqueue_task task b).0 in
      (b'.session_states ≡ b.session_states) × (b'.buffers ≡ b.buffers) × (b'.timers ≡ b.timers)
unfolding enqueue_task
enqueue-frame task b = (ground arith, ground arith, ground arith)

-- Without a waiting call, a task enqueued into an empty queue is the only one in it.
pub enqueue-empty :
    (task : TaskPayload) (b : Backend)
    → b.task_queue ≡ []
    → b.consume_waiters ≡ []
    → let b' = (enqueue_task task b).0 in (b'.task_queue ≡ task ∷ []) × (b'.consume_waiters ≡ [])
unfolding enqueue_task
enqueue-empty task b e f = (ground arith, ground arith)

-- A call of consumeTask that meets one task, or none and does not wait.
pub consume-only :
    (promise block_ms : ℕ) (task : TaskPayload) (b : Backend)
    → b.task_queue ≡ task ∷ []
    → consume_task promise block_ms b
      ≡ (record b { task_queue = [] }, resolved promise (some task) ∷ [])
unfolding consume_task
consume-only promise block_ms task b e = ap (λ ts. consume_from ts promise block_ms b) e

pub consume-none :
    (promise : ℕ) (b : Backend)
    → b.task_queue ≡ []
    → consume_task promise 0 b ≡ (b, resolved promise none ∷ [])
unfolding consume_task consume_from
consume-none promise b e = ap (λ ts. consume_from ts promise 0 b) e
