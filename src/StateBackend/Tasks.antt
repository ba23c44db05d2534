-- ===== src/StateBackend/Tasks.antt =====
-- The task queue of src/core/state/local-backend.ts, ordered by priority and then by creation time,
-- and the calls of `consumeTask` that wait for a task.
pub mod Frame
pub mod Order
pub mod Pending
pub mod Delivery
use chris_tencent_db_agent_m.Prelude.{
  ℕ, suc, ◌+◌, ◌≡◌, refl, Bool, true, false, ◌&&◌, ◌||◌, Option, none, some, List, [], ◌∷◌, ◌++◌,
  ltb, ◌==◌, arith, All, if◌then◌else◌, ◌⊎◌, inl, inr,
}
use chris_tencent_db_agent_m.StateBackend.State.{
  TaskPayload, Waiter, Effect, Backend, set_timeout, clear_timeout, resolved, timer_expired,
}

-- `t.priority > task.priority || (t.priority === task.priority && t.createdAt > task.createdAt)`.
unfoldable pub comes_after : TaskPayload → TaskPayload → Bool
comes_after t task =
    ltb task.priority t.priority
    || (t.priority == task.priority && ltb task.created_at t.created_at)

-- `findIndex`, and `push` or `splice`.
unfoldable pub insert : TaskPayload → List TaskPayload → List TaskPayload
unfolding comes_after
insert task [] = task ∷ []
insert task (t ∷ ts) =
    let rest = insert task ts in if comes_after t task then task ∷ t ∷ ts else t ∷ rest

-- The first waiter takes the first task.
hand_over : List Waiter → List TaskPayload → Backend → Backend × List Effect
hand_over [] ts b = (b, [])
hand_over (w ∷ ws) [] b =
    (record b { consume_waiters = ws }, clear_timeout w.timer ∷ resolved w.promise none ∷ [])
hand_over (w ∷ ws) (t ∷ ts) b = (
  record b { consume_waiters = ws; task_queue = ts },
  clear_timeout w.timer ∷ resolved w.promise (some t) ∷ [],
)

unfoldable pub enqueue_task : TaskPayload → Backend → Backend × List Effect
unfolding insert hand_over
enqueue_task task b =
    let queue = insert task b.task_queue in
    hand_over b.consume_waiters queue (record b { task_queue = queue })

-- An absent `blockMs` is 0: such a call does not wait either.
consume_from : List TaskPayload → ℕ → ℕ → Backend → Backend × List Effect
consume_from (t ∷ ts) promise block_ms b =
    (record b { task_queue = ts }, resolved promise (some t) ∷ [])
consume_from [] promise block_ms b = if block_ms == 0 then (b, resolved promise none ∷ []) else (
  record b {
    consume_waiters = b.consume_waiters ++ (record { promise = promise; timer = b.handles } ∷ []);
    handles = suc b.handles;
  },
  set_timeout b.handles block_ms ∷ [],
)

unfoldable pub consume_task : ℕ → ℕ → Backend → Backend × List Effect
unfolding consume_from
consume_task promise block_ms b = consume_from b.task_queue promise block_ms b

pub without : ℕ → List Waiter → List Waiter
without promise [] = []
without promise (w ∷ ws) =
    let rest = without promise ws in if w.promise == promise then ws else w ∷ rest

-- The timeout of a waiting call runs out.
unfoldable pub waiter_times_out : ℕ → Backend → Backend × List Effect
unfolding without
waiter_times_out promise b =
    (record b { consume_waiters = without promise b.consume_waiters }, resolved promise none ∷ [])

depth_of : List TaskPayload → ℕ × ℕ
depth_of [] = (0, 0)
depth_of (t ∷ ts) =
    let (high, low) = depth_of ts in if t.priority == 0 then (suc high, low) else (high, suc low)

-- The tasks of priority 0, and the others.
unfoldable pub get_queue_depth : Backend → ℕ × ℕ
unfolding depth_of
get_queue_depth b = depth_of b.task_queue

unfoldable pub list_queued_tasks : Backend → List TaskPayload
list_queued_tasks b = b.task_queue
