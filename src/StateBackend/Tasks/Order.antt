-- ===== src/StateBackend/Tasks/Order.antt =====
-- The order of the task queue of src/core/state/local-backend.ts.
use chris_tencent_db_agent_m.Prelude.{
  ℕ, suc, ◌+◌, ◌≡◌, refl, Bool, true, false, some, List, [], ◌∷◌, ◌++◌, arith, All, if◌then◌else◌,
  if_elim, ◌⊎◌,
}
use chris_tencent_db_agent_m.StateBackend.State.{TaskPayload, Effect, Backend, resolved}
use chris_tencent_db_agent_m.StateBackend.Tasks.{
  comes_after, insert, enqueue_task, consume_task, waiter_times_out, without,
}

-- No task stands before one that it comes after.
abbrev pub IsOrdered : List TaskPayload → Type 0
IsOrdered [] = Unit {0}
IsOrdered (t ∷ ts) = All (λ u. comes_after t u ≡ false) ts × IsOrdered ts

-- A task that goes before `t` goes before all that `t` goes before.
All-after :
    (task t : TaskPayload) (ts : List TaskPayload)
    → comes_after t task ≡ true
    → All (λ u. comes_after t u ≡ false) ts
    → All (λ u. comes_after task u ≡ false) ts
unfolding comes_after
All-after task t [] h a = tt
All-after task t (u ∷ ts) h a = (ground (arith, a.0), All-after task t ts h a.1)

All-insert :
    (x task : TaskPayload) (ts : List TaskPayload)
    → comes_after x task ≡ false
    → All (λ u. comes_after x u ≡ false) ts
    → All (λ u. comes_after x u ≡ false) (insert task ts)
unfolding insert
All-insert x task [] h a = (h, tt)
All-insert x task (t ∷ ts) h a =
    if_elim (λ us. All (λ u. comes_after x u ≡ false) us) (comes_after t task) _ _ (λ _. (h, a))
      λ _. (a.0, All-insert x task ts h a.1)

after_asym : (t task : TaskPayload) → comes_after t task ≡ true → comes_after task t ≡ false
unfolding comes_after
after_asym t task h = ground arith

insert-IsOrdered :
    (task : TaskPayload) (ts : List TaskPayload) → IsOrdered ts → IsOrdered (insert task ts)
unfolding insert
insert-IsOrdered task [] v = (tt, tt)
insert-IsOrdered task (t ∷ ts) v =
    if_elim IsOrdered (comes_after t task) _ _
      (λ e. ((after_asym t task e, All-after task t ts e v.0), v))
      λ e. (All-insert t task ts e v.0, insert-IsOrdered task ts v.1)

-- A call of the queue, or the timeout of a waiting `consumeTask`.
pub data Op : Type 0 where
  enqueues : TaskPayload → Op
  consumes : ℕ → ℕ → Op
  times_out : ℕ → Op

unfoldable pub step : Op → Backend → Backend × List Effect
step (enqueues task) b = enqueue_task task b
step (consumes promise block_ms) b = consume_task promise block_ms b
step (times_out promise) b = waiter_times_out promise b

unfoldable pub run : List Op → Backend → Backend × List Effect
run [] b = (b, [])
run (op ∷ ops) b = let (b', es) = step op b in let (b'', more) = run ops b' in (b'', es ++ more)

pub step-IsOrdered :
    (op : Op) (b : Backend) → IsOrdered b.task_queue → IsOrdered (step op b).0.task_queue
unfolding step enqueue_task consume_task waiter_times_out
step-IsOrdered (enqueues task) b v = ground (arith, insert-IsOrdered task b.task_queue v)
step-IsOrdered (consumes promise block_ms) b v = ground arith
step-IsOrdered (times_out promise) b v = v

-- From an ordered task queue, any sequence of enqueued tasks, calls of consumeTask and timeouts of
-- waiting calls leaves it ordered: no task stands before one that it should come after, by
-- priority and then by creation time.
pub run-IsOrdered :
    (ops : List Op) (b : Backend) → IsOrdered b.task_queue → IsOrdered (run ops b).0.task_queue
unfolding run
run-IsOrdered [] b v = v
run-IsOrdered (op ∷ ops) b v = run-IsOrdered ops (step op b).0 (step-IsOrdered op b v)

-- The tasks that the effects give to their consumers.
abbrev pub delivered : List Effect → List TaskPayload
delivered [] = []
delivered (resolved promise (some t) ∷ es) = t ∷ delivered es
delivered (_ ∷ es) = delivered es

-- `t` goes before all of `ts`, or came first.
abbrev pub IsFirst : List TaskPayload → TaskPayload → Type 0
IsFirst ts t = All (λ u. comes_after t u ≡ false) ts

-- From an ordered task queue, a task that an operation gives to a consumer, whether it was waiting
-- in the queue or is handed over as it is enqueued, comes after none of the tasks that stay in the
-- queue.
step-IsFirst :
    (op : Op) (b : Backend)
    → IsOrdered b.task_queue
    → All (IsFirst (step op b).0.task_queue) (delivered (step op b).1)
unfolding step enqueue_task consume_task waiter_times_out
step-IsFirst (enqueues task) b v = ground (arith, insert-IsOrdered task b.task_queue v)
step-IsFirst (consumes promise block_ms) b v = ground arith
step-IsFirst (times_out promise) b v = tt

abbrev pub count : (TaskPayload → Bool) → List TaskPayload → ℕ
count test [] = 0
count test (t ∷ ts) = let rest = count test ts in if test t then suc rest else rest

abbrev pub enqueued : List Op → List TaskPayload
enqueued [] = []
enqueued (enqueues t ∷ ops) = t ∷ enqueued ops
enqueued (_ ∷ ops) = enqueued ops

pub count-append :
    (test : TaskPayload → Bool) (xs ys : List TaskPayload)
    → count test (xs ++ ys) ≡ count test xs + count test ys
count-append test [] ys = omega arith
count-append test (x ∷ xs) ys = ground (arith, count-append test xs ys)

pub count-insert :
    (test : TaskPayload → Bool) (task : TaskPayload) (ts : List TaskPayload)
    → count test (insert task ts) ≡ count test (task ∷ ts)
unfolding insert
count-insert test task [] = refl
count-insert test task (t ∷ ts) = ground (arith, count-insert test task ts)

pub count-enqueue :
    (test : TaskPayload → Bool) (task : TaskPayload) (b : Backend)
    → count test (delivered (enqueue_task task b).1) + count test (enqueue_task task b).0.task_queue
      ≡ count test b.task_queue + count test (task ∷ [])
unfolding enqueue_task
count-enqueue test task b = ground (arith, count-insert test task b.task_queue)

pub enqueued-cons :
    (op : Op) (ops : List Op) → enqueued (op ∷ ops) ≡ enqueued (op ∷ []) ++ enqueued ops
enqueued-cons (enqueues t) ops = refl
enqueued-cons (consumes promise block_ms) ops = refl
enqueued-cons (times_out promise) ops = refl

-- No call waits while there is a task.
abbrev pub IsFed : Backend → Type 0
IsFed b = (b.consume_waiters ≡ []) ⊎ (b.task_queue ≡ [])

step-IsFed : (op : Op) (b : Backend) → IsFed b → IsFed (step op b).0
unfolding step enqueue_task consume_task waiter_times_out without insert
step-IsFed (enqueues task) b v = ground arith
step-IsFed (consumes promise block_ms) b v = ground arith
step-IsFed (times_out promise) b v = ground arith

-- From a backend in which no consumer waits or the task queue is empty, any sequence of enqueued
-- tasks, calls of consumeTask and timeouts of waiting calls leaves it so: no consumer waits while
-- there is a task.
run-IsFed : (ops : List Op) (b : Backend) → IsFed b → IsFed (run ops b).0
unfolding run
run-IsFed [] b v = v
run-IsFed (op ∷ ops) b v = run-IsFed ops (step op b).0 (step-IsFed op b v)
