-- ===== src/SerialQueue.antt =====
-- `SerialQueue` of src/utils/serial-queue.ts: a FIFO task queue of concurrency 1. A task is a value
-- of any type `A`; what the promises of the source do is a list of events. The promise chain that
-- `drain` starts is two steps: `settle`, when the task's promise settles, and `finish`, its `finally`.
pub mod Order
pub mod Idle
pub mod Marks
pub mod Examples
use chris_tencent_db_agent_m.Prelude.{
  ℕ, ◌+◌, Bool, true, false, ◌&&◌, ◌||◌, not, Option, none, some, List, [], ◌∷◌, ◌++◌, map, length,
  is_empty, if◌then◌else◌,
}

-- What the outside sees: a task's function is called, its promise is settled (`true` resolves it),
-- its promise is rejected by `clear`, or an `onIdle` waiter is resolved.
pub data Event {ℓ} (A : Type ℓ) : Type ℓ where
  started : A → Event A
  settled : A → Bool → Event A
  cleared : A → Event A
  woken : ℕ → Event A

-- `flight` is the entry that the running promise chain holds until it is settled.
pub record Queue {ℓ} (A : Type ℓ) : Type ℓ where
  pub queue : List A
  pub running : Bool
  pub paused : Bool
  pub idle_resolvers : List ℕ
  pub flight : Option A

module _ {ℓ} {A : Type ℓ} where
  unfoldable pub new : Queue A
  new = record { queue = []; running = false; paused = false; idle_resolvers = []; flight = none }

  unfoldable pub size : Queue A → ℕ
  size q = length q.queue

  unfoldable pub pending : Queue A → Bool
  pending q = q.running

  unfoldable pub idle : Queue A → Bool
  idle q = is_empty q.queue && not q.running

  shift_and_start : Queue A → List A → Queue A × List (Event A)
  shift_and_start q [] = (q, [])
  shift_and_start q (entry ∷ rest) =
      (record q { queue = rest; running = true; flight = some entry }, started entry ∷ [])

  unfoldable pub drain : Queue A → Queue A × List (Event A)
  unfolding shift_and_start
  drain q = if q.running || q.paused then (q, []) else shift_and_start q q.queue

  unfoldable pub add : A → Queue A → Queue A × List (Event A)
  unfolding drain
  add task q = drain (record q { queue = q.queue ++ (task ∷ []) })

  unfoldable pub pause : Queue A → Queue A
  pause q = record q { paused = true }

  unfoldable pub start : Queue A → Queue A × List (Event A)
  unfolding drain
  start q = drain (record q { paused = false })

  -- The number names the waiter's promise.
  unfoldable pub on_idle : ℕ → Queue A → Queue A × List (Event A)
  unfolding idle
  on_idle waiter q =
      if idle q
      then (q, woken waiter ∷ [])
      else (record q { idle_resolvers = q.idle_resolvers ++ (waiter ∷ []) }, [])

  unfoldable pub clear : Queue A → Queue A × List (Event A)
  clear q = (record q { queue = [] }, map cleared q.queue)

  -- `.then(resolve).catch(reject)`.
  settle_entry : Option A → Bool → Queue A → Queue A × List (Event A)
  settle_entry none success q = (q, [])
  settle_entry (some entry) success q = (record q { flight = none }, settled entry success ∷ [])

  unfoldable pub settle : Bool → Queue A → Queue A × List (Event A)
  unfolding settle_entry
  settle success q = settle_entry q.flight success q

  -- `.finally`, which runs only once the task's promise is settled.
  after_task : Queue A → Queue A × List (Event A)
  after_task q =
      if is_empty q.queue
      then (record q { idle_resolvers = [] }, map woken q.idle_resolvers)
      else drain q

  finish_entry : Option A → Queue A → Queue A × List (Event A)
  unfolding after_task
  finish_entry (some entry) q = (q, [])
  finish_entry none q = if q.running then after_task (record q { running = false }) else (q, [])

  unfoldable pub finish : Queue A → Queue A × List (Event A)
  unfolding finish_entry drain
  finish q = finish_entry q.flight q

-- One call of the interface, or one turn of the promise chain.
pub data Op {ℓ} (A : Type ℓ) : Type ℓ where
  adds : A → Op A
  pauses starts clears finishes : Op A
  waits : ℕ → Op A
  settles : Bool → Op A

module _ {ℓ} {A : Type ℓ} where
  unfoldable pub step : Op A → Queue A → Queue A × List (Event A)
  unfolding add pause start on_idle clear settle finish
  step (adds task) q = add task q
  step pauses q = (pause q, [])
  step starts q = start q
  step clears q = clear q
  step finishes q = finish q
  step (waits waiter) q = on_idle waiter q
  step (settles success) q = settle success q

  unfoldable pub run : List (Op A) → Queue A → Queue A × List (Event A)
  run [] q = (q, [])
  run (op ∷ ops) q =
      let (q', events) = step op q in let (q'', more) = run ops q' in (q'', events ++ more)
