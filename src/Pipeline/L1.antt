-- ===== src/Pipeline/L1.antt =====
-- L1 of src/utils/pipeline-manager.ts: the queue, and the run of a session over its buffer.
pub mod Task
pub mod QueuedOnce
pub mod Outcomes
use chris_tencent_db_agent_m.Prelude.{
  ℕ, ◌+◌, String, Bool, true, false, Option, none, some, List, [], ◌∷◌, ◌++◌, leb, if◌then◌else◌,
}
use chris_tencent_db_agent_m.Prelude.Maps
use chris_tencent_db_agent_m.ManagedTimer
use chris_tencent_db_agent_m.SerialQueue
use chris_tencent_db_agent_m.SerialQueue.{Event, started, settled, cleared, woken}
use chris_tencent_db_agent_m.Pipeline.State.{
  Manager, Config, CapturedMessage, SessionState, SessionTimers, Backlog, L1Phase,
  l1_retry_delay_ms, l1_max_retries, timers_of, put_timers, put_state, buffer_of, put_buffer,
  persist_states,
}
use chris_tencent_db_agent_m.Pipeline.Timing.{
  advance_warmup_threshold, schedule_l1_idle, advance_l2_timer,
}

-- What a run that did not fail does to the state.
unfoldable pub l1_counted : Config → SessionState → SessionState
l1_counted c state =
    advance_warmup_threshold c
      (record state { l2_pending_l1_count = state.conversation_count; conversation_count = 0 })

pub count_l1 : String → Option SessionState → Manager → Manager
unfolding l1_counted
count_l1 key none m = m
count_l1 key (some state) m = put_state m key (l1_counted m.config state)

-- `runL1` up to its first `await`: the buffer is taken over, and emptied in the map.
begin_at : String → Option SessionState → Manager → Manager
unfolding count_l1
begin_at key none m = record m { l1_phase = L1Phase.at_end key }
begin_at key (some state) m =
    let drained = put_buffer m key [] in
    if m.has_l1_runner
    then record drained { l1_phase = L1Phase.at_runner key (buffer_of m key) }
    else persist_states
        (record (count_l1 key (some state) drained) { l1_phase = L1Phase.at_persist key none })

begin_l1 : String → Manager → Manager
unfolding begin_at
begin_l1 key m = begin_at key (Maps.get m.session_states key) m

pub after_l1_events : List (Event String) → Manager → Manager
after_l1_events [] m = m
after_l1_events (started key ∷ es) m = after_l1_events es (begin_l1 key m)
after_l1_events (woken waiter ∷ es) m =
    after_l1_events es (record m { resolved = waiter ∷ m.resolved })
after_l1_events (_ ∷ es) m = after_l1_events es m

unfoldable pub enqueue_l1 : String → Manager → Manager
unfolding after_l1_events begin_l1
enqueue_l1 key m =
    let timers = timers_of m key in
    if timers.l1_queued
    then put_timers m key timers
    else let idle = (ManagedTimer.cancel timers.l1_idle).0 in
      let (q, events) = SerialQueue.add key m.l1_queue in
      after_l1_events events
        (record (put_timers m key (record timers { l1_idle = idle; l1_queued = true })) {
          l1_queue = q;
        })

-- The runner throws: its messages go back in front, and the idle timer is armed for a retry while
-- the retries last.
retry_l1 : ℕ → String → Manager → Manager
retry_l1 now key m =
    let timers = timers_of m key in
    let count = timers.l1_retry_count + 1 in
    let counted = put_timers m key (record timers { l1_retry_count = count }) in
    if leb count l1_max_retries then schedule_l1_idle now l1_retry_delay_ms key counted else counted

failed_at : L1Phase → ℕ → Manager → Manager
unfolding retry_l1
failed_at (L1Phase.at_runner key buffer) now m =
    retry_l1 now key
      (record (put_buffer m key (buffer ++ buffer_of m key)) { l1_phase = L1Phase.at_end key })
failed_at _ now m = m

unfoldable pub l1_runner_failed : ℕ → Manager → Manager
unfolding failed_at
l1_runner_failed now m = failed_at m.l1_phase now m

-- The runner returns.
returned_at : L1Phase → Option Backlog → Manager → Manager
unfolding count_l1
returned_at (L1Phase.at_runner key buffer) result m =
    let m' = put_timers m key (record (timers_of m key) { l1_retry_count = 0 }) in
    persist_states (record (count_l1 key (Maps.get m.session_states key) m') {
      l1_phase = L1Phase.at_persist key result;
    })
returned_at _ result m = m

unfoldable pub l1_runner_returned : Option Backlog → Manager → Manager
unfolding returned_at
l1_runner_returned result m = returned_at m.l1_phase result m

-- The backlog drain at the end of `runL1`.
unfoldable pub drain_backlog : ℕ → String → Option Backlog → Manager → Manager
drain_backlog now key none m = m
drain_backlog now key (some b) m =
    if b.has_full_backlog
    then enqueue_l1 key m
    else if b.has_more
    then schedule_l1_idle now m.l1_idle_timeout_ms key m
    else m

persisted_at : L1Phase → ℕ → Manager → Manager
unfolding drain_backlog
persisted_at (L1Phase.at_persist key result) now m =
    record (drain_backlog now key result (advance_l2_timer now key m)) {
      l1_phase = L1Phase.at_end key;
    }
persisted_at _ now m = m

-- `persistStates` is over.
unfoldable pub l1_persisted : ℕ → Manager → Manager
unfolding persisted_at
l1_persisted now m = persisted_at m.l1_phase now m

-- The task's promise settles, and the `finally` of `enqueueL1` runs.
l1_settle_at : L1Phase → Manager → Manager
l1_settle_at (L1Phase.at_end key) m =
    let (q, _) = SerialQueue.settle true m.l1_queue in
    put_timers (record m { l1_queue = q; l1_phase = L1Phase.no_task }) key
      (record (timers_of m key) { l1_queued = false })
l1_settle_at _ m = m

unfoldable pub l1_task_settled : Manager → Manager
unfolding l1_settle_at
l1_task_settled m = l1_settle_at m.l1_phase m

-- The `finally` of the queue.
unfoldable pub l1_task_finished : Manager → Manager
unfolding after_l1_events begin_l1
l1_task_finished m =
    let (q, events) = SerialQueue.finish m.l1_queue in
    after_l1_events events (record m { l1_queue = q })

-- `onL1IdleTimeout`.
unfoldable pub l1_idle_timeout : String → Manager → Manager
l1_idle_timeout key m = enqueue_l1 key m

-- `l1Queue.onIdle()`.
unfoldable pub await_l1_idle : ℕ → Manager → Manager
unfolding after_l1_events begin_l1
await_l1_idle waiter m =
    let (q, events) = SerialQueue.on_idle waiter m.l1_queue in
    after_l1_events events (record m { l1_queue = q })
