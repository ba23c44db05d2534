-- ===== src/Pipeline/Lifecycle.antt =====
-- The start, the flush of a session, the shutdown and the steps of src/utils/pipeline-manager.ts.
pub mod QueuedOnce
use chris_tencent_db_agent_m.Prelude.{
  ℕ, ◌+◌, ◌*◌, String, Bool, true, false, ◌||◌, ◌&&◌, not, Option, none, some, List, [], ◌∷◌, ◌++◌,
  max, ◌==◌, is_empty, is_some, or_else, if◌then◌else◌,
}
use chris_tencent_db_agent_m.Prelude.Maps
use chris_tencent_db_agent_m.Prelude.Maps.{Map}
use chris_tencent_db_agent_m.ManagedTimer
use chris_tencent_db_agent_m.Pipeline.State.{
  Manager, CapturedMessage, SessionState, SessionTimers, Callback, on_l1_idle_timeout,
  on_l2_timer_fired, Backlog, timers_of, put_timers, put_state, buffer_of, persist_states,
}
use chris_tencent_db_agent_m.Pipeline.Timing.{advance_l2_timer}
use chris_tencent_db_agent_m.Pipeline.L3.{l3_runner_done, l3_task_settled, l3_task_finished}
use chris_tencent_db_agent_m.Pipeline.L2.{
  l2_timer_fired, l2_runner_failed, l2_runner_returned, l2_persisted, l2_task_settled,
  l2_task_finished,
}
use chris_tencent_db_agent_m.Pipeline.L1.{
  enqueue_l1, l1_runner_failed, l1_runner_returned, l1_persisted, l1_task_settled, l1_task_finished,
  l1_idle_timeout, await_l1_idle,
}
use chris_tencent_db_agent_m.Pipeline.Notify.{notify_conversation, notify_resumed}

-- A restored state, and its `warmup_threshold` if the checkpoint has that field.
abbrev pub Restored : Type 0
Restored = SessionState × Option ℕ

-- A missing field means that the warm-up is over.
unfoldable pub backfill : Restored → SessionState
backfill (state, warmup) = record state { warmup_threshold = or_else warmup 0 }

restore : Map Restored → Manager → Manager
unfolding backfill
restore [] m = m
restore ((key, state) ∷ rest) m =
    restore rest (if m.should_skip key then m else put_state m key (backfill state))

unfoldable pub recovered : SessionState → SessionState
recovered state = record state {
  l2_pending_l1_count = max state.l2_pending_l1_count state.conversation_count;
  conversation_count = 0;
}

recover_over : ℕ → Map SessionState → Manager → Manager
unfolding recovered
recover_over now [] m = m
recover_over now ((key, state) ∷ rest) m = recover_over now rest (
    if state.conversation_count == 0 && state.l2_pending_l1_count == 0
    then m
    else advance_l2_timer now key (put_state m key (recovered state)))

unfoldable pub recover_pending_sessions : ℕ → Manager → Manager
unfolding recover_over
recover_pending_sessions now m = recover_over now m.session_states m

unfoldable pub start : ℕ → Map Restored → Manager → Manager
unfolding restore recover_pending_sessions
start now states m = if m.destroyed then m else recover_pending_sessions now (restore states m)

cancel_idle : String → Manager → Manager
cancel_idle key m =
    let timers = timers_of m key in
    if ManagedTimer.pending timers.l1_idle
    then put_timers m key (record timers { l1_idle = (ManagedTimer.cancel timers.l1_idle).0 })
    else m

-- `flushSession`; the waiter is the promise that the caller awaits.
unfoldable pub flush_session : String → ℕ → Manager → Manager
unfolding cancel_idle
flush_session key waiter m =
    if m.destroyed || m.should_skip key
    then m
    else let m' = cancel_idle key m in
      await_l1_idle waiter (if is_empty (buffer_of m key) then m' else enqueue_l1 key m')

flush_l1_over : Map SessionTimers → Manager → Manager
unfolding cancel_idle
flush_l1_over [] m = m
flush_l1_over ((key, timers) ∷ rest) m = flush_l1_over rest (
    if not (ManagedTimer.pending (timers_of m key).l1_idle)
    then m
    else if is_empty (buffer_of m key)
    then cancel_idle key m
    else enqueue_l1 key (cancel_idle key m))

-- `destroy`, and `_doFlush` up to its first `await`.
unfoldable pub destroy : ℕ → Manager → Manager
unfolding flush_l1_over
destroy waiter m =
    if m.destroyed
    then m
    else await_l1_idle waiter (flush_l1_over m.session_timers (record m { destroyed = true }))

run_callbacks : ℕ → List Callback → Manager → Manager
run_callbacks now [] m = m
run_callbacks now (on_l1_idle_timeout key ∷ rest) m = run_callbacks now rest (l1_idle_timeout key m)
run_callbacks now (on_l2_timer_fired key source ∷ rest) m =
    run_callbacks now rest (l2_timer_fired now key source m)

flush_l2_at : ℕ → String → Manager → Manager
unfolding run_callbacks
flush_l2_at now key m =
    let timers = timers_of m key in
    if not (ManagedTimer.pending timers.l2_schedule)
    then m
    else let (t, effects) = ManagedTimer.flush timers.l2_schedule in
      run_callbacks now (ManagedTimer.calls effects)
        (put_timers m key (record timers { l2_schedule = t }))

flush_l2_over : ℕ → Map SessionTimers → Manager → Manager
unfolding flush_l2_at
flush_l2_over now [] m = m
flush_l2_over now ((key, timers) ∷ rest) m = flush_l2_over now rest (flush_l2_at now key m)

-- `_doFlush` after the L1 queue is idle: step 3.
unfoldable pub destroy_l1_drained : ℕ → Manager → Manager
unfolding flush_l2_over
destroy_l1_drained now m = flush_l2_over now m.session_timers m

-- The end of `destroy`, whether the flush is over, failed or ran out of time.
unfoldable pub destroy_ends : Manager → Manager
destroy_ends m = persist_states m

-- The host's timeout of a session's timer runs out.
unfoldable pub l1_idle_fires : ℕ → String → Manager → Manager
unfolding run_callbacks
l1_idle_fires now key m =
    let timers = timers_of m key in
    let (t, effects) = ManagedTimer.fire m.destroyed timers.l1_idle in
    run_callbacks now (ManagedTimer.calls effects)
      (put_timers m key (record timers { l1_idle = t }))

unfoldable pub l2_schedule_fires : ℕ → String → Manager → Manager
unfolding run_callbacks
l2_schedule_fires now key m =
    let timers = timers_of m key in
    let (t, effects) = ManagedTimer.fire m.destroyed timers.l2_schedule in
    run_callbacks now (ManagedTimer.calls effects)
      (put_timers m key (record timers { l2_schedule = t }))

-- One turn of the event loop: a call of the interface, a timeout, or a promise that settles.
pub data Turn : Type 0 where
  starts : ℕ → Map Restored → Turn
  notifies : ℕ → String → List CapturedMessage → Turn
  resumes : ℕ → String → ℕ → Turn
  flushes : String → ℕ → Turn
  destroys : ℕ → Turn
  drains : ℕ → Turn
  ends_destroy : Turn
  fires_l1 fires_l2 : ℕ → String → Turn
  l1_fails : ℕ → Turn
  l1_returns : Option Backlog → Turn
  l1_goes_on : ℕ → Turn
  l1_settles l1_finishes : Turn
  l2_fails : ℕ → Turn
  l2_returns : ℕ → Bool → Option String → Turn
  l2_goes_on : ℕ → Turn
  l2_settles l2_finishes : Turn
  l3_returns l3_settles l3_finishes : Turn

unfoldable pub step : Turn → Manager → Manager
step (starts now states) m = start now states m
step (notifies now key messages) m = (notify_conversation now key messages m).0
step (resumes now key threshold) m = notify_resumed now key threshold m
step (flushes key waiter) m = flush_session key waiter m
step (destroys waiter) m = destroy waiter m
step (drains now) m = destroy_l1_drained now m
step ends_destroy m = destroy_ends m
step (fires_l1 now key) m = l1_idle_fires now key m
step (fires_l2 now key) m = l2_schedule_fires now key m
step (l1_fails now) m = l1_runner_failed now m
step (l1_returns result) m = l1_runner_returned result m
step (l1_goes_on now) m = l1_persisted now m
step l1_settles m = l1_task_settled m
step l1_finishes m = l1_task_finished m
step (l2_fails now) m = l2_runner_failed now m
step (l2_returns now skipped latest) m = l2_runner_returned now skipped latest m
step (l2_goes_on now) m = l2_persisted now m
step l2_settles m = l2_task_settled m
step l2_finishes m = l2_task_finished m
step l3_returns m = l3_runner_done m
step l3_settles m = l3_task_settled m
step l3_finishes m = l3_task_finished m

unfoldable pub run : List Turn → Manager → Manager
run [] m = m
run (turn ∷ turns) m = run turns (step turn m)
