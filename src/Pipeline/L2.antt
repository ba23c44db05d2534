-- ===== src/Pipeline/L2.antt =====
-- L2 of src/utils/pipeline-manager.ts: the timer's handler, the queue, and the run of a session.
pub mod Frame
use chris_tencent_db_agent_m.Prelude.{
  ℕ, ◌+◌, String, Bool, true, false, ◌&&◌, not, Option, none, some, List, [], ◌∷◌, is_some, leb,
  str_eq, if◌then◌else◌,
}
use chris_tencent_db_agent_m.Prelude.Maps
use chris_tencent_db_agent_m.ManagedTimer
use chris_tencent_db_agent_m.SerialQueue
use chris_tencent_db_agent_m.SerialQueue.{Event, started, settled, cleared, woken}
use chris_tencent_db_agent_m.Pipeline.State.{
  Manager, SessionState, SessionTimers, Source, delay_after_l1, max_interval, L2Phase, timers_of,
  put_timers, put_state, persist_states,
}
use chris_tencent_db_agent_m.Pipeline.Timing.{arm_l2_max_interval}
use chris_tencent_db_agent_m.Pipeline.L3.{trigger_l3}

-- `state.last_extraction_updated_time || undefined`.
unfoldable pub cursor_of : SessionState → Option String
cursor_of state =
    if str_eq state.last_extraction_updated_time ""
    then none
    else some state.last_extraction_updated_time

begin_at : String → Option SessionState → Manager → L2Phase
unfolding cursor_of
begin_at key none m = L2Phase.at_end key
begin_at key (some state) m =
    if m.has_l2_runner then L2Phase.at_runner key (cursor_of state) else L2Phase.at_end key

-- `runL2` up to its first `await`.
begin_l2 : String → Manager → Manager
unfolding begin_at
begin_l2 key m = record m { l2_phase = begin_at key (Maps.get m.session_states key) m }

after_l2_events : List (Event String) → Manager → Manager
after_l2_events [] m = m
after_l2_events (started key ∷ es) m = after_l2_events es (begin_l2 key m)
after_l2_events (_ ∷ es) m = after_l2_events es m

unfoldable pub enqueue_l2 : String → Manager → Manager
unfolding after_l2_events begin_l2
enqueue_l2 key m =
    let timers = timers_of m key in
    let cancelled = record timers { l2_schedule = (ManagedTimer.cancel timers.l2_schedule).0 } in
    if timers.l2_queued
    then put_timers m key cancelled
    else let (q, events) = SerialQueue.add key m.l2_queue in
      after_l2_events events
        (record (put_timers m key (record cancelled { l2_queued = true })) { l2_queue = q })

-- `now - last_active_time >= window`, with a clock that may have gone back.
unfoldable pub is_cold : ℕ → SessionState → Manager → Bool
is_cold now state m = leb (state.last_active_time + m.session_active_window_ms) now

fired_at : Option SessionState → ℕ → String → Source → Manager → Manager
unfolding is_cold
fired_at none now key source m = m
fired_at (some state) now key delay_after_l1 m = enqueue_l2 key m
fired_at (some state) now key max_interval m = if is_cold now state m then m else enqueue_l2 key m

unfoldable pub l2_timer_fired : ℕ → String → Source → Manager → Manager
unfolding fired_at
l2_timer_fired now key source m = fired_at (Maps.get m.session_states key) now key source m

-- The runner throws.
l2_failed_at : L2Phase → ℕ → Manager → Manager
l2_failed_at (L2Phase.at_runner key cursor) now m =
    arm_l2_max_interval now key (record m { l2_phase = L2Phase.at_end key })
l2_failed_at _ now m = m

unfoldable pub l2_runner_failed : ℕ → Manager → Manager
unfolding l2_failed_at
l2_runner_failed now m = l2_failed_at m.l2_phase now m

update_state : String → (SessionState → SessionState) → Option SessionState → Manager → Manager
update_state key f none m = m
update_state key f (some state) m = put_state m key (f state)

-- `if (result?.latestCursor)`: an absent or empty cursor changes nothing.
unfoldable pub with_cursor : Option String → SessionState → SessionState
with_cursor none state = state
with_cursor (some cursor) state =
    if str_eq cursor "" then state else record state { last_extraction_updated_time = cursor }

unfoldable pub l2_updated : ℕ → Option String → Manager → SessionState → SessionState
unfolding with_cursor
l2_updated now latest m state = with_cursor latest (record state {
  l2_pending_l1_count = 0;
  last_extraction_time = m.iso_string now;
  l2_last_extraction_time = m.iso_string now;
})

-- The runner returns.
returned_at : L2Phase → ℕ → Bool → Option String → Manager → Manager
unfolding update_state
returned_at (L2Phase.at_runner key cursor) now skipped latest m =
    let state = Maps.get m.session_states key in
    if not (is_some (Maps.get m.l2_last_run_time key)) && skipped
    then persist_states (
        arm_l2_max_interval now key
          (record (update_state key (λ s. record s { l2_pending_l1_count = 0 }) state m) {
            l2_phase = L2Phase.at_persist key false;
          }))
    else persist_states (record (update_state key (l2_updated now latest m) state m) {
      l2_last_run_time = Maps.set m.l2_last_run_time key now;
      l2_phase = L2Phase.at_persist key true;
    })
returned_at _ now skipped latest m = m

unfoldable pub l2_runner_returned : ℕ → Bool → Option String → Manager → Manager
unfolding returned_at
l2_runner_returned now skipped latest m = returned_at m.l2_phase now skipped latest m

-- `persistStates` is over: after a full update the next cycle is armed and L3 is triggered.
persisted_at : L2Phase → ℕ → Manager → Manager
persisted_at (L2Phase.at_persist key true) now m =
    trigger_l3 (arm_l2_max_interval now key (record m { l2_phase = L2Phase.at_end key }))
persisted_at (L2Phase.at_persist key false) now m = record m { l2_phase = L2Phase.at_end key }
persisted_at _ now m = m

unfoldable pub l2_persisted : ℕ → Manager → Manager
unfolding persisted_at
l2_persisted now m = persisted_at m.l2_phase now m

-- The task's promise settles, and the `finally` of `enqueueL2` runs.
l2_settle_at : L2Phase → Manager → Manager
l2_settle_at (L2Phase.at_end key) m =
    let (q, _) = SerialQueue.settle true m.l2_queue in
    put_timers (record m { l2_queue = q; l2_phase = L2Phase.no_task }) key
      (record (timers_of m key) { l2_queued = false })
l2_settle_at _ m = m

unfoldable pub l2_task_settled : Manager → Manager
unfolding l2_settle_at
l2_task_settled m = l2_settle_at m.l2_phase m

unfoldable pub l2_task_finished : Manager → Manager
unfolding after_l2_events begin_l2
l2_task_finished m =
    let (q, events) = SerialQueue.finish m.l2_queue in
    after_l2_events events (record m { l2_queue = q })
