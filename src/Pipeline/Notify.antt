-- ===== src/Pipeline/Notify.antt =====
-- `notifyConversation` and the session GC of src/utils/pipeline-manager.ts.
pub mod QueuedOnce
pub mod Collected
use chris_tencent_db_agent_m.Prelude.{
  ℕ, ◌+◌, ◌*◌, String, Bool, true, false, ◌||◌, ◌&&◌, not, Option, none, some, List, [], ◌∷◌, ◌++◌,
  ltb, leb, is_empty, or_else, if◌then◌else◌,
}
use chris_tencent_db_agent_m.Prelude.Maps
use chris_tencent_db_agent_m.Prelude.Maps.{Map}
use chris_tencent_db_agent_m.Pipeline.State.{
  Manager, Config, CapturedMessage, SessionState, SessionTimers, session_gc_inactive_multiplier,
  session_gc_every_n_notifications, timers_of, put_timers, new_state, put_state, buffer_of,
  put_buffer, persist_states,
}
use chris_tencent_db_agent_m.Pipeline.Timing.{get_effective_threshold, schedule_l1_idle}
use chris_tencent_db_agent_m.Pipeline.L1.{enqueue_l1}

-- The state after the notification is counted.
unfoldable pub notified : ℕ → SessionState → SessionState
notified now state = record state {
  conversation_count = state.conversation_count + 1;
  last_active_time = now;
}

-- `getOrCreateState`.
unfoldable pub state_of : ℕ → Manager → String → SessionState
state_of now m key = or_else (Maps.get m.session_states key) (new_state m.config now)

record_notification : ℕ → String → List CapturedMessage → Manager → Manager
unfolding notified state_of
record_notification now key messages m =
    let m1 = put_state m key (notified now (state_of now m key)) in
    let m2 = put_timers m1 key (record (timers_of m1 key) { l1_retry_count = 0 }) in
    put_buffer m2 key (buffer_of m2 key ++ messages)

-- `notifyConversation` up to `await this.persistStates()`, with the threshold that it goes on with;
-- `none` if it has returned.
unfoldable pub notify_conversation :
    ℕ → String → List CapturedMessage → Manager → Manager × Option ℕ
unfolding record_notification
notify_conversation now key messages m = if m.destroyed || m.should_skip key then (m, none) else (
  persist_states (record_notification now key messages m),
  some (get_effective_threshold m.config (notified now (state_of now m key))),
)

-- A session that `gcStaleSessions` evicts: inactive for three windows, with no task and no message.
unfoldable pub is_stale : ℕ → Manager → String → SessionState → Bool
is_stale now m key state =
    not (
      ltb now
        (state.last_active_time + m.session_active_window_ms * session_gc_inactive_multiplier))
    && not ((timers_of m key).l1_queued || (timers_of m key).l2_queued)
    && is_empty (buffer_of m key)

-- Its timers are cancelled before they leave the map, so they never fire.
unfoldable pub evict : String → Manager → Manager
evict key m = record m {
  session_states = Maps.delete m.session_states key;
  session_timers = Maps.delete m.session_timers key;
  message_buffers = Maps.delete m.message_buffers key;
  l2_last_run_time = Maps.delete m.l2_last_run_time key;
}

gc_over : ℕ → Map SessionState → Manager → Manager
unfolding is_stale evict
gc_over now [] m = m
gc_over now ((key, state) ∷ rest) m =
    gc_over now rest (if is_stale now m key state then evict key m else m)

unfoldable pub gc_stale_sessions : ℕ → Manager → Manager
unfolding gc_over
gc_stale_sessions now m = gc_over now m.session_states m

count_notification : ℕ → Manager → Manager
count_notification now m =
    if leb session_gc_every_n_notifications (m.notify_counter + 1)
    then gc_stale_sessions now (record m { notify_counter = 0 })
    else record m { notify_counter = m.notify_counter + 1 }

resume_at : Option SessionState → ℕ → String → ℕ → Manager → Manager
unfolding count_notification
resume_at none now key threshold m = m
resume_at (some state) now key threshold m =
    if leb threshold state.conversation_count
    then enqueue_l1 key m
    else count_notification now (schedule_l1_idle now m.l1_idle_timeout_ms key m)

-- `notifyConversation` after its `await`, with the threshold from before it. The session is in the
-- map then: a session that was just active is not evicted.
unfoldable pub notify_resumed : ℕ → String → ℕ → Manager → Manager
unfolding resume_at
notify_resumed now key threshold m = resume_at (Maps.get m.session_states key) now key threshold m
