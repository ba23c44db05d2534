-- ===== src/Pipeline/Timing.antt =====
-- The warm-up threshold and the L2 timer of src/utils/pipeline-manager.ts.
use chris_tencent_db_agent_m.Prelude.{
  ℕ, suc, ◌+◌, ◌*◌, String, not, ltb, leb, max, min, or_else, if◌then◌else◌,
}
use chris_tencent_db_agent_m.Prelude.Maps
use chris_tencent_db_agent_m.ManagedTimer
use chris_tencent_db_agent_m.Pipeline.State.{
  Manager, Config, SessionState, on_l1_idle_timeout, on_l2_timer_fired, delay_after_l1,
  max_interval, timers_of, put_timers,
}

unfoldable pub get_effective_threshold : Config → SessionState → ℕ
get_effective_threshold c state =
    if not c.enable_warmup
    then c.every_n_conversations
    else if leb state.warmup_threshold 0
    then c.every_n_conversations
    else min state.warmup_threshold c.every_n_conversations

unfoldable pub advance_warmup_threshold : Config → SessionState → SessionState
advance_warmup_threshold c state =
    if not c.enable_warmup
    then state
    else if leb state.warmup_threshold 0
    then state
    else if leb c.every_n_conversations (state.warmup_threshold * 2)
    then record state { warmup_threshold = 0 }
    else record state { warmup_threshold = state.warmup_threshold * 2 }

-- `timers.l1Idle.schedule(delay, () => this.onL1IdleTimeout(key))`.
unfoldable pub schedule_l1_idle : ℕ → ℕ → String → Manager → Manager
schedule_l1_idle now delay key m =
    let timers = timers_of m key in
    let t = (ManagedTimer.schedule now m.handles delay (on_l1_idle_timeout key) timers.l1_idle).0 in
    put_timers (record m { handles = suc m.handles }) key (record timers { l1_idle = t })

-- T_desired of the source: the delay after L1, but not before the floor.
unfoldable pub desired_time : Config → ℕ → ℕ → ℕ
desired_time c now last_l2 =
    max (now + c.l2_delay_after_l1_ms) (if ltb 0 last_l2 then last_l2 + c.l2_min_interval_ms else 0)

unfoldable pub advance_l2_timer : ℕ → String → Manager → Manager
advance_l2_timer now key m =
    if m.destroyed
    then m
    else let timers = timers_of m key in
      let last_l2 = or_else (Maps.get m.l2_last_run_time key) 0 in
      let t =
        (ManagedTimer.try_advance_to now m.handles (desired_time m.config now last_l2)
          (on_l2_timer_fired key delay_after_l1) timers.l2_schedule).0.0 in
      put_timers (record m { handles = suc m.handles }) key (record timers { l2_schedule = t })

unfoldable pub arm_l2_max_interval : ℕ → String → Manager → Manager
arm_l2_max_interval now key m =
    if m.destroyed
    then m
    else let timers = timers_of m key in
      let t =
        (ManagedTimer.schedule_at now m.handles (now + m.l2_max_interval_ms)
          (on_l2_timer_fired key max_interval) timers.l2_schedule).0 in
      put_timers (record m { handles = suc m.handles }) key (record timers { l2_schedule = t })
