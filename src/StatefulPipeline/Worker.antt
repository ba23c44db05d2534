-- ===== src/StatefulPipeline/Worker.antt =====
-- What a worker calls of src/utils/stateful-pipeline-manager.ts after L1 and L2: the L2 timer, and the
-- drain of a backlog.
use Prim.Native.String.{◌++◌ as glue}
use chris_tencent_db_agent_m.Prelude.{
  ℕ, ◌+◌, String, Option, none, some, List, [], ltb, max, str_eq, if◌then◌else◌,
}
use chris_tencent_db_agent_m.Pipeline.State.{SessionState}
use chris_tencent_db_agent_m.StateBackend.State.{l1, Effect}
use chris_tencent_db_agent_m.StateBackend.Sessions.{get_session_state}
use chris_tencent_db_agent_m.StateBackend.Timers.{set_timer, set_timer_if_earlier}
use chris_tencent_db_agent_m.StateBackend.Tasks.{enqueue_task}
use chris_tencent_db_agent_m.StatefulPipeline.{Config, Manager, is_refused, effective_id, task_of}

-- `state?.l2_last_extraction_time ? new Date(...).getTime() : 0`.
unfoldable pub last_l2_of : Config → Option SessionState → ℕ
last_l2_of c none = 0
last_l2_of c (some state) =
    if str_eq state.l2_last_extraction_time "" then 0 else c.epoch_of state.l2_last_extraction_time

unfoldable pub desired_time : Config → ℕ → Option SessionState → ℕ
unfolding last_l2_of
desired_time c now state =
    let last_l2 = last_l2_of c state in
    max (now + c.l2_delay_after_l1_ms) (if ltb 0 last_l2 then last_l2 + c.l2_min_interval_ms else 0)

unfoldable pub advance_l2_timer_after_l1 :
    ℕ → String → Option String → Manager → Manager × List Effect
unfolding is_refused effective_id desired_time
advance_l2_timer_after_l1 now key given m =
    let id = effective_id given m in
    let (r, advanced) =
      set_timer_if_earlier now id (glue key ":L2_schedule")
        (desired_time m.config now (get_session_state id key m.backend)) m.backend in
    if is_refused given m then (m, []) else (record m { backend = r.0 }, r.1)

unfoldable pub arm_l2_max_interval : ℕ → String → Option String → Manager → Manager × List Effect
unfolding is_refused effective_id
arm_l2_max_interval now key given m =
    let (b, es) =
      set_timer now (effective_id given m) (glue key ":L2_schedule") (now + m.l2_max_interval_ms)
        m.backend in
    if is_refused given m then (m, []) else (record m { backend = b }, es)

unfoldable pub enqueue_l1_drain : ℕ → String → Option String → Manager → Manager × List Effect
unfolding is_refused effective_id task_of
enqueue_l1_drain now key given m =
    let (b, es) =
      enqueue_task (task_of l1 "L1-drain-" now (effective_id given m) key m) m.backend in
    if is_refused given m then (m, []) else (record m { backend = b }, es)

unfoldable pub arm_l1_idle_after_drain :
    ℕ → String → Option String → Manager → Manager × List Effect
unfolding is_refused effective_id
arm_l1_idle_after_drain now key given m =
    let (r, advanced) =
      set_timer_if_earlier now (effective_id given m) (glue key ":L1_idle")
        (now + m.l1_idle_timeout_ms) m.backend in
    if is_refused given m then (m, []) else (record m { backend = r.0 }, r.1)
