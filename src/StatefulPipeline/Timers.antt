-- ===== src/StatefulPipeline/Timers.antt =====
-- When the L2 timer of src/utils/stateful-pipeline-manager.ts fires.
use Prim.Native.String.{◌++◌ as glue}
use text.Mathlib.TextPositions.{eq_refl}
use chris_tencent_db_agent_m.Prelude.{
  ℕ, ◌≡◌, ◌∙◌, ap, String, false, Option, some, List, if_then, if_else, str_eq,
}
use chris_tencent_db_agent_m.StateBackend.State.{Effect, k}
use chris_tencent_db_agent_m.StateBackend.Sessions.{get_session_state}
use chris_tencent_db_agent_m.StateBackend.Timers.Earlier.{
  time_at, earlier, set_timer_if_earlier-min,
}
use chris_tencent_db_agent_m.StatefulPipeline.Worker.{desired_time, advance_l2_timer_after_l1}
use chris_tencent_db_agent_m.StatefulPipeline.{Manager, effective_id, is_refused}

-- The key of a session's L2 timer.
abbrev pub l2_key : Option String → String → Manager → String
l2_key given key m = k (effective_id given m) (glue key ":L2_schedule")

-- In a manager that is not destroyed and for an instance id that is set, advanceL2TimerAfterL1
-- leaves the session's L2 timer at the desired time if it had none, and else at the earlier of
-- that time and its own.
l2_timer-earlier :
    (now : ℕ) (key : String) (given : Option String) (m : Manager)
    → is_refused given m ≡ false
    → let at = l2_key given key m in
      let state = get_session_state (effective_id given m) key m.backend in
      time_at (advance_l2_timer_after_l1 now key given m).0.backend at
      ≡ some (earlier (time_at m.backend at) (desired_time m.config now state))
unfolding advance_l2_timer_after_l1
l2_timer-earlier now key given m h =
    let at = l2_key given key m in
    let desired =
      desired_time m.config now (get_session_state (effective_id given m) key m.backend) in
    let l =
      set_timer_if_earlier-min now (effective_id given m) (glue key ":L2_schedule") desired
        m.backend at in
    ap (λ (r : Manager × List Effect). time_at r.0.backend at) (if_else (is_refused given m) _ _ h)
    ∙ l.0
    ∙ if_then (str_eq at at) _ _ (eq_refl at)
