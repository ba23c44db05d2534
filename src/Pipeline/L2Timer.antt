-- ===== src/Pipeline/L2Timer.antt =====
-- The downward-only L2 timer of src/utils/pipeline-manager.ts.
use chris_tencent_db_agent_m.Prelude.{
  ℕ, suc, ◌≡◌, String, true, false, min, if_else, ap, ◌∙◌, or_else, if◌then◌else◌,
}
use chris_tencent_db_agent_m.Prelude.Maps
use chris_tencent_db_agent_m.ManagedTimer
use chris_tencent_db_agent_m.ManagedTimer.{Timer}
use chris_tencent_db_agent_m.ManagedTimer.Laws.{try_advance_to-min}
use chris_tencent_db_agent_m.Pipeline.State.{
  Manager, SessionTimers, Callback, on_l2_timer_fired, delay_after_l1, timers_of,
}
use chris_tencent_db_agent_m.Pipeline.Frame.{timers_of-put_timers_self}
use chris_tencent_db_agent_m.Pipeline.Timing.{desired_time, advance_l2_timer}

abbrev pub l2_timer : Manager → String → Timer Callback
l2_timer m key = (timers_of m key).l2_schedule

abbrev pub last_l2 : Manager → String → ℕ
last_l2 m key = or_else (Maps.get m.l2_last_run_time key) 0

-- The timer after `advanceL2Timer`, while the manager is not destroyed.
l2_timer-advance :
    (now : ℕ) (key : String) (m : Manager)
    → m.destroyed ≡ false
    → l2_timer (advance_l2_timer now key m) key
      ≡ (ManagedTimer.try_advance_to now m.handles
          (desired_time m.config now (last_l2 m key))
          (on_l2_timer_fired key delay_after_l1)
          (l2_timer m key)).0.0
unfolding advance_l2_timer
l2_timer-advance now key m h =
    let m' : Manager = record m { handles = suc m.handles } in
    ap (λ (n : Manager). l2_timer n key) (if_else m.destroyed m _ h)
    ∙ ap (λ (t : SessionTimers). t.l2_schedule) (timers_of-put_timers_self m' key _)

-- In a manager that is not destroyed, advanceL2Timer leaves the session's L2 timer pending, at the
-- desired time if it was not pending and else at the earlier of that time and its own: the timer
-- only moves down.
advance_l2_timer-min :
    (now : ℕ) (key : String) (m : Manager)
    → m.destroyed ≡ false
    → let before = l2_timer m key in
      let after = l2_timer (advance_l2_timer now key m) key in
      let desired = desired_time m.config now (last_l2 m key) in
      (ManagedTimer.pending after ≡ true)
      × (ManagedTimer.scheduled_time after ≡ (
          if ManagedTimer.pending before
          then min desired (ManagedTimer.scheduled_time before)
          else desired))
advance_l2_timer-min now key m h =
    let e = l2_timer-advance now key m h in
    let l =
      try_advance_to-min now m.handles (desired_time m.config now (last_l2 m key))
        (on_l2_timer_fired key delay_after_l1) (l2_timer m key) in
    (rw e l.0, rw e l.1)
