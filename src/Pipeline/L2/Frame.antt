-- ===== src/Pipeline/L2/Frame.antt =====
-- L2 of src/utils/pipeline-manager.ts leaves the L1 queue, its task and its marks alone.
use chris_tencent_db_agent_m.Prelude.{
  ℕ, String, refl, Bool, true, false, not, ◌&&◌, Option, none, some, List, [], ◌∷◌, is_some,
}
use chris_tencent_db_agent_m.Prelude.Maps
use chris_tencent_db_agent_m.Prelude.Maps.{Map}
use chris_tencent_db_agent_m.ManagedTimer
use chris_tencent_db_agent_m.SerialQueue
use chris_tencent_db_agent_m.SerialQueue.{Event, started, settled, cleared, woken, Queue}
use chris_tencent_db_agent_m.Pipeline.State.{
  Manager, SessionState, Source, delay_after_l1, max_interval, L2Phase, SessionTimers, timers_of,
  put_timers,
}
use chris_tencent_db_agent_m.Pipeline.Frame.{
  SameL1, SameL1-refl, SameL1-trans, SameL1-if, SameL1-put_timers, SameL1-put_state,
  SameL1-persist_states, SameL1-arm_l2_max_interval,
}
use chris_tencent_db_agent_m.Pipeline.L3.Frame.{SameL1-trigger_l3}
use chris_tencent_db_agent_m.Pipeline.L2.{
  begin_l2, after_l2_events, enqueue_l2, fired_at, l2_timer_fired, is_cold, l2_failed_at,
  l2_runner_failed, update_state, returned_at, l2_runner_returned, persisted_at, l2_persisted,
  l2_settle_at, l2_task_settled, l2_task_finished,
}

touch :
    (m : Manager) (q : Queue String) (phase : L2Phase) (last : Map ℕ)
    → SameL1 m (record m { l2_queue = q; l2_phase = phase; l2_last_run_time = last })
unfolding timers_of
touch m q phase last = record { queue = refl; phase = refl; flags = λ k. refl }

after_events : (es : List (Event String)) (m : Manager) → SameL1 m (after_l2_events es m)
unfolding after_l2_events begin_l2
after_events [] m = SameL1-refl m
after_events (started _ ∷ es) m = SameL1-trans _ _ _ (touch m _ _ _) (after_events es _)
after_events (settled _ _ ∷ es) m = after_events es m
after_events (cleared _ ∷ es) m = after_events es m
after_events (woken _ ∷ es) m = after_events es m

pub SameL1-enqueue_l2 : (key : String) (m : Manager) → SameL1 m (enqueue_l2 key m)
unfolding enqueue_l2
SameL1-enqueue_l2 key m =
    SameL1-if (timers_of m key).l2_queued m _ _ (SameL1-put_timers m key _ refl) (
      let timers = timers_of m key in
      let (q, es) = SerialQueue.add key m.l2_queue in
      let t : SessionTimers = record timers {
        l2_schedule = (ManagedTimer.cancel timers.l2_schedule).0;
        l2_queued = true;
      } in
      let m1 : Manager = put_timers m key t in
      let m2 : Manager = record m1 { l2_queue = q } in
      SameL1-trans m m1 _ (SameL1-put_timers m key t refl)
        (SameL1-trans m1 m2 _ (touch m1 q m1.l2_phase m1.l2_last_run_time) (after_events es m2)))

fired :
    (s : Option SessionState) (now : ℕ) (key : String) (source : Source) (m : Manager)
    → SameL1 m (fired_at s now key source m)
unfolding fired_at
fired none now key source m = SameL1-refl m
fired (some s) now key delay_after_l1 m = SameL1-enqueue_l2 key m
fired (some s) now key max_interval m =
    SameL1-if (is_cold now s m) m _ _ (SameL1-refl m) (SameL1-enqueue_l2 key m)

pub SameL1-l2_timer_fired :
    (now : ℕ) (key : String) (source : Source) (m : Manager)
    → SameL1 m (l2_timer_fired now key source m)
unfolding l2_timer_fired
SameL1-l2_timer_fired now key source m = fired _ now key source m

failed : (p : L2Phase) (now : ℕ) (m : Manager) → SameL1 m (l2_failed_at p now m)
unfolding l2_failed_at
failed (L2Phase.at_runner key cursor) now m =
    SameL1-trans _ _ _ (touch m _ _ _) (SameL1-arm_l2_max_interval now key _)
failed L2Phase.no_task now m = SameL1-refl m
failed (L2Phase.at_persist key full) now m = SameL1-refl m
failed (L2Phase.at_end key) now m = SameL1-refl m

pub SameL1-l2_runner_failed : (now : ℕ) (m : Manager) → SameL1 m (l2_runner_failed now m)
unfolding l2_runner_failed
SameL1-l2_runner_failed now m = failed m.l2_phase now m

update :
    (key : String) (f : SessionState → SessionState) (s : Option SessionState) (m : Manager)
    → SameL1 m (update_state key f s m)
unfolding update_state
update key f none m = SameL1-refl m
update key f (some s) m = SameL1-put_state m key (f s)

returned :
    (p : L2Phase) (now : ℕ) (skipped : Bool) (latest : Option String) (m : Manager)
    → SameL1 m (returned_at p now skipped latest m)
unfolding returned_at
returned (L2Phase.at_runner key cursor) now skipped latest m =
    SameL1-if (not (is_some (Maps.get m.l2_last_run_time key)) && skipped) m _ _
      (SameL1-trans _ _ _ (update key _ (Maps.get m.session_states key) m) (
        SameL1-trans _ _ _ (touch _ _ _ _)
          (SameL1-trans _ _ _ (SameL1-arm_l2_max_interval now key _) (SameL1-persist_states _))))
      (SameL1-trans _ _ _ (update key _ (Maps.get m.session_states key) m)
        (SameL1-trans _ _ _ (touch _ _ _ _) (SameL1-persist_states _)))
returned L2Phase.no_task now skipped latest m = SameL1-refl m
returned (L2Phase.at_persist key full) now skipped latest m = SameL1-refl m
returned (L2Phase.at_end key) now skipped latest m = SameL1-refl m

pub SameL1-l2_runner_returned :
    (now : ℕ) (skipped : Bool) (latest : Option String) (m : Manager)
    → SameL1 m (l2_runner_returned now skipped latest m)
unfolding l2_runner_returned
SameL1-l2_runner_returned now skipped latest m = returned m.l2_phase now skipped latest m

persisted : (p : L2Phase) (now : ℕ) (m : Manager) → SameL1 m (persisted_at p now m)
unfolding persisted_at
persisted (L2Phase.at_persist key true) now m =
    SameL1-trans _ _ _ (touch m _ _ _)
      (SameL1-trans _ _ _ (SameL1-arm_l2_max_interval now key _) (SameL1-trigger_l3 _))
persisted (L2Phase.at_persist key false) now m = touch m _ _ _
persisted L2Phase.no_task now m = SameL1-refl m
persisted (L2Phase.at_runner key cursor) now m = SameL1-refl m
persisted (L2Phase.at_end key) now m = SameL1-refl m

pub SameL1-l2_persisted : (now : ℕ) (m : Manager) → SameL1 m (l2_persisted now m)
unfolding l2_persisted
SameL1-l2_persisted now m = persisted m.l2_phase now m

settle : (p : L2Phase) (m : Manager) → SameL1 m (l2_settle_at p m)
unfolding l2_settle_at
settle (L2Phase.at_end key) m =
    let q = (SerialQueue.settle true m.l2_queue).0 in
    let m' : Manager = record m { l2_queue = q; l2_phase = L2Phase.no_task } in
    let t : SessionTimers = record (timers_of m key) { l2_queued = false } in
    SameL1-trans m m' _ (touch m q L2Phase.no_task m.l2_last_run_time)
      (SameL1-put_timers m' key t (unfold timers_of in refl))
settle L2Phase.no_task m = SameL1-refl m
settle (L2Phase.at_runner key cursor) m = SameL1-refl m
settle (L2Phase.at_persist key full) m = SameL1-refl m

pub SameL1-l2_task_settled : (m : Manager) → SameL1 m (l2_task_settled m)
unfolding l2_task_settled
SameL1-l2_task_settled m = settle m.l2_phase m

pub SameL1-l2_task_finished : (m : Manager) → SameL1 m (l2_task_finished m)
unfolding l2_task_finished
SameL1-l2_task_finished m =
    let (q, es) = SerialQueue.finish m.l2_queue in
    let m' : Manager = record m { l2_queue = q } in
    SameL1-trans m m' _ (touch m q m.l2_phase m.l2_last_run_time) (after_events es m')
