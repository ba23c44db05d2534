-- ===== src/Pipeline/L3/Frame.antt =====
-- L3 of src/utils/pipeline-manager.ts leaves the L1 queue, its task and its marks alone.
use chris_tencent_db_agent_m.Prelude.{refl, Bool, true, false, not, ◌&&◌, List, [], ◌∷◌}
use chris_tencent_db_agent_m.SerialQueue
use chris_tencent_db_agent_m.SerialQueue.{Event, started, settled, cleared, woken, Queue}
use chris_tencent_db_agent_m.Pipeline.State.{Manager, L3Phase, timers_of}
use chris_tencent_db_agent_m.Pipeline.Frame.{SameL1, SameL1-refl, SameL1-trans, SameL1-if}
use chris_tencent_db_agent_m.Pipeline.L3.{
  begin_l3, after_l3_events, enqueue_l3, trigger_l3, done_at, l3_runner_done, settle_l3,
  l3_settle_at, l3_task_settled, l3_task_finished,
}

-- Any change to the fields of L3.
touch :
    (m : Manager) (q : Queue Unit) (running pending : Bool) (phase : L3Phase)
    → SameL1 m
        (record m { l3_queue = q; l3_running = running; l3_pending = pending; l3_phase = phase })
unfolding timers_of
touch m q running pending phase = record { queue = refl; phase = refl; flags = λ k. refl }

after_events : (es : List (Event Unit)) (m : Manager) → SameL1 m (after_l3_events es m)
unfolding after_l3_events begin_l3
after_events [] m = SameL1-refl m
after_events (started _ ∷ es) m = SameL1-trans _ _ _ (touch m _ _ _ _) (after_events es _)
after_events (settled _ _ ∷ es) m = after_events es m
after_events (cleared _ ∷ es) m = after_events es m
after_events (woken _ ∷ es) m = after_events es m

SameL1-enqueue_l3 : (m : Manager) → SameL1 m (enqueue_l3 m)
unfolding enqueue_l3
SameL1-enqueue_l3 m =
    let (q, es) = SerialQueue.add tt m.l3_queue in
    let m' : Manager = record m { l3_running = true; l3_pending = false; l3_queue = q } in
    SameL1-trans m m' _ (touch m q true false m.l3_phase) (after_events es m')

pub SameL1-trigger_l3 : (m : Manager) → SameL1 m (trigger_l3 m)
unfolding trigger_l3
SameL1-trigger_l3 m =
    SameL1-if m.destroyed m _ _ (SameL1-refl m)
      (SameL1-if m.l3_running m _ _ (touch m _ _ _ _) (SameL1-enqueue_l3 m))

done : (p : L3Phase) (m : Manager) → SameL1 m (done_at p m)
unfolding done_at
done L3Phase.at_runner m = touch m _ _ _ _
done _ m = SameL1-refl m

pub SameL1-l3_runner_done : (m : Manager) → SameL1 m (l3_runner_done m)
unfolding l3_runner_done
SameL1-l3_runner_done m = done m.l3_phase m

settle : (p : L3Phase) (m : Manager) → SameL1 m (l3_settle_at p m)
unfolding l3_settle_at settle_l3
settle L3Phase.at_end m =
    let q = (SerialQueue.settle true m.l3_queue).0 in
    let m' : Manager = record m { l3_queue = q; l3_phase = L3Phase.no_task; l3_running = false } in
    let t = touch m q false m.l3_pending L3Phase.no_task in
    SameL1-if (m.l3_pending && not m.destroyed) m _ _ (SameL1-trans m m' _ t (SameL1-enqueue_l3 m'))
      t
settle _ m = SameL1-refl m

pub SameL1-l3_task_settled : (m : Manager) → SameL1 m (l3_task_settled m)
unfolding l3_task_settled
SameL1-l3_task_settled m = settle m.l3_phase m

pub SameL1-l3_task_finished : (m : Manager) → SameL1 m (l3_task_finished m)
unfolding l3_task_finished
SameL1-l3_task_finished m =
    let (q, es) = SerialQueue.finish m.l3_queue in
    let m' : Manager = record m { l3_queue = q } in
    SameL1-trans m m' _ (touch m q m.l3_running m.l3_pending m.l3_phase) (after_events es m')
