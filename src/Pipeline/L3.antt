-- ===== src/Pipeline/L3.antt =====
-- L3 of src/utils/pipeline-manager.ts: one run at a time, and a pending flag for one more.
pub mod Frame
pub mod Single
use chris_tencent_db_agent_m.Prelude.{Bool, true, false, ◌&&◌, not, List, [], ◌∷◌, if◌then◌else◌}
use chris_tencent_db_agent_m.SerialQueue
use chris_tencent_db_agent_m.SerialQueue.{Event, started, settled, cleared, woken}
use chris_tencent_db_agent_m.Pipeline.State.{Manager, L3Phase}

-- `runL3` up to its `await`.
begin_l3 : Manager → Manager
begin_l3 m = record m { l3_phase = if m.has_l3_runner then L3Phase.at_runner else L3Phase.at_end }

after_l3_events : List (Event (Unit {0})) → Manager → Manager
after_l3_events [] m = m
after_l3_events (started task ∷ es) m = after_l3_events es (begin_l3 m)
after_l3_events (_ ∷ es) m = after_l3_events es m

unfoldable pub enqueue_l3 : Manager → Manager
unfolding after_l3_events begin_l3
enqueue_l3 m =
    let (q, events) = SerialQueue.add tt m.l3_queue in
    after_l3_events events (record m { l3_running = true; l3_pending = false; l3_queue = q })

unfoldable pub trigger_l3 : Manager → Manager
trigger_l3 m =
    if m.destroyed then m else if m.l3_running then record m { l3_pending = true } else enqueue_l3 m

done_at : L3Phase → Manager → Manager
done_at L3Phase.at_runner m = record m { l3_phase = L3Phase.at_end }
done_at _ m = m

-- The runner returns or throws: `runL3` catches what it throws.
unfoldable pub l3_runner_done : Manager → Manager
unfolding done_at
l3_runner_done m = done_at m.l3_phase m

-- The task's promise settles, and the `finally` of `enqueueL3` runs.
settle_l3 : Manager → Manager
settle_l3 m =
    let (q, _) = SerialQueue.settle true m.l3_queue in
    let m' = record m { l3_queue = q; l3_phase = L3Phase.no_task; l3_running = false } in
    if m.l3_pending && not m.destroyed then enqueue_l3 m' else m'

l3_settle_at : L3Phase → Manager → Manager
l3_settle_at L3Phase.at_end m = settle_l3 m
l3_settle_at _ m = m

unfoldable pub l3_task_settled : Manager → Manager
unfolding l3_settle_at settle_l3 enqueue_l3
l3_task_settled m = l3_settle_at m.l3_phase m

-- The `finally` of the queue.
unfoldable pub l3_task_finished : Manager → Manager
unfolding after_l3_events begin_l3
l3_task_finished m =
    let (q, events) = SerialQueue.finish m.l3_queue in
    after_l3_events events (record m { l3_queue = q })
