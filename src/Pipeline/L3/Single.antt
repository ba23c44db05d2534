-- ===== src/Pipeline/L3/Single.antt =====
-- L3 of src/utils/pipeline-manager.ts is queued once at most, and a trigger during a run leads to one
-- more run.
use chris_tencent_db_agent_m.Prelude.{
  ℕ, suc, ◌≡◌, refl, Bool, true, false, none, List, [], ◌∷◌, arith, length, is_some, if◌then◌else◌,
  length-append, map, not, ◌&&◌,
}
use chris_tencent_db_agent_m.SerialQueue
use chris_tencent_db_agent_m.SerialQueue.{Queue, woken}
use chris_tencent_db_agent_m.Pipeline.State.{Manager, L3Phase}
use chris_tencent_db_agent_m.Pipeline.L3.{
  after_l3_events, settle_l3, l3_settle_at, enqueue_l3, trigger_l3, l3_runner_done, l3_task_settled,
  l3_task_finished,
}

-- The L3 tasks, waiting and in flight.
abbrev pub l3_tasks : Queue (Unit {0}) → ℕ
l3_tasks q = if is_some q.flight then suc (length q.queue) else length q.queue

abbrev pub in_flight : L3Phase → Bool
in_flight L3Phase.no_task = false
in_flight _ = true

pub record Single (m : Manager) : Type 0 where
  pub unpaused : m.l3_queue.paused ≡ false
  pub landed : m.l3_queue.running ≡ false → m.l3_queue.flight ≡ none
  pub working : m.l3_queue.running ≡ false → m.l3_queue.queue ≡ []
  pub phased : in_flight m.l3_phase ≡ is_some m.l3_queue.flight
  pub one : l3_tasks m.l3_queue ≡ (if m.l3_running then 1 else 0)
  pub pending : m.l3_pending ≡ true → m.destroyed ≡ false → m.l3_running ≡ true

-- What may happen to L3: a trigger, or a turn of the task in flight.
pub data L3Turn : Type 0 where
  triggers returns settles finishes : L3Turn

unfoldable pub l3_step : L3Turn → Manager → Manager
l3_step triggers m = trigger_l3 m
l3_step returns m = l3_runner_done m
l3_step settles m = l3_task_settled m
l3_step finishes m = l3_task_finished m

Single-if :
    (b : Bool) (x y : Manager)
    → (b ≡ true → Single x)
    → (b ≡ false → Single y)
    → Single (if b then x else y)
Single-if true x y p q = p refl
Single-if false x y p q = q refl

enqueue-Single :
    (m : Manager)
    → m.l3_queue.paused ≡ false
    → (m.l3_queue.running ≡ false → m.l3_queue.flight ≡ none)
    → (m.l3_queue.running ≡ false → m.l3_queue.queue ≡ [])
    → in_flight m.l3_phase ≡ is_some m.l3_queue.flight
    → l3_tasks m.l3_queue ≡ 0
    → Single (enqueue_l3 m)
unfolding enqueue_l3 SerialQueue.add
enqueue-Single m unpaused landed working phased empty =
    ground (arith, length-append m.l3_queue.queue (tt ∷ []))

trigger-Single : (m : Manager) → Single m → Single (trigger_l3 m)
unfolding trigger_l3
trigger-Single m v =
    Single-if m.destroyed _ _ (λ _. v)
      λ _.
        Single-if m.l3_running _ _ (λ r. ground arith)
          λ r. enqueue-Single m v.unpaused v.landed v.working v.phased (ground arith)

done-Single : (m : Manager) → Single m → Single (l3_runner_done m)
unfolding l3_runner_done
done-Single m v = ground arith

settle_at-Single :
    (p : L3Phase) (m : Manager) → m.l3_phase ≡ p → Single m → Single (l3_settle_at p m)
unfolding l3_settle_at settle_l3 SerialQueue.settle
settle_at-Single L3Phase.at_end m e v =
    let q = (SerialQueue.settle true m.l3_queue).0 in
    let m' : Manager = record m { l3_queue = q; l3_phase = L3Phase.no_task; l3_running = false } in
    Single-if (m.l3_pending && not m.destroyed) _ _
      (λ _.
        enqueue-Single m' (ground arith) (ground arith) (ground arith) (ground arith)
          (ground arith))
      λ h. ground arith
settle_at-Single _ m e v = v

woken_nothing : (ws : List ℕ) (m : Manager) → after_l3_events (map woken ws) m ≡ m
unfolding after_l3_events
woken_nothing [] m = refl
woken_nothing (w ∷ ws) m = woken_nothing ws m

finish-Single : (m : Manager) → Single m → Single (l3_task_finished m)
unfolding l3_task_finished SerialQueue.finish
finish-Single m v = ground (
  arith,
  woken_nothing m.l3_queue.idle_resolvers
      (record m { l3_queue = record m.l3_queue { running = false; idle_resolvers = [] } }),
)

-- Any turn of L3 keeps the queue, the flags and the task in flight in agreement.
pub l3_step-Single : (turn : L3Turn) (m : Manager) → Single m → Single (l3_step turn m)
unfolding l3_step l3_task_settled
l3_step-Single triggers m v = trigger-Single m v
l3_step-Single returns m v = done-Single m v
l3_step-Single settles m v = settle_at-Single m.l3_phase m refl v
l3_step-Single finishes m v = finish-Single m v

unfoldable pub l3_run : List L3Turn → Manager → Manager
l3_run [] m = m
l3_run (turn ∷ turns) m = l3_run turns (l3_step turn m)

-- From any manager in which the L3 queue, the l3Running and l3Pending flags and the L3 task in
-- flight agree, any sequence of triggers and turns of the L3 task keeps them in agreement: L3 has
-- one task, waiting or in flight, exactly when l3Running is set, and a pending trigger waits
-- behind a run unless the manager is destroyed.
pub l3_run-Single : (turns : List L3Turn) (m : Manager) → Single m → Single (l3_run turns m)
unfolding l3_run
l3_run-Single [] m v = v
l3_run-Single (turn ∷ turns) m v = l3_run-Single turns (l3_step turn m) (l3_step-Single turn m v)

none_waiting : (xs : List (Unit {0})) → length xs ≡ 0 → xs ≡ []
none_waiting [] h = refl
none_waiting (x ∷ xs) h = ground arith

-- In a manager that is not destroyed, whose L3 queue, flags and task in flight agree and whose L3
-- task waits for its runner, a trigger leads to one more run: once the run returns, settles and
-- ends its promise chain, L3 is running with one task in flight and nothing is pending.
trigger_during_run :
    (m : Manager)
    → Single m
    → m.destroyed ≡ false
    → m.l3_running ≡ true
    → m.l3_phase ≡ L3Phase.at_runner
    → let m' = l3_run (triggers ∷ returns ∷ settles ∷ finishes ∷ []) m in
      (m'.l3_running ≡ true)
      × (m'.l3_pending ≡ false)
      × (in_flight m'.l3_phase ≡ true)
      × (l3_tasks m'.l3_queue ≡ 1)
unfolding l3_run l3_step trigger_l3 l3_runner_done l3_task_settled l3_task_finished
    SerialQueue.settle SerialQueue.add SerialQueue.finish
trigger_during_run m v d r p =
    let empty : m.l3_queue.queue ≡ [] = none_waiting m.l3_queue.queue (ground arith) in
    let busy : m.l3_queue.running ≡ true = ground arith in
    (ground arith, ground arith, ground arith, ground arith)
