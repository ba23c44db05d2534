-- ===== src/Pipeline/L1/QueuedOnce.antt =====
-- Every operation of L1 in src/utils/pipeline-manager.ts keeps the L1 queue, its marks and the task in
-- flight in agreement.
use chris_tencent_db_agent_m.Prelude.{
  ℕ, ◌+◌, ◌≡◌, refl, sym, ap, ◌∙◌, String, true, false, Option, none, some, ◌++◌, arith, eq_iff,
  leb,
}
use chris_tencent_db_agent_m.Prelude.Maps
use chris_tencent_db_agent_m.SerialQueue
use chris_tencent_db_agent_m.SerialQueue.{Queue, Event, started, settled, cleared, woken}
use chris_tencent_db_agent_m.SerialQueue.Marks.{
  Sound-marks, mark, settle-Sound, finish-Sound, on_idle-Sound, flight_after-finish,
  flight_after-on_idle,
}
use chris_tencent_db_agent_m.Pipeline.State.{
  Manager, SessionTimers, Backlog, L1Phase, l1_max_retries, timers_of, put_timers, buffer_of,
  put_buffer,
}
use chris_tencent_db_agent_m.Pipeline.Frame.{
  SameL1, SameL1-refl, SameL1-trans, SameL1-if, SameL1-put_timers, SameL1-put_buffer,
  SameL1-persist_states, SameL1-schedule_l1_idle, SameL1-advance_l2_timer, is_queued,
}
use chris_tencent_db_agent_m.Pipeline.Timing.{advance_l2_timer}
use chris_tencent_db_agent_m.Pipeline.L1.{
  count_l1, enqueue_l1, retry_l1, failed_at, l1_runner_failed, returned_at, l1_runner_returned,
  drain_backlog, persisted_at, l1_persisted, l1_settle_at, l1_task_settled, l1_task_finished,
  await_l1_idle,
}
use chris_tencent_db_agent_m.Pipeline.L1.Task.{
  phase_key, QueuedOnce, SameL1-Moved, Moved-trans, to_phase, Moved-QueuedOnce, count, queue_step,
  marks-put_timers,
}

-- The session of the task in flight is marked as queued, until the task has settled.
pub in_flight-is_queued :
    (m : Manager) (key : String)
    → QueuedOnce m
    → phase_key m.l1_phase ≡ some key
    → is_queued m key ≡ true
in_flight-is_queued m key v e = ground (arith, v.phased, v.sound.once key, eq_iff key key)

pub enqueue_l1_again :
    (key : String) (m : Manager)
    → is_queued m key ≡ true
    → enqueue_l1 key m ≡ put_timers m key (timers_of m key)
unfolding enqueue_l1
enqueue_l1_again key m h = rw h

drain_at :
    (now : ℕ) (key : String) (result : Option Backlog) (m : Manager)
    → is_queued m key ≡ true
    → SameL1 m (drain_backlog now key result m)
unfolding drain_backlog
drain_at now key none m h = SameL1-refl m
drain_at now key (some b) m h =
    SameL1-if b.has_full_backlog m _ _
      (rw (enqueue_l1_again key m h) (SameL1-put_timers m key (timers_of m key) refl))
      (SameL1-if b.has_more m _ _ (SameL1-schedule_l1_idle now _ key m) (SameL1-refl m))

retry : (now : ℕ) (key : String) (m : Manager) → SameL1 m (retry_l1 now key m)
unfolding retry_l1
retry now key m =
    let timers = timers_of m key in
    let t : SessionTimers = record timers { l1_retry_count = timers.l1_retry_count + 1 } in
    let m' : Manager = put_timers m key t in
    let p = SameL1-put_timers m key t refl in
    SameL1-if (leb (timers.l1_retry_count + 1) l1_max_retries) m _ _
      (SameL1-trans m m' _ p (SameL1-schedule_l1_idle now _ key m')) p

failed :
    (p : L1Phase) (now : ℕ) (m : Manager)
    → m.l1_phase ≡ p
    → QueuedOnce m
    → QueuedOnce (failed_at p now m)
unfolding failed_at
failed (L1Phase.at_runner key buffer) now m e v =
    let m1 : Manager = put_buffer m key (buffer ++ buffer_of m key) in
    let m2 : Manager = record m1 { l1_phase = L1Phase.at_end key } in
    Moved-QueuedOnce m _ key
      (Moved-trans m m1 _ _ _ (SameL1-Moved m m1 (SameL1-put_buffer m key _))
        (Moved-trans m1 m2 _ _ _ (to_phase m1 _) (SameL1-Moved m2 _ (retry now key m2))))
      (ap phase_key e) v
failed L1Phase.no_task now m e v = v
failed (L1Phase.at_persist key result) now m e v = v
failed (L1Phase.at_end key) now m e v = v

pub l1_runner_failed-QueuedOnce :
    (now : ℕ) (m : Manager) → QueuedOnce m → QueuedOnce (l1_runner_failed now m)
unfolding l1_runner_failed
l1_runner_failed-QueuedOnce now m v = failed m.l1_phase now m refl v

returned :
    (p : L1Phase) (result : Option Backlog) (m : Manager)
    → m.l1_phase ≡ p
    → QueuedOnce m
    → QueuedOnce (returned_at p result m)
unfolding returned_at
returned (L1Phase.at_runner key buffer) result m e v =
    let t : SessionTimers = record (timers_of m key) { l1_retry_count = 0 } in
    let m1 : Manager = put_timers m key t in
    let m2 : Manager = count_l1 key (Maps.get m.session_states key) m1 in
    let m3 : Manager = record m2 { l1_phase = L1Phase.at_persist key result } in
    Moved-QueuedOnce m _ key
      (Moved-trans m m1 _ _ _ (SameL1-Moved m m1 (SameL1-put_timers m key t refl)) (
        Moved-trans m1 m2 _ _ _ (SameL1-Moved m1 m2 (count key _ m1))
          (Moved-trans m2 m3 _ _ _ (to_phase m2 _) (SameL1-Moved m3 _ (SameL1-persist_states m3)))))
      (ap phase_key e) v
returned L1Phase.no_task result m e v = v
returned (L1Phase.at_persist key r) result m e v = v
returned (L1Phase.at_end key) result m e v = v

pub l1_runner_returned-QueuedOnce :
    (result : Option Backlog) (m : Manager)
    → QueuedOnce m
    → QueuedOnce (l1_runner_returned result m)
unfolding l1_runner_returned
l1_runner_returned-QueuedOnce result m v = returned m.l1_phase result m refl v

persisted :
    (p : L1Phase) (now : ℕ) (m : Manager)
    → m.l1_phase ≡ p
    → QueuedOnce m
    → QueuedOnce (persisted_at p now m)
unfolding persisted_at
persisted (L1Phase.at_persist key result) now m e v =
    let m1 : Manager = advance_l2_timer now key m in
    let a = SameL1-advance_l2_timer now key m in
    let m2 : Manager = drain_backlog now key result m1 in
    let h = a.flags key ∙ in_flight-is_queued m key v (ap phase_key e) in
    Moved-QueuedOnce m _ key
      (Moved-trans m m1 _ _ _ (SameL1-Moved m m1 a) (
        Moved-trans m1 m2 _ _ _ (SameL1-Moved m1 m2 (drain_at now key result m1 h))
          (to_phase m2 (L1Phase.at_end key))))
      (ap phase_key e) v
persisted L1Phase.no_task now m e v = v
persisted (L1Phase.at_runner key buffer) now m e v = v
persisted (L1Phase.at_end key) now m e v = v

pub l1_persisted-QueuedOnce :
    (now : ℕ) (m : Manager) → QueuedOnce m → QueuedOnce (l1_persisted now m)
unfolding l1_persisted
l1_persisted-QueuedOnce now m v = persisted m.l1_phase now m refl v

settle-flight :
    (q : Queue String) (key : String)
    → q.flight ≡ some key
    → (SerialQueue.settle true q).0.flight ≡ none
unfolding SerialQueue.settle
settle-flight q key h = ground arith

settle : (p : L1Phase) (m : Manager) → m.l1_phase ≡ p → QueuedOnce m → QueuedOnce (l1_settle_at p m)
unfolding l1_settle_at put_timers
settle (L1Phase.at_end key) m e v =
    let q = (SerialQueue.settle true m.l1_queue).0 in
    let m1 : Manager = record m { l1_queue = q; l1_phase = L1Phase.no_task } in
    let t : SessionTimers = record (timers_of m key) { l1_queued = false } in
    let f = sym v.phased ∙ ap phase_key e in
    record {
      phased = sym (settle-flight m.l1_queue key f);
      sound =
          Sound-marks q (mark key false (is_queued m)) _
            (unfold timers_of in marks-put_timers m1 key t)
            (settle-Sound m.l1_queue (is_queued m) v.sound key f);
    }
settle L1Phase.no_task m e v = v
settle (L1Phase.at_runner key buffer) m e v = v
settle (L1Phase.at_persist key result) m e v = v

pub l1_task_settled-QueuedOnce : (m : Manager) → QueuedOnce m → QueuedOnce (l1_task_settled m)
unfolding l1_task_settled
l1_task_settled-QueuedOnce m v = settle m.l1_phase m refl v

pub l1_task_finished-QueuedOnce : (m : Manager) → QueuedOnce m → QueuedOnce (l1_task_finished m)
unfolding l1_task_finished
l1_task_finished-QueuedOnce m v =
    let (q, es) = SerialQueue.finish m.l1_queue in
    queue_step m q es v.phased (finish-Sound m.l1_queue (is_queued m) v.sound)
      (flight_after-finish m.l1_queue)

pub await_l1_idle-QueuedOnce :
    (waiter : ℕ) (m : Manager) → QueuedOnce m → QueuedOnce (await_l1_idle waiter m)
unfolding await_l1_idle
await_l1_idle-QueuedOnce waiter m v =
    let (q, es) = SerialQueue.on_idle waiter m.l1_queue in
    queue_step m q es v.phased (on_idle-Sound m.l1_queue (is_queued m) v.sound waiter)
      (flight_after-on_idle waiter m.l1_queue)
