-- ===== src/Pipeline/Lifecycle/QueuedOnce.antt =====
-- Every turn of the event loop of src/utils/pipeline-manager.ts keeps the L1 queue and its marks in
-- agreement: no session is queued for L1 twice.
use chris_tencent_db_agent_m.Prelude.{
  ℕ, ◌≡◌, refl, String, Bool, true, ◌&&◌, ◌||◌, not, ◌==◌, List, [], ◌∷◌, is_empty, if◌then◌else◌,
}
use chris_tencent_db_agent_m.Prelude.Maps
use chris_tencent_db_agent_m.Prelude.Maps.{Map}
use chris_tencent_db_agent_m.ManagedTimer
use chris_tencent_db_agent_m.Pipeline.State.{
  Manager, Config, SessionState, SessionTimers, Callback, on_l1_idle_timeout, on_l2_timer_fired,
  init, timers_of, put_timers, put_state, buffer_of,
}
use chris_tencent_db_agent_m.Pipeline.Frame.{
  SameL1, SameL1-refl, SameL1-trans, SameL1-if, SameL1-put_timers, SameL1-put_state,
  SameL1-persist_states, SameL1-advance_l2_timer,
}
use chris_tencent_db_agent_m.Pipeline.Timing.{advance_l2_timer}
use chris_tencent_db_agent_m.Pipeline.L3.Frame.{
  SameL1-l3_runner_done, SameL1-l3_task_settled, SameL1-l3_task_finished,
}
use chris_tencent_db_agent_m.Pipeline.L2.{l2_timer_fired}
use chris_tencent_db_agent_m.Pipeline.L2.Frame.{
  SameL1-l2_timer_fired, SameL1-l2_runner_failed, SameL1-l2_runner_returned, SameL1-l2_persisted,
  SameL1-l2_task_settled, SameL1-l2_task_finished,
}
use chris_tencent_db_agent_m.Pipeline.L1.{l1_idle_timeout}
use chris_tencent_db_agent_m.Pipeline.L1.Task.{
  QueuedOnce, QueuedOnce-if, SameL1-QueuedOnce, enqueue_l1-QueuedOnce,
}
use chris_tencent_db_agent_m.Pipeline.L1.QueuedOnce.{
  l1_runner_failed-QueuedOnce, l1_runner_returned-QueuedOnce, l1_persisted-QueuedOnce,
  l1_task_settled-QueuedOnce, l1_task_finished-QueuedOnce, await_l1_idle-QueuedOnce,
}
use chris_tencent_db_agent_m.Pipeline.Notify.QueuedOnce.{
  SameL1-notify_conversation, notify_resumed-QueuedOnce,
}
use chris_tencent_db_agent_m.Pipeline.Lifecycle.{
  Restored, backfill, restore, recovered, recover_over, recover_pending_sessions, start,
  cancel_idle, flush_session, flush_l1_over, destroy, run_callbacks, flush_l2_at, flush_l2_over,
  destroy_l1_drained, destroy_ends, l1_idle_fires, l2_schedule_fires, Turn, starts, notifies,
  resumes, flushes, destroys, drains, ends_destroy, fires_l1, fires_l2, l1_fails, l1_returns,
  l1_goes_on, l1_settles, l1_finishes, l2_fails, l2_returns, l2_goes_on, l2_settles, l2_finishes,
  l3_returns, l3_settles, l3_finishes, step, run,
}

restored : (states : Map Restored) (m : Manager) → SameL1 m (restore states m)
unfolding restore
restored [] m = SameL1-refl m
restored ((key, s) ∷ rest) m =
    let m' : Manager = if m.should_skip key then m else put_state m key (backfill s) in
    SameL1-trans m m' _
      (SameL1-if (m.should_skip key) m _ _ (SameL1-refl m) (SameL1-put_state m key (backfill s)))
      (restored rest m')

recover : (now : ℕ) (states : Map SessionState) (m : Manager) → SameL1 m (recover_over now states m)
unfolding recover_over
recover now [] m = SameL1-refl m
recover now ((key, s) ∷ rest) m =
    let m1 : Manager = put_state m key (recovered s) in
    let b : Bool = s.conversation_count == 0 && s.l2_pending_l1_count == 0 in
    let m' : Manager = if b then m else advance_l2_timer now key m1 in
    SameL1-trans m m' _
      (SameL1-if b m _ _ (SameL1-refl m)
        (SameL1-trans m m1 _ (SameL1-put_state m key _) (SameL1-advance_l2_timer now key m1)))
      (recover now rest m')

SameL1-start : (now : ℕ) (states : Map Restored) (m : Manager) → SameL1 m (start now states m)
unfolding start recover_pending_sessions
SameL1-start now states m =
    let m' : Manager = restore states m in
    SameL1-if m.destroyed m _ _ (SameL1-refl m)
      (SameL1-trans m m' _ (restored states m) (recover now m'.session_states m'))

cancelled : (key : String) (m : Manager) → SameL1 m (cancel_idle key m)
unfolding cancel_idle
cancelled key m =
    SameL1-if (ManagedTimer.pending (timers_of m key).l1_idle) m _ _
      (SameL1-put_timers m key _ refl) (SameL1-refl m)

flush_session-QueuedOnce :
    (key : String) (waiter : ℕ) (m : Manager)
    → QueuedOnce m
    → QueuedOnce (flush_session key waiter m)
unfolding flush_session
flush_session-QueuedOnce key waiter m v =
    let m' : Manager = cancel_idle key m in
    let v' : QueuedOnce m' = SameL1-QueuedOnce m m' (cancelled key m) v in
    QueuedOnce-if (m.destroyed || m.should_skip key) _ _ (λ _. v)
      λ _. await_l1_idle-QueuedOnce waiter _ (
        QueuedOnce-if (is_empty (buffer_of m key)) _ _ (λ _. v')
          (λ _. enqueue_l1-QueuedOnce key m' v'))

flush_l1 :
    (timers : Map SessionTimers) (m : Manager) → QueuedOnce m → QueuedOnce (flush_l1_over timers m)
unfolding flush_l1_over
flush_l1 [] m v = v
flush_l1 ((key, t) ∷ rest) m v =
    let m' : Manager = cancel_idle key m in
    let v' : QueuedOnce m' = SameL1-QueuedOnce m m' (cancelled key m) v in
    flush_l1 rest _ (
      QueuedOnce-if (not (ManagedTimer.pending (timers_of m key).l1_idle)) _ _ (λ _. v)
        λ _.
          QueuedOnce-if (is_empty (buffer_of m key)) _ _ (λ _. v')
            (λ _. enqueue_l1-QueuedOnce key m' v'))

destroyed_mark : (m : Manager) → SameL1 m (record m { destroyed = true })
unfolding timers_of
destroyed_mark m = record { queue = refl; phase = refl; flags = λ k. refl }

destroy-QueuedOnce : (waiter : ℕ) (m : Manager) → QueuedOnce m → QueuedOnce (destroy waiter m)
unfolding destroy
destroy-QueuedOnce waiter m v =
    let m' : Manager = record m { destroyed = true } in
    QueuedOnce-if m.destroyed _ _ (λ _. v)
      λ _.
        await_l1_idle-QueuedOnce waiter _
          (flush_l1 m.session_timers m' (SameL1-QueuedOnce m m' (destroyed_mark m) v))

callbacks :
    (now : ℕ) (cbs : List Callback) (m : Manager)
    → QueuedOnce m
    → QueuedOnce (run_callbacks now cbs m)
unfolding run_callbacks l1_idle_timeout
callbacks now [] m v = v
callbacks now (on_l1_idle_timeout key ∷ rest) m v =
    callbacks now rest _ (enqueue_l1-QueuedOnce key m v)
callbacks now (on_l2_timer_fired key source ∷ rest) m v = callbacks now rest _ (
    SameL1-QueuedOnce m (l2_timer_fired now key source m) (SameL1-l2_timer_fired now key source m)
      v)

-- A write to the timers of `key` that leaves its mark, and then the callbacks.
after_timers :
    (now : ℕ) (key : String) (t : SessionTimers) (cbs : List Callback) (m : Manager)
    → t.l1_queued ≡ (timers_of m key).l1_queued
    → QueuedOnce m
    → QueuedOnce (run_callbacks now cbs (put_timers m key t))
after_timers now key t cbs m e v =
    callbacks now cbs _ (SameL1-QueuedOnce m _ (SameL1-put_timers m key t e) v)

flush_l2 :
    (now : ℕ) (timers : Map SessionTimers) (m : Manager)
    → QueuedOnce m
    → QueuedOnce (flush_l2_over now timers m)
unfolding flush_l2_over flush_l2_at
flush_l2 now [] m v = v
flush_l2 now ((key, t) ∷ rest) m v = flush_l2 now rest _ (
    QueuedOnce-if (not (ManagedTimer.pending (timers_of m key).l2_schedule)) _ _ (λ _. v)
      λ _.
        let (l2, es) = ManagedTimer.flush (timers_of m key).l2_schedule in
        let t' : SessionTimers = record (timers_of m key) { l2_schedule = l2 } in
        after_timers now key t' (ManagedTimer.calls es) m refl v)

l1_idle_fires-QueuedOnce :
    (now : ℕ) (key : String) (m : Manager) → QueuedOnce m → QueuedOnce (l1_idle_fires now key m)
unfolding l1_idle_fires
l1_idle_fires-QueuedOnce now key m v =
    let (l1, es) = ManagedTimer.fire m.destroyed (timers_of m key).l1_idle in
    let t : SessionTimers = record (timers_of m key) { l1_idle = l1 } in
    after_timers now key t (ManagedTimer.calls es) m refl v

l2_schedule_fires-QueuedOnce :
    (now : ℕ) (key : String) (m : Manager) → QueuedOnce m → QueuedOnce (l2_schedule_fires now key m)
unfolding l2_schedule_fires
l2_schedule_fires-QueuedOnce now key m v =
    let (l2, es) = ManagedTimer.fire m.destroyed (timers_of m key).l2_schedule in
    let t : SessionTimers = record (timers_of m key) { l2_schedule = l2 } in
    after_timers now key t (ManagedTimer.calls es) m refl v

-- Each turn, from any state in which they agree.
pub step-QueuedOnce : (turn : Turn) (m : Manager) → QueuedOnce m → QueuedOnce (step turn m)
unfolding step destroy_l1_drained destroy_ends
step-QueuedOnce (starts now states) m v = SameL1-QueuedOnce m _ (SameL1-start now states m) v
step-QueuedOnce (notifies now key messages) m v =
    SameL1-QueuedOnce m _ (SameL1-notify_conversation now key messages m) v
step-QueuedOnce (resumes now key threshold) m v = notify_resumed-QueuedOnce now key threshold m v
step-QueuedOnce (flushes key waiter) m v = flush_session-QueuedOnce key waiter m v
step-QueuedOnce (destroys waiter) m v = destroy-QueuedOnce waiter m v
step-QueuedOnce (drains now) m v = flush_l2 now m.session_timers m v
step-QueuedOnce ends_destroy m v = SameL1-QueuedOnce m _ (SameL1-persist_states m) v
step-QueuedOnce (fires_l1 now key) m v = l1_idle_fires-QueuedOnce now key m v
step-QueuedOnce (fires_l2 now key) m v = l2_schedule_fires-QueuedOnce now key m v
step-QueuedOnce (l1_fails now) m v = l1_runner_failed-QueuedOnce now m v
step-QueuedOnce (l1_returns result) m v = l1_runner_returned-QueuedOnce result m v
step-QueuedOnce (l1_goes_on now) m v = l1_persisted-QueuedOnce now m v
step-QueuedOnce l1_settles m v = l1_task_settled-QueuedOnce m v
step-QueuedOnce l1_finishes m v = l1_task_finished-QueuedOnce m v
step-QueuedOnce (l2_fails now) m v = SameL1-QueuedOnce m _ (SameL1-l2_runner_failed now m) v
step-QueuedOnce (l2_returns now skipped latest) m v =
    SameL1-QueuedOnce m _ (SameL1-l2_runner_returned now skipped latest m) v
step-QueuedOnce (l2_goes_on now) m v = SameL1-QueuedOnce m _ (SameL1-l2_persisted now m) v
step-QueuedOnce l2_settles m v = SameL1-QueuedOnce m _ (SameL1-l2_task_settled m) v
step-QueuedOnce l2_finishes m v = SameL1-QueuedOnce m _ (SameL1-l2_task_finished m) v
step-QueuedOnce l3_returns m v = SameL1-QueuedOnce m _ (SameL1-l3_runner_done m) v
step-QueuedOnce l3_settles m v = SameL1-QueuedOnce m _ (SameL1-l3_task_settled m) v
step-QueuedOnce l3_finishes m v = SameL1-QueuedOnce m _ (SameL1-l3_task_finished m) v

-- From any manager in which the L1 queue, the sessions' l1Queued flags and the L1 task in flight
-- agree, any sequence of calls, timeouts and settled promises keeps them in agreement: the queue
-- holds, waiting and in flight together, one task of a session exactly when its flag is set, and
-- none otherwise.
pub run-QueuedOnce : (turns : List Turn) (m : Manager) → QueuedOnce m → QueuedOnce (run turns m)
unfolding run
run-QueuedOnce [] m v = v
run-QueuedOnce (turn ∷ turns) m v = run-QueuedOnce turns (step turn m) (step-QueuedOnce turn m v)

pub init-QueuedOnce : (c : Config) → QueuedOnce (init c)
unfolding init timers_of Maps.get
init-QueuedOnce c = record {
  phased = refl;
  sound = record { unpaused = refl; landed = λ _. refl; working = λ _. refl; once = λ k. refl };
}
