-- ===== src/Pipeline/L1/Outcomes.antt =====
-- What the outcomes of an L1 run in src/utils/pipeline-manager.ts do to the session's messages, retries
-- and timers.
use chris_tencent_db_agent_m.Prelude.{
  ℕ, suc, ◌+◌, ◌≡◌, refl, sym, ap, ◌∙◌, String, true, some, List, [], ◌++◌, arith, leb, str_eq,
  eq_iff, if_map, if_then, if_same, subst, ap₂, if◌then◌else◌,
}
use chris_tencent_db_agent_m.Prelude.Maps.{get-set}
use chris_tencent_db_agent_m.ManagedTimer
use chris_tencent_db_agent_m.ManagedTimer.{Timer}
use chris_tencent_db_agent_m.Pipeline.State.{
  Manager, CapturedMessage, SessionTimers, Callback, on_l1_idle_timeout, Backlog, L1Phase,
  l1_max_retries, l1_retry_delay_ms, timers_of, put_timers, buffer_of, put_buffer,
}
use chris_tencent_db_agent_m.Pipeline.Frame.{
  SameL1-advance_l2_timer, is_queued, timers_of-put_timers_self,
}
use chris_tencent_db_agent_m.Pipeline.Timing.{schedule_l1_idle, advance_l2_timer}
use chris_tencent_db_agent_m.Pipeline.L1.Task.{phase_key, QueuedOnce}
use chris_tencent_db_agent_m.Pipeline.L1.QueuedOnce.{in_flight-is_queued, enqueue_l1_again}
use chris_tencent_db_agent_m.Pipeline.L1.{
  retry_l1, failed_at, l1_runner_failed, drain_backlog, persisted_at, l1_persisted,
}

-- The messages of a session that no L1 run has processed: those that a run holds, and the buffer.
abbrev pub held_by : String → L1Phase → List CapturedMessage
held_by k (L1Phase.at_runner key buffer) = if str_eq key k then buffer else []
held_by k _ = []

abbrev pub held : String → Manager → List CapturedMessage
held k m = held_by k m.l1_phase ++ buffer_of m k

pub buffer_of-put_buffer :
    (m : Manager) (k j : String) (b : List CapturedMessage)
    → buffer_of (put_buffer m k b) j ≡ (if str_eq k j then b else buffer_of m j)
unfolding buffer_of put_buffer
buffer_of-put_buffer m k j b = ground (arith, get-set m.message_buffers k j b)

abbrev pub idle_timer : Manager → String → Timer Callback
idle_timer m key = (timers_of m key).l1_idle

timers_of-schedule_l1_idle :
    (now delay : ℕ) (key : String) (m : Manager)
    → timers_of (schedule_l1_idle now delay key m) key ≡ record (timers_of m key) {
      l1_idle = record {
        handle = some m.handles;
        callback = some (on_l1_idle_timeout key);
        scheduled_at = now + delay;
      };
    }
unfolding schedule_l1_idle ManagedTimer.schedule
timers_of-schedule_l1_idle now delay key m =
    timers_of-put_timers_self (record m { handles = suc m.handles }) key _

-- The timers of a session after a failed run.
abbrev pub retried : ℕ → String → Manager → SessionTimers
retried now key m =
    let t = timers_of m key in
    let counted : SessionTimers = record t { l1_retry_count = t.l1_retry_count + 1 } in
    if leb (t.l1_retry_count + 1) l1_max_retries
    then record counted {
      l1_idle = record {
        handle = some m.handles;
        callback = some (on_l1_idle_timeout key);
        scheduled_at = now + l1_retry_delay_ms;
      };
    }
    else counted

retry-cases :
    (now : ℕ) (key : String) (m : Manager) → timers_of (retry_l1 now key m) key ≡ retried now key m
unfolding retry_l1 put_timers
retry-cases now key m =
    let t = timers_of m key in
    let counted : SessionTimers = record t { l1_retry_count = t.l1_retry_count + 1 } in
    let m' : Manager = put_timers m key counted in
    let p = timers_of-put_timers_self m key counted in
    let armed : Timer Callback = record {
      handle = some m.handles;
      callback = some (on_l1_idle_timeout key);
      scheduled_at = now + l1_retry_delay_ms;
    } in
    if_map (λ (n : Manager). timers_of n key) (leb (t.l1_retry_count + 1) l1_max_retries) _ m' _ _
      (timers_of-schedule_l1_idle now l1_retry_delay_ms key m'
        ∙ ap (λ (x : SessionTimers). record x { l1_idle = armed }) p)
      p

failed-retried :
    (now : ℕ) (key : String) (buffer : List CapturedMessage) (m : Manager)
    → timers_of (failed_at (L1Phase.at_runner key buffer) now m) key ≡ retried now key m
unfolding failed_at put_buffer timers_of
failed-retried now key buffer m =
    retry-cases now key
      (record (put_buffer m key (buffer ++ buffer_of m key)) { l1_phase = L1Phase.at_end key })

-- When the runner of the L1 task in flight throws, the session's retry count goes up by one, and
-- while the new count is within the maximum the idle timer is armed for the retry delay; beyond it
-- the timer is left as it was. Nothing else of the session's timers changes.
l1_failed-retried :
    (now : ℕ) (key : String) (buffer : List CapturedMessage) (m : Manager)
    → m.l1_phase ≡ L1Phase.at_runner key buffer
    → timers_of (l1_runner_failed now m) key ≡ retried now key m
unfolding l1_runner_failed
l1_failed-retried now key buffer m e =
    subst (λ p. timers_of (failed_at p now m) key ≡ retried now key m) (sym e)
      (failed-retried now key buffer m)

buffer_of-retry_l1 :
    (now : ℕ) (key k : String) (m : Manager) → buffer_of (retry_l1 now key m) k ≡ buffer_of m k
unfolding retry_l1 schedule_l1_idle put_timers buffer_of
buffer_of-retry_l1 now key k m = ground arith

phase-retry_l1 : (now : ℕ) (key : String) (m : Manager) → (retry_l1 now key m).l1_phase ≡ m.l1_phase
unfolding retry_l1 schedule_l1_idle put_timers
phase-retry_l1 now key m = ground arith

buffer_of-phase :
    (m : Manager) (k : String) (p : L1Phase)
    → buffer_of (record m { l1_phase = p }) k ≡ buffer_of m k
unfolding buffer_of
buffer_of-phase m k p = refl

failed-held :
    (now : ℕ) (key k : String) (buffer : List CapturedMessage) (m : Manager)
    → held k (failed_at (L1Phase.at_runner key buffer) now m)
      ≡ held_by k (L1Phase.at_runner key buffer) ++ buffer_of m k
unfolding failed_at
failed-held now key k buffer m =
    let m1 : Manager = put_buffer m key (buffer ++ buffer_of m key) in
    let m2 : Manager = record m1 { l1_phase = L1Phase.at_end key } in
    ap₂ (λ p b. held_by k p ++ b) (phase-retry_l1 now key m2)
      (buffer_of-retry_l1 now key k m2
        ∙ buffer_of-phase m1 k (L1Phase.at_end key)
        ∙ buffer_of-put_buffer m key k (buffer ++ buffer_of m key))
    ∙ ground (arith, eq_iff key k)

-- When the runner of the L1 task in flight throws, the messages that it holds go back in front of
-- its session's buffer: the unprocessed messages of every session, those that the run holds and
-- then those of the buffer, are the same and in the same order as before.
pub held-l1_failed :
    (now : ℕ) (key k : String) (buffer : List CapturedMessage) (m : Manager)
    → m.l1_phase ≡ L1Phase.at_runner key buffer
    → held k (l1_runner_failed now m) ≡ held k m
unfolding l1_runner_failed
held-l1_failed now key k buffer m e =
    subst (λ p. held k (failed_at p now m) ≡ held_by k p ++ buffer_of m k) (sym e)
      (failed-held now key k buffer m)

idle-advance_l2_timer :
    (now : ℕ) (key : String) (m : Manager)
    → idle_timer (advance_l2_timer now key m) key ≡ idle_timer m key
unfolding advance_l2_timer
idle-advance_l2_timer now key m =
    if_map (λ (n : Manager). idle_timer n key) m.destroyed _ _ _ _ refl
      (ap (λ (t : SessionTimers). t.l1_idle)
        (timers_of-put_timers_self (record m { handles = suc m.handles }) key _))
    ∙ if_same m.destroyed (idle_timer m key)

-- The backlog's branch of `runL1`, for a session that is marked as queued.
drain-full :
    (now : ℕ) (key : String) (b : Backlog) (m : Manager)
    → is_queued m key ≡ true
    → b.has_full_backlog ≡ true
    → drain_backlog now key (some b) m ≡ put_timers m key (timers_of m key)
unfolding drain_backlog
drain-full now key b m h f = if_then b.has_full_backlog _ _ f ∙ enqueue_l1_again key m h

full_ignored :
    (now : ℕ) (key : String) (b : Backlog) (m : Manager)
    → is_queued m key ≡ true
    → b.has_full_backlog ≡ true
    → let m' = persisted_at (L1Phase.at_persist key (some b)) now m in
      (m'.l1_queue ≡ m.l1_queue) × (idle_timer m' key ≡ idle_timer m key)
unfolding persisted_at put_timers timers_of
full_ignored now key b m h f =
    let m1 : Manager = advance_l2_timer now key m in
    let s = SameL1-advance_l2_timer now key m in
    let d = drain-full now key b m1 (s.flags key ∙ h) f in
    (
      ap (λ (n : Manager). n.l1_queue) d ∙ s.queue,
      ap (λ (n : Manager). idle_timer n key) d
          ∙ ap (λ (t : SessionTimers). t.l1_idle)
              (timers_of-put_timers_self m1 key (timers_of m1 key))
          ∙ idle-advance_l2_timer now key m,
    )

-- In a manager whose L1 queue, flags and task in flight agree, when an L1 run that reports a full
-- backlog goes on after persistStates, its call of enqueueL1 does nothing: the session's flag is
-- still set, so the L1 queue and the session's idle timer stay as they were.
full_backlog_ignored :
    (now : ℕ) (key : String) (b : Backlog) (m : Manager)
    → QueuedOnce m
    → m.l1_phase ≡ L1Phase.at_persist key (some b)
    → b.has_full_backlog ≡ true
    → ((l1_persisted now m).l1_queue ≡ m.l1_queue)
      × (idle_timer (l1_persisted now m) key ≡ idle_timer m key)
unfolding l1_persisted
full_backlog_ignored now key b m v e f =
    subst
      (λ p.
        ((persisted_at p now m).l1_queue ≡ m.l1_queue)
        × (idle_timer (persisted_at p now m) key ≡ idle_timer m key))
      (sym e) (full_ignored now key b m (in_flight-is_queued m key v (ap phase_key e)) f)
