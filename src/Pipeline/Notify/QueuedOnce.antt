-- ===== src/Pipeline/Notify/QueuedOnce.antt =====
-- `notifyConversation` and the GC of src/utils/pipeline-manager.ts keep the L1 queue and its marks in
-- agreement.
use chris_tencent_db_agent_m.Prelude.{
  ℕ, ◌+◌, ◌≡◌, refl, String, Bool, true, false, ◌||◌, Option, none, some, List, [], ◌∷◌, ◌++◌,
  arith, eq_iff, Bool-cases, inl, inr, if◌then◌else◌, leb,
}
use chris_tencent_db_agent_m.Prelude.Maps.{Map, get-delete}
use chris_tencent_db_agent_m.Pipeline.State.{
  Manager, CapturedMessage, SessionState, SessionTimers, timers_of, put_timers, put_state,
  buffer_of, session_gc_every_n_notifications,
}
use chris_tencent_db_agent_m.Pipeline.Frame.{
  SameL1, SameL1-refl, SameL1-trans, SameL1-if, SameL1-put_timers, SameL1-put_state,
  SameL1-put_buffer, SameL1-persist_states, SameL1-schedule_l1_idle, is_queued,
}
use chris_tencent_db_agent_m.Pipeline.Timing.{schedule_l1_idle}
use chris_tencent_db_agent_m.Pipeline.L1.Task.{
  QueuedOnce, QueuedOnce-if, SameL1-QueuedOnce, enqueue_l1-QueuedOnce,
}
use chris_tencent_db_agent_m.Pipeline.Notify.{
  notified, state_of, record_notification, notify_conversation, is_stale, evict, gc_over,
  gc_stale_sessions, count_notification, resume_at, notify_resumed,
}

recorded :
    (now : ℕ) (key : String) (messages : List CapturedMessage) (m : Manager)
    → SameL1 m (record_notification now key messages m)
unfolding record_notification
recorded now key messages m =
    let m1 : Manager = put_state m key (notified now (state_of now m key)) in
    let t : SessionTimers = record (timers_of m1 key) { l1_retry_count = 0 } in
    let m2 : Manager = put_timers m1 key t in
    SameL1-trans m m1 _ (SameL1-put_state m key _) (
      SameL1-trans m1 m2 _ (SameL1-put_timers m1 key t refl)
        (SameL1-put_buffer m2 key (buffer_of m2 key ++ messages)))

after_if :
    (b : Bool) (m x : Manager) (n : Option ℕ)
    → SameL1 m x
    → SameL1 m (if◌then◌else◌ {A = Manager × Option ℕ} b (m, none) (x, n)).0
after_if true m x n s = SameL1-refl m
after_if false m x n s = s

pub SameL1-notify_conversation :
    (now : ℕ) (key : String) (messages : List CapturedMessage) (m : Manager)
    → SameL1 m (notify_conversation now key messages m).0
unfolding notify_conversation
SameL1-notify_conversation now key messages m =
    let m' : Manager = record_notification now key messages m in
    after_if (m.destroyed || m.should_skip key) m _ _
      (SameL1-trans m m' _ (recorded now key messages m) (SameL1-persist_states m'))

stale-is_queued :
    (now : ℕ) (m : Manager) (key : String) (s : SessionState)
    → is_stale now m key s ≡ true
    → is_queued m key ≡ false
unfolding is_stale
stale-is_queued now m key s h = ground arith

-- An evicted session had no L1 task, and a session with no timers is not marked.
evicted : (key : String) (m : Manager) → is_queued m key ≡ false → SameL1 m (evict key m)
unfolding evict timers_of
evicted key m h = record {
  queue = refl;
  phase = refl;
  flags = λ k. ground (arith, get-delete m.session_timers key k, eq_iff key k);
}

gc : (now : ℕ) (states : Map SessionState) (m : Manager) → SameL1 m (gc_over now states m)
unfolding gc_over
gc now [] m = SameL1-refl m
gc now ((key, s) ∷ rest) m = elim (Bool-cases (is_stale now m key s)) [
  | inl e ↦ rw e (
      let m' : Manager = evict key m in
      SameL1-trans m m' _ (evicted key m (stale-is_queued now m key s e)) (gc now rest m'))
  | inr e ↦ rw e (gc now rest m)
]

pub SameL1-gc_stale_sessions : (now : ℕ) (m : Manager) → SameL1 m (gc_stale_sessions now m)
unfolding gc_stale_sessions
SameL1-gc_stale_sessions now m = gc now m.session_states m

counter : (m : Manager) (n : ℕ) → SameL1 m (record m { notify_counter = n })
unfolding timers_of
counter m n = record { queue = refl; phase = refl; flags = λ k. refl }

counted : (now : ℕ) (m : Manager) → SameL1 m (count_notification now m)
unfolding count_notification
counted now m =
    SameL1-if (leb session_gc_every_n_notifications (m.notify_counter + 1)) m _ _
      (let m' : Manager = record m { notify_counter = 0 } in
        SameL1-trans m m' _ (counter m 0) (SameL1-gc_stale_sessions now m'))
      (counter m (m.notify_counter + 1))

resumed :
    (s : Option SessionState) (now : ℕ) (key : String) (threshold : ℕ) (m : Manager)
    → QueuedOnce m
    → QueuedOnce (resume_at s now key threshold m)
unfolding resume_at
resumed none now key threshold m v = v
resumed (some s) now key threshold m v =
    QueuedOnce-if (leb threshold s.conversation_count) _ _ (λ _. enqueue_l1-QueuedOnce key m v)
      λ _.
        let m' : Manager = schedule_l1_idle now m.l1_idle_timeout_ms key m in
        SameL1-QueuedOnce m _
          (SameL1-trans m m' _ (SameL1-schedule_l1_idle now _ key m) (counted now m')) v

pub notify_resumed-QueuedOnce :
    (now : ℕ) (key : String) (threshold : ℕ) (m : Manager)
    → QueuedOnce m
    → QueuedOnce (notify_resumed now key threshold m)
unfolding notify_resumed
notify_resumed-QueuedOnce now key threshold m v = resumed _ now key threshold m v
