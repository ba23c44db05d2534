-- ===== src/Pipeline/Notify/Collected.antt =====
-- What the garbage collection of src/utils/pipeline-manager.ts keeps.
use chris_tencent_db_agent_m.Prelude.{
  ℕ, ◌≡◌, ◌<◌, ◌+◌, ◌*◌, refl, ◌∙◌, String, true, [], ◌∷◌, arith, eq_iff, All, if_elim,
}
use chris_tencent_db_agent_m.Prelude.Maps
use chris_tencent_db_agent_m.Prelude.Maps.{Map, get-delete}
use chris_tencent_db_agent_m.Pipeline.State.{
  Manager, SessionState, timers_of, buffer_of, session_gc_inactive_multiplier,
}
use chris_tencent_db_agent_m.Pipeline.Notify.{is_stale, evict, gc_over, gc_stale_sessions}

-- Every session has its messages, and the marks of its queued and running tasks.
pub record KeepsBuffers (m m' : Manager) : Type 0 where
  pub messages : (key : String) → buffer_of m' key ≡ buffer_of m key
  pub l1_marks : (key : String) → (timers_of m' key).l1_queued ≡ (timers_of m key).l1_queued
  pub l2_marks : (key : String) → (timers_of m' key).l2_queued ≡ (timers_of m key).l2_queued

KeepsBuffers-trans : (a b c : Manager) → KeepsBuffers a b → KeepsBuffers b c → KeepsBuffers a c
KeepsBuffers-trans a b c p q = record {
  messages = λ key. q.messages key ∙ p.messages key;
  l1_marks = λ key. q.l1_marks key ∙ p.l1_marks key;
  l2_marks = λ key. q.l2_marks key ∙ p.l2_marks key;
}

evict-KeepsBuffers :
    (now : ℕ) (m : Manager) (k : String) (state : SessionState)
    → is_stale now m k state ≡ true
    → KeepsBuffers m (evict k m)
unfolding is_stale evict buffer_of timers_of
evict-KeepsBuffers now m k state h = record {
  messages = λ key. ground (arith, get-delete m.message_buffers k key, eq_iff k key);
  l1_marks = λ key. ground (arith, get-delete m.session_timers k key, eq_iff k key);
  l2_marks = λ key. ground (arith, get-delete m.session_timers k key, eq_iff k key);
}

gc_over-KeepsBuffers :
    (now : ℕ) (states : Map SessionState) (m : Manager) → KeepsBuffers m (gc_over now states m)
unfolding gc_over
gc_over-KeepsBuffers now [] m = record {
  messages = λ _. refl;
  l1_marks = λ _. refl;
  l2_marks = λ _. refl;
}
gc_over-KeepsBuffers now ((k, state) ∷ states) m =
    if_elim (λ (n : Manager). KeepsBuffers m (gc_over now states n)) (is_stale now m k state) _ _
      (λ h.
        KeepsBuffers-trans m (evict k m) _ (evict-KeepsBuffers now m k state h)
          (gc_over-KeepsBuffers now states (evict k m)))
      λ _. gc_over-KeepsBuffers now states m

-- Garbage collection leaves the buffered messages of every session as they were, and the marks of
-- queued and running L1 and L2 tasks. The collected sessions' states and timers are not
-- considered.
pub gc_stale_sessions-KeepsBuffers :
    (now : ℕ) (m : Manager) → KeepsBuffers m (gc_stale_sessions now m)
unfolding gc_stale_sessions
gc_stale_sessions-KeepsBuffers now m = gc_over-KeepsBuffers now m.session_states m

-- Beyond this time a session may be collected.
abbrev pub recent_until : Manager → SessionState → ℕ
recent_until m state =
    state.last_active_time + m.session_active_window_ms * session_gc_inactive_multiplier

evict_other :
    (now : ℕ) (m : Manager) (k key : String) (state : SessionState)
    → (k ≡ key → now < recent_until m state)
    → is_stale now m k state ≡ true
    → Maps.get (evict k m).session_states key ≡ Maps.get m.session_states key
unfolding is_stale evict
evict_other now m k key state r h = ground (arith, get-delete m.session_states k key, eq_iff k key)

gc_over-recent :
    (now : ℕ) (key : String) (states : Map SessionState) (m : Manager)
    → All (λ e. e.0 ≡ key → now < recent_until m e.1) states
    → Maps.get (gc_over now states m).session_states key ≡ Maps.get m.session_states key
unfolding gc_over evict
gc_over-recent now key [] m r = refl
gc_over-recent now key ((k, state) ∷ states) m r =
    if_elim
      (λ (n : Manager).
        Maps.get (gc_over now states n).session_states key ≡ Maps.get m.session_states key)
      (is_stale now m k state) _ _
      (λ h. gc_over-recent now key states (evict k m) r.1 ∙ evict_other now m k key state r.0 h)
      λ _. gc_over-recent now key states m r.1

-- Garbage collection leaves the state of a session as it was, where each entry of the session in
-- the state map was active within three times the session's active window.
gc_stale_sessions-recent :
    (now : ℕ) (key : String) (m : Manager)
    → All (λ e. e.0 ≡ key → now < recent_until m e.1) m.session_states
    → Maps.get (gc_stale_sessions now m).session_states key ≡ Maps.get m.session_states key
unfolding gc_stale_sessions
gc_stale_sessions-recent now key m r = gc_over-recent now key m.session_states m r
