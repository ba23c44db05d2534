-- ===== src/StateBackend/Timers/Frame.antt =====
-- What the timers of src/core/state/local-backend.ts leave alone.
use chris_tencent_db_agent_m.Prelude.{ℕ, String, ◌≡◌, refl, arith}
use chris_tencent_db_agent_m.StateBackend.State.{Backend}
use chris_tencent_db_agent_m.StateBackend.Timers.{set_timer, remove_timer, put_timer, drop_timer}

pub set_timer-frame :
    (now : ℕ) (i m : String) (fire_at : ℕ) (b : Backend)
    → let b' = (set_timer now i m fire_at b).0 in
      (b'.session_states ≡ b.session_states) × (b'.buffers ≡ b.buffers)
unfolding set_timer put_timer
set_timer-frame now i m fire_at b = (ground arith, ground arith)

pub remove_timer-frame :
    (i m : String) (b : Backend)
    → let b' = (remove_timer i m b).0 in
      (b'.session_states ≡ b.session_states)
      × (b'.buffers ≡ b.buffers)
      × (b'.task_queue ≡ b.task_queue)
      × (b'.consume_waiters ≡ b.consume_waiters)
unfolding remove_timer drop_timer
remove_timer-frame i m b = (refl, refl, refl, refl)
