-- ===== src/StateBackend/Locks/Frame.antt =====
-- What the locks of src/core/state/local-backend.ts leave alone.
use chris_tencent_db_agent_m.Prelude.{◌≡◌, String, arith}
use chris_tencent_db_agent_m.StateBackend.State.{Backend}
use chris_tencent_db_agent_m.StateBackend.Locks.{release_lock}

pub release-frame :
    (key owner : String) (b : Backend)
    → let b' = release_lock key owner b in
      (b'.task_queue ≡ b.task_queue) × (b'.consume_waiters ≡ b.consume_waiters)
unfolding release_lock
release-frame key owner b = (ground arith, ground arith)
