-- ===== src/StateBackend/Lifecycle.antt =====
-- `purgeInstance` and `destroy` of src/core/state/local-backend.ts.
pub mod Purge
use text.Mathlib.Text.{starts_with}
use chris_tencent_db_agent_m.Prelude.{
  ℕ, suc, String, Bool, true, false, not, none, List, [], ◌∷◌, ◌++◌, keep, some, str_eq, length,
  if◌then◌else◌,
}
use chris_tencent_db_agent_m.Prelude.Maps.{Map}
use chris_tencent_db_agent_m.StateBackend.State.{
  TaskPayload, InternalTimer, Waiter, Effect, clear_timeout, resolved, Backend, prefix_of,
}
use chris_tencent_db_agent_m.StateBackend.Timers.{clear_handle}

module _ {ℓ} {V : Type ℓ} where
  -- The entries whose key has not the prefix, and how many are taken out.
  unfoldable pub without_prefix : String → Map V → Map V
  without_prefix prefix [] = []
  without_prefix prefix ((key, v) ∷ rest) =
      let others = without_prefix prefix rest in
      if starts_with key prefix then others else (key, v) ∷ others

  unfoldable pub count_prefix : String → Map V → ℕ
  count_prefix prefix [] = 0
  count_prefix prefix ((key, v) ∷ rest) =
      let others = count_prefix prefix rest in if starts_with key prefix then suc others else others

clear_prefix : String → Map InternalTimer → List Effect
unfolding clear_handle
clear_prefix prefix [] = []
clear_prefix prefix ((key, t) ∷ rest) =
    let others = clear_prefix prefix rest in
    if starts_with key prefix then clear_handle (some t) ++ others else others

pub record Purged : Type 0 where
  pub sessions : ℕ
  pub timers : ℕ
  pub buffers : ℕ

unfoldable pub purge_instance : String → Backend → (Backend × List Effect) × Purged
unfolding without_prefix count_prefix clear_prefix
purge_instance instance_id b =
    let prefix = prefix_of instance_id in
    (
      (
        record b {
          session_states = without_prefix prefix b.session_states;
          buffers = without_prefix prefix b.buffers;
          timers = without_prefix prefix b.timers;
          task_queue = keep (λ t. not (str_eq t.instance_id instance_id)) b.task_queue;
        },
        clear_prefix prefix b.timers,
      ),
      record {
        sessions = count_prefix prefix b.session_states;
        timers = count_prefix prefix b.timers;
        buffers = count_prefix prefix b.buffers;
      },
    )

clear_all : Map InternalTimer → List Effect
unfolding clear_handle
clear_all [] = []
clear_all ((key, t) ∷ rest) = clear_handle (some t) ++ clear_all rest

give_up : List Waiter → List Effect
give_up [] = []
give_up (w ∷ ws) = clear_timeout w.timer ∷ resolved w.promise none ∷ give_up ws

unfoldable pub destroy : Backend → Backend × List Effect
unfolding clear_all give_up
destroy b = (
  record b {
    session_states = [];
    buffers = [];
    timers = [];
    task_queue = [];
    locks = [];
    consume_waiters = [];
    destroyed = true;
  },
  clear_all b.timers ++ give_up b.consume_waiters,
)
