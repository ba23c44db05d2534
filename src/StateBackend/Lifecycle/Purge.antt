-- ===== src/StateBackend/Lifecycle/Purge.antt =====
-- What `purgeInstance` of src/core/state/local-backend.ts takes away, and what it leaves.
use text.Mathlib.Text.{starts_with}
use chris_tencent_db_agent_m.Prelude.{
  ◌≡◌, ◌≢◌, String, not, none, List, [], ◌∷◌, arith, eq_iff, str_eq, keep, All, if◌then◌else◌,
}
use chris_tencent_db_agent_m.Prelude.Maps
use chris_tencent_db_agent_m.Prelude.Maps.{Map}
use chris_tencent_db_agent_m.StateBackend.State.{TaskPayload, Backend, prefix_of}
use chris_tencent_db_agent_m.StateBackend.Lifecycle.{without_prefix, purge_instance}

get-without_prefix {ℓ} :
    {V : Type ℓ} (prefix key : String) (m : Map V)
    → Maps.get (without_prefix prefix m) key
      ≡ (if starts_with key prefix then none else Maps.get m key)
unfolding without_prefix Maps.get
get-without_prefix prefix key [] = ground arith
get-without_prefix prefix key ((j, v) ∷ m) =
    ground (arith, eq_iff j key, get-without_prefix prefix key m)

tasks-keep :
    (i : String) (ts : List TaskPayload)
    → All (λ t. t.instance_id ≢ i) (keep (λ t. not (str_eq t.instance_id i)) ts)
tasks-keep i [] = tt
tasks-keep i (t ∷ ts) = ground (arith, eq_iff t.instance_id i, tasks-keep i ts)

-- After purgeInstance every key that starts with the instance's prefix has no session state,
-- buffer or timer, every other key has what it had, and no task of the instance is in the queue.
purge-gone :
    (i key : String) (b : Backend)
    → let b' = (purge_instance i b).0.0 in
      let purged = starts_with key (prefix_of i) in
      (Maps.get b'.session_states key ≡ (if purged then none else Maps.get b.session_states key))
      × (Maps.get b'.buffers key ≡ (if purged then none else Maps.get b.buffers key))
      × (Maps.get b'.timers key ≡ (if purged then none else Maps.get b.timers key))
      × All (λ t. t.instance_id ≢ i) b'.task_queue
unfolding purge_instance
purge-gone i key b = (
  get-without_prefix (prefix_of i) key b.session_states,
  get-without_prefix (prefix_of i) key b.buffers,
  get-without_prefix (prefix_of i) key b.timers,
  tasks-keep i b.task_queue,
)
