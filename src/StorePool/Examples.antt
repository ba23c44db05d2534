-- ===== src/StorePool/Examples.antt =====
-- Runs of the pool of src/core/store/store-pool.ts.
use mathlib.Core.List.{Memᴰ}
use chris_tencent_db_agent_m.Prelude.{
  ℕ, ◌≡◌, refl, String, none, List, [], ◌∷◌, arith, eq_iff, length,
}
use chris_tencent_db_agent_m.Prelude.Maps
use chris_tencent_db_agent_m.StorePool.{
  PoolEntry, VdbConfig, Pool, sqlite, file_of, compute_fingerprint, make_room, get_store,
  create_store,
}
use chris_tencent_db_agent_m.StorePool.Bounds.{
  Op, gets, evicts, finishes, run, IsBounded, run-IsBounded,
}
use chris_tencent_db_agent_m.StorePool.Lru.{IsOldest, Replaces, get_store-Lru}

abbrev entry : ℕ → String → ℕ → PoolEntry
entry n id at = record {
  pooled_store = record { number = n; origin = file_of id };
  config_fingerprint = id;
  last_accessed_at = at;
}

-- A full pool of two stores, of which the second was used before the first.
abbrev full : Pool
full = record {
  entries = ("a", entry 0 "a" 20) ∷ ("b", entry 1 "b" 10) ∷ [];
  max_stores = 2;
  mode = sqlite;
  pending_closes = [];
  grace_close_delay_ms = 30000;
  created = 2;
}

abbrev ops : List Op
ops = gets 30 "c" none ∷ evicts "a" ∷ gets 40 "d" none ∷ gets 50 "e" none ∷ finishes 0 ∷ []

-- Two calls that find the pool full: the second finds the room that the first has made.
overfilled :
    length
      (create_store 30 "c" none (create_store 31 "d" none (make_room (make_room full))).0).0.entries
    ≡ 3
unfolding create_store make_room Maps.set Maps.delete
overfilled = refl

-- The user is not in the fingerprint.
other_user :
    (c : VdbConfig) (u : String)
    → compute_fingerprint (record c { user = u }) ≡ compute_fingerprint c
unfolding compute_fingerprint
other_user c u = refl

no_empty : Maps.get full.entries "" ≡ none
unfolding Maps.get
no_empty = refl

no_c : Maps.get full.entries "c" ≡ none
unfolding Maps.get
no_c = refl

run-IsBounded_example : IsBounded (run ops full)
run-IsBounded_example =
    run-IsBounded ops full
      (
        (λ e. ground (arith, eq_iff "c" "")),
        (
          tt,
          ((λ e. ground (arith, eq_iff "d" "")), ((λ e. ground (arith, eq_iff "e" "")), (tt, tt))),
        ),
      )
      (omega arith, omega arith, no_empty)

get_store-Lru_example :
    (k : String) × (e : PoolEntry) × Memᴰ (k, e) full.entries
    × IsOldest e full.entries
    × Replaces k e "c" full (get_store 30 "c" none full).0
get_store-Lru_example = get_store-Lru 30 "c" none full no_c no_empty (omega arith) (omega arith)
