-- ===== src/StorePool/Keys.antt =====
-- How the operations on a map change its keys, for src/core/store/store-pool.ts.
use chris_tencent_db_agent_m.Prelude.{
  suc, ◌≡◌, ◌≤◌, ◌<◌, refl, String, true, [], ◌∷◌, arith, length, is_some, if◌then◌else◌,
}
use chris_tencent_db_agent_m.Prelude.Maps
use chris_tencent_db_agent_m.Prelude.Maps.{Map}

module _ {ℓ} {V : Type ℓ} where
  pub length-delete-le : (m : Map V) (k : String) → length (Maps.delete m k) ≤ length m
  unfolding Maps.delete
  length-delete-le [] k = omega arith
  length-delete-le ((j, v) ∷ m) k = ground (arith, length-delete-le m k)

  -- A key that is there leaves the map.
  pub length-delete-lt :
      (m : Map V) (k : String) → is_some (Maps.get m k) ≡ true → length (Maps.delete m k) < length m
  unfolding Maps.delete Maps.get
  length-delete-lt [] k h = ground arith
  length-delete-lt ((j, v) ∷ m) k h = ground (arith, length-delete-lt m k, length-delete-le m k)

  -- A new key makes the map one longer; a key that is there, not.
  pub length-set :
      (m : Map V) (k : String) (v : V)
      → length (Maps.set m k v) ≡ (if is_some (Maps.get m k) then length m else suc (length m))
  unfolding Maps.set Maps.get
  length-set [] k v = refl
  length-set ((j, w) ∷ m) k v = ground (arith, length-set m k v)
