-- ===== src/StorePool.antt =====
-- `StorePool` of src/core/store/store-pool.ts. The stores come from outside: one is a number, and
-- what it was created from. `getStore` is cut at its `await`s: another call may come after it has
-- closed an entry, and after it has made room.
pub mod Keys
pub mod Bounds
pub mod Lru
pub mod Reuse
pub mod Examples
use Prim.Native.String.{◌++◌ as glue}
use chris_tencent_db_agent_m.Prelude.{
  ℕ, suc, String, Bool, true, false, ◌&&◌, Option, none, some, List, [], ◌∷◌, ◌++◌, ltb, leb,
  str_eq, length, keep, not, ◌==◌, if◌then◌else◌,
}
use chris_tencent_db_agent_m.Prelude.Maps
use chris_tencent_db_agent_m.Prelude.Maps.{Map}

pub record VdbConfig : Type 0 where
  pub url : String
  pub user : String
  pub api_key : String
  pub database : String

pub data StoreMode : Type 0 where
  sqlite tcvdb : StoreMode

pub data Origin : Type 0 where
  file_of : String → Origin
  remote : VdbConfig → Origin

pub record PooledStore : Type 0 where
  pub number : ℕ
  pub origin : Origin

pub record PoolEntry : Type 0 where
  pub pooled_store : PooledStore
  pub config_fingerprint : String
  pub last_accessed_at : ℕ

-- `pending_closes` holds the stores that are to be closed, with the delay of each.
pub record Pool : Type 0 where
  pub entries : Map PoolEntry
  pub max_stores : ℕ
  pub mode : StoreMode
  pub pending_closes : List (PooledStore × ℕ)
  pub grace_close_delay_ms : ℕ
  pub created : ℕ

unfoldable pub compute_fingerprint : VdbConfig → String
compute_fingerprint c = glue "tcvdb:" (glue c.url (glue "|" (glue c.database (glue "|" c.api_key))))

-- What a store of the instance is created from: `mode === "tcvdb" && vdbConfig`.
unfoldable pub origin_of : StoreMode → String → Option VdbConfig → Origin
origin_of tcvdb id (some c) = remote c
origin_of _ id _ = file_of id

unfoldable pub fingerprint_of : Origin → String
unfolding compute_fingerprint
fingerprint_of (remote c) = compute_fingerprint c
fingerprint_of (file_of id) = glue "sqlite:" id

-- The entry leaves the pool at once; its store is closed after the delay.
unfoldable pub close_entry : String → PoolEntry → Pool → Pool
close_entry id entry p = record p {
  entries = Maps.delete p.entries id;
  pending_closes = p.pending_closes ++ ((entry.pooled_store, p.grace_close_delay_ms) ∷ []);
}

-- The loop of `evictLru`: the oldest so far, and the entries left.
oldest_from : Option (String × PoolEntry) → Map PoolEntry → Option (String × PoolEntry)
oldest_from best [] = best
oldest_from none ((id, e) ∷ rest) = oldest_from (some (id, e)) rest
oldest_from (some (i, b)) ((id, e) ∷ rest) =
    oldest_from (if ltb e.last_accessed_at b.last_accessed_at then some (id, e) else some (i, b))
      rest

unfoldable pub oldest : Map PoolEntry → Option (String × PoolEntry)
unfolding oldest_from
oldest entries = oldest_from none entries

-- `if (oldestKey)`: an empty key is not evicted.
close_oldest : Option (String × PoolEntry) → Pool → Pool
unfolding close_entry
close_oldest none p = p
close_oldest (some (id, e)) p = if str_eq id "" then p else close_entry id e p

unfoldable pub evict_lru : Pool → Pool
unfolding close_oldest oldest
evict_lru p = close_oldest (oldest p.entries) p

unfoldable pub make_room : Pool → Pool
unfolding evict_lru
make_room p = if leb p.max_stores (length p.entries) then evict_lru p else p

unfoldable pub new_entry : ℕ → String → Option VdbConfig → Pool → PoolEntry
unfolding origin_of fingerprint_of
new_entry now id vdb p =
    let origin = origin_of p.mode id vdb in
    record {
      pooled_store = record { number = p.created; origin = origin };
      config_fingerprint = fingerprint_of origin;
      last_accessed_at = now;
    }

-- The store is created and put into the pool.
unfoldable pub create_store : ℕ → String → Option VdbConfig → Pool → Pool × PooledStore
unfolding new_entry
create_store now id vdb p = (
  record p { entries = Maps.set p.entries id (new_entry now id vdb p); created = suc p.created },
  (new_entry now id vdb p).pooled_store,
)

-- A cached entry that fits is used.
touch : ℕ → String → PoolEntry → Pool → Pool × PooledStore
touch now id entry p = (
  record p { entries = Maps.set p.entries id (record entry { last_accessed_at = now }) },
  entry.pooled_store,
)

get_at : Option PoolEntry → ℕ → String → Option VdbConfig → Pool → Pool × PooledStore
unfolding touch close_entry make_room create_store origin_of fingerprint_of
get_at none now id vdb p = create_store now id vdb (make_room p)
get_at (some entry) now id vdb p =
    if str_eq entry.config_fingerprint (fingerprint_of (origin_of p.mode id vdb))
    then touch now id entry p
    else create_store now id vdb (make_room (close_entry id entry p))

-- The whole call, where no other comes between its parts.
unfoldable pub get_store : ℕ → String → Option VdbConfig → Pool → Pool × PooledStore
unfolding get_at
get_store now id vdb p = get_at (Maps.get p.entries id) now id vdb p

evict_at : Option PoolEntry → String → Pool → Pool
unfolding close_entry
evict_at none id p = p
evict_at (some entry) id p = close_entry id entry p

unfoldable pub evict : String → Pool → Pool
unfolding evict_at
evict id p = evict_at (Maps.get p.entries id) id p

close_each : Map PoolEntry → Pool → Pool
unfolding close_entry
close_each [] p = p
close_each ((id, entry) ∷ rest) p = close_each rest (close_entry id entry p)

-- `closeAll` up to its wait for the pending closes.
unfoldable pub close_all : Pool → Pool
unfolding close_each
close_all p = close_each p.entries (record p { entries = [] })

-- A pending close is over, whether it failed or not.
unfoldable pub closed : ℕ → Pool → Pool
closed number p = record p {
  pending_closes = keep (λ c. not (c.0.number == number)) p.pending_closes;
}
