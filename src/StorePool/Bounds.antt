-- ===== src/StorePool/Bounds.antt =====
-- How many stores the pool of src/core/store/store-pool.ts holds.
use chris_tencent_db_agent_m.Prelude.{
  ℕ, ◌≡◌, ◌≢◌, ◌≤◌, ◌<◌, if_else, refl, String, true, Option, none, some, List, [], ◌∷◌, leb, arith,
  eq_iff, str_eq, length, is_some, subst, sym, Bool-cases, inl, inr, All, if_elim,
}
use chris_tencent_db_agent_m.Prelude.Maps
use chris_tencent_db_agent_m.Prelude.Maps.{Map, get-delete, get-set}
use chris_tencent_db_agent_m.StorePool.{
  PoolEntry, PooledStore, fingerprint_of, origin_of, Pool, VdbConfig, close_entry, make_room,
  new_entry, create_store, touch, get_at, get_store, evict, evict_at, close_all, close_each, closed,
}
use chris_tencent_db_agent_m.StorePool.Keys.{length-delete-le, length-delete-lt, length-set}
use chris_tencent_db_agent_m.StorePool.Lru.{make_room-Evicts, is_some-Mem}

-- At most `max_stores` stores, and none under the empty id.
abbrev pub IsBounded : Pool → Type 0
IsBounded p =
    (length p.entries ≤ p.max_stores) × (0 < p.max_stores) × (Maps.get p.entries "" ≡ none)

-- The same with room for one more.
abbrev HasRoom : Pool → Type 0
HasRoom p = (length p.entries < p.max_stores) × (Maps.get p.entries "" ≡ none)

pub data Op : Type 0 where
  gets : ℕ → String → Option VdbConfig → Op
  evicts : String → Op
  closes_all : Op
  finishes : ℕ → Op

unfoldable pub step : Op → Pool → Pool
step (gets now id vdb) p = (get_store now id vdb p).0
step (evicts id) p = evict id p
step closes_all p = close_all p
step (finishes number) p = closed number p

unfoldable pub run : List Op → Pool → Pool
unfolding step
run [] p = p
run (op ∷ ops) p = run ops (step op p)

-- No store is asked for under the empty id.
abbrev pub IsNamed : Op → Type 0
IsNamed (gets now id vdb) = id ≢ ""
IsNamed _ = Unit

close_entry-IsBounded :
    (id : String) (e : PoolEntry) (p : Pool) → IsBounded p → IsBounded (close_entry id e p)
unfolding close_entry
close_entry-IsBounded id e p h = (
  ground (arith, length-delete-le p.entries id, h.0),
  h.1,
  ground (arith, get-delete p.entries id "", h.2),
)

-- A pool that lost one entry of its own.
evicted-HasRoom :
    (k : String) (e : PoolEntry) (p : Pool)
    → is_some (Maps.get p.entries k) ≡ true
    → IsBounded p
    → HasRoom (close_entry k e p)
unfolding close_entry
evicted-HasRoom k e p there h = (
  ground (arith, length-delete-lt p.entries k there, h.0),
  ground (arith, get-delete p.entries k "", h.2),
)

make_room-HasRoom : (p : Pool) → IsBounded p → HasRoom (make_room p)
unfolding make_room
make_room-HasRoom p h = elim (Bool-cases (leb p.max_stores (length p.entries))) [
  | inl full ↦
      let room = make_room-Evicts p h.2 h.1 (ground arith) in
      subst HasRoom (sym room.2)
        (evicted-HasRoom room.0 room.1 p (is_some-Mem p.entries room.0 room.1 room.3) h)
  | inr free ↦
      subst HasRoom (sym (if_else (leb p.max_stores (length p.entries)) _ p free))
        (ground arith, h.2)
]

create_store-IsBounded :
    (now : ℕ) (id : String) (vdb : Option VdbConfig) (p : Pool)
    → id ≢ ""
    → HasRoom p
    → IsBounded (create_store now id vdb p).0
unfolding create_store
create_store-IsBounded now id vdb p n h = (
  ground (arith, length-set p.entries id (new_entry now id vdb p), h.0),
  ground (arith, h.0),
  ground (arith, get-set p.entries id "" (new_entry now id vdb p), eq_iff id "", h.1),
)

touch-IsBounded :
    (now : ℕ) (id : String) (x : PoolEntry) (p : Pool)
    → Maps.get p.entries id ≡ some x
    → id ≢ ""
    → IsBounded p
    → IsBounded (touch now id x p).0
unfolding touch
touch-IsBounded now id x p e n h = (
  ground (arith, length-set p.entries id (record x { last_accessed_at = now }), e, h.0),
  h.1,
  ground (arith, get-set p.entries id "" (record x { last_accessed_at = now }), eq_iff id "", h.2),
)

get_at-IsBounded :
    (o : Option PoolEntry) (now : ℕ) (id : String) (vdb : Option VdbConfig) (p : Pool)
    → Maps.get p.entries id ≡ o
    → id ≢ ""
    → IsBounded p
    → IsBounded (get_at o now id vdb p).0
unfolding get_at touch
get_at-IsBounded none now id vdb p e n h =
    create_store-IsBounded now id vdb (make_room p) n (make_room-HasRoom p h)
get_at-IsBounded (some x) now id vdb p e n h =
    if_elim (λ (r : Pool × PooledStore). IsBounded r.0)
      (str_eq x.config_fingerprint (fingerprint_of (origin_of p.mode id vdb))) (touch now id x p)
      (create_store now id vdb (make_room (close_entry id x p)))
      (λ _. touch-IsBounded now id x p e n h)
      (λ _.
        create_store-IsBounded now id vdb (make_room (close_entry id x p)) n
          (make_room-HasRoom (close_entry id x p) (close_entry-IsBounded id x p h)))

evict_at-IsBounded :
    (o : Option PoolEntry) (id : String) (p : Pool) → IsBounded p → IsBounded (evict_at o id p)
unfolding evict_at
evict_at-IsBounded none id p h = h
evict_at-IsBounded (some x) id p h = close_entry-IsBounded id x p h

close_each-IsBounded : (m : Map PoolEntry) (p : Pool) → IsBounded p → IsBounded (close_each m p)
unfolding close_each
close_each-IsBounded [] p h = h
close_each-IsBounded ((id, x) ∷ m) p h =
    close_each-IsBounded m (close_entry id x p) (close_entry-IsBounded id x p h)

step-IsBounded : (op : Op) (p : Pool) → IsNamed op → IsBounded p → IsBounded (step op p)
unfolding step get_store evict close_all closed Maps.get
step-IsBounded (gets now id vdb) p n h =
    get_at-IsBounded (Maps.get p.entries id) now id vdb p refl n h
step-IsBounded (evicts id) p n h = evict_at-IsBounded (Maps.get p.entries id) id p h
step-IsBounded closes_all p n h =
    close_each-IsBounded p.entries (record p { entries = [] }) (omega arith, h.1, refl)
step-IsBounded (finishes number) p n h = h

-- From a pool with at most maxStores entries, at least one allowed, and none under the empty id,
-- any sequence of getStore calls for non-empty ids, of evict and closeAll, and of pending closes
-- that finish, each run without another between its awaits, leaves the pool with at most maxStores
-- entries.
pub run-IsBounded :
    (ops : List Op) (p : Pool) → All IsNamed ops → IsBounded p → IsBounded (run ops p)
unfolding run
run-IsBounded [] p n h = h
run-IsBounded (op ∷ ops) p n h = run-IsBounded ops (step op p) n.1 (step-IsBounded op p n.0 h)
