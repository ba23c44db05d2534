-- ===== src/StorePool/Lru.antt =====
-- Which entry of the pool of src/core/store/store-pool.ts is evicted.
use mathlib.Core.List.{Memᴰ}
use mathlib.Core.List.Memᴰ.{head, tail}
use chris_tencent_db_agent_m.Prelude.{
  ℕ, ◌++◌, ◌≡◌, ◌≤◌, ◌<◌, refl, String, Bool, true, false, Option, none, some, [], ◌∷◌, ltb, leb,
  arith, eq_iff, str_eq, length, is_some, if◌then◌else◌, subst, sym, All, ap, ◌∙◌, if_then, if_else,
  ◌≢◌,
}
use chris_tencent_db_agent_m.Prelude.Maps
use chris_tencent_db_agent_m.Prelude.Maps.{Map, get-delete, get-set}
use chris_tencent_db_agent_m.StorePool.{
  PoolEntry, Pool, VdbConfig, oldest, oldest_from, close_oldest, close_entry, evict_lru, make_room,
  new_entry, create_store, get_store, get_at,
}

-- The entry was last used no later than each of the list.
abbrev pub IsOldest : PoolEntry → Map PoolEntry → Type 0
IsOldest e m = All (λ x. e.last_accessed_at ≤ x.1.last_accessed_at) m

pub is_some-Mem :
    (m : Map PoolEntry) (k : String) (e : PoolEntry) → Memᴰ (k, e) m → is_some (Maps.get m k) ≡ true
unfolding Maps.get
is_some-Mem [] k e h = elim h [ ]
is_some-Mem ((j, x) ∷ m) k e (head h) =
    ground (arith, eq_iff j k, ap (λ (y : String × PoolEntry). y.0) h)
is_some-Mem ((j, x) ∷ m) k e (tail h) = ground (arith, is_some-Mem m k e h)

-- What the search finds: one of the entries, and the oldest of them.
abbrev Finds : Option (String × PoolEntry) → Map PoolEntry → Type 0
Finds r m = (k : String) × (e : PoolEntry) × (r ≡ some (k, e)) × Memᴰ (k, e) m × IsOldest e m

Mem-skip :
    (a b : String × PoolEntry) (c : String × PoolEntry) (m : Map PoolEntry)
    → Memᴰ a (b ∷ m)
    → Memᴰ a (b ∷ c ∷ m)
Mem-skip a b c m (head h) = head h
Mem-skip a b c m (tail h) = tail (tail h)

-- One more entry: it becomes the best if it is older.
extend :
    (i j : String) (b x : PoolEntry) (m : Map PoolEntry) (t : Bool)
    → ltb x.last_accessed_at b.last_accessed_at ≡ t
    → Finds (oldest_from (some (i, b)) m) ((i, b) ∷ m)
    → Finds (oldest_from (some (j, x)) m) ((j, x) ∷ m)
    → Finds (oldest_from (if t then some (j, x) else some (i, b)) m) ((i, b) ∷ (j, x) ∷ m)
extend i j b x m true h f (k, e, r, mem, o) = (k, e, r, tail mem, (ground (arith, o.0), o))
extend i j b x m false h (k, e, r, mem, o) f =
    (k, e, r, Mem-skip (k, e) (i, b) (j, x) m mem, (o.0, (ground (arith, o.0), o.1)))

oldest_from-Finds :
    (i : String) (b : PoolEntry) (m : Map PoolEntry)
    → Finds (oldest_from (some (i, b)) m) ((i, b) ∷ m)
unfolding oldest_from
oldest_from-Finds i b [] = (i, b, refl, head refl, (ground arith, tt))
oldest_from-Finds i b ((j, x) ∷ m) =
    extend i j b x m (ltb x.last_accessed_at b.last_accessed_at) refl (oldest_from-Finds i b m)
      (oldest_from-Finds j x m)

oldest-Finds : (m : Map PoolEntry) → 0 < length m → Finds (oldest m) m
unfolding oldest
oldest-Finds [] h = let no : ⊥ = ground arith in elim no [ ]
oldest-Finds ((i, b) ∷ m) h = oldest_from-Finds i b m

-- The pool without its oldest entry, whose store is to be closed.
abbrev Evicts : Pool → Pool → Type 0
Evicts p q =
    (k : String) × (e : PoolEntry) × (q ≡ close_entry k e p)
    × Memᴰ (k, e) p.entries
    × IsOldest e p.entries

close_oldest-Evicts :
    (p : Pool) (r : Option (String × PoolEntry))
    → Maps.get p.entries "" ≡ none
    → Finds r p.entries
    → Evicts p (close_oldest r p)
unfolding close_oldest
close_oldest-Evicts p r h (k, e, q, mem, o) = (
  k,
  e,
  ap (λ (s : Option (String × PoolEntry)). close_oldest s p) q
      ∙ if_else (str_eq k "") p (close_entry k e p)
          (ground (arith, eq_iff k "", is_some-Mem p.entries k e mem)),
  mem,
  o,
)

pub make_room-Evicts :
    (p : Pool)
    → Maps.get p.entries "" ≡ none
    → 0 < p.max_stores
    → p.max_stores ≤ length p.entries
    → Evicts p (make_room p)
unfolding make_room evict_lru
make_room-Evicts p h pos full =
    let found =
      close_oldest-Evicts p (oldest p.entries) h (oldest-Finds p.entries (ground arith)) in
    (
      found.0,
      found.1,
      if_then (leb p.max_stores (length p.entries)) (close_oldest (oldest p.entries) p) p
            (ground arith)
          ∙ found.2,
      found.3,
      found.4,
    )

-- What a call does to the pool when it evicts the entry `k`: that entry's store is to be closed, and
-- of the other entries only the call's own changes.
abbrev pub Replaces : String → PoolEntry → String → Pool → Pool → Type 0
Replaces k e id p q =
    (q.pending_closes ≡ p.pending_closes ++ ((e.pooled_store, p.grace_close_delay_ms) ∷ []))
    × (Maps.get q.entries k ≡ none)
    × ((j : String) → j ≢ k → j ≢ id → Maps.get q.entries j ≡ Maps.get p.entries j)

create-Replaces :
    (now : ℕ) (id k : String) (e : PoolEntry) (vdb : Option VdbConfig) (p : Pool)
    → id ≢ k
    → Replaces k e id p (create_store now id vdb (close_entry k e p)).0
unfolding create_store close_entry
create-Replaces now id k e vdb p h = (
  refl,
  ground (
    arith,
    get-set (Maps.delete p.entries k) id k (new_entry now id vdb (close_entry k e p)),
    get-delete p.entries k k,
    eq_iff id k,
    eq_iff k k,
  ),
  λ j u v. ground (
    arith,
    get-set (Maps.delete p.entries k) id j (new_entry now id vdb (close_entry k e p)),
    get-delete p.entries k j,
    eq_iff id j,
    eq_iff k j,
  ),
)

-- With maxStores above 0 and no entry under the empty id, a getStore call for an id that a full
-- pool does not have evicts an entry that was used no later than any other: its store joins those
-- that are to be closed, after the grace delay, its id is no longer in the pool, and what the pool
-- has under every id but that and the call's own is the same.
pub get_store-Lru :
    (now : ℕ) (id : String) (vdb : Option VdbConfig) (p : Pool)
    → Maps.get p.entries id ≡ none
    → Maps.get p.entries "" ≡ none
    → 0 < p.max_stores
    → p.max_stores ≤ length p.entries
    → (k : String) × (e : PoolEntry) × Memᴰ (k, e) p.entries
      × IsOldest e p.entries
      × Replaces k e id p (get_store now id vdb p).0
unfolding get_store get_at
get_store-Lru now id vdb p absent h pos full =
    let room = make_room-Evicts p h pos full in
    (
      room.0,
      room.1,
      room.3,
      room.4,
      subst (λ (o : Option PoolEntry). Replaces room.0 room.1 id p (get_at o now id vdb p).0)
          (sym absent)
          (subst (λ (q : Pool). Replaces room.0 room.1 id p (create_store now id vdb q).0)
            (sym room.2)
            (create-Replaces now id room.0 room.1 vdb p
              (λ same. ground (arith, absent, is_some-Mem p.entries room.0 room.1 room.3, same)))),
    )
