-- ===== src/StorePool/Reuse.antt =====
-- That the pool of src/core/store/store-pool.ts hands out the store that it has.
use chris_tencent_db_agent_m.Prelude.{
  ℕ, ◌≡◌, ◌∙◌, if_then, ap, refl, String, Option, none, some, arith, eq_iff, str_eq, subst, sym,
  if_elim,
}
use chris_tencent_db_agent_m.Prelude.Maps
use chris_tencent_db_agent_m.Prelude.Maps.{Map, get-delete, get-set}
use chris_tencent_db_agent_m.StorePool.{
  PoolEntry, PooledStore, Origin, StoreMode, fingerprint_of, origin_of, Pool, VdbConfig,
  close_entry, oldest, close_oldest, evict_lru, make_room, new_entry, create_store, touch, get_at,
  get_store,
}

-- The pool has the store under the id, with the fingerprint of the origin.
abbrev pub Has : String → Origin → PooledStore → Pool → Type 0
Has id origin store p =
    (e : PoolEntry) × (Maps.get p.entries id ≡ some e)
    × (e.config_fingerprint ≡ fingerprint_of origin)
    × (e.pooled_store ≡ store)

close_oldest-mode : (r : Option (String × PoolEntry)) (p : Pool) → (close_oldest r p).mode ≡ p.mode
unfolding close_oldest close_entry
close_oldest-mode none p = refl
close_oldest-mode (some (k, e)) p = ground arith

make_room-mode : (p : Pool) → (make_room p).mode ≡ p.mode
unfolding make_room evict_lru
make_room-mode p = ground (arith, close_oldest-mode (oldest p.entries) p)

create_store-Has :
    (now : ℕ) (id : String) (vdb : Option VdbConfig) (mode : StoreMode) (p : Pool)
    → p.mode ≡ mode
    → Has id (origin_of mode id vdb) (create_store now id vdb p).1 (create_store now id vdb p).0
unfolding create_store new_entry
create_store-Has now id vdb mode p h = (
  new_entry now id vdb p,
  ground (arith, get-set p.entries id id (new_entry now id vdb p), eq_iff id id),
  ap (λ (m : StoreMode). fingerprint_of (origin_of m id vdb)) h,
  refl,
)

get_at-Has :
    (o : Option PoolEntry) (now : ℕ) (id : String) (vdb : Option VdbConfig) (p : Pool)
    → Maps.get p.entries id ≡ o
    → Has id (origin_of p.mode id vdb) (get_at o now id vdb p).1 (get_at o now id vdb p).0
unfolding get_at touch close_entry
get_at-Has none now id vdb p e = create_store-Has now id vdb p.mode (make_room p) (make_room-mode p)
get_at-Has (some x) now id vdb p e =
    if_elim (λ (r : Pool × PooledStore). Has id (origin_of p.mode id vdb) r.1 r.0)
      (str_eq x.config_fingerprint (fingerprint_of (origin_of p.mode id vdb))) (touch now id x p)
      (create_store now id vdb (make_room (close_entry id x p)))
      (λ same. (
        record x { last_accessed_at = now },
        ground (arith, get-set p.entries id id (record x { last_accessed_at = now }), eq_iff id id),
        ground
            (arith, same, eq_iff x.config_fingerprint (fingerprint_of (origin_of p.mode id vdb))),
        refl,
      ))
      (λ _.
        create_store-Has now id vdb p.mode (make_room (close_entry id x p))
          (make_room-mode (close_entry id x p)))

get_at-mode :
    (o : Option PoolEntry) (now : ℕ) (id : String) (vdb : Option VdbConfig) (p : Pool)
    → (get_at o now id vdb p).0.mode ≡ p.mode
unfolding get_at touch close_entry create_store
get_at-mode none now id vdb p = make_room-mode p
get_at-mode (some x) now id vdb p =
    if_elim (λ (r : Pool × PooledStore). r.0.mode ≡ p.mode)
      (str_eq x.config_fingerprint (fingerprint_of (origin_of p.mode id vdb))) (touch now id x p)
      (create_store now id vdb (make_room (close_entry id x p))) (λ _. refl)
      (λ _. make_room-mode (close_entry id x p))

-- A call for a store that the pool has.
get_store-hit :
    (now : ℕ) (id : String) (vdb : Option VdbConfig) (store : PooledStore) (p : Pool)
    → Has id (origin_of p.mode id vdb) store p
    → (get_store now id vdb p).1 ≡ store
unfolding get_store get_at touch
get_store-hit now id vdb store p (e, at, fits, same) =
    subst (λ (o : Option PoolEntry). (get_at o now id vdb p).1 ≡ store) (sym at)
      (ap (λ (r : Pool × PooledStore). r.1)
          (if_then (str_eq e.config_fingerprint (fingerprint_of (origin_of p.mode id vdb)))
            (touch now id e p) _
            (ground (
              arith,
              fits,
              eq_iff e.config_fingerprint (fingerprint_of (origin_of p.mode id vdb)),
            )))
        ∙ same)

-- A second getStore call for the same instance and configuration, at any time and with no call
-- between the two, returns the store that the first returned, whether that was cached, replaced or
-- new.
get_store-again :
    (now later : ℕ) (id : String) (vdb : Option VdbConfig) (p : Pool)
    → (get_store later id vdb (get_store now id vdb p).0).1 ≡ (get_store now id vdb p).1
unfolding get_store
get_store-again now later id vdb p =
    get_store-hit later id vdb (get_store now id vdb p).1 (get_store now id vdb p).0 (
      subst
        (λ (m : StoreMode).
          Has id (origin_of m id vdb) (get_store now id vdb p).1 (get_store now id vdb p).0)
        (sym (get_at-mode (Maps.get p.entries id) now id vdb p))
        (get_at-Has (Maps.get p.entries id) now id vdb p refl))
