-- ===== src/StateBackend/Locks/Exclusion.antt =====
-- That the locks of src/core/state/local-backend.ts exclude one another.
use chris_tencent_db_agent_m.Prelude.{
  ℕ, suc, ◌+◌, ◌≡◌, ◌<◌, ◌≤◌, ◌≢◌, refl, ◌⊎◌, String, Bool, true, false, some, List, [], ◌∷◌,
  str_eq, arith, eq_iff, All, if◌then◌else◌,
}
use chris_tencent_db_agent_m.Prelude.Maps
use chris_tencent_db_agent_m.Prelude.Maps.{Map, get-set, get-delete}
use chris_tencent_db_agent_m.StateBackend.State.{Lock, Backend}
use chris_tencent_db_agent_m.StateBackend.Locks.{
  unexpired, put_lock, acquire_over, acquire_lock, renew_over, renew_lock, release_over,
  release_lock,
}

-- `owner` has the lock of `key`, beyond the time `limit`.
abbrev pub Holds : String → String → ℕ → Backend → Type 0
Holds key owner limit b =
    (l : Lock) × (Maps.get b.locks key ≡ some l) × (l.owner_id ≡ owner) × (limit < l.expire_at)

pub data Op : Type 0 where
  acquires renews : ℕ → String → String → ℕ → Op
  releases : String → String → Op

unfoldable pub step : Op → Backend → Backend × Bool
step (acquires now key owner ttl) b = acquire_lock now key owner ttl b
step (renews now key owner ttl) b = renew_lock now key owner ttl b
step (releases key owner) b = (release_lock key owner b, true)

unfoldable pub run : List Op → Backend → Backend
run [] b = b
run (op ∷ ops) b = run ops (step op b).0

-- The acquisitions of `key` that succeed.
unfoldable pub acquired : String → List Op → Backend → ℕ
acquired key [] b = 0
acquired key (acquires now k owner ttl ∷ ops) b =
    let (b', won) = acquire_lock now k owner ttl b in
    let rest = acquired key ops b' in
    if str_eq k key then (if won then suc rest else rest) else rest
acquired key (op ∷ ops) b = acquired key ops (step op b).0

-- An acquisition, of any lock and by anyone, up to the time `limit`; or a renewal or release that
-- is not `owner`'s of `key`.
abbrev pub IsForeign : String → String → ℕ → Op → Type 0
IsForeign key owner limit (acquires now k o ttl) = now ≤ limit
IsForeign key owner limit (renews now k o ttl) = (k ≢ key) ⊎ (o ≢ owner)
IsForeign key owner limit (releases k o) = (k ≢ key) ⊎ (o ≢ owner)

get-unexpired :
    (now : ℕ) (key : String) (l : Lock) (m : Map Lock)
    → Maps.get m key ≡ some l
    → now < l.expire_at
    → Maps.get (unexpired now m) key ≡ some l
unfolding Maps.get unexpired
get-unexpired now key l [] e h = ground arith
get-unexpired now key l ((j, x) ∷ m) e h = ground (arith, eq_iff j key, get-unexpired now key l m)

refused :
    (now : ℕ) (key owner o : String) (ttl limit : ℕ) (b : Backend)
    → Holds key owner limit b
    → now ≤ limit
    → (acquire_lock now key o ttl b).1 ≡ false
unfolding acquire_lock acquire_over
refused now key owner o ttl limit b v h = ground (arith, get-unexpired now key v.0 b.locks v.1)

step-Holds :
    (key owner : String) (limit : ℕ) (op : Op) (b : Backend)
    → IsForeign key owner limit op
    → Holds key owner limit b
    → Holds key owner limit (step op b).0
unfolding step acquire_lock acquire_over renew_lock renew_over release_lock release_over put_lock
step-Holds key owner limit (acquires now k o ttl) b h v = (
  v.0,
  ground (
    arith,
    get-unexpired now key v.0 b.locks v.1,
    get-set (unexpired now b.locks) k key (record { owner_id = o; expire_at = now + ttl }),
    eq_iff k key,
  ),
  v.2,
  v.3,
)
step-Holds key owner limit (renews now k o ttl) b h v = (
  v.0,
  ground (
    arith,
    get-set b.locks k key (record { owner_id = o; expire_at = now + ttl }),
    eq_iff k key,
    eq_iff v.0.owner_id o,
  ),
  v.2,
  v.3,
)
step-Holds key owner limit (releases k o) b h v =
    (v.0, ground (arith, get-delete b.locks k key, eq_iff k key, eq_iff v.0.owner_id o), v.2, v.3)

-- While an owner has a lock that expires after the time limit, any sequence of acquisitions up to
-- that time, of any lock and by anyone, and of renewals and releases that are not that owner's of
-- that lock, leaves the lock with its owner, beyond the limit, and none of the acquisitions of
-- that lock succeeds.
pub run-Holds :
    (key owner : String) (limit : ℕ) (ops : List Op) (b : Backend)
    → All (IsForeign key owner limit) ops
    → Holds key owner limit b
    → Holds key owner limit (run ops b) × (acquired key ops b ≡ 0)
unfolding run acquired step
run-Holds key owner limit [] b h v = (v, refl)
run-Holds key owner limit (acquires now k o ttl ∷ ops) b h v =
    let ih =
      run-Holds key owner limit ops (acquire_lock now k o ttl b).0 h.1
        (step-Holds key owner limit (acquires now k o ttl) b h.0 v) in
    (ih.0, ground (arith, ih.1, eq_iff k key, refused now key owner o ttl limit b v h.0))
run-Holds key owner limit (renews now k o ttl ∷ ops) b h v =
    run-Holds key owner limit ops _ h.1 (step-Holds key owner limit (renews now k o ttl) b h.0 v)
run-Holds key owner limit (releases k o ∷ ops) b h v =
    run-Holds key owner limit ops _ h.1 (step-Holds key owner limit (releases k o) b h.0 v)

-- After a release the lock is not its former owner's.
pub not-release :
    (key owner : String) (b : Backend) (l : Lock)
    → Maps.get (release_lock key owner b).locks key ≡ some l
    → l.owner_id ≢ owner
unfolding release_lock release_over
not-release key owner b l h e =
    ground (arith, get-delete b.locks key key, eq_iff key key, eq_iff l.owner_id owner)

-- Nor is it after the release of another.
pub not-release_other :
    (k key owner : String) (b : Backend)
    → ((l : Lock) → Maps.get b.locks key ≡ some l → l.owner_id ≢ owner)
    → (l : Lock) → Maps.get (release_lock k owner b).locks key ≡ some l
    → l.owner_id ≢ owner
unfolding release_lock release_over
not-release_other k key owner b h l e = ground (arith, get-delete b.locks k key, eq_iff k key, h l)
