-- ===== src/StateBackend/Locks.antt =====
-- The locks of src/core/state/local-backend.ts, which expire.
pub mod Frame
pub mod Exclusion
use chris_tencent_db_agent_m.Prelude.{
  ℕ, ◌+◌, String, Bool, true, false, Option, none, some, List, [], ◌∷◌, leb, ltb, str_eq,
  if◌then◌else◌,
}
use chris_tencent_db_agent_m.Prelude.Maps
use chris_tencent_db_agent_m.Prelude.Maps.{Map}
use chris_tencent_db_agent_m.StateBackend.State.{Lock, Backend}

unexpired : ℕ → Map Lock → Map Lock
unexpired now [] = []
unexpired now ((key, lock) ∷ rest) =
    let kept = unexpired now rest in if leb lock.expire_at now then kept else (key, lock) ∷ kept

unfoldable pub clean_expired_locks : ℕ → Backend → Backend
unfolding unexpired
clean_expired_locks now b = record b { locks = unexpired now b.locks }

put_lock : String → String → ℕ → Backend → Backend
put_lock key owner expire_at b = record b {
  locks = Maps.set b.locks key (record { owner_id = owner; expire_at = expire_at });
}

acquire_over : Option Lock → ℕ → String → String → ℕ → Backend → Backend × Bool
unfolding put_lock
acquire_over none now key owner ttl b = (put_lock key owner (now + ttl) b, true)
acquire_over (some l) now key owner ttl b =
    if ltb now l.expire_at then (b, false) else (put_lock key owner (now + ttl) b, true)

unfoldable pub acquire_lock : ℕ → String → String → ℕ → Backend → Backend × Bool
unfolding acquire_over clean_expired_locks
acquire_lock now key owner ttl b =
    let b' = clean_expired_locks now b in acquire_over (Maps.get b'.locks key) now key owner ttl b'

renew_over : Option Lock → ℕ → String → String → ℕ → Backend → Backend × Bool
unfolding put_lock
renew_over none now key owner ttl b = (b, false)
renew_over (some l) now key owner ttl b =
    if str_eq l.owner_id owner then (put_lock key owner (now + ttl) b, true) else (b, false)

unfoldable pub renew_lock : ℕ → String → String → ℕ → Backend → Backend × Bool
unfolding renew_over
renew_lock now key owner ttl b = renew_over (Maps.get b.locks key) now key owner ttl b

release_over : Option Lock → String → String → Backend → Backend
release_over none key owner b = b
release_over (some l) key owner b =
    if str_eq l.owner_id owner then record b { locks = Maps.delete b.locks key } else b

unfoldable pub release_lock : String → String → Backend → Backend
unfolding release_over
release_lock key owner b = release_over (Maps.get b.locks key) key owner b
