-- ===== src/Worker/Lifecycle.antt =====
-- `start` and `stop` of src/services/pipeline-worker.ts.
use chris_tencent_db_agent_m.Prelude.{
  ◌≡◌, ◌≢◌, ◌⊎◌, inl, inr, String, true, false, ◌||◌, some, List, [], ◌∷◌, if◌then◌else◌, if_else,
  subst, sym,
}
use chris_tencent_db_agent_m.Prelude.Maps
use chris_tencent_db_agent_m.StateBackend.State.{Lock, Backend}
use chris_tencent_db_agent_m.StateBackend.Locks.{release_lock}
use chris_tencent_db_agent_m.StateBackend.Locks.Exclusion.{not-release, not-release_other}
use chris_tencent_db_agent_m.Worker.{Worker}

-- The coroutines that consume tasks are started with it.
unfoldable pub start : Worker → Worker
start w = if w.destroyed || w.running then w else record w { running = true }

release_all : List String → String → Backend → Backend
release_all [] owner b = b
release_all (key ∷ keys) owner b = release_all keys owner (release_lock key owner b)

unfoldable pub stop : Worker → Worker
unfolding release_all
stop w = if w.destroyed then w else record w {
  destroyed = true;
  running = false;
  backend = release_all w.active_locks w.worker_id w.backend;
  active_locks = [];
}

abbrev pub Mentions : String → List String → Type 0
Mentions key [] = ⊥
Mentions key (k ∷ ks) = (k ≡ key) ⊎ Mentions key ks

-- Nobody of that name has the lock.
abbrev pub IsFree : String → String → Backend → Type 0
IsFree key owner b = (l : Lock) → Maps.get b.locks key ≡ some l → l.owner_id ≢ owner

release_all-keeps :
    (keys : List String) (key owner : String) (b : Backend)
    → IsFree key owner b
    → IsFree key owner (release_all keys owner b)
unfolding release_all
release_all-keeps [] key owner b h = h
release_all-keeps (k ∷ ks) key owner b h =
    release_all-keeps ks key owner (release_lock k owner b) (not-release_other k key owner b h)

release_all-IsFree :
    (keys : List String) (key owner : String) (b : Backend)
    → Mentions key keys
    → IsFree key owner (release_all keys owner b)
unfolding release_all
release_all-IsFree (k ∷ ks) key owner b (inl e) =
    release_all-keeps ks key owner (release_lock k owner b)
      (subst (λ (j : String). IsFree j owner (release_lock k owner b)) e (not-release k owner b))
release_all-IsFree (k ∷ ks) key owner b (inr m) =
    release_all-IsFree ks key owner (release_lock k owner b) m
release_all-IsFree [] key owner b m = elim m [ ]

-- After a worker that is not destroyed is stopped, none of the locks that it lists as active is
-- its own in the backend.
stop-IsFree :
    (w : Worker) (key : String)
    → w.destroyed ≡ false
    → Mentions key w.active_locks
    → IsFree key w.worker_id (stop w).backend
unfolding stop
stop-IsFree w key h m =
    subst (λ (v : Worker). IsFree key w.worker_id v.backend) (sym (if_else w.destroyed w _ h))
      (release_all-IsFree w.active_locks key w.worker_id w.backend m)
