-- ===== src/Checkpoint/FileLock.antt =====
-- `withFileLock` of src/utils/checkpoint.ts for one file, and the `mutate` that runs under it. What the
-- file holds is of any type. A call is cut where it waits: it is queued; its turn comes, and it reads
-- the file; it writes what it has made of that, or throws; it releases the lock.
pub mod Chain
pub mod Valid
pub mod Refinement
pub mod Serial
use chris_tencent_db_agent_m.Prelude.{
  ℕ, suc, String, Bool, true, false, ◌||◌, ◌&&◌, is_some, Option, none, some, List, [], ◌∷◌, ◌++◌,
  ◌==◌, keep, not, if◌then◌else◌,
}

-- A call of `mutate`: its gate, and the gate of the call before it, if one was queued.
pub record Section (A : Type 0) : Type 0 where
  pub gate : ℕ
  pub prev : Option ℕ
  pub change : A → A
  pub snapshot : Option A

-- `tail` is what `fileLocks` has for the file; `gates` numbers the gates.
pub record FileLock (A : Type 0) : Type 0 where
  pub tail : Option ℕ
  pub gates : ℕ
  pub released : List ℕ
  pub sections : List (Section A)
  pub file : A

unfoldable pub contains : ℕ → List ℕ → Bool
contains g [] = false
contains g (h ∷ hs) = g == h || contains g hs

-- `await prev` goes on.
unfoldable pub is_open : Option ℕ → List ℕ → Bool
unfolding contains
is_open none released = true
is_open (some g) released = contains g released

-- The map's entry goes if it is the gate.
unfoldable pub freed_tail : ℕ → Option ℕ → Option ℕ
freed_tail g none = none
freed_tail g (some t) = if t == g then none else some t

module _ {A : Type 0} where
  unfoldable pub enter : (A → A) → FileLock A → FileLock A
  enter change l = record l {
    tail = some l.gates;
    gates = suc l.gates;
    sections =
        l.sections
        ++ (record { gate = l.gates; prev = l.tail; change = change; snapshot = none } ∷ []);
  }

  -- The call with the gate reads the file, if its turn has come.
  unfoldable pub read_in : ℕ → List ℕ → A → List (Section A) → List (Section A)
  unfolding is_open
  read_in g released file [] = []
  read_in g released file (s ∷ ss) =
      let rest = read_in g released file ss in
      if s.gate == g
      then (if is_open s.prev released && not (is_some s.snapshot)
          then record s { snapshot = some file }
          else s)
        ∷ ss
      else s ∷ rest

  unfoldable pub read : ℕ → FileLock A → FileLock A
  unfolding read_in
  read g l = record l { sections = read_in g l.released l.file l.sections }

  -- What a call has read, and its change.
  unfoldable pub reading : ℕ → List (Section A) → Option (A × (A → A))
  reading g [] = none
  reading g (s ∷ ss) =
      let rest = reading g ss in
      if s.gate == g then elim s.snapshot [ none ↦ none | some a ↦ some (a, s.change) ] else rest

  -- `finally`: the gate opens, and the call is over.
  unfoldable pub release : ℕ → FileLock A → FileLock A
  unfolding freed_tail
  release g l = record l {
    tail = freed_tail g l.tail;
    released = g ∷ l.released;
    sections = keep (λ s. not (s.gate == g)) l.sections;
  }

  unfoldable pub write_at : Option (A × (A → A)) → ℕ → FileLock A → FileLock A
  unfolding release
  write_at none g l = l
  write_at (some (a, change)) g l = release g (record l { file = change a })

  unfoldable pub write : ℕ → FileLock A → FileLock A
  unfolding write_at reading
  write g l = write_at (reading g l.sections) g l

  unfoldable pub throw_at : Option (A × (A → A)) → ℕ → FileLock A → FileLock A
  unfolding release
  throw_at none g l = l
  throw_at (some _) g l = release g l

  unfoldable pub throw : ℕ → FileLock A → FileLock A
  unfolding throw_at reading
  throw g l = throw_at (reading g l.sections) g l

-- What may happen to the file, by the gates of the calls.
pub data Event (A : Type 0) : Type 0 where
  enters : (A → A) → Event A
  reads writes throws : ℕ → Event A

module _ {A : Type 0} where
  unfoldable pub step : Event A → FileLock A → FileLock A
  unfolding enter read write throw
  step (enters change) l = enter change l
  step (reads g) l = read g l
  step (writes g) l = write g l
  step (throws g) l = throw g l

  unfoldable pub run : List (Event A) → FileLock A → FileLock A
  unfolding step
  run [] l = l
  run (e ∷ es) l = run es (step e l)
