-- ===== src/Checkpoint/FileLock/Refinement.antt =====
-- That the lock of src/utils/checkpoint.ts makes each `mutate` one change of the file, in the order of
-- the calls.
use chris_tencent_db_agent_m.Prelude.{
  ℕ, ◌≡◌, ◌⊎◌, inl, inr, sym, subst, Option, none, some, List, [], ◌∷◌, map, arith,
}
use chris_tencent_db_agent_m.Checkpoint.FileLock.{
  Section, FileLock, Event, enters, reads, writes, throws, enter, reading, write_at, throw_at,
  release, write, throw, step, run,
}
use chris_tencent_db_agent_m.Checkpoint.FileLock.Chain.{IsChain, IsValid, Follows-reading}
use chris_tencent_db_agent_m.Checkpoint.FileLock.Valid.{
  Waiting, waiting, Atomic, queued, has_read, written, thrown, not_written, not_thrown, lock,
  map-append, enter-IsValid, read-Keeps, release-Ends,
}

module _ {A : Type 0} where
  -- A run of the file, each event of which is one of the atomic steps.
  pub data Atomics : List (Event A) → Waiting A → Waiting A → Type 0 where
    done : (w : Waiting A) → Atomics [] w w
    next :
        {e : Event A} (es : List (Event A)) {u v w : Waiting A}
        → Atomic e u v
        → Atomics es v w
        → Atomics (e ∷ es) u w

  -- Only the first call can have read the file, and it has read what the file holds.
  reading-first :
      (g gates : ℕ) (tail : Option ℕ) (released : List ℕ) (file : A) (s : Section A)
      (ss : List (Section A))
      → IsChain tail gates released file (s ∷ ss)
      → (reading g (s ∷ ss) ≡ none) ⊎ ((reading g (s ∷ ss) ≡ some (file, s.change)) × (s.gate ≡ g))
  unfolding reading
  reading-first g gates tail released file s ss v =
      ground (arith, Follows-reading g s.gate gates released ss v.3, v.1)

  -- A step that is one of the atomic ones, and keeps the lock valid.
  abbrev Refines : Event A → FileLock A → FileLock A → Type 0
  Refines e l l' = IsValid l' × Atomic e (waiting l) (waiting l')

  write-Refines :
      (g : ℕ) (tail : Option ℕ) (gates : ℕ) (released : List ℕ) (file : A) (ss : List (Section A))
      → IsValid (lock tail gates released file ss)
      → Refines
          (writes g)
          (lock tail gates released file ss)
          (write g (lock tail gates released file ss))
  unfolding write reading
  write-Refines g tail gates released file [] v = (v, not_written g (file, []))
  write-Refines g tail gates released file (s ∷ ss) v =
      let l = lock tail gates released file (s ∷ ss) in
      elim (reading-first g gates tail released file s ss v.1) [
        | inl e ↦
            subst (λ (r : Option (A × (A → A))). Refines (writes g) l (write_at r g l)) (sym e)
              (v, not_written g (waiting l))
        | inr (e, same) ↦
            let r = release-Ends tail gates released file (s.change file) s ss v in
            subst (λ (r : Option (A × (A → A))). Refines (writes g) l (write_at r g l)) (sym e)
              (subst
                (λ (h : ℕ). Refines (writes g) l (release h (record l { file = s.change file })))
                same
                (
                  r.0,
                  subst (Atomic (writes g) (waiting l)) (sym r.1)
                      (written g s.change file (map (λ (t : Section A). t.change) ss)),
                ))
      ]

  throw-Refines :
      (g : ℕ) (tail : Option ℕ) (gates : ℕ) (released : List ℕ) (file : A) (ss : List (Section A))
      → IsValid (lock tail gates released file ss)
      → Refines
          (throws g)
          (lock tail gates released file ss)
          (throw g (lock tail gates released file ss))
  unfolding throw reading
  throw-Refines g tail gates released file [] v = (v, not_thrown g (file, []))
  throw-Refines g tail gates released file (s ∷ ss) v =
      let l = lock tail gates released file (s ∷ ss) in
      elim (reading-first g gates tail released file s ss v.1) [
        | inl e ↦
            subst (λ (r : Option (A × (A → A))). Refines (throws g) l (throw_at r g l)) (sym e)
              (v, not_thrown g (waiting l))
        | inr (e, same) ↦
            let r = release-Ends tail gates released file file s ss v in
            subst (λ (r : Option (A × (A → A))). Refines (throws g) l (throw_at r g l)) (sym e)
              (subst (λ (h : ℕ). Refines (throws g) l (release h l)) same
                (
                  r.0,
                  subst (Atomic (throws g) (waiting l)) (sym r.1)
                      (thrown g s.change file (map (λ (t : Section A). t.change) ss)),
                ))
      ]

  step-Refines : (e : Event A) (l : FileLock A) → IsValid l → Refines e l (step e l)
  unfolding step enter
  step-Refines (enters change) l v = (
    enter-IsValid change l.tail l.gates l.released l.file l.sections v,
    subst (λ (q : List (A → A)). Atomic (enters change) (waiting l) (l.file, q))
        (sym (
          map-append l.sections
            (record { gate = l.gates; prev = l.tail; change = change; snapshot = none })))
        (queued change l.file (map (λ (t : Section A). t.change) l.sections)),
  )
  step-Refines (reads g) l v =
      let r = read-Keeps g l.tail l.gates l.released l.file l.sections v in
      (r.0, subst (Atomic (reads g) (waiting l)) (sym r.1) (has_read g (waiting l)))
  step-Refines (writes g) l v = write-Refines g l.tail l.gates l.released l.file l.sections v
  step-Refines (throws g) l v = throw-Refines g l.tail l.gates l.released l.file l.sections v

  -- From a lock whose calls form a chain, of which only the first may have read the file and has
  -- read what it holds, any interleaving of calls that are queued, read, write and throw refines a
  -- file with atomic changes: each event queues a change, makes the first queued change of the
  -- file at once, drops it if it throws, or leaves the file and the queue as they are.
  pub run-Atomics :
      (es : List (Event A)) (l : FileLock A)
      → IsValid l
      → Atomics es (waiting l) (waiting (run es l))
  unfolding run
  run-Atomics [] l v = done (waiting l)
  run-Atomics (e ∷ es) l v =
      let r = step-Refines e l v in next es r.1 (run-Atomics es (step e l) r.0)
