-- ===== src/Checkpoint/FileLock/Serial.antt =====
-- What the calls of `mutate` of src/utils/checkpoint.ts make of the file together, and that they end.
use chris_tencent_db_agent_m.Prelude.{
  ℕ, ◌≡◌, ◌⊎◌, inl, inr, refl, ap, ◌∙◌, Bool, true, ◌&&◌, Option, none, some, List, [], ◌∷◌, ◌++◌,
  ◌==◌, not, map, All, arith, if◌then◌else◌, is_some, if_then, if_else,
}
use chris_tencent_db_agent_m.Checkpoint.FileLock.{
  Section, FileLock, Event, enters, reads, writes, throws, is_open, read, read_in, reading,
  write_at, freed_tail, write, step, run,
}
use chris_tencent_db_agent_m.Checkpoint.FileLock.Chain.{IsValid}
use chris_tencent_db_agent_m.Checkpoint.FileLock.Valid.{
  Waiting, waiting, queued, has_read, written, thrown, not_written, not_thrown, lock, release-first,
  passed,
}
use chris_tencent_db_agent_m.Checkpoint.FileLock.Refinement.{Atomics, done, next, run-Atomics}

module _ {A : Type 0} where
  abbrev pub apply_all : List (A → A) → A → A
  apply_all [] a = a
  apply_all (f ∷ fs) a = apply_all fs (f a)

  -- The changes of the calls that come.
  abbrev pub changes : List (Event A) → List (A → A)
  changes [] = []
  changes (enters f ∷ es) = f ∷ changes es
  changes (_ ∷ es) = changes es

  abbrev pub IsSound : Event A → Type 0
  IsSound (throws g) = ⊥
  IsSound _ = Unit

  -- What the file holds once all that waits is done.
  abbrev pub outcome : Waiting A → A
  outcome w = apply_all w.1 w.0

  apply_all-append :
      (fs gs : List (A → A)) (a : A) → apply_all (fs ++ gs) a ≡ apply_all gs (apply_all fs a)
  apply_all-append [] gs a = refl
  apply_all-append (f ∷ fs) gs a = apply_all-append fs gs (f a)

  Atomics-outcome :
      {es : List (Event A)} {u w : Waiting A}
      → Atomics es u w
      → All IsSound es
      → outcome w ≡ apply_all (changes es) (outcome u)
  Atomics-outcome (done w) h = refl
  Atomics-outcome (next es (queued f a q) r) h =
      Atomics-outcome r h.1 ∙ ap (apply_all (changes es)) (apply_all-append q (f ∷ []) a)
  Atomics-outcome (next es (has_read g w) r) h = Atomics-outcome r h.1
  Atomics-outcome (next es (written g f a q) r) h = Atomics-outcome r h.1
  Atomics-outcome (next es (thrown g f a q) r) h = elim h.0 [ ]
  Atomics-outcome (next es (not_written g w) r) h = Atomics-outcome r h.1
  Atomics-outcome (next es (not_thrown g w) r) h = Atomics-outcome r h.1

  -- From a lock whose calls form a chain, of which only the first may have read the file and has
  -- read what it holds, where no call throws, no update is lost: what the file holds, once the
  -- waiting changes are made in their order, is what it held with the changes that waited and then
  -- those of the calls that came, in the order of the calls, however reads and writes interleave.
  pub outcome-run :
      (es : List (Event A)) (l : FileLock A)
      → IsValid l
      → All IsSound es
      → outcome (waiting (run es l)) ≡ apply_all (changes es) (outcome (waiting l))
  outcome-run es l v h = Atomics-outcome (run-Atomics es l v) h

  -- Each waiting call reads and writes, in their order.
  abbrev pub turns : List (Section A) → List (Event A)
  turns [] = []
  turns (s ∷ ss) = reads s.gate ∷ writes s.gate ∷ turns ss

  snapshot_once :
      (file : A) (s : Section A) (t : Bool)
      → t ≡ true
      → (s.snapshot ≡ none) ⊎ (s.snapshot ≡ some file)
      → (if t && not (is_some s.snapshot) then record s { snapshot = some file } else s)
        ≡ record s { snapshot = some file }
  snapshot_once file s t o (inl e) =
      if_then (t && not (is_some s.snapshot)) _ s (ground (arith, o, e))
  snapshot_once file s t o (inr e) =
      if_else (t && not (is_some s.snapshot)) _ s (ground (arith, o, e))
      ∙ ap (λ (a : Option A). record s { snapshot = a }) e

  read-first :
      (tail : Option ℕ) (gates : ℕ) (released : List ℕ) (file : A) (s : Section A)
      (ss : List (Section A))
      → IsValid (lock tail gates released file (s ∷ ss))
      → read s.gate (lock tail gates released file (s ∷ ss))
        ≡ lock tail gates released file (record s { snapshot = some file } ∷ ss)
  unfolding read read_in
  read-first tail gates released file s ss v =
      ap (λ (xs : List (Section A)). lock tail gates released file xs)
        (if_then (s.gate == s.gate) _ _ (ground arith)
          ∙ ap (λ (x : Section A). x ∷ ss)
              (snapshot_once file s (is_open s.prev released) v.1.0 v.1.1))

  write-first :
      (tail : Option ℕ) (gates : ℕ) (released : List ℕ) (file : A) (s : Section A)
      (ss : List (Section A))
      → IsValid (lock tail gates released file (s ∷ ss))
      → s.snapshot ≡ some file
      → write s.gate (lock tail gates released file (s ∷ ss))
        ≡ lock (freed_tail s.gate tail) gates (s.gate ∷ released) (s.change file) ss
  unfolding write reading
  write-first tail gates released file s ss v e =
      let taken : reading s.gate (s ∷ ss) ≡ some (file, s.change) = ground (arith, e) in
      ap (λ (r : Option (A × (A → A))). write_at r s.gate (lock tail gates released file (s ∷ ss)))
        taken
      ∙ release-first tail gates released file (s.change file) s ss v

  -- The first call's turn.
  turn-first :
      (tail : Option ℕ) (gates : ℕ) (released : List ℕ) (file : A) (s : Section A)
      (ss : List (Section A))
      → IsValid (lock tail gates released file (s ∷ ss))
      → write s.gate (read s.gate (lock tail gates released file (s ∷ ss)))
        ≡ lock (freed_tail s.gate tail) gates (s.gate ∷ released) (s.change file) ss
  turn-first tail gates released file s ss v =
      ap (write s.gate) (read-first tail gates released file s ss v)
      ∙ write-first tail gates released file (record s { snapshot = some file }) ss
          (v.0, (v.1.0, inr refl, v.1.2, v.1.3, v.1.4)) refl

  turns-drain :
      (tail : Option ℕ) (gates : ℕ) (released : List ℕ) (file : A) (ss : List (Section A))
      → IsValid (lock tail gates released file ss)
      → waiting (run (turns ss) (lock tail gates released file ss))
        ≡ (apply_all (map (λ (s : Section A). s.change) ss) file, [])
  unfolding run step
  turns-drain tail gates released file [] v = refl
  turns-drain tail gates released file (s ∷ ss) v =
      ap (λ (l : FileLock A). waiting (run (turns ss) l))
        (turn-first tail gates released file s ss v)
      ∙ turns-drain (freed_tail s.gate tail) gates (s.gate ∷ released) (s.change file) ss
          ((v.1.2.1, v.0), passed tail gates released file (s.change file) s ss v.1)

  -- From a lock whose calls form a chain, of which only the first may have read the file and has
  -- read what it holds, when each waiting call in turn reads the file and writes it, every one of
  -- them gets its turn: none waits any longer, and the file holds what all their changes make of
  -- it, in their order.
  pub waiting-turns :
      (l : FileLock A) → IsValid l → waiting (run (turns l.sections) l) ≡ (outcome (waiting l), [])
  waiting-turns l v = turns-drain l.tail l.gates l.released l.file l.sections v
