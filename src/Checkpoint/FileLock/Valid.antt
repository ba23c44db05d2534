-- ===== src/Checkpoint/FileLock/Valid.antt =====
-- That the chain of the calls of src/utils/checkpoint.ts stays whole, and what each step does to the
-- file and to the changes that wait.
use chris_tencent_db_agent_m.Prelude.{
  ℕ, suc, ◌≡◌, ◌<◌, inl, inr, refl, sym, ap, subst, true, ◌&&◌, Option, none, some, List, [], ◌∷◌,
  ◌++◌, ◌==◌, keep, not, map, All, arith, is_some, if_elim,
}
use chris_tencent_db_agent_m.Checkpoint.FileLock.{
  Section, FileLock, Event, enters, reads, writes, throws, contains, is_open, enter, read,
  freed_tail, read_in, release,
}
use chris_tencent_db_agent_m.Checkpoint.FileLock.Chain.{
  last_gate, IsChain, IsValid, Follows-read, Follows-keep, Follows-release, Follows-append,
  last_gate-append, Follows-last, not-contains,
}

-- The file, and the changes that wait, in their order.
abbrev pub Waiting : Type 0 → Type 0
Waiting A = A × List (A → A)

All-suc :
    (gates : ℕ) (released : List ℕ)
    → All (λ g. g < gates) released
    → All (λ g. g < suc gates) released
All-suc gates [] h = tt
All-suc gates (g ∷ gs) h = (omega (arith, h.0), All-suc gates gs h.1)

module _ {A : Type 0} where
  abbrev pub waiting : FileLock A → Waiting A
  waiting l = (l.file, map (λ (s : Section A). s.change) l.sections)

  -- A call is queued; the first writes, or throws; nothing changes, where it is not a call's turn.
  pub data Atomic : Event A → Waiting A → Waiting A → Type 0 where
    queued :
        (change : A → A) (a : A) (q : List (A → A))
        → Atomic (enters change) (a, q) (a, q ++ (change ∷ []))
    has_read : (g : ℕ) (w : Waiting A) → Atomic (reads g) w w
    written :
        (g : ℕ) (change : A → A) (a : A) (q : List (A → A))
        → Atomic (writes g) (a, change ∷ q) (change a, q)
    thrown :
        (g : ℕ) (change : A → A) (a : A) (q : List (A → A))
        → Atomic (throws g) (a, change ∷ q) (a, q)
    not_written : (g : ℕ) (w : Waiting A) → Atomic (writes g) w w
    not_thrown : (g : ℕ) (w : Waiting A) → Atomic (throws g) w w

  abbrev pub lock : Option ℕ → ℕ → List ℕ → A → List (Section A) → FileLock A
  lock tail gates released file ss = record {
    tail = tail;
    gates = gates;
    released = released;
    sections = ss;
    file = file;
  }

  pub map-append :
      (ss : List (Section A)) (t : Section A)
      → map (λ (s : Section A). s.change) (ss ++ (t ∷ []))
        ≡ map (λ (s : Section A). s.change) ss ++ (t.change ∷ [])
  map-append [] t = refl
  map-append (s ∷ ss) t = ap (λ (q : List (A → A)). s.change ∷ q) (map-append ss t)

  pub enter-IsValid :
      (change : A → A) (tail : Option ℕ) (gates : ℕ) (released : List ℕ) (file : A)
      (ss : List (Section A))
      → IsValid (lock tail gates released file ss)
      → IsValid (enter change (lock tail gates released file ss))
  unfolding enter is_open
  enter-IsValid change tail gates released file [] v = (
    All-suc gates released v.0,
    (
      subst (λ (t : Option ℕ). is_open t released ≡ true) (sym v.1) refl,
      inl refl,
      (not-contains gates released v.0, omega arith),
      tt,
      refl,
    ),
  )
  enter-IsValid change tail gates released file (s ∷ ss) v =
      let t : Section A = record { gate = gates; prev = tail; change = change; snapshot = none } in
      (
        All-suc gates released v.0,
        (
          v.1.0,
          v.1.1,
          (v.1.2.0, omega (arith, v.1.2.1)),
          Follows-append s.gate gates released ss t v.1.4 refl refl v.1.2.1
              (not-contains gates released v.0) v.1.3,
          ap (λ (g : ℕ). some g) (sym (last_gate-append s.gate ss t)),
        ),
      )

  -- The lock stays valid, and what waits is the same.
  abbrev pub Keeps : FileLock A → FileLock A → Type 0
  Keeps l l' = IsValid l' × (waiting l' ≡ waiting l)

  pub read-Keeps :
      (g : ℕ) (tail : Option ℕ) (gates : ℕ) (released : List ℕ) (file : A) (ss : List (Section A))
      → IsValid (lock tail gates released file ss)
      → Keeps (lock tail gates released file ss) (read g (lock tail gates released file ss))
  unfolding read read_in
  read-Keeps g tail gates released file [] v = (v, refl)
  read-Keeps g tail gates released file (s ∷ ss) v =
      let l = lock tail gates released file (s ∷ ss) in
      if_elim (λ (xs : List (Section A)). Keeps l (lock tail gates released file xs)) (s.gate == g)
        _ _
        (λ e.
          if_elim (λ (x : Section A). Keeps l (lock tail gates released file (x ∷ ss)))
            (is_open s.prev released && not (is_some s.snapshot))
            (record s { snapshot = some file }) s
            (λ _. ((v.0, (v.1.0, inr refl, v.1.2, v.1.3, v.1.4)), refl)) (λ _. (v, refl)))
        (λ e.
          subst (λ (xs : List (Section A)). Keeps l (lock tail gates released file (s ∷ xs)))
            (sym (Follows-read g s.gate gates released file ss v.1.2.0 v.1.3)) (v, refl))

  -- Once the first call has released the lock, the next may go on.
  pub passed :
      (tail : Option ℕ) (gates : ℕ) (released : List ℕ) (file made : A) (s : Section A)
      (ss : List (Section A))
      → IsChain tail gates released file (s ∷ ss)
      → IsChain (freed_tail s.gate tail) gates (s.gate ∷ released) made ss
  unfolding freed_tail is_open contains
  passed tail gates released file made s [] v =
      subst (λ (t : Option ℕ). freed_tail s.gate t ≡ none) (sym v.4) (ground arith)
  passed tail gates released file made s (x ∷ xs) v =
      let f = v.3 in
      let beyond = Follows-last x.gate gates released xs f.4 in
      (
        subst (λ (t : Option ℕ). is_open t (s.gate ∷ released) ≡ true) (sym f.0) (ground arith),
        inl f.1,
        (ground (arith, f.2.0, f.3), f.2.1),
        Follows-release s.gate x.gate gates released xs (omega (arith, f.3)) f.4,
        subst (λ (t : Option ℕ). freed_tail s.gate t ≡ some (last_gate x.gate xs)) (sym v.4)
            (ground (arith, beyond, f.3)),
      )

  -- The first call ends, and leaves what it has made of the file.
  abbrev pub Ends : A → Section A → List (Section A) → FileLock A → Type 0
  Ends made s ss l = IsValid l × (waiting l ≡ (made, map (λ (t : Section A). t.change) ss))

  pub release-first :
      (tail : Option ℕ) (gates : ℕ) (released : List ℕ) (file made : A) (s : Section A)
      (ss : List (Section A))
      → IsValid (lock tail gates released file (s ∷ ss))
      → release s.gate (lock tail gates released made (s ∷ ss))
        ≡ lock (freed_tail s.gate tail) gates (s.gate ∷ released) made ss
  unfolding release
  release-first tail gates released file made s ss v =
      let kept : keep (λ (t : Section A). not (t.gate == s.gate)) (s ∷ ss) ≡ ss =
        ground (arith, Follows-keep s.gate s.gate gates released ss (omega arith) v.1.3) in
      ap
        (λ (xs : List (Section A)). lock (freed_tail s.gate tail) gates (s.gate ∷ released) made xs)
        kept

  pub release-Ends :
      (tail : Option ℕ) (gates : ℕ) (released : List ℕ) (file made : A) (s : Section A)
      (ss : List (Section A))
      → IsValid (lock tail gates released file (s ∷ ss))
      → Ends made s ss (release s.gate (lock tail gates released made (s ∷ ss)))
  release-Ends tail gates released file made s ss v =
      subst (Ends made s ss) (sym (release-first tail gates released file made s ss v))
        (((v.1.2.1, v.0), passed tail gates released file made s ss v.1), refl)
