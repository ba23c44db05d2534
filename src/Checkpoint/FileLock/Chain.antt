-- ===== src/Checkpoint/FileLock/Chain.antt =====
-- How the calls that wait for the lock of src/utils/checkpoint.ts hang on one another.
use chris_tencent_db_agent_m.Prelude.{
  ℕ, suc, ◌≡◌, ◌<◌, ◌≤◌, ◌⊎◌, refl, sym, subst, true, false, Option, none, some, List, [], ◌∷◌,
  ◌++◌, ◌==◌, keep, not, All, arith,
}
use chris_tencent_db_agent_m.Checkpoint.FileLock.{
  Section, FileLock, contains, is_open, reading, read_in,
}

-- The gate is closed, and was given out.
abbrev pub IsPending : List ℕ → ℕ → ℕ → Type 0
IsPending released gates g = (contains g released ≡ false) × (g < gates)

module _ {A : Type 0} where
  -- Each call waits for the one before it, and has read nothing.
  abbrev pub Follows : List ℕ → ℕ → ℕ → List (Section A) → Type 0
  Follows released gates g [] = Unit
  Follows released gates g (s ∷ ss) =
      (s.prev ≡ some g)
      × (s.snapshot ≡ none)
      × IsPending released gates s.gate
      × (g < s.gate)
      × Follows released gates s.gate ss

  abbrev pub last_gate : ℕ → List (Section A) → ℕ
  last_gate g [] = g
  last_gate g (s ∷ ss) = last_gate s.gate ss

  abbrev pub IsChain : Option ℕ → ℕ → List ℕ → A → List (Section A) → Type 0
  IsChain tail gates released file [] = tail ≡ none
  IsChain tail gates released file (s ∷ ss) =
      (is_open s.prev released ≡ true)
      × ((s.snapshot ≡ none) ⊎ (s.snapshot ≡ some file))
      × IsPending released gates s.gate
      × Follows released gates s.gate ss
      × (tail ≡ some (last_gate s.gate ss))

  -- The first call may go on, and has read what the file holds; the others wait, one for another.
  abbrev pub IsValid : FileLock A → Type 0
  IsValid l =
      All (λ g. g < l.gates) l.released × IsChain l.tail l.gates l.released l.file l.sections

  pub Follows-read :
      (g h gates : ℕ) (released : List ℕ) (file : A) (ss : List (Section A))
      → contains h released ≡ false
      → Follows released gates h ss
      → read_in g released file ss ≡ ss
  unfolding read_in is_open
  Follows-read g h gates released file [] c f = refl
  Follows-read g h gates released file (s ∷ ss) c f =
      ground (arith, Follows-read g s.gate gates released file ss f.2.0 f.4)

  pub Follows-reading :
      (g h gates : ℕ) (released : List ℕ) (ss : List (Section A))
      → Follows released gates h ss
      → reading g ss ≡ none
  unfolding reading
  Follows-reading g h gates released [] f = refl
  Follows-reading g h gates released (s ∷ ss) f =
      ground (arith, Follows-reading g s.gate gates released ss f.4)

  -- Those that follow a call all have later gates.
  pub Follows-keep :
      (g h gates : ℕ) (released : List ℕ) (ss : List (Section A))
      → g ≤ h
      → Follows released gates h ss
      → keep (λ s. not (s.gate == g)) ss ≡ ss
  Follows-keep g h gates released [] o f = refl
  Follows-keep g h gates released (s ∷ ss) o f =
      ground (arith, Follows-keep g s.gate gates released ss (ground (arith, o, f.3)) f.4)

  pub Follows-release :
      (g h gates : ℕ) (released : List ℕ) (ss : List (Section A))
      → g ≤ h
      → Follows released gates h ss
      → Follows (g ∷ released) gates h ss
  unfolding contains
  Follows-release g h gates released [] o f = tt
  Follows-release g h gates released (s ∷ ss) o f = (
    f.0,
    f.1,
    (ground (arith, o), f.2.1),
    f.3,
    Follows-release g s.gate gates released ss (omega (arith, o, f.3)) f.4,
  )

  pub Follows-append :
      (h gates : ℕ) (released : List ℕ) (ss : List (Section A)) (t : Section A)
      → t.prev ≡ some (last_gate h ss)
      → t.snapshot ≡ none
      → t.gate ≡ gates
      → h < gates
      → contains gates released ≡ false
      → Follows released gates h ss
      → Follows released (suc gates) h (ss ++ (t ∷ []))
  Follows-append h gates released [] t p n e o c f = (
    p,
    n,
    (subst (λ (g : ℕ). contains g released ≡ false) (sym e) c, omega (arith, e)),
    omega (arith, e, o),
    tt,
  )
  Follows-append h gates released (s ∷ ss) t p n e o c f = (
    f.0,
    f.1,
    (f.2.0, omega (arith, f.2.1)),
    f.3,
    Follows-append s.gate gates released ss t p n e f.2.1 c f.4,
  )

  pub last_gate-append :
      (h : ℕ) (ss : List (Section A)) (t : Section A) → last_gate h (ss ++ (t ∷ [])) ≡ t.gate
  last_gate-append h [] t = refl
  last_gate-append h (s ∷ ss) t = last_gate-append s.gate ss t

  pub Follows-last :
      (h gates : ℕ) (released : List ℕ) (ss : List (Section A))
      → Follows released gates h ss
      → h ≤ last_gate h ss
  Follows-last h gates released [] f = omega arith
  Follows-last h gates released (s ∷ ss) f =
      omega (arith, f.3, Follows-last s.gate gates released ss f.4)

pub not-contains :
    (g : ℕ) (released : List ℕ) → All (λ h. h < g) released → contains g released ≡ false
unfolding contains
not-contains g [] h = refl
not-contains g (x ∷ xs) h = ground (arith, not-contains g xs h.1)
