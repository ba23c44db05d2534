-- ===== src/Compressor/Passes.antt =====
-- What the passes of src/offload_server/compact/compressor.ts mark: nothing that is protected, and no
-- more than leaves the messages that are to be kept.
use chris_tencent_db_agent_m.Prelude.{
  ℕ, zero, suc, ◌+◌, ◌≤◌, ◌<◌, ◌≡◌, refl, Bool, true, false, List, [], ◌∷◌, ◌⊎◌, inl, inr, arith,
  if_elim, subst, ap,
}
use chris_tencent_db_agent_m.Compressor.Slots.{Env, Slot}
use chris_tencent_db_agent_m.Compressor.Marks.{
  is_marked, mark, no_marks, count_non_mmd_excluding, Scan, Turn, skip, stop, take, is_deletable,
  min_keep, turn, taken, pass_from, is_wanted_result, pass_results, pass_others, scan_from_head,
}

-- The test of a slot at an index.
unfoldable pub holds_at : (Slot → Bool) → List Slot → ℕ → Bool
holds_at test [] i = false
holds_at test (s ∷ ss) zero = test s
holds_at test (s ∷ ss) (suc i) = holds_at test ss i

pub is_marked-mark :
    (i j : ℕ) (marks : List Bool)
    → is_marked (mark i marks) j ≡ true
    → (i ≡ j) ⊎ (is_marked marks j ≡ true)
unfolding is_marked mark
is_marked-mark i j [] h = inr h
is_marked-mark zero zero (b ∷ bs) h = inl refl
is_marked-mark zero (suc j) (b ∷ bs) h = inr h
is_marked-mark (suc i) zero (b ∷ bs) h = inr h
is_marked-mark (suc i) (suc j) (b ∷ bs) h = elim (is_marked-mark i j bs h) [
  | inl e ↦ inl (ground (arith, e))
  | inr e ↦ inr e
]

is_marked-no_marks : (ss : List Slot) (j : ℕ) → is_marked (no_marks ss) j ≡ false
unfolding is_marked no_marks
is_marked-no_marks [] j = refl
is_marked-no_marks (s ∷ ss) zero = refl
is_marked-no_marks (s ∷ ss) (suc j) = is_marked-no_marks ss j

-- What holds of the marks after any number of turns.
pub record IsCareful (env : Env) (all : List Slot) (limit : ℕ) (marks : List Bool) : Type 0 where
  pub within : (j : ℕ) → is_marked marks j ≡ true → j < limit
  pub deletable : (j : ℕ) → is_marked marks j ≡ true → holds_at (is_deletable env) all j ≡ true
  pub kept : (j : ℕ) → is_marked marks j ≡ true → min_keep ≤ count_non_mmd_excluding all marks

no_marks-IsCareful :
    (env : Env) (all : List Slot) (limit : ℕ) → IsCareful env all limit (no_marks all)
no_marks-IsCareful env all limit = record {
  within = λ j e. ground (arith, e, is_marked-no_marks all j);
  deletable = λ j e. ground (arith, e, is_marked-no_marks all j);
  kept = λ j e. ground (arith, e, is_marked-no_marks all j);
}

turn-take :
    (all : List Slot) (limit : ℕ) (short : ℕ → Bool) (wanted : Slot → Bool) (i : ℕ) (s : Slot)
    (st : Scan)
    → turn all limit short wanted i s st ≡ take
    → (i < limit) × (wanted s ≡ true) × (min_keep ≤ count_non_mmd_excluding all (mark i st.marks))
unfolding turn
turn-take all limit short wanted i s st h =
    (ground (arith, h), ground (arith, h), ground (arith, h))

mark-IsCareful :
    (env : Env) (all : List Slot) (limit i : ℕ) (marks : List Bool)
    → IsCareful env all limit marks
    → i < limit
    → holds_at (is_deletable env) all i ≡ true
    → min_keep ≤ count_non_mmd_excluding all (mark i marks)
    → IsCareful env all limit (mark i marks)
mark-IsCareful env all limit i marks c l d k = record {
  within = λ j e. elim (is_marked-mark i j marks e) [
    | inl q ↦ subst (λ (x : ℕ). x < limit) q l
    | inr m ↦ c.within j m
  ];
  deletable = λ j e. elim (is_marked-mark i j marks e) [
    | inl q ↦ subst (λ (x : ℕ). holds_at (is_deletable env) all x ≡ true) q d
    | inr m ↦ c.deletable j m
  ];
  kept = λ j e. k;
}

next_at :
    (env : Env) (all : List Slot) (i : ℕ) (s : Slot) (ss : List Slot)
    → ((k : ℕ) → holds_at (is_deletable env) (s ∷ ss) k ≡ holds_at (is_deletable env) all (i + k))
    → (k : ℕ) → holds_at (is_deletable env) ss k ≡ holds_at (is_deletable env) all (suc i + k)
unfolding holds_at
next_at env all i s ss at k =
    subst (λ (x : ℕ). holds_at (is_deletable env) ss k ≡ holds_at (is_deletable env) all x)
      (omega arith) (at (suc k))

same_at :
    (env : Env) (ss : List Slot) (k : ℕ)
    → holds_at (is_deletable env) ss k ≡ holds_at (is_deletable env) ss (0 + k)
same_at env ss k = ap (holds_at (is_deletable env) ss) (omega arith)

here_at :
    (env : Env) (all : List Slot) (i : ℕ) (s : Slot) (ss : List Slot)
    → ((k : ℕ) → holds_at (is_deletable env) (s ∷ ss) k ≡ holds_at (is_deletable env) all (i + k))
    → is_deletable env s ≡ true
    → holds_at (is_deletable env) all i ≡ true
unfolding holds_at
here_at env all i s ss at d =
    subst (λ (x : ℕ). holds_at (is_deletable env) all x ≡ true) {x = i + 0} {y = i} (omega arith)
      (subst (λ (b : Bool). b ≡ true) (at 0) d)

by_turn {κ} :
    (P : Scan → Type κ) (t : Turn) (over on more : Scan)
    → P over
    → P on
    → (t ≡ take → P more)
    → P (elim t [ stop ↦ over | skip ↦ on | take ↦ more ])
by_turn P stop over on more p q r = p
by_turn P skip over on more p q r = q
by_turn P take over on more p q r = r refl

pass_from-IsCareful :
    (env : Env) (all : List Slot) (limit : ℕ) (short : ℕ → Bool) (wanted : Slot → Bool)
    (only : (s : Slot) → wanted s ≡ true → is_deletable env s ≡ true) (i : ℕ) (ss : List Slot)
    (st : Scan)
    → ((k : ℕ) → holds_at (is_deletable env) ss k ≡ holds_at (is_deletable env) all (i + k))
    → IsCareful env all limit st.marks
    → IsCareful env all limit (pass_from all limit short wanted i ss st).marks
unfolding pass_from taken
pass_from-IsCareful env all limit short wanted only i [] st at c = c
pass_from-IsCareful env all limit short wanted only i (s ∷ ss) st at c =
    let on : (st' : Scan)
        → IsCareful env all limit st'.marks
        → IsCareful env all limit (pass_from all limit short wanted (suc i) ss st').marks =
      λ st'.
        pass_from-IsCareful env all limit short wanted only (suc i) ss st'
          (next_at env all i s ss at) in
    by_turn (λ r. IsCareful env all limit r.marks) (turn all limit short wanted i s st) st _ _ c
      (on st c)
      (λ e. on (taken all limit short wanted i s st) (
        let (l, w, k) = turn-take all limit short wanted i s st e in
        mark-IsCareful env all limit i st.marks c l (here_at env all i s ss at (only s w)) k))

pass_results-IsCareful :
    (env : Env) (ss : List Slot) (limit : ℕ) (short : ℕ → Bool)
    → IsCareful env ss limit (pass_results env ss limit short).marks
unfolding pass_results is_wanted_result
pass_results-IsCareful env ss limit short =
    pass_from-IsCareful env ss limit short (is_wanted_result env) (λ s e. ground (arith, e)) 0 ss
      (record { marks = no_marks ss; freed = 0 }) (λ k. same_at env ss k)
      (no_marks-IsCareful env ss limit)

-- What the two passes mark to delete stands before the protected index and is no diagram's,
-- reminder's or system's message, and if anything is marked, at least ten messages that are no
-- diagram's are not.
pub scan_from_head-IsCareful :
    (env : Env) (ss : List Slot) (limit : ℕ) (short : ℕ → Bool)
    → IsCareful env ss limit (scan_from_head env ss limit short).marks
unfolding scan_from_head pass_others
scan_from_head-IsCareful env ss limit short =
    let st = pass_results env ss limit short in
    if_elim (λ (r : Scan). IsCareful env ss limit r.marks) (short st.freed) _ st
      (λ _.
        pass_from-IsCareful env ss limit short (is_deletable env) (λ s e. e) 0 ss st
          (λ k. same_at env ss k) (pass_results-IsCareful env ss limit short))
      (λ _. pass_results-IsCareful env ss limit short)
