-- ===== src/Compressor/Closure.antt =====
-- That `ensureToolPairIntegrity` of src/offload_server/compact/compressor.ts ends, with the calls and
-- the results of tools marked together.
use chris_tencent_db_agent_m.Prelude.{
  ℕ, zero, suc, ◌≤◌, ◌<◌, ◌≡◌, refl, sym, ◌∙◌, ap, Bool, true, false, ◌&&◌, ◌||◌, not, Option, none,
  some, List, [], ◌∷◌, String, arith, subst, length, str_eq, eq_iff, Bool-cases, inl, inr,
}
use chris_tencent_db_agent_m.Prelude.Maps
use chris_tencent_db_agent_m.Prelude.Maps.{Map}
use chris_tencent_db_agent_m.Compressor.Slots.{Slot}
use chris_tencent_db_agent_m.Compressor.Marks.{is_marked, unmarked}
use chris_tencent_db_agent_m.Compressor.Pairs.{
  Pairs, Round, collect_pairs, use_ids_at, all_results_marked, with_assistant, with_result, linked,
  round_over, round, rounds, ensure_tool_pair_integrity,
}
use chris_tencent_db_agent_m.Compressor.Below.{
  AllBelow, PairsBelow, get-AllBelow, collect_pairs-PairsBelow,
}
use chris_tencent_db_agent_m.Compressor.Steps.{
  IsStep, id-IsStep, then-IsStep, mark_if-IsStep, mark_if-quiet,
}

-- An entry that leaves nothing to be marked.
pub record IsSettled (ss : List Slot) (pairs : Pairs) (marks : List Bool) (a r : ℕ) : Type 0 where
  pub result : (not (is_marked marks a) || is_marked marks r) ≡ true
  pub assistant :
      (not (is_marked marks r && all_results_marked pairs.results marks (use_ids_at ss a))
        || is_marked marks a)
      ≡ true

module _ (ss : List Slot) (pairs : Pairs) (n : ℕ) where
  linked-IsStep :
      (o : Option ℕ) (r : ℕ) (st : Round)
      → length st.marks ≡ n
      → ((a : ℕ) → o ≡ some a → a < n)
      → r < n
      → IsStep n st (linked ss pairs o r st)
  unfolding linked with_assistant with_result
  linked-IsStep none r st l h b = id-IsStep n st l
  linked-IsStep (some a) r st l h b =
      let first : IsStep n st (with_assistant ss pairs a r st) =
        mark_if-IsStep n _ a st l (h a refl) (λ e. ground (arith, e)) in
      then-IsStep n st (with_assistant ss pairs a r st) _ first (
        mark_if-IsStep n _ r (with_assistant ss pairs a r st) first.size b (λ e. ground (arith, e)))

  linked-IsSettled :
      (a r : ℕ) (st : Round)
      → (linked ss pairs (some a) r st).changed ≡ false
      → IsSettled ss pairs st.marks a r
  unfolding linked with_assistant with_result
  linked-IsSettled a r st e =
      let mid = with_assistant ss pairs a r st in
      let (c, same) = mark_if-quiet _ r mid e in
      let (c', same') = mark_if-quiet _ a st (ap (λ (x : Round). x.changed) (sym same) ∙ e) in
      let at_start =
        subst (λ (x : Round). (is_marked x.marks a && not (is_marked x.marks r)) ≡ false) {x = mid}
          {y = st} same' c in
      record { result = ground (arith, at_start); assistant = ground (arith, c') }

  round_over-IsStep :
      (m : Map ℕ) (st : Round)
      → AllBelow n pairs.uses
      → AllBelow n m
      → length st.marks ≡ n
      → IsStep n st (round_over ss pairs m st)
  unfolding round_over
  round_over-IsStep [] st u b l = id-IsStep n st l
  round_over-IsStep ((x, r) ∷ m) st u b l =
      let mid = linked ss pairs (Maps.get pairs.uses x) r st in
      let first : IsStep n st mid =
        linked-IsStep (Maps.get pairs.uses x) r st l (λ a e. get-AllBelow n pairs.uses x a u e)
          b.0 in
      then-IsStep n st mid (round_over ss pairs m mid) first
        (round_over-IsStep m mid u b.1 first.size)

  round_over-IsSettled :
      (m : Map ℕ) (st : Round) (x : String) (a r : ℕ)
      → AllBelow n pairs.uses
      → AllBelow n m
      → length st.marks ≡ n
      → (round_over ss pairs m st).changed ≡ false
      → Maps.get pairs.uses x ≡ some a
      → Maps.get m x ≡ some r
      → IsSettled ss pairs st.marks a r
  unfolding round_over Maps.get
  round_over-IsSettled [] st x a r u b l e p q = cc
  round_over-IsSettled ((y, i) ∷ m) st x a r u b l e p q =
      let mid = linked ss pairs (Maps.get pairs.uses y) i st in
      let first =
        linked-IsStep (Maps.get pairs.uses y) i st l (λ a e. get-AllBelow n pairs.uses y a u e)
          b.0 in
      let rest = round_over-IsStep m mid u b.1 first.size in
      let quiet : mid.changed ≡ false = ap (λ (z : Round). z.changed) (sym (rest.same e)) ∙ e in
      elim (Bool-cases (str_eq y x)) [
        | inl here ↦ linked-IsSettled a r st (
            subst (λ (z : Option ℕ × ℕ). (linked ss pairs z.0 z.1 st).changed ≡ false)
              {x = (Maps.get pairs.uses y, i)} {y = (some a, r)}
              (ground (arith, here, p, q, eq_iff y x)) quiet)
        | inr there ↦
            subst (λ (z : Round). IsSettled ss pairs z.marks a r) {x = mid} {y = st}
              (first.same quiet)
              (round_over-IsSettled m mid x a r u b.1 first.size e p (ground (arith, there, q)))
      ]

  record IsEnd (marks out : List Bool) : Type 0 where
    pub quiet : (round ss pairs out).changed ≡ false
    pub size : length out ≡ n
    pub mono : (j : ℕ) → is_marked marks j ≡ true → is_marked out j ≡ true

  IsEnd-at_once :
      (marks : List Bool) (r : Round)
      → round ss pairs marks ≡ r
      → r.changed ≡ false
      → IsStep n (record { marks = marks; changed = false }) r
      → IsEnd marks r.marks
  IsEnd-at_once marks r same quiet step = record {
    quiet =
        ap (λ (z : List Bool). (round ss pairs z).changed)
          (ap (λ (z : Round). z.marks) (step.same quiet))
        ∙ ap (λ (z : Round). z.changed) same
        ∙ quiet;
    size = step.size;
    mono = step.mono;
  }

  by_change :
      (c : Bool) (marks : List Bool)
      → (round ss pairs marks).changed ≡ c
      → (later : List Bool)
      → IsStep n (record { marks = marks; changed = false }) (round ss pairs marks)
      → ((round ss pairs marks).changed ≡ true → IsEnd (round ss pairs marks).marks later)
      → IsEnd marks (elim c [ true ↦ later | false ↦ (round ss pairs marks).marks ])
  by_change true marks e later step more = record {
    quiet = (more e).quiet;
    size = (more e).size;
    mono = λ j h. (more e).mono j (step.mono j h);
  }
  by_change false marks e later step more = IsEnd-at_once marks (round ss pairs marks) refl e step

  round-IsStep :
      (marks : List Bool)
      → PairsBelow n pairs
      → length marks ≡ n
      → IsStep n (record { marks = marks; changed = false }) (round ss pairs marks)
  unfolding round
  round-IsStep marks b l = round_over-IsStep pairs.results _ b.0 b.1 l

  rounds-IsEnd :
      (fuel : ℕ) (marks : List Bool)
      → PairsBelow n pairs
      → length marks ≡ n
      → unmarked marks < fuel
      → IsEnd marks (rounds ss pairs fuel marks)
  unfolding rounds
  rounds-IsEnd zero marks b l h = absurd (omega (arith, h))
  rounds-IsEnd (suc fuel) marks b l h =
      let step = round-IsStep marks b l in
      by_change (round ss pairs marks).changed marks refl
        (rounds ss pairs fuel (round ss pairs marks).marks) step
        (λ more.
          rounds-IsEnd fuel (round ss pairs marks).marks b step.size
            (omega (arith, h, step.strict refl more)))

unmarked_le : (marks : List Bool) → unmarked marks ≤ length marks
unfolding unmarked
unmarked_le [] = omega arith
unmarked_le (b ∷ marks) = ground (arith, unmarked_le marks)

-- Marks that only add to others, and settle an entry.
pub record IsClosure (ss : List Slot) (marks out : List Bool) (a r : ℕ) : Type 0 where
  pub kept : (j : ℕ) → is_marked marks j ≡ true → is_marked out j ≡ true
  pub settled : IsSettled ss (collect_pairs ss) out a r

-- From marks for all the messages, the rounds of ensureToolPairIntegrity come to an end, which
-- keeps every mark: for an id that both a call and a result have, the result's message is marked
-- if the assistant's is, and the assistant's is if its results are all marked, the indices being
-- those that the maps of ids hold.
pub ensure_tool_pair_integrity-IsClosure :
    (ss : List Slot) (marks : List Bool) (x : String) (a r : ℕ)
    → length marks ≡ length ss
    → Maps.get (collect_pairs ss).uses x ≡ some a
    → Maps.get (collect_pairs ss).results x ≡ some r
    → IsClosure ss marks (ensure_tool_pair_integrity ss marks) a r
unfolding ensure_tool_pair_integrity round
ensure_tool_pair_integrity-IsClosure ss marks x a r l p q =
    let pairs = collect_pairs ss in
    let below = collect_pairs-PairsBelow ss in
    let end =
      rounds-IsEnd ss pairs (length ss) (suc (length marks)) marks below l
        (omega (arith, unmarked_le marks)) in
    record {
      kept = end.mono;
      settled =
          round_over-IsSettled ss pairs (length ss) pairs.results _ x a r below.0 below.1 end.size
            end.quiet p q;
    }
