-- ===== src/Compressor/Keeps.antt =====
-- What src/offload_server/compact/compressor.ts never deletes nor changes: a protected message that
-- has no part in a tool call.
use chris_tencent_db_agent_m.Prelude.{
  ℕ, zero, suc, ◌+◌, ◌<◌, ◌≡◌, ◌≢◌, refl, sym, ◌∙◌, ap, Bool, true, false, Option, none, some, List,
  [], ◌∷◌, String, arith, if_elim, subst, Bool-cases, length, inl, inr,
}
use chris_tencent_db_agent_m.Prelude.Maps
use chris_tencent_db_agent_m.Prelude.Maps.{Map}
use chris_tencent_db_agent_m.FastPath.Messages.{Message, extract_all_tool_use_ids}
use chris_tencent_db_agent_m.Compressor.Slots.{Slot}
use chris_tencent_db_agent_m.Compressor.Marks.{is_marked, mark}
use chris_tencent_db_agent_m.Compressor.Pairs.{
  Pairs, Round, note_ids, linked_ids, collect_from, collect_pairs, mark_if, with_assistant,
  with_result, linked, round_over, round, rounds, ensure_tool_pair_integrity,
}
use chris_tencent_db_agent_m.Compressor.Passes.{is_marked-mark}

unfoldable pub message_at : List Slot → ℕ → Option Message
message_at [] i = none
message_at (s ∷ ss) zero = some s.message
message_at (s ∷ ss) (suc i) = message_at ss i

-- No entry of a map has the index.
abbrev Avoids : ℕ → Map ℕ → Type 0
Avoids j [] = Unit
Avoids j ((x, i) ∷ m) = (i ≢ j) × Avoids j m

set-Avoids :
    (j : ℕ) (m : Map ℕ) (x : String) (i : ℕ) → Avoids j m → i ≢ j → Avoids j (Maps.set m x i)
unfolding Maps.set
set-Avoids j [] x i a d = (d, tt)
set-Avoids j ((y, k) ∷ m) x i a d =
    if_elim (Avoids j) _ ((y, i) ∷ m) ((y, k) ∷ Maps.set m x i) (λ _. (d, a.1))
      (λ _. (a.0, set-Avoids j m x i a.1 d))

get-Avoids : (j : ℕ) (m : Map ℕ) (x : String) (i : ℕ) → Avoids j m → Maps.get m x ≡ some i → i ≢ j
unfolding Maps.get
get-Avoids j [] x i a e = λ _. cc
get-Avoids j ((y, k) ∷ m) x i a e =
    λ same. ground (arith, a.0, a.1, e, same, get-Avoids j m x i a.1)

note_ids-Avoids :
    (j i : ℕ) (xs : List String) (m : Map ℕ) → Avoids j m → i ≢ j → Avoids j (note_ids i xs m)
unfolding note_ids
note_ids-Avoids j i [] m a d = a
note_ids-Avoids j i (x ∷ xs) m a d =
    note_ids-Avoids j i xs (Maps.set m x i) (set-Avoids j m x i a d) d

-- A message that has no part in a tool call.
pub record IsUnlinked (m : Message) : Type 0 where
  pub no_uses : extract_all_tool_use_ids m ≡ []
  pub no_results : linked_ids m ≡ []

abbrev PairsAvoid : ℕ → Pairs → Type 0
PairsAvoid j p = Avoids j p.uses × Avoids j p.results

later-PairsAvoid :
    (j i : ℕ) (ss : List Slot) (p : Pairs)
    → j < i
    → PairsAvoid j p
    → PairsAvoid j (collect_from i ss p)
unfolding collect_from
later-PairsAvoid j i [] p l a = a
later-PairsAvoid j i (s ∷ ss) p l a = later-PairsAvoid j (suc i) ss _ (omega (arith, l)) (
  note_ids-Avoids j i (extract_all_tool_use_ids s.message) p.uses a.0 (omega (arith, l)),
  note_ids-Avoids j i (linked_ids s.message) p.results a.1 (omega (arith, l)),
)

note_none :
    (j i : ℕ) (xs : List String) (m : Map ℕ) → xs ≡ [] → Avoids j m → Avoids j (note_ids i xs m)
unfolding note_ids
note_none j i xs m e a = subst (λ (ys : List String). Avoids j (note_ids i ys m)) (sym e) a

abbrev from_some {ℓ} : {A : Type ℓ} → A → Option A → A
from_some d none = d
from_some d (some a) = a

pub some-injective {ℓ} : {A : Type ℓ} (a b : A) → some a ≡ some b → a ≡ b
some-injective a b e = ap (from_some a) e

collect_from-PairsAvoid :
    (j i k : ℕ) (ss : List Slot) (p : Pairs) (m : Message)
    → j ≡ i + k
    → message_at ss k ≡ some m
    → IsUnlinked m
    → PairsAvoid j p
    → PairsAvoid j (collect_from i ss p)
unfolding collect_from message_at
collect_from-PairsAvoid j i k [] p m h e u a = a
collect_from-PairsAvoid j i zero (s ∷ ss) p m h e u a =
    let same : s.message ≡ m = some-injective s.message m e in
    later-PairsAvoid j (suc i) ss _ (omega (arith, h)) (
      note_none j i (extract_all_tool_use_ids s.message) p.uses
          (ap extract_all_tool_use_ids same ∙ u.no_uses) a.0,
      note_none j i (linked_ids s.message) p.results (ap linked_ids same ∙ u.no_results) a.1,
    )
collect_from-PairsAvoid j i (suc k) (s ∷ ss) p m h e u a =
    collect_from-PairsAvoid j (suc i) k ss _ m (omega (arith, h)) e u (
      note_ids-Avoids j i (extract_all_tool_use_ids s.message) p.uses a.0 (omega (arith, h)),
      note_ids-Avoids j i (linked_ids s.message) p.results a.1 (omega (arith, h)),
    )

mark_other :
    (i j : ℕ) (marks : List Bool)
    → i ≢ j
    → is_marked marks j ≡ false
    → is_marked (mark i marks) j ≡ false
mark_other i j marks d e = elim (Bool-cases (is_marked (mark i marks) j)) [
  | inl yes' ↦ elim (is_marked-mark i j marks yes') [ inl same ↦ absurd (d same) | inr old ↦ cc ]
  | inr unset ↦ unset
]

mark_if_other :
    (c : Bool) (i j : ℕ) (st : Round)
    → i ≢ j
    → is_marked st.marks j ≡ false
    → is_marked (mark_if c i st).marks j ≡ false
unfolding mark_if
mark_if_other true i j st d e = mark_other i j st.marks d e
mark_if_other false i j st d e = e

by_flag :
    (j : ℕ) (c : Bool) (x y : List Bool)
    → is_marked x j ≡ false
    → is_marked y j ≡ false
    → is_marked (elim c [ true ↦ x | false ↦ y ]) j ≡ false
by_flag j true x y p q = p
by_flag j false x y p q = q

module _ (ss : List Slot) (pairs : Pairs) (j : ℕ) where
  linked_other :
      (o : Option ℕ) (r : ℕ) (st : Round)
      → ((a : ℕ) → o ≡ some a → a ≢ j)
      → r ≢ j
      → is_marked st.marks j ≡ false
      → is_marked (linked ss pairs o r st).marks j ≡ false
  unfolding linked with_assistant with_result
  linked_other none r st h d e = e
  linked_other (some a) r st h d e =
      mark_if_other _ r j (with_assistant ss pairs a r st) d (mark_if_other _ a j st (h a refl) e)

  round_over_other :
      (m : Map ℕ) (st : Round)
      → Avoids j pairs.uses
      → Avoids j m
      → is_marked st.marks j ≡ false
      → is_marked (round_over ss pairs m st).marks j ≡ false
  unfolding round_over
  round_over_other [] st u a e = e
  round_over_other ((x, r) ∷ m) st u a e =
      round_over_other m (linked ss pairs (Maps.get pairs.uses x) r st) u a.1
        (linked_other (Maps.get pairs.uses x) r st (λ b p. get-Avoids j pairs.uses x b u p) a.0 e)

  rounds_other :
      (fuel : ℕ) (marks : List Bool)
      → PairsAvoid j pairs
      → is_marked marks j ≡ false
      → is_marked (rounds ss pairs fuel marks) j ≡ false
  unfolding rounds round
  rounds_other zero marks a e = e
  rounds_other (suc fuel) marks a e =
      let after =
        round_over_other pairs.results (record { marks = marks; changed = false }) a.0 a.1 e in
      by_flag j (round ss pairs marks).changed _ (round ss pairs marks).marks
        (rounds_other fuel (round ss pairs marks).marks a after) after

pub integrity_other :
    (ss : List Slot) (marks : List Bool) (j : ℕ) (m : Message)
    → message_at ss j ≡ some m
    → IsUnlinked m
    → is_marked marks j ≡ false
    → is_marked (ensure_tool_pair_integrity ss marks) j ≡ false
unfolding ensure_tool_pair_integrity collect_pairs
integrity_other ss marks j m e u h =
    rounds_other ss (collect_pairs ss) j (suc (length marks)) marks
      (collect_from-PairsAvoid j 0 j ss (record { uses = []; results = [] }) m (omega arith) e u
        (tt, tt))
      h
