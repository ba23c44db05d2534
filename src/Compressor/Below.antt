-- ===== src/Compressor/Below.antt =====
-- The indices that `ensureToolPairIntegrity` of src/offload_server/compact/compressor.ts collects.
use chris_tencent_db_agent_m.Prelude.{
  ℕ, suc, ◌+◌, ◌≤◌, ◌<◌, ◌≡◌, some, List, [], ◌∷◌, String, arith, if_elim, length, str_eq,
}
use chris_tencent_db_agent_m.Prelude.Maps
use chris_tencent_db_agent_m.Prelude.Maps.{Map}
use chris_tencent_db_agent_m.FastPath.Messages.{extract_all_tool_use_ids}
use chris_tencent_db_agent_m.Compressor.Slots.{Slot}
use chris_tencent_db_agent_m.Compressor.Pairs.{
  Pairs, note_ids, linked_ids, collect_from, collect_pairs,
}

-- Every index of a map is one of the messages'.
abbrev pub AllBelow : ℕ → Map ℕ → Type 0
AllBelow n [] = Unit
AllBelow n ((x, i) ∷ m) = (i < n) × AllBelow n m

set-AllBelow :
    (n : ℕ) (m : Map ℕ) (x : String) (i : ℕ) → AllBelow n m → i < n → AllBelow n (Maps.set m x i)
unfolding Maps.set
set-AllBelow n [] x i b l = (l, tt)
set-AllBelow n ((y, j) ∷ m) x i b l =
    if_elim (AllBelow n) (str_eq y x) ((y, i) ∷ m) ((y, j) ∷ Maps.set m x i) (λ _. (l, b.1))
      (λ _. (b.0, set-AllBelow n m x i b.1 l))

pub get-AllBelow :
    (n : ℕ) (m : Map ℕ) (x : String) (i : ℕ) → AllBelow n m → Maps.get m x ≡ some i → i < n
unfolding Maps.get
get-AllBelow n [] x i b e = cc
get-AllBelow n ((y, j) ∷ m) x i b e = ground (arith, b.0, b.1, e, get-AllBelow n m x i b.1)

note_ids-AllBelow :
    (n i : ℕ) (xs : List String) (m : Map ℕ) → AllBelow n m → i < n → AllBelow n (note_ids i xs m)
unfolding note_ids
note_ids-AllBelow n i [] m b l = b
note_ids-AllBelow n i (x ∷ xs) m b l =
    note_ids-AllBelow n i xs (Maps.set m x i) (set-AllBelow n m x i b l) l

abbrev pub PairsBelow : ℕ → Pairs → Type 0
PairsBelow n p = AllBelow n p.uses × AllBelow n p.results

collect_from-PairsBelow :
    (n i : ℕ) (ss : List Slot) (p : Pairs)
    → i + length ss ≤ n
    → PairsBelow n p
    → PairsBelow n (collect_from i ss p)
unfolding collect_from
collect_from-PairsBelow n i [] p l b = b
collect_from-PairsBelow n i (s ∷ ss) p l b =
    collect_from-PairsBelow n (suc i) ss _ (omega (arith, l)) (
      note_ids-AllBelow n i (extract_all_tool_use_ids s.message) p.uses b.0 (omega (arith, l)),
      note_ids-AllBelow n i (linked_ids s.message) p.results b.1 (omega (arith, l)),
    )

pub collect_pairs-PairsBelow : (ss : List Slot) → PairsBelow (length ss) (collect_pairs ss)
unfolding collect_pairs
collect_pairs-PairsBelow ss = collect_from-PairsBelow (length ss) 0 ss _ (omega arith) (tt, tt)
