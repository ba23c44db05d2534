-- ===== src/Compressor/Pairs.antt =====
-- `ensureToolPairIntegrity` of src/offload_server/compact/compressor.ts: the calls and the results
-- of tools are deleted together.
use chris_tencent_db_agent_m.Prelude.{
  ℕ, zero, suc, Bool, true, false, ◌&&◌, not, Option, none, some, List, [], ◌∷◌, ◌++◌, String,
  length, if◌then◌else◌,
}
use chris_tencent_db_agent_m.Prelude.Maps
use chris_tencent_db_agent_m.Prelude.Maps.{Map}
use chris_tencent_db_agent_m.FastPath.Messages.{
  Message, is_user, is_set, extract_tool_result_id, extract_all_tool_use_ids,
}
use chris_tencent_db_agent_m.FastPath.{result_ids_in}
use chris_tencent_db_agent_m.Compressor.Slots.{Slot}
use chris_tencent_db_agent_m.Compressor.Marks.{is_marked, mark}

-- `toolUseIdToAssistantIdx` and `toolResultIdToIdx`.
pub record Pairs : Type 0 where
  pub uses : Map ℕ
  pub results : Map ℕ

unfoldable pub note_ids : ℕ → List String → Map ℕ → Map ℕ
note_ids i [] m = m
note_ids i (x ∷ xs) m = note_ids i xs (Maps.set m x i)

unfoldable pub linked_ids : Message → List String
unfolding result_ids_in
linked_ids m =
    let tid = extract_tool_result_id m in
    (if is_set tid then tid ∷ [] else []) ++ (if is_user m then result_ids_in m.content else [])

unfoldable pub collect_from : ℕ → List Slot → Pairs → Pairs
unfolding note_ids linked_ids
collect_from i [] p = p
collect_from i (s ∷ ss) p = collect_from (suc i) ss (record {
  uses = note_ids i (extract_all_tool_use_ids s.message) p.uses;
  results = note_ids i (linked_ids s.message) p.results;
})

unfoldable pub collect_pairs : List Slot → Pairs
unfolding collect_from
collect_pairs ss = collect_from 0 ss (record { uses = []; results = [] })

unfoldable pub use_ids_at : List Slot → ℕ → List String
use_ids_at [] i = []
use_ids_at (s ∷ ss) zero = extract_all_tool_use_ids s.message
use_ids_at (s ∷ ss) (suc i) = use_ids_at ss i

unfoldable pub result_marked : List Bool → Option ℕ → Bool
result_marked marks none = false
result_marked marks (some r) = is_marked marks r

-- `allResultsDeleted`.
unfoldable pub all_results_marked : Map ℕ → List Bool → List String → Bool
unfolding result_marked
all_results_marked results marks [] = true
all_results_marked results marks (x ∷ xs) =
    result_marked marks (Maps.get results x) && all_results_marked results marks xs

-- `deleteIndices` and `changed`.
pub record Round : Type 0 where
  pub marks : List Bool
  pub changed : Bool

unfoldable pub mark_if : Bool → ℕ → Round → Round
mark_if true i st = record { marks = mark i st.marks; changed = true }
mark_if false i st = st

module _ (ss : List Slot) (pairs : Pairs) where
  unfoldable pub with_assistant : ℕ → ℕ → Round → Round
  unfolding mark_if all_results_marked use_ids_at
  with_assistant a r st =
      mark_if
        (is_marked st.marks r
          && not (is_marked st.marks a)
          && all_results_marked pairs.results st.marks (use_ids_at ss a))
        a st

  unfoldable pub with_result : ℕ → ℕ → Round → Round
  unfolding mark_if
  with_result a r st = mark_if (is_marked st.marks a && not (is_marked st.marks r)) r st

  unfoldable pub linked : Option ℕ → ℕ → Round → Round
  unfolding with_assistant with_result
  linked none r st = st
  linked (some a) r st = with_result a r (with_assistant a r st)

  -- The loop over the entries of the results.
  unfoldable pub round_over : Map ℕ → Round → Round
  unfolding linked
  round_over [] st = st
  round_over ((x, r) ∷ rest) st = round_over rest (linked (Maps.get pairs.uses x) r st)

  unfoldable pub round : List Bool → Round
  unfolding round_over
  round marks = round_over pairs.results (record { marks = marks; changed = false })

  unfoldable pub rounds : ℕ → List Bool → List Bool
  unfolding round
  rounds zero marks = marks
  rounds (suc n) marks = elim (round marks).changed [
    | true ↦ rounds n (round marks).marks
    | false ↦ (round marks).marks
  ]

unfoldable pub ensure_tool_pair_integrity : List Slot → List Bool → List Bool
unfolding rounds collect_pairs
ensure_tool_pair_integrity ss marks = rounds ss (collect_pairs ss) (suc (length marks)) marks
