-- ===== src/Compressor/Mild.antt =====
-- `mildCompress` of src/offload_server/compact/compressor.ts. How many messages are scanned, the
-- floor of a product of doubles, is given.
use Prim.Native.String.{count}
use chris_tencent_db_agent_m.Prelude.{
  ℕ, zero, suc, ◌+◌, Bool, ◌&&◌, ◌||◌, not, Option, none, some, List, [], ◌∷◌, String, leb, ltb,
  if◌then◌else◌,
}
use chris_tencent_db_agent_m.Prelude.Maps
use chris_tencent_db_agent_m.Prelude.Maps.{Map}
use chris_tencent_db_agent_m.FastPath.Messages.{
  Message, OffloadEntry, is_set, is_mmd_message, is_tool_result_message, extract_tool_result_id,
  replace_with_summary,
}
use chris_tencent_db_agent_m.FastPath.{build_offload_map}
use chris_tencent_db_agent_m.Compressor.Slots.{Env, text_length}

pub record Candidate : Type 0 where
  pub idx : ℕ
  pub msg : Message
  pub entry : OffloadEntry
  pub tid : String

unfoldable pub candidate_at : Option OffloadEntry → ℕ → Message → List Candidate → List Candidate
candidate_at none i m rest = rest
candidate_at (some e) i m rest =
    record { idx = i; msg = m; entry = e; tid = extract_tool_result_id m } ∷ rest

unfoldable pub is_candidate : Message → Bool
is_candidate m =
    not (m.offloaded || is_mmd_message m)
    && is_set (extract_tool_result_id m)
    && is_tool_result_message m

-- The messages from an index on, as many as are still to be scanned.
unfoldable pub candidates_from : Map OffloadEntry → ℕ → ℕ → List Message → List Candidate
unfolding candidate_at is_candidate
candidates_from entries i zero ms = []
candidates_from entries i (suc n) [] = []
candidates_from entries i (suc n) (m ∷ ms) =
    let rest = candidates_from entries (suc i) n ms in
    if is_candidate m
    then candidate_at (Maps.get entries (extract_tool_result_id m)) i m rest
    else rest

-- A stable sort, the highest score first.
unfoldable pub insert_by_score : Candidate → List Candidate → List Candidate
insert_by_score c [] = c ∷ []
insert_by_score c (d ∷ ds) =
    if leb d.entry.score c.entry.score then c ∷ d ∷ ds else d ∷ insert_by_score c ds

unfoldable pub sort_by_score : List Candidate → List Candidate
unfolding insert_by_score
sort_by_score [] = []
sort_by_score (c ∷ cs) = insert_by_score c (sort_by_score cs)

unfoldable pub is_shorter : Env → Candidate → Bool
unfolding text_length
is_shorter env c = ltb (count c.entry.summary + 50) (text_length env c.msg)

unfoldable pub replace_at : OffloadEntry → ℕ → List Message → List Message
replace_at e i [] = []
replace_at e zero (m ∷ ms) = replace_with_summary e m ∷ ms
replace_at e (suc i) (m ∷ ms) = m ∷ replace_at e i ms

pub record MildResult : Type 0 where
  pub messages : List Message
  pub replaced_count : ℕ
  pub confirmed_ids : List String

-- One candidate's replacement, before those of the others.
unfoldable pub confirm : Candidate → (List Message → MildResult) → List Message → MildResult
unfolding replace_at
confirm c rest ms =
    let r = rest (replace_at c.entry c.idx ms) in
    record {
      messages = r.messages;
      replaced_count = suc r.replaced_count;
      confirmed_ids = c.tid ∷ r.confirmed_ids;
    }

unfoldable pub replace_from : Env → ℕ → List Candidate → List Message → MildResult
unfolding is_shorter confirm
replace_from env floor [] ms = record { messages = ms; replaced_count = 0; confirmed_ids = [] }
replace_from env floor (c ∷ cs) ms =
    let rest = replace_from env floor cs in
    if ltb c.entry.score floor
    then record { messages = ms; replaced_count = 0; confirmed_ids = [] }
    else if is_shorter env c
    then confirm c rest ms
    else rest ms

unfoldable pub mild_compress : Env → List OffloadEntry → ℕ → ℕ → List Message → MildResult
unfolding candidates_from sort_by_score replace_from
mild_compress env entries scan_end floor ms =
    replace_from env floor
      (sort_by_score (candidates_from (build_offload_map entries) 0 scan_end ms)) ms
