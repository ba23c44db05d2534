-- ===== src/Dedup/Writing.antt =====
-- `applyDecisions` of src/core/record/l1-extractor.ts and `writeMemory` of src/core/record/l1-writer.ts:
-- what the decisions write. The calls of the stores are a list; one that fails is only logged.
pub mod Kept
use chris_tencent_db_agent_m.Prelude.{
  ℕ, ◌≡◌, ◌≢◌, ◌⊎◌, inl, inr, refl, sym, ap, ◌∙◌, subst, String, Bool, true, false, ◌&&◌, not,
  Option, none, some, List, [], ◌∷◌, ◌++◌, All, is_empty, or_else, str_eq, eq_iff, arith,
  if◌then◌else◌, if_elim,
}
use chris_tencent_db_agent_m.Prelude.Maps
use chris_tencent_db_agent_m.Prelude.Maps.{Map, get-set}
use chris_tencent_db_agent_m.Dedup.{
  Action, store, update, merge, skip, DedupDecision, Answer, ExtractedMemory, stored, is_decided,
  parse_batch_result,
}
use chris_tencent_db_agent_m.Dedup.Decided.{
  mentions, IsStored, has_memory, parse_batch_result-decided,
}

pub record MemoryRecord : Type 0 where
  pub id : String
  pub content : String
  pub memory_type : String
  pub priority : ℕ
  pub scene_name : String
  pub source_message_ids : List String
  pub metadata : String
  pub timestamps : List String
  pub created_at : String
  pub updated_at : String
  pub session_key : String
  pub session_id : String

-- The vector store deletes or takes a record; a line of the daily file is written.
pub data StoreCall : Type 0 where
  deletes : List String → StoreCall
  appends upserts : MemoryRecord → StoreCall

-- The clock is read once for a batch. `new_id` is what `generateMemoryId` gives, for an empty id.
pub record Batch : Type 0 where
  pub now : String
  pub new_id : String
  pub session_key : String
  pub session_id : String
  pub has_vector_store : Bool

unfoldable pub plain_record : Batch → String → ExtractedMemory → MemoryRecord
plain_record b id m = record {
  id = if str_eq id "" then b.new_id else id;
  content = m.content;
  memory_type = m.memory_type;
  priority = m.priority;
  scene_name = m.scene_name;
  source_message_ids = m.source_message_ids;
  metadata = m.metadata;
  timestamps = b.now ∷ [];
  created_at = b.now;
  updated_at = b.now;
  session_key = b.session_key;
  session_id = b.session_id;
}

merged_record : Batch → DedupDecision → ExtractedMemory → MemoryRecord
unfolding plain_record
merged_record b d m = record (plain_record b d.record_id m) {
  content = or_else d.merged_content m.content;
  memory_type = or_else d.merged_type m.memory_type;
  priority = or_else d.merged_priority m.priority;
  timestamps = or_else d.merged_timestamps (b.now ∷ []);
}

unfoldable pub saves : Batch → MemoryRecord → List StoreCall
saves b r = appends r ∷ (if b.has_vector_store then upserts r ∷ [] else [])

unfoldable pub replaces :
    Batch → DedupDecision → ExtractedMemory → Option MemoryRecord × List StoreCall
unfolding merged_record saves
replaces b d m =
    let r = merged_record b d m in
    (
      some r,
      (if not (is_empty d.target_ids) && b.has_vector_store then deletes d.target_ids ∷ [] else [])
          ++ saves b r,
    )

unfoldable pub write_at :
    Action → Batch → DedupDecision → ExtractedMemory → Option MemoryRecord × List StoreCall
unfolding plain_record saves replaces
write_at skip b d m = (none, [])
write_at store b d m = let r = plain_record b d.record_id m in (some r, saves b r)
write_at update b d m = replaces b d m
write_at merge b d m = replaces b d m

unfoldable pub write_memory :
    Batch → DedupDecision → ExtractedMemory → Option MemoryRecord × List StoreCall
unfolding write_at
write_memory b d m = write_at d.action b d m

unfoldable pub decision_map : List DedupDecision → Map DedupDecision → Map DedupDecision
decision_map [] acc = acc
decision_map (d ∷ ds) acc = decision_map ds (Maps.set acc d.record_id d)

unfoldable pub add_record : Option MemoryRecord → List MemoryRecord → List MemoryRecord
add_record none rs = rs
add_record (some r) rs = r ∷ rs

unfoldable pub write_all :
    Batch → Map DedupDecision → List ExtractedMemory → List MemoryRecord × List StoreCall
unfolding write_memory add_record stored
write_all b decided [] = ([], [])
write_all b decided (m ∷ ms) =
    let (r, calls) =
      write_memory b (or_else (Maps.get decided m.record_id) (stored m.record_id)) m in
    let (rs, more) = write_all b decided ms in (add_record r rs, calls ++ more)

-- The records that are stored, and the calls of the stores.
unfoldable pub apply_decisions :
    Batch → List DedupDecision → List ExtractedMemory → List MemoryRecord × List StoreCall
unfolding decision_map write_all
apply_decisions b ds ms = write_all b (decision_map ds []) ms
