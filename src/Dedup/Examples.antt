-- ===== src/Dedup/Examples.antt =====
-- Runs of src/core/record/l1-dedup.ts.
use chris_tencent_db_agent_m.Prelude.{◌≡◌, refl, String, true, false, none, some, List, [], ◌∷◌}
use chris_tencent_db_agent_m.Dedup.{Answer, entries, ExtractedMemory, parse_batch_result}
use mathlib.Core.List.Memᴰ.{head, tail}
use chris_tencent_db_agent_m.Dedup.Writing.{Batch, apply_decisions}
use chris_tencent_db_agent_m.Dedup.Writing.Kept.{IsKept, forgotten-IsKept}
use chris_tencent_db_agent_m.Dedup.Decided.{mentions}

abbrev memory : String → String → ExtractedMemory
memory id content = record {
  record_id = id;
  content = content;
  memory_type = "persona";
  priority = 50;
  scene_name = "kitchen";
  source_message_ids = [];
  metadata = "{}";
}

abbrev memories : List ExtractedMemory
memories = memory "m1" "tea" ∷ memory "m2" "milk" ∷ []

-- An answer that merges the first memory, and forgets the second.
abbrev read : String → Answer
read raw = entries (
    some (record {
      record_id = some "m1";
      action = some "merge";
      target_ids = some ("old" ∷ []);
      merged_content = some "tea with milk";
      merged_type = none;
      merged_priority = none;
      merged_timestamps = none;
    })
    ∷ none
    ∷ [])

abbrev batch : Batch
batch = record {
  now = "now";
  new_id = "new";
  session_key = "s";
  session_id = "";
  has_vector_store = true;
}

forgotten : mentions (read "[]") "m2" ≡ false
unfolding mentions
forgotten = refl

forgotten-IsKept_example :
    IsKept batch
      (memory "m2" "milk")
      (apply_decisions batch (parse_batch_result read "[]" memories) memories)
forgotten-IsKept_example =
    forgotten-IsKept read "[]" memories batch (memory "m2" "milk") (tail (head refl)) forgotten
