-- ===== src/Dedup.antt =====
-- `parseBatchResult` of src/core/record/l1-dedup.ts: the decisions on new memories that are read from
-- a language model's answer. Cleaning the answer's text and parsing its JSON come from outside.
pub mod Decided
pub mod Writing
pub mod Examples
use chris_tencent_db_agent_m.Prelude.{
  ℕ, String, Bool, true, false, ◌||◌, Option, none, some, List, [], ◌∷◌, ◌++◌, map, or_else, str_eq,
  if◌then◌else◌,
}

pub data Action : Type 0 where
  store update merge skip : Action

pub record DedupDecision : Type 0 where
  pub record_id : String
  pub action : Action
  pub target_ids : List String
  pub merged_content : Option String
  pub merged_type : Option String
  pub merged_priority : Option ℕ
  pub merged_timestamps : Option (List String)

-- The fields of an entry that are there and of their types; ids, actions and the entries of a list
-- are what `String` makes of them, and a priority is a natural number.
pub record Item : Type 0 where
  pub record_id : Option String
  pub action : Option String
  pub target_ids : Option (List String)
  pub merged_content : Option String
  pub merged_type : Option String
  pub merged_priority : Option ℕ
  pub merged_timestamps : Option (List String)

-- What the text is: no array in it, or text that does not parse; or entries, of which some are no
-- objects.
pub data Answer : Type 0 where
  unreadable : Answer
  entries : List (Option Item) → Answer

-- `metadata` is its JSON text.
pub record ExtractedMemory : Type 0 where
  pub record_id : String
  pub content : String
  pub memory_type : String
  pub priority : ℕ
  pub scene_name : String
  pub source_message_ids : List String
  pub metadata : String

-- An action that is not one of the four is a store.
action_of : String → Action
action_of s =
    if str_eq s "update"
    then update
    else if str_eq s "merge"
    then merge
    else if str_eq s "skip"
    then skip
    else store

is_valid_type : String → Bool
is_valid_type t = str_eq t "persona" || str_eq t "episodic" || str_eq t "instruction"

valid_type : Option String → Option String
unfolding is_valid_type
valid_type none = none
valid_type (some t) = if is_valid_type t then some t else none

decision_of : String → Item → DedupDecision
unfolding action_of valid_type
decision_of id d = record {
  record_id = id;
  action = action_of (or_else d.action "store");
  target_ids = or_else d.target_ids [];
  merged_content = d.merged_content;
  merged_type = valid_type d.merged_type;
  merged_priority = d.merged_priority;
  merged_timestamps = d.merged_timestamps;
}

-- Entries that are no objects or have no record id are left out.
decisions_of : List (Option Item) → List DedupDecision
unfolding decision_of
decisions_of [] = []
decisions_of (none ∷ items) = decisions_of items
decisions_of (some d ∷ items) =
    let id = or_else d.record_id "" in
    let rest = decisions_of items in if str_eq id "" then rest else decision_of id d ∷ rest

unfoldable pub is_decided : String → List DedupDecision → Bool
is_decided id [] = false
is_decided id (d ∷ ds) = str_eq d.record_id id || is_decided id ds

unfoldable pub stored : String → DedupDecision
stored id = record {
  record_id = id;
  action = store;
  target_ids = [];
  merged_content = none;
  merged_type = none;
  merged_priority = none;
  merged_timestamps = none;
}

-- The memories that have no decision among the given ones.
missing : List ExtractedMemory → List DedupDecision → List DedupDecision
unfolding is_decided stored
missing [] ds = []
missing (m ∷ ms) ds =
    let rest = missing ms ds in
    if is_decided m.record_id ds then rest else stored m.record_id ∷ rest

fallback_store_all : List ExtractedMemory → List DedupDecision
unfolding stored
fallback_store_all ms = map (λ (m : ExtractedMemory). stored m.record_id) ms

unfoldable pub parse_answer : Answer → List ExtractedMemory → List DedupDecision
unfolding decisions_of missing fallback_store_all
parse_answer unreadable ms = fallback_store_all ms
parse_answer (entries items) ms = let ds = decisions_of items in ds ++ missing ms ds

unfoldable pub parse_batch_result :
    (String → Answer) → String → List ExtractedMemory → List DedupDecision
unfolding parse_answer
parse_batch_result read raw ms = parse_answer (read raw) ms
