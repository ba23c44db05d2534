-- ===== src/FastPath.antt =====
-- `applyFastPath` of src/offload_server/compact/fast-path.ts: what was offloaded before is replaced or
-- deleted again in the messages, and no tool call or result is left without the other. A loop that
-- goes backwards and takes entries out of an array keeps the others in their order.
pub mod Messages
pub mod Calls
pub mod Answers
pub mod Plain
pub mod Orphans
pub mod Examples
use chris_tencent_db_agent_m.Prelude.{
  ℕ, suc, ◌+◌, String, Bool, true, false, ◌&&◌, ◌||◌, not, Option, none, some, List, [], ◌∷◌, ◌++◌,
  ltb, or_else, length, keep, is_empty, str_eq, if◌then◌else◌,
}
use chris_tencent_db_agent_m.Prelude.Maps
use chris_tencent_db_agent_m.Prelude.Maps.{Map}
use chris_tencent_db_agent_m.FastPath.Messages.{
  Message, Block, Content, absent, text, blocks, OffloadEntry, has, is_set, is_string, is_user,
  is_tool_use, is_tool_result, content_of, put_content, role_of, extract_tool_result_id,
  is_tool_result_message, is_only_tool_use_assistant, is_assistant_with_tool_use,
  extract_all_tool_use_ids, replace_with_summary, or_else_role,
}

put_entries : List OffloadEntry → Map OffloadEntry → Map OffloadEntry
put_entries [] m = m
put_entries (e ∷ es) m =
    put_entries es (if is_set e.tool_call_id then Maps.set m e.tool_call_id e else m)

unfoldable pub build_offload_map : List OffloadEntry → Map OffloadEntry
unfolding put_entries
build_offload_map es = put_entries es []

-- The ids of the tool results among the blocks.
unfoldable pub result_ids_in : Content → List String
result_ids_in (blocks []) = []
result_ids_in (blocks (b ∷ bs)) =
    let rest = result_ids_in (blocks bs) in
    if is_tool_result b && is_set b.tool_use_id then b.tool_use_id ∷ rest else rest
result_ids_in _ = []

every_in : List String → List String → Bool
every_in set [] = true
every_in set (x ∷ xs) = has set x && every_in set xs

-- The tool calls, or results, that are to go.
unfoldable pub without_uses : (String → Bool) → Content → Content
without_uses gone (blocks bs) =
    blocks (keep (λ b. not (is_tool_use b && is_set b.id && gone b.id)) bs)
without_uses gone c = c

unfoldable pub without_results : (String → Bool) → Content → Content
without_results gone (blocks bs) =
    blocks (keep (λ b. not (is_tool_result b && is_set b.tool_use_id && gone b.tool_use_id)) bs)
without_results gone c = c

-- A message whose result was deleted: none if it goes as a whole.
unfoldable pub delete_result : List String → Message → Option Message
unfolding result_ids_in every_in without_results is_user
delete_result deleted m =
    let ids = result_ids_in m.content in
    if is_user m && ltb 1 (length ids)
    then if every_in deleted ids
      then none
      else some (record m { content = without_results (has deleted) m.content })
    else none

unfoldable pub replaces_at : Option OffloadEntry → Bool → Message → Message × ℕ
replaces_at (some e) true m = (replace_with_summary e m, 1)
replaces_at _ _ m = (m, 0)

unfoldable pub replace_result : List String → Map OffloadEntry → String → Message → Message × ℕ
unfolding replaces_at
replace_result confirmed entries tid m =
    replaces_at (Maps.get entries tid)
      (is_set tid && has confirmed tid && is_tool_result_message m && not m.offloaded) m

unfoldable pub delete_uses : List String → Message → Option Message
unfolding every_in without_uses
delete_uses deleted m =
    let ids = extract_all_tool_use_ids m in
    if is_only_tool_use_assistant m
    then if not (is_empty ids) && every_in deleted ids then none else some m
    else if is_assistant_with_tool_use m
    then some (put_content (without_uses (has deleted) (content_of m)) m)
    else some m

-- One message: what is left of it, and whether it was replaced.
unfoldable pub pass_message :
    List String → List String → Map OffloadEntry → Message → Option Message × ℕ
unfolding delete_result replace_result delete_uses
pass_message confirmed deleted entries m =
    let tid = extract_tool_result_id m in
    let (m', replaced) = replace_result confirmed entries tid m in
    if is_set tid && has deleted tid
    then (delete_result deleted m, 0)
    else (if is_set tid then some m' else delete_uses deleted m', replaced)

unfoldable pub put_first : Option Message → List Message × ℕ × ℕ → List Message × ℕ × ℕ
put_first (some m) (ms, replaced, gone) = (m ∷ ms, replaced, gone)
put_first none (ms, replaced, gone) = (ms, replaced, suc gone)

-- The messages left, how many were replaced, and how many are gone.
unfoldable pub pass_all :
    List String → List String → Map OffloadEntry → List Message → List Message × ℕ × ℕ
unfolding put_first pass_message
pass_all confirmed deleted entries [] = ([], 0, 0)
pass_all confirmed deleted entries (m ∷ ms) =
    let (left, replaced) = pass_message confirmed deleted entries m in
    let (ms', more, gone) = put_first left (pass_all confirmed deleted entries ms) in
    (ms', replaced + more, gone)

unfoldable pub use_ids : List Message → List String
use_ids [] = []
use_ids (m ∷ ms) = extract_all_tool_use_ids m ++ use_ids ms

unfoldable pub message_result_ids : Message → List String
unfolding result_ids_in is_user
message_result_ids m =
    let tid = extract_tool_result_id m in
    (if is_user m then result_ids_in m.content else []) ++ (if is_set tid then tid ∷ [] else [])

unfoldable pub result_ids : List Message → List String
unfolding message_result_ids
result_ids [] = []
result_ids (m ∷ ms) = message_result_ids m ++ result_ids ms

-- The calls without a result are taken out.
unfoldable pub strip_uses : (String → Bool) → Message → Message
unfolding without_uses
strip_uses has_result m =
    if is_assistant_with_tool_use m
    then put_content (without_uses (λ x. not (has_result x)) (content_of m)) m
    else m

unfoldable pub is_empty_array : Content → Bool
is_empty_array (blocks []) = true
is_empty_array _ = false

unfoldable pub is_array : Content → Bool
is_array (blocks bs) = true
is_array _ = false

unfoldable pub nonempty : Message → Option Message
unfolding is_empty_array
nonempty m = if is_empty_array m.content then none else some m

-- The results without a call are taken out.
unfoldable pub strip_results : (String → Bool) → Message → Option Message
unfolding without_results nonempty is_array is_user
strip_results has_use m =
    let tid = extract_tool_result_id m in
    if is_user m && is_array m.content
    then nonempty (record m { content = without_results (λ x. not (has_use x)) m.content })
    else if is_set tid && not (has_use tid) && is_tool_result_message m
    then none
    else some m

-- An assistant's message without any content goes.
unfoldable pub drop_empty : Message → Option Message
unfolding is_string or_else_role role_of is_empty_array
drop_empty m =
    if is_string (or_else_role (role_of m) m.type) "assistant" && is_empty_array (content_of m)
    then none
    else some m

-- The loops of the post-pass, one after the other on each message.
unfoldable pub tidy_at : Option Message → Option Message
unfolding drop_empty
tidy_at none = none
tidy_at (some m) = drop_empty m

unfoldable pub tidy_message : (String → Bool) → (String → Bool) → Message → Option Message
unfolding tidy_at strip_uses strip_results
tidy_message has_use has_result m = tidy_at (strip_results has_use (strip_uses has_result m))

unfoldable pub keep_left : Option Message → List Message × ℕ → List Message × ℕ
keep_left none (ms, gone) = (ms, suc gone)
keep_left (some m) (ms, gone) = (m ∷ ms, gone)

unfoldable pub tidy_all : (String → Bool) → (String → Bool) → List Message → List Message × ℕ
unfolding tidy_message keep_left
tidy_all has_use has_result [] = ([], 0)
tidy_all has_use has_result (m ∷ ms) =
    keep_left (tidy_message has_use has_result m) (tidy_all has_use has_result ms)

-- The post-pass: the ids are collected before anything is taken out.
unfoldable pub tidy : List Message → List Message × ℕ
unfolding tidy_all
tidy ms = tidy_all (has (use_ids ms)) (has (result_ids ms)) ms

pub record FastPathResult : Type 0 where
  pub messages : List Message
  pub replaced_count : ℕ
  pub deleted_count : ℕ

unfoldable pub apply_fast_path :
    List OffloadEntry → List String → List String → List Message → FastPathResult
unfolding pass_all tidy
apply_fast_path entries confirmed deleted ms =
    let (left, replaced, gone) = pass_all confirmed deleted (build_offload_map entries) ms in
    let (tidied, more) = tidy left in
    if is_empty confirmed && is_empty deleted
    then record { messages = ms; replaced_count = 0; deleted_count = 0 }
    else record { messages = tidied; replaced_count = replaced; deleted_count = gone + more }
