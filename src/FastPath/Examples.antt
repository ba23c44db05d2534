-- ===== src/FastPath/Examples.antt =====
-- Runs of src/offload_server/compact/fast-path.ts.
use chris_tencent_db_agent_m.Prelude.{
  ◌≡◌, refl, String, true, false, none, some, List, [], ◌∷◌, All, arith,
}
use chris_tencent_db_agent_m.FastPath.Messages.{
  Message, Block, Content, text, blocks, has, is_set, is_string, is_user, is_wrapped, is_tool_use,
  is_tool_result, put_content, extract_tool_result_id, is_assistant, is_assistant_with_tool_use,
  extract_all_tool_use_ids,
}
use chris_tencent_db_agent_m.FastPath.{is_array, tidy, use_ids, result_ids}
use chris_tencent_db_agent_m.FastPath.Calls.{IsPlain, calls, answers, some_message}
use chris_tencent_db_agent_m.FastPath.Orphans.{apply_fast_path-paired}
use chris_tencent_db_agent_m.Prelude.Maps
use chris_tencent_db_agent_m.FastPath.{
  FastPathResult, build_offload_map, apply_fast_path, pass_all, pass_message, replace_result,
  replaces_at, delete_uses,
}
use chris_tencent_db_agent_m.FastPath.Messages.{is_only_tool_use_assistant}

abbrev call : String → Block
call id = record { kind = "tool_use"; id = id; tool_use_id = ""; body = "" }

abbrev result : String → Block
result id = record { kind = "tool_result"; id = ""; tool_use_id = id; body = "done" }

abbrev message : String → Content → Message
message role content = record {
  role = some role;
  type = none;
  tool_call_id = "";
  tool_use_id = "";
  tool_calls = none;
  content = content;
  inner = none;
  offloaded = false;
  mmd_context = false;
  mmd_injection = false;
}

-- Two calls, of which one has a result; and a result without a call.
abbrev history : List Message
history =
    message "assistant" (blocks (call "a" ∷ call "b" ∷ []))
    ∷ message "user" (blocks (result "a" ∷ result "c" ∷ []))
    ∷ []

abbrev paired : List Message
paired =
    message "assistant" (blocks (call "a" ∷ [])) ∷ message "user" (blocks (result "a" ∷ [])) ∷ []

tidied : (tidy history).0 ≡ paired
unfolding tidy is_assistant_with_tool_use is_tool_use put_content is_set extract_tool_result_id has
    result_ids is_tool_result use_ids extract_all_tool_use_ids
tidied = refl

-- A call in `tool_calls` beside an empty array: the message goes, and its result stays.
abbrev openai : List Message
openai =
    record (message "assistant" (blocks [])) { tool_calls = some ("a" ∷ []) }
    ∷ record (message "tool" (text "done")) { tool_call_id = "a" }
    ∷ []

orphaned : (tidy openai).0 ≡ record (message "tool" (text "done")) { tool_call_id = "a" } ∷ []
unfolding tidy is_assistant_with_tool_use is_tool_use put_content is_set extract_tool_result_id has
    result_ids is_tool_result use_ids extract_all_tool_use_ids
orphaned = refl

history-IsPlain : All IsPlain history
unfolding is_user is_string is_array is_set extract_tool_result_id is_wrapped
history-IsPlain = (
  (λ e. ground (arith, e), λ _ e. ground (arith, e)),
  (((λ _. (refl, refl, refl)), (λ e _. ground (arith, e))), tt),
)

a_set : is_set "a" ≡ true
unfolding is_set
a_set = refl

-- The result of an id that is not there is deleted, too.
abbrev after : FastPathResult
after = apply_fast_path [] [] ("z" ∷ []) history

called : some_message (calls "a") after.messages ≡ true
unfolding apply_fast_path pass_all pass_message replace_result replaces_at delete_uses tidy
    is_assistant_with_tool_use is_only_tool_use_assistant is_tool_use put_content is_set
    extract_tool_result_id has result_ids is_tool_result use_ids extract_all_tool_use_ids
    is_assistant Maps.get build_offload_map
called = refl

apply_fast_path-paired_example : some_message (answers "a") after.messages ≡ true
apply_fast_path-paired_example =
    apply_fast_path-paired [] [] ("z" ∷ []) history "a" history-IsPlain refl a_set called
