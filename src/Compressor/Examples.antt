-- ===== src/Compressor/Examples.antt =====
-- Runs of src/offload_server/compact/compressor.ts.
use chris_tencent_db_agent_m.Prelude.{
  ℕ, ◌≡◌, ◌<◌, ◌*◌, refl, String, Bool, true, false, ◌||◌, none, some, List, [], ◌∷◌, length, arith,
  inr, leb, ltb,
}
use chris_tencent_db_agent_m.Prelude.Maps
use chris_tencent_db_agent_m.FastPath.Messages.{
  Message, Content, text, blocks, OffloadEntry, is_tool_result_message, is_set,
  extract_tool_result_id, extract_all_tool_use_ids, is_tool_use, is_assistant_with_tool_use,
  is_mmd_message, is_tool_result, has,
}
use chris_tencent_db_agent_m.FastPath.{build_offload_map}
use chris_tencent_db_agent_m.Compressor.Slots.{
  Env, Slot, sum_tokens, protected_start, is_system_reminder, is_system,
}
use chris_tencent_db_agent_m.Compressor.Truncate.{
  truncate_tail_tool_results, estimate_text, is_oversized,
}
use chris_tencent_db_agent_m.Compressor.Marks.{scan_from_head, no_marks, mark}
use chris_tencent_db_agent_m.Compressor.Pairs.{
  collect_pairs, ensure_tool_pair_integrity, linked_ids,
}
use chris_tencent_db_agent_m.Compressor.Deletion.{delete_marked}
use chris_tencent_db_agent_m.Compressor.Aggressive.{
  aggressive_compress, baseline, current_tokens, rounded,
}
use chris_tencent_db_agent_m.Compressor.Emergency.{emergency_compress}
use chris_tencent_db_agent_m.Compressor.Mild.{mild_compress, candidates_from, sort_by_score}
use chris_tencent_db_agent_m.Compressor.Endless.{any_oversized, truncate_tail_tool_results-endless}
use chris_tencent_db_agent_m.Compressor.Passes.{IsCareful, scan_from_head-IsCareful}
use chris_tencent_db_agent_m.Compressor.Closure.{IsClosure, ensure_tool_pair_integrity-IsClosure}
use chris_tencent_db_agent_m.Compressor.Batch.{
  unmarked_slots, marked_slots, ids_backwards, delete_marked-at_once,
}
use chris_tencent_db_agent_m.Compressor.Keeps.{message_at}
use chris_tencent_db_agent_m.Compressor.Stays.{IsSpared, is_protected, Has, aggressive_compress-Has}
use chris_tencent_db_agent_m.Compressor.Accounts.{aggressive_compress-remaining}
use chris_tencent_db_agent_m.Compressor.Restored.{
  IsRestored, mmd_slots, other_slots, emergency_compress-IsRestored,
}
use chris_tencent_db_agent_m.Compressor.Replaced.{chosen, replaced_result, mild_compress-chosen}

abbrev env : Env
env = record { json = λ b. b.body; digits = λ n. "4"; tokens_of = λ m. 5; is_reminder = λ s. false }

abbrev message : String → Content → Message
message role content = record {
  role = some role;
  type = none;
  tool_call_id = "";
  tool_use_id = "";
  tool_calls = none;
  content = content;
  inner = none;
  offloaded = false;
  mmd_context = false;
  mmd_injection = false;
}

abbrev slot : ℕ → Message → Slot
slot n m = record { message = m; tokens = n }

abbrev user : String → Slot
user s = slot 10 (message "user" (text s))

abbrev diagram : String → Slot
diagram s = slot 7 (record (message "user" (text s)) { mmd_context = true })

abbrev call : String → Slot
call id = slot 20 (
    message "assistant"
      (blocks (record { kind = "tool_use"; id = id; tool_use_id = ""; body = "" } ∷ [])))

abbrev result : String → String → Slot
result id body = slot 30 (
    message "user"
      (blocks (record { kind = "tool_result"; id = ""; tool_use_id = id; body = body } ∷ [])))

abbrev tool : String → String → Slot
tool id body = slot 30 (record (message "tool" (text body)) { tool_call_id = id })

abbrev talk : List Slot
talk =
    user "a"
    ∷ user "b"
    ∷ user "c"
    ∷ user "d"
    ∷ user "e"
    ∷ user "f"
    ∷ user "g"
    ∷ user "h"
    ∷ user "i"
    ∷ []

-- A long result that is already cut.
abbrev long : List Slot
long = tool "x" "0123456789" ∷ []

long-oversized : any_oversized env 4 long ≡ true
unfolding any_oversized is_oversized is_tool_result_message
long-oversized = refl

three_rounds : truncate_tail_tool_results env estimate_text 4 50 3 long ≡ none
unfolding truncate_tail_tool_results is_tool_result_message estimate_text
three_rounds = refl

long-below : sum_tokens long < 50
unfolding sum_tokens
long-below = omega arith

truncate_tail_tool_results-endless_example :
    truncate_tail_tool_results env estimate_text 4 50 1000 long ≡ none
truncate_tail_tool_results-endless_example =
    truncate_tail_tool_results-endless env estimate_text 4 50 long 1000 long-oversized long-below

-- A diagram, a call with its result, and what was said.
abbrev chat : List Slot
chat = diagram "flow" ∷ call "x" ∷ tool "x" "done" ∷ user "0" ∷ talk

chat_after : (aggressive_compress env chat 100 0).slots ≡ diagram "flow" ∷ user "0" ∷ talk
unfolding aggressive_compress is_tool_result_message is_set extract_tool_result_id Maps.set Maps.get
    extract_all_tool_use_ids is_tool_use is_system_reminder is_system is_assistant_with_tool_use
chat_after = refl

-- The last user message is the last result: ten messages are left after the passes, and eight after
-- the calls of the deleted results have gone, too.
abbrev pairs : List Slot
pairs =
    call "a"
    ∷ result "a" "done"
    ∷ call "b"
    ∷ result "b" "done"
    ∷ call "c"
    ∷ result "c" "done"
    ∷ call "d"
    ∷ result "d" "done"
    ∷ call "e"
    ∷ result "e" "done"
    ∷ call "f"
    ∷ result "f" "done"
    ∷ []

pairs_after : length (aggressive_compress env pairs 100 0).slots ≡ 8
unfolding aggressive_compress is_tool_result_message is_set extract_tool_result_id Maps.set Maps.get
    extract_all_tool_use_ids is_tool_use is_system_reminder is_system is_assistant_with_tool_use
    is_tool_result has
pairs_after = refl

flow-IsSpared : IsSpared env (protected_start chat) 0 chat (diagram "flow").message
unfolding message_at is_protected extract_all_tool_use_ids linked_ids extract_tool_result_id is_set
    is_mmd_message
flow-IsSpared = record {
  here = refl;
  unlinked = record { no_uses = refl; no_results = refl };
  spared = inr refl;
}

flow-plain : is_tool_result_message (diagram "flow").message ≡ false
unfolding is_tool_result_message
flow-plain = refl

aggressive_compress-Has_example :
    Has (aggressive_compress env chat 100 0).slots (diagram "flow").message
aggressive_compress-Has_example =
    aggressive_compress-Has env chat 100 0 0 (diagram "flow").message flow-IsSpared flow-plain

chat-above : 100 < current_tokens 0 (baseline env chat)
unfolding current_tokens baseline
chat-above = omega arith

chat-positive : 0 < sum_tokens (baseline env chat)
unfolding baseline
chat-positive = omega arith

aggressive_compress-remaining_example :
    (aggressive_compress env chat 100 0).remaining_tokens
    ≡ rounded
        (current_tokens 0 (baseline env chat)
          * sum_tokens (aggressive_compress env chat 100 0).slots)
        (sum_tokens (baseline env chat))
aggressive_compress-remaining_example =
    aggressive_compress-remaining env chat 100 0 chat-above chat-positive

abbrev more_needed : ℕ → Bool
more_needed freed = ltb freed 57

scan_from_head-IsCareful_example :
    IsCareful env chat 12 (scan_from_head env chat 12 more_needed).marks
scan_from_head-IsCareful_example = scan_from_head-IsCareful env chat 12 more_needed

-- The result's mark alone, which brings the call's.
abbrev one_mark : List Bool
one_mark = mark 2 (no_marks chat)

one_mark-length : length one_mark ≡ length chat
unfolding mark no_marks
one_mark-length = refl

x-call : Maps.get (collect_pairs chat).uses "x" ≡ some 1
unfolding Maps.get Maps.set collect_pairs extract_all_tool_use_ids linked_ids is_tool_use is_set
x-call = refl

x-result : Maps.get (collect_pairs chat).results "x" ≡ some 2
unfolding Maps.get Maps.set collect_pairs extract_all_tool_use_ids linked_ids is_set
    extract_tool_result_id
x-result = refl

ensure_tool_pair_integrity-IsClosure_example :
    IsClosure chat one_mark (ensure_tool_pair_integrity chat one_mark) 1 2
ensure_tool_pair_integrity-IsClosure_example =
    ensure_tool_pair_integrity-IsClosure chat one_mark "x" 1 2 one_mark-length x-call x-result

delete_marked-at_once_example :
    ((delete_marked chat one_mark).slots ≡ unmarked_slots chat one_mark)
    × ((delete_marked chat one_mark).ids ≡ ids_backwards (marked_slots chat one_mark))
    × ((delete_marked chat one_mark).freed ≡ sum_tokens (marked_slots chat one_mark))
delete_marked-at_once_example = delete_marked-at_once chat one_mark

-- Two diagrams, which change places.
abbrev two_diagrams : List Slot
two_diagrams = diagram "one" ∷ user "a" ∷ diagram "two" ∷ user "b" ∷ user "c" ∷ []

swapped :
    (emergency_compress env two_diagrams 20 0).slots
    ≡ diagram "two" ∷ diagram "one" ∷ user "a" ∷ user "b" ∷ user "c" ∷ []
unfolding emergency_compress is_tool_result_message is_set extract_tool_result_id Maps.set Maps.get
    extract_all_tool_use_ids is_tool_use is_system_reminder is_system is_assistant_with_tool_use
swapped = refl

two-positive : 0 < sum_tokens (baseline env (other_slots two_diagrams))
unfolding baseline other_slots is_mmd_message
two-positive = omega arith

emergency_compress-IsRestored_example :
    IsRestored
      (mmd_slots two_diagrams)
      (leb (current_tokens 0 (baseline env (other_slots two_diagrams))) 20
        || leb (length (baseline env (other_slots two_diagrams))) 2)
      (current_tokens 0 (baseline env (other_slots two_diagrams)))
      (sum_tokens (baseline env (other_slots two_diagrams)))
      (emergency_compress env two_diagrams 20 0)
emergency_compress-IsRestored_example =
    emergency_compress-IsRestored env two_diagrams 20 0 two-positive

abbrev entries : List OffloadEntry
entries =
    record { tool_call_id = "x"; summary = ""; node_id = none; result_ref = ""; score = 7 }
    ∷ record { tool_call_id = "y"; summary = ""; node_id = none; result_ref = ""; score = 3 }
    ∷ []

abbrev results : List Message
results =
    (tool "y" "short").message
    ∷ (tool "x" "a text of more than fifty characters, so that it is worth the while").message
    ∷ []

one_replaced : (mild_compress env entries 2 4 results).confirmed_ids ≡ "x" ∷ []
unfolding mild_compress is_tool_result_message is_set extract_tool_result_id Maps.set Maps.get
    build_offload_map is_mmd_message
one_replaced = refl

mild_compress-chosen_example :
    mild_compress env entries 2 4 results
    ≡ replaced_result
        (chosen env 4 (sort_by_score (candidates_from (build_offload_map entries) 0 2 results)))
        results
mild_compress-chosen_example = mild_compress-chosen env entries 2 4 results
