-- ===== src/FastPath/Orphans.antt =====
-- That src/offload_server/compact/fast-path.ts leaves no tool call without its result.
use chris_tencent_db_agent_m.Prelude.{
  ℕ, ◌≡◌, refl, sym, ◌∙◌, String, Bool, true, false, ◌||◌, Option, none, some, List, [], ◌∷◌, ◌++◌,
  All, arith,
}
use chris_tencent_db_agent_m.FastPath.Messages.{
  Message, has, is_set, content_of, extract_all_tool_use_ids, use_ids_in,
}
use chris_tencent_db_agent_m.FastPath.{keep_left}
use chris_tencent_db_agent_m.FastPath.Messages.{call_ids}
use chris_tencent_db_agent_m.FastPath.Calls.{
  has-append, tidied-use, left, calls, answers, some_message, IsPlain,
}
use chris_tencent_db_agent_m.FastPath.{
  message_result_ids, use_ids, result_ids, tidy_message, tidy_all, tidy,
}
use chris_tencent_db_agent_m.FastPath.{apply_fast_path, FastPathResult, pass_all, build_offload_map}
use chris_tencent_db_agent_m.FastPath.Messages.{OffloadEntry}
use chris_tencent_db_agent_m.Prelude.{◌&&◌, is_empty, ap, if_else, subst}
use chris_tencent_db_agent_m.FastPath.Plain.{pass_all-IsPlain}
use chris_tencent_db_agent_m.FastPath.Answers.{plain-answer}

some-keep_left :
    (test : Message → Bool) (o : Option Message) (r : List Message × ℕ)
    → some_message test (keep_left o r).0 ≡ (left test o || some_message test r.0)
unfolding keep_left
some-keep_left test none r = refl
some-keep_left test (some m) r = refl

either :
    (a b c d : Bool)
    → (a || b) ≡ true
    → (a ≡ true → c ≡ true)
    → (b ≡ true → d ≡ true)
    → (c || d) ≡ true
either a b c d h f g = ground (arith, h, f, g)

answers-tidy_all :
    (has_use has_result : String → Bool) (ms : List Message) (x : String)
    → All IsPlain ms
    → is_set x ≡ true
    → has_use x ≡ true
    → has (result_ids ms) x ≡ true
    → some_message (answers x) (tidy_all has_use has_result ms).0 ≡ true
unfolding tidy_all result_ids has
answers-tidy_all has_use has_result [] x p s used h = ground (arith, h)
answers-tidy_all has_use has_result (m ∷ ms) x p s used h =
    some-keep_left (answers x) (tidy_message has_use has_result m) (tidy_all has_use has_result ms)
    ∙ either (answers x m) (has (result_ids ms) x) _ _
        (sym (has-append (message_result_ids m) (result_ids ms) x) ∙ h)
        (λ (e : answers x m ≡ true). plain-answer has_use has_result m x p.0 s used e)
        (λ (e : has (result_ids ms) x ≡ true).
          answers-tidy_all has_use has_result ms x p.1 s used e)

from_either :
    (m : Message) (ms : List Message) (x : String) (has_result : String → Bool) (a b : Bool)
    → (a || b) ≡ true
    → (a ≡ true → (has (use_ids_in (content_of m)) x ≡ true) × (has_result x ≡ true))
    → (b ≡ true → (has (use_ids ms) x ≡ true) × (has_result x ≡ true))
    → (has (use_ids (m ∷ ms)) x ≡ true) × (has_result x ≡ true)
unfolding use_ids extract_all_tool_use_ids
from_either m ms x has_result true b h f g =
    let (u, r) = f refl in
    (
      has-append (call_ids m ++ use_ids_in (content_of m)) (use_ids ms) x
          ∙ ground (arith, has-append (call_ids m) (use_ids_in (content_of m)) x, u),
      r,
    )
from_either m ms x has_result false b h f g =
    let (u, r) = g h in
    (has-append (call_ids m ++ use_ids_in (content_of m)) (use_ids ms) x ∙ ground (arith, u), r)

calls-tidy_all :
    (has_use has_result : String → Bool) (ms : List Message) (x : String)
    → is_set x ≡ true
    → some_message (calls x) (tidy_all has_use has_result ms).0 ≡ true
    → (has (use_ids ms) x ≡ true) × (has_result x ≡ true)
unfolding tidy_all use_ids has
calls-tidy_all has_use has_result [] x s h = ground (arith, h)
calls-tidy_all has_use has_result (m ∷ ms) x s h =
    let split : left (calls x) (tidy_message has_use has_result m)
          || some_message (calls x) (tidy_all has_use has_result ms).0
        ≡ true =
      sym (
        some-keep_left (calls x) (tidy_message has_use has_result m)
          (tidy_all has_use has_result ms))
      ∙ h in
    from_either m ms x has_result _ _ split (tidied-use has_use has_result m x s)
      (calls-tidy_all has_use has_result ms x s)

-- The post-pass leaves no call without its result.
calls-tidy-answers :
    (ms : List Message) (x : String)
    → All IsPlain ms
    → is_set x ≡ true
    → some_message (calls x) (tidy ms).0 ≡ true
    → some_message (answers x) (tidy ms).0 ≡ true
unfolding tidy
calls-tidy-answers ms x p s h =
    let (used, answered) = calls-tidy_all (has (use_ids ms)) (has (result_ids ms)) ms x s h in
    answers-tidy_all (has (use_ids ms)) (has (result_ids ms)) ms x p s used answered

-- After the fast path, with confirmed or deleted ids given, no tool call of an assistant's content
-- blocks is without its result: where each message is in one format (a user's message of blocks
-- has its results in the blocks alone, and a message that is a result itself is no assistant's),
-- an id that is not empty and that a remaining call has is also that of a remaining result,
-- whatever was deleted, replaced or taken out.
pub apply_fast_path-paired :
    (entries : List OffloadEntry) (confirmed deleted : List String) (ms : List Message) (x : String)
    → All IsPlain ms
    → is_empty confirmed && is_empty deleted ≡ false
    → is_set x ≡ true
    → some_message (calls x) (apply_fast_path entries confirmed deleted ms).messages ≡ true
    → some_message (answers x) (apply_fast_path entries confirmed deleted ms).messages ≡ true
unfolding apply_fast_path
apply_fast_path-paired entries confirmed deleted ms x p some_id s h =
    let left : List Message = (pass_all confirmed deleted (build_offload_map entries) ms).0 in
    let out : (apply_fast_path entries confirmed deleted ms).messages ≡ (tidy left).0 =
      ap (λ (r : FastPathResult). r.messages)
        (if_else (is_empty confirmed && is_empty deleted) _ _ some_id) in
    subst (λ (ns : List Message). some_message (answers x) ns ≡ true) (sym out)
      (calls-tidy-answers left x
        (pass_all-IsPlain confirmed deleted (build_offload_map entries) ms p) s
        (subst (λ (ns : List Message). some_message (calls x) ns ≡ true) out h))
