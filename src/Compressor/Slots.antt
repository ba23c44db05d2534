-- ===== src/Compressor/Slots.antt =====
-- The messages that src/offload_server/compact/compressor.ts looks at, and their texts. The length
-- of a text is in characters, where the source counts UTF-16 units.
use Prim.Native.String.{◌++◌ as glue, count, ◌∷◌ as cons}
use chris_tencent_db_agent_m.Prelude.{
  ℕ, zero, suc, ◌+◌, String, Bool, false, ◌&&◌, ◌||◌, not, Option, none, some, List, [], ◌∷◌,
  length, or_else, is_some, str_eq, if◌then◌else◌,
}
use chris_tencent_db_agent_m.FastPath.Messages.{
  Message, Block, Content, absent, text, blocks, Inner, is_user, is_wrapped, is_string,
  is_tool_result, is_mmd_message, inner_content, role_of, or_else_role, set_inner,
}

-- What is not of the repository: `JSON.stringify` of what a block holds, a number as text, the
-- tokenizer's count of a message, and the test of a text's start.
pub record Env : Type 0 where
  pub json : Block → String
  pub digits : ℕ → String
  pub tokens_of : Message → ℕ
  pub is_reminder : String → Bool

-- A message beside its entry of `tokenArray`.
pub record Slot : Type 0 where
  pub message : Message
  pub tokens : ℕ

unfoldable pub sum_tokens : List Slot → ℕ
sum_tokens [] = 0
sum_tokens (s ∷ ss) = s.tokens + sum_tokens ss

unfoldable pub shown_at : Content → Option Inner → Content
unfolding inner_content
shown_at absent i = inner_content i
shown_at (text s) i = text s
shown_at (blocks bs) i = blocks bs

-- `msg.content ?? msg.message?.content`.
unfoldable pub shown_content : Message → Content
unfolding shown_at
shown_content m = shown_at m.content m.inner

any_reminder : (String → Bool) → List Block → Bool
any_reminder test [] = false
any_reminder test (b ∷ bs) = (str_eq b.kind "text" && test b.body) || any_reminder test bs

unfoldable pub reminder_in : (String → Bool) → Content → Bool
unfolding any_reminder
reminder_in test absent = test ""
reminder_in test (text s) = test s
reminder_in test (blocks bs) = any_reminder test bs

unfoldable pub is_system_reminder : Env → Message → Bool
unfolding reminder_in shown_content
is_system_reminder env m = reminder_in env.is_reminder (shown_content m)

-- `role ?? message?.role ?? type`.
unfoldable pub role_or_type : Message → Option String
unfolding role_of or_else_role
role_or_type m = or_else_role (role_of m) m.type

unfoldable pub is_system : Message → Bool
unfolding is_string role_or_type
is_system m = is_string (role_or_type m) "system"

unfoldable pub is_last_user_at : Message → Bool
unfolding is_string role_or_type is_mmd_message
is_last_user_at m = is_string (role_or_type m) "user" && not (is_mmd_message m)

unfoldable pub last_user_from : ℕ → List Slot → Option ℕ
unfolding is_last_user_at
last_user_from i [] = none
last_user_from i (s ∷ ss) = elim (last_user_from (suc i) ss) [
  | some j ↦ some j
  | none ↦ if is_last_user_at s.message then some i else none
]

-- None for -1.
unfoldable pub find_last_user_message_index : List Slot → Option ℕ
unfolding last_user_from
find_last_user_message_index ss = last_user_from 0 ss

unfoldable pub protected_start : List Slot → ℕ
unfolding find_last_user_message_index
protected_start ss = or_else (find_last_user_message_index ss) (length ss)

-- A block of text or of a result has its text; any other is printed.
unfoldable pub block_text : Env → Block → String
block_text env b = if str_eq b.kind "text" || is_tool_result b then b.body else env.json b

unfoldable pub join_blocks : Env → List Block → String
unfolding block_text
join_blocks env [] = ""
join_blocks env (b ∷ bs) = glue (block_text env b) (join_blocks env bs)

unfoldable pub content_text : Env → Content → String
unfolding join_blocks
content_text env absent = ""
content_text env (text s) = s
content_text env (blocks bs) = join_blocks env bs

unfoldable pub get_text_content : Env → Message → String
unfolding content_text shown_content
get_text_content env m = content_text env (shown_content m)

unfoldable pub text_length : Env → Message → ℕ
unfolding get_text_content
text_length env m = count (get_text_content env m)

unfoldable pub behind : Block → Option (List Block) → Option (List Block)
behind b none = none
behind b (some bs) = some (b ∷ bs)

-- None if no block is a tool result.
unfoldable pub set_first_result : String → List Block → Option (List Block)
unfolding behind
set_first_result t [] = none
set_first_result t (b ∷ bs) =
    let rest = behind b (set_first_result t bs) in
    if is_tool_result b then some (record b { body = t } ∷ bs) else rest

unfoldable pub blocks_or : String → Option (List Block) → Content
blocks_or t none = text t
blocks_or t (some bs) = blocks bs

unfoldable pub set_user_content : String → Content → Content
unfolding set_first_result blocks_or
set_user_content t (blocks bs) = blocks_or t (set_first_result t bs)
set_user_content t _ = text t

unfoldable pub set_text_content : String → Message → Message
unfolding set_inner is_wrapped set_user_content is_user
set_text_content t m =
    if is_wrapped m && is_some m.inner
    then record m { inner = set_inner (text t) m.inner }
    else if is_user m
    then record m { content = set_user_content t m.content }
    else record m { content = text t }

-- `text.slice(0, n)`.
unfoldable pub cut : ℕ → String → String
cut zero s = ""
cut (suc n) String.[] = ""
cut (suc n) (cons c s) = cons c (cut n s)

unfoldable pub truncation_note : Env → ℕ → String
truncation_note env limit =
    glue "\n\n[... content truncated, only first "
      (glue (env.digits limit) " characters retained ...]")

unfoldable pub truncated_text : Env → ℕ → String → String
unfolding cut truncation_note
truncated_text env limit s = glue (cut limit s) (truncation_note env limit)

abbrev pub tool_result_truncate_chars : ℕ
tool_result_truncate_chars = 2000
