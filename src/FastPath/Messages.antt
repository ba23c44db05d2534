-- ===== src/FastPath/Messages.antt =====
-- The messages of src/offload_server/compact/helpers.ts. An absent field is the empty string, where
-- the source only tests whether it is truthy; a message may be of any of the formats.
use Prim.Native.String.{◌++◌ as glue}
use chris_tencent_db_agent_m.Prelude.{
  ℕ, String, Bool, true, false, ◌&&◌, ◌||◌, not, Option, none, some, List, [], ◌∷◌, ◌++◌, str_eq,
  or_else, if◌then◌else◌, is_empty,
}

pub record Block : Type 0 where
  pub kind : String
  pub id : String
  pub tool_use_id : String
  pub body : String

pub data Content : Type 0 where
  absent : Content
  text : String → Content
  blocks : List Block → Content

-- The wrapped message of the type `message`.
pub record Inner : Type 0 where
  pub id : String
  pub role : Option String
  pub content : Content

-- `tool_calls` has the ids of the calls, if it is an array.
pub record Message : Type 0 where
  pub role : Option String
  pub type : Option String
  pub tool_call_id : String
  pub tool_use_id : String
  pub tool_calls : Option (List String)
  pub content : Content
  pub inner : Option Inner
  pub offloaded : Bool
  pub mmd_context : Bool
  pub mmd_injection : Bool

unfoldable pub is_string : Option String → String → Bool
is_string none s = false
is_string (some t) s = str_eq t s

unfoldable pub is_set : String → Bool
is_set s = not (str_eq s "")

-- A list of ids, used as a `Set`.
unfoldable pub has : List String → String → Bool
has [] x = false
has (y ∷ ys) x = str_eq y x || has ys x

unfoldable pub is_wrapped : Message → Bool
unfolding is_string
is_wrapped m = is_string m.type "message"

unfoldable pub inner_content : Option Inner → Content
inner_content none = absent
inner_content (some i) = i.content

unfoldable pub inner_role : Option Inner → Option String
inner_role none = none
inner_role (some i) = i.role

unfoldable pub inner_id : Option Inner → String
inner_id none = ""
inner_id (some i) = i.id

-- `msg.type === "message" ? msg.message?.content : msg.content`.
unfoldable pub content_of : Message → Content
unfolding is_wrapped inner_content
content_of m = if is_wrapped m then inner_content m.inner else m.content

unfoldable pub set_inner : Content → Option Inner → Option Inner
set_inner c none = none
set_inner c (some i) = some (record i { content = c })

-- Writes into what `content_of` reads.
unfoldable pub put_content : Content → Message → Message
unfolding is_wrapped set_inner
put_content c m =
    if is_wrapped m then record m { inner = set_inner c m.inner } else record m { content = c }

unfoldable pub or_else_role : Option String → Option String → Option String
or_else_role none other = other
or_else_role (some r) other = some r

-- `msg.role ?? msg.message?.role`.
unfoldable pub role_of : Message → Option String
unfolding inner_role or_else_role
role_of m = or_else_role m.role (inner_role m.inner)

unfoldable pub is_tool_use : Block → Bool
is_tool_use b = str_eq b.kind "tool_use" || str_eq b.kind "toolCall"

unfoldable pub is_tool_result : Block → Bool
is_tool_result b = str_eq b.kind "tool_result"

unfoldable pub first_result : List Block → String
first_result [] = ""
first_result (b ∷ bs) =
    let rest = first_result bs in
    if is_tool_result b && is_set b.tool_use_id then b.tool_use_id else rest

unfoldable pub first_result_in : Content → String
unfolding first_result
first_result_in (blocks bs) = first_result bs
first_result_in _ = ""

unfoldable pub is_user : Message → Bool
unfolding is_string
is_user m = is_string m.role "user"

-- `extractToolResultId`; the empty string for null.
unfoldable pub extract_tool_result_id : Message → String
unfolding is_wrapped inner_id is_user first_result_in
extract_tool_result_id m =
    if is_set m.tool_call_id
    then m.tool_call_id
    else if is_set m.tool_use_id
    then m.tool_use_id
    else if is_wrapped m && is_set (inner_id m.inner)
    then inner_id m.inner
    else if is_user m
    then first_result_in m.content
    else ""

unfoldable pub any_block : (Block → Bool) → Content → Bool
any_block test (blocks []) = false
any_block test (blocks (b ∷ bs)) = test b || any_block test (blocks bs)
any_block test _ = false

unfoldable pub is_tool_result_message : Message → Bool
unfolding is_string inner_role or_else_role is_user any_block
is_tool_result_message m =
    let inner = or_else_role (inner_role m.inner) m.type in
    is_string m.role "tool"
    || is_string m.type "tool_result"
    || is_string inner "toolResult"
    || is_string inner "tool_result"
    || (is_user m && any_block is_tool_result m.content)

every_use : Content → Bool
every_use (blocks []) = true
every_use (blocks (b ∷ bs)) = is_tool_use b && every_use (blocks bs)
every_use _ = false

is_array_nonempty : Content → Bool
is_array_nonempty (blocks (b ∷ bs)) = true
is_array_nonempty _ = false

unfoldable pub is_assistant : Message → Bool
unfolding is_string role_of
is_assistant m = is_string (role_of m) "assistant"

unfoldable pub is_only_tool_use_assistant : Message → Bool
unfolding is_assistant content_of is_array_nonempty every_use
is_only_tool_use_assistant m =
    is_assistant m && is_array_nonempty (content_of m) && every_use (content_of m)

unfoldable pub is_assistant_with_tool_use : Message → Bool
unfolding is_assistant content_of any_block
is_assistant_with_tool_use m =
    is_assistant m
    && (not (is_empty (or_else m.tool_calls [])) || any_block is_tool_use (content_of m))

set_ids : List String → List String
set_ids [] = []
set_ids (x ∷ xs) = let rest = set_ids xs in if is_set x then x ∷ rest else rest

unfoldable pub use_ids_in : Content → List String
use_ids_in (blocks []) = []
use_ids_in (blocks (b ∷ bs)) =
    let rest = use_ids_in (blocks bs) in if is_tool_use b && is_set b.id then b.id ∷ rest else rest
use_ids_in _ = []

unfoldable pub call_ids : Message → List String
unfolding set_ids
call_ids m = set_ids (or_else m.tool_calls [])

unfoldable pub extract_all_tool_use_ids : Message → List String
unfolding call_ids use_ids_in content_of
extract_all_tool_use_ids m = call_ids m ++ use_ids_in (content_of m)

pub record OffloadEntry : Type 0 where
  pub tool_call_id : String
  pub summary : String
  pub node_id : Option String
  pub result_ref : String
  pub score : ℕ

-- A diagram's message, which compression keeps.
unfoldable pub is_mmd_message : Message → Bool
is_mmd_message m = m.mmd_context || m.mmd_injection

unfoldable pub summary_content : OffloadEntry → String
summary_content e =
    let head =
      glue "[Offloaded Tool Result | node: "
        (glue (or_else e.node_id "N/A") (glue "]\nSummary: " e.summary)) in
    if is_set e.result_ref
    then glue head (glue "\n原始工具结果已存档，如需查看完整内容请调用 tdai_read_cos(path=\"" (glue e.result_ref "\")"))
    else head

text_block : String → Block
text_block s = record { kind = "text"; id = ""; tool_use_id = ""; body = s }

-- An array becomes one block of text; all else the text.
unfoldable pub summarized : String → Content → Content
unfolding text_block
summarized s (blocks bs) = blocks (text_block s ∷ [])
summarized s _ = text s

-- The first tool result takes the summary.
summarize_first : String → List Block → List Block
summarize_first s [] = []
summarize_first s (b ∷ bs) =
    let rest = summarize_first s bs in
    if is_tool_result b then record b { body = s } ∷ bs else b ∷ rest

unfoldable pub summarize_user : String → Content → Content
unfolding summarize_first
summarize_user s (blocks bs) = blocks (summarize_first s bs)
summarize_user s _ = text s

unfoldable pub summarize_inner : String → Inner → Inner
unfolding summarized
summarize_inner s i = record i { content = summarized s i.content }

unfoldable pub summarize_at : Option Inner → Bool → String → Message → Message
unfolding summarize_inner summarize_user summarized is_user
summarize_at (some i) true s m = record m { inner = some (summarize_inner s i) }
summarize_at _ _ s m = record m {
  content = if is_user m then summarize_user s m.content else summarized s m.content;
}

unfoldable pub replace_with_summary : OffloadEntry → Message → Message
unfolding summary_content summarize_at is_wrapped
replace_with_summary e m = record (summarize_at m.inner (is_wrapped m) (summary_content e) m) {
  offloaded = true;
}
