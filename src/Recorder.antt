-- ===== src/Recorder.antt =====
-- What is recorded of a conversation: `recordConversation` of src/core/conversation/l0-recorder.ts, and
-- `performAutoCapture` of src/core/hooks/auto-capture.ts, which calls it within a checkpoint's capture.
pub mod Capture
pub mod Rounds
pub mod Each
pub mod Reading
pub mod Examples
use Prim.Native.String.{◌++◌ as glue}
use chris_tencent_db_agent_m.Prelude.{
  ℕ, zero, suc, max, String, Bool, true, false, ◌&&◌, ◌||◌, not, Option, none, some, List, [], ◌∷◌,
  ltb, leb, ◌==◌, length, keep, is_empty, is_some, or_else, str_eq, if◌then◌else◌,
}

-- The regular expressions and the texts' functions that are not modelled: `trim`, the images'
-- replacement, and those of src/utils/sanitize.ts; and the ids that are made up.
pub record Texts : Type 0 where
  pub trim : String → String
  pub strip_images : String → String
  pub sanitize_text : String → String
  pub strip_code_blocks : String → String
  pub should_capture : String → Bool
  pub fresh_id : ℕ → String

-- A part of an array's content has a text if it is of the type `text`.
pub data RawContent : Type 0 where
  whole : String → RawContent
  parts : List (Option String) → RawContent
  other : RawContent

-- A message as the host hands it over; an absent id is the empty string.
pub record RawMessage : Type 0 where
  pub role : String
  pub content : RawContent
  pub timestamp : Option ℕ
  pub id : String

-- None for what is no object.
abbrev pub Raw : Type 0
Raw = Option RawMessage

pub record ConversationMessage : Type 0 where
  pub id : String
  pub role : String
  pub content : String
  pub timestamp : ℕ

texts_of : List (Option String) → List String
texts_of [] = []
texts_of (none ∷ ps) = texts_of ps
texts_of (some t ∷ ps) = t ∷ texts_of ps

-- `textParts.join("\n")`.
join_lines : List String → String
join_lines [] = ""
join_lines (t ∷ []) = t
join_lines (t ∷ u ∷ ts) = glue t (glue "\n" (join_lines (u ∷ ts)))

raw_text : RawContent → String
unfolding texts_of join_lines
raw_text (whole s) = s
raw_text (parts ps) = join_lines (texts_of ps)
raw_text other = ""

is_speaker : String → Bool
is_speaker role = str_eq role "user" || str_eq role "assistant"

module _ (tx : Texts) where
  spoken_text : RawMessage → String
  unfolding raw_text
  spoken_text m = tx.trim (tx.strip_images (raw_text m.content))

  unfoldable pub is_spoken : RawMessage → Bool
  unfolding is_speaker spoken_text raw_text
  is_spoken m =
      is_speaker m.role && not (str_eq (raw_text m.content) "") && not (str_eq (spoken_text m) "")

  -- A message without a time has that of its extraction; the number is that of an id to make up.
  unfoldable pub spoken : ℕ → ℕ → RawMessage → ConversationMessage
  unfolding spoken_text
  spoken now i m = record {
    id = if str_eq m.id "" then tx.fresh_id i else m.id;
    role = m.role;
    content = spoken_text m;
    timestamp = or_else m.timestamp now;
  }

  unfoldable pub extract_user_assistant_messages : ℕ → ℕ → List Raw → List ConversationMessage
  unfolding is_spoken spoken
  extract_user_assistant_messages now i [] = []
  extract_user_assistant_messages now i (none ∷ ms) = extract_user_assistant_messages now (suc i) ms
  extract_user_assistant_messages now i (some m ∷ ms) =
      let rest = extract_user_assistant_messages now (suc i) ms in
      if is_spoken m then spoken now i m ∷ rest else rest

  cleaned : ConversationMessage → ConversationMessage
  cleaned m =
      let text = tx.sanitize_text m.content in
      record m { content = if str_eq m.role "assistant" then tx.strip_code_blocks text else text }

  unfoldable pub sanitized : List ConversationMessage → List ConversationMessage
  unfolding cleaned
  sanitized [] = []
  sanitized (m ∷ ms) =
      let rest = sanitized ms in
      if tx.should_capture (cleaned m).content then cleaned m ∷ rest else rest

-- `originalUserText` and `originalUserMessageCount`; an absent text is the empty string.
pub record Original : Type 0 where
  pub user_text : String
  pub message_count : Option ℕ

unfoldable pub uses_slice : Option ℕ → List Raw → Bool
uses_slice none ms = false
uses_slice (some n) ms = ltb 0 n && leb n (length ms)

drop : ℕ → List Raw → List Raw
drop zero xs = xs
drop (suc n) [] = []
drop (suc n) (x ∷ xs) = drop n xs

unfoldable pub sliced : Option ℕ → List Raw → List Raw
unfolding uses_slice drop
sliced n ms = if uses_slice n ms then drop (or_else n 0) ms else ms

head_of : List Raw → Raw
head_of [] = none
head_of (m ∷ ms) = m

timestamp_of : Raw → Option ℕ
timestamp_of none = none
timestamp_of (some m) = m.timestamp

-- `targetTs`: the time of the message that the original text is of.
target_timestamp : Option ℕ → List Raw → Option ℕ
unfolding sliced drop uses_slice head_of timestamp_of
target_timestamp n ms =
    if uses_slice n ms
    then timestamp_of (head_of (sliced n ms))
    else if is_some n
    then timestamp_of (head_of (drop (or_else n 0) ms))
    else none

-- The first message of the user at the time has the original text.
unfoldable pub put_original : ℕ → String → List ConversationMessage → List ConversationMessage
put_original ts text [] = []
put_original ts text (m ∷ ms) =
    let rest = put_original ts text ms in
    if str_eq m.role "user" && m.timestamp == ts then record m { content = text } ∷ ms else m ∷ rest

unfoldable pub replaced_at : Option ℕ → String → List ConversationMessage → List ConversationMessage
unfolding put_original
replaced_at none text ms = ms
replaced_at (some ts) text ms = put_original ts text ms

unfoldable pub with_original :
    Original → List Raw → List ConversationMessage → List ConversationMessage
unfolding replaced_at target_timestamp
with_original o raws ms =
    if str_eq o.user_text ""
    then ms
    else replaced_at (target_timestamp o.message_count raws) o.user_text ms

unfoldable pub newer : ℕ → List ConversationMessage → List ConversationMessage
newer cursor ms =
    if cursor == 0 then ms else keep (λ (m : ConversationMessage). ltb cursor m.timestamp) ms

-- The messages recorded, which the lines of the day's file are written of; the cursor is
-- `afterTimestamp`.
unfoldable pub record_conversation : Texts → ℕ → Original → ℕ → List Raw → List ConversationMessage
unfolding extract_user_assistant_messages sliced newer with_original sanitized
record_conversation tx now o cursor raws = sanitized tx (
    with_original o raws
      (newer cursor (extract_user_assistant_messages tx now 0 (sliced o.message_count raws))))
