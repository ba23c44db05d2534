-- ===== src/Recorder/Reading.antt =====
-- `readConversationRecords` and `readConversationMessages` of src/core/conversation/l0-recorder.ts, over
-- the parsed lines of the day's files in the order of their names. A time is its number of ms.
use chris_tencent_db_agent_m.Prelude.{
  ℕ, ◌≤◌, ◌≡◌, refl, sym, ◌∙◌, ap, String, ◌&&◌, List, [], ◌∷◌, ◌++◌, ltb, leb, ◌==◌, length,
  str_eq, eq_iff, if◌then◌else◌, arith, All, not,
}
use chris_tencent_db_agent_m.Recorder.{ConversationMessage}

pub record StoredLine : Type 0 where
  pub session_key : String
  pub session_id : String
  pub recorded_at : ℕ
  pub message : ConversationMessage

-- A line that is no JSON, or none of the flat format, is skipped.
pub data Line : Type 0 where
  skipped : Line
  parsed : StoredLine → Line

-- The lines that `recordConversation` writes.
unfoldable pub lines_of : String → String → ℕ → List ConversationMessage → List StoredLine
lines_of key sid now [] = []
lines_of key sid now (m ∷ ms) =
    record { session_key = key; session_id = sid; recorded_at = now; message = m }
    ∷ lines_of key sid now ms

unfoldable pub lines_for : String → List Line → List StoredLine
lines_for key [] = []
lines_for key (skipped ∷ ls) = lines_for key ls
lines_for key (parsed l ∷ ls) =
    let rest = lines_for key ls in if str_eq l.session_key key then l ∷ rest else rest

-- A stable sort by the time of the recording.
unfoldable pub insert_record : StoredLine → List StoredLine → List StoredLine
insert_record l [] = l ∷ []
insert_record l (k ∷ ks) =
    if leb l.recorded_at k.recorded_at then l ∷ k ∷ ks else k ∷ insert_record l ks

unfoldable pub sort_records : List StoredLine → List StoredLine
unfolding insert_record
sort_records [] = []
sort_records (l ∷ ls) = insert_record l (sort_records ls)

unfoldable pub read_conversation_records : String → List Line → List StoredLine
unfolding lines_for sort_records
read_conversation_records key ls = sort_records (lines_for key ls)

unfoldable pub messages_after : ℕ → List StoredLine → List ConversationMessage
messages_after after [] = []
messages_after after (l ∷ ls) =
    let rest = messages_after after ls in
    if not (after == 0) && leb l.message.timestamp after then rest else l.message ∷ rest

-- `slice(-limit)` of what is longer; 0 is no limit.
unfoldable pub last_messages : ℕ → List ConversationMessage → List ConversationMessage
last_messages limit [] = []
last_messages limit (m ∷ ms) =
    if ltb 0 limit && ltb limit (length (m ∷ ms)) then last_messages limit ms else m ∷ ms

unfoldable pub read_conversation_messages : String → ℕ → ℕ → List Line → List ConversationMessage
unfolding read_conversation_records messages_after last_messages
read_conversation_messages key after limit ls =
    last_messages limit (messages_after after (read_conversation_records key ls))

stored_all : List StoredLine → List Line
stored_all [] = []
stored_all (l ∷ ls) = parsed l ∷ stored_all ls

-- A file with lines appended.
unfoldable pub append_lines : List StoredLine → List Line → List Line
unfolding stored_all
append_lines new old = old ++ stored_all new

lines_for-append :
    (key : String) (xs ys : List Line)
    → lines_for key (xs ++ ys) ≡ lines_for key xs ++ lines_for key ys
unfolding lines_for
lines_for-append key [] ys = refl
lines_for-append key (skipped ∷ xs) ys = lines_for-append key xs ys
lines_for-append key (parsed l ∷ xs) ys = ground (arith, lines_for-append key xs ys)

lines_for-own :
    (key sid : String) (now : ℕ) (ms : List ConversationMessage)
    → lines_for key (stored_all (lines_of key sid now ms)) ≡ lines_of key sid now ms
unfolding lines_for stored_all lines_of
lines_for-own key sid now [] = refl
lines_for-own key sid now (m ∷ ms) = ground (arith, lines_for-own key sid now ms, eq_iff key key)

insert_record-before :
    (l : StoredLine) (xs : List StoredLine) (key sid : String) (now : ℕ)
    (ms : List ConversationMessage)
    → l.recorded_at ≤ now
    → insert_record l (xs ++ lines_of key sid now ms)
      ≡ insert_record l xs ++ lines_of key sid now ms
unfolding insert_record lines_of
insert_record-before l [] key sid now [] h = refl
insert_record-before l [] key sid now (m ∷ ms) h = ground (arith, h)
insert_record-before l (x ∷ xs) key sid now ms h =
    ground (arith, insert_record-before l xs key sid now ms h)

sort_records-own :
    (key sid : String) (now : ℕ) (ms : List ConversationMessage)
    → sort_records (lines_of key sid now ms) ≡ lines_of key sid now ms
unfolding sort_records lines_of
sort_records-own key sid now [] = refl
sort_records-own key sid now (m ∷ ms) =
    ap
      (insert_record
        (record { session_key = key; session_id = sid; recorded_at = now; message = m }))
      (sort_records-own key sid now ms)
    ∙ insert_record-before _ [] key sid now ms (omega arith)

-- Nothing was recorded after a time.
abbrev pub RecordedBy : ℕ → List StoredLine → Type 0
RecordedBy now = All (λ (l : StoredLine). l.recorded_at ≤ now)

sort_records-append :
    (xs : List StoredLine) (key sid : String) (now : ℕ) (ms : List ConversationMessage)
    → RecordedBy now xs
    → sort_records (xs ++ lines_of key sid now ms) ≡ sort_records xs ++ lines_of key sid now ms
unfolding sort_records
sort_records-append [] key sid now ms h = sort_records-own key sid now ms
sort_records-append (x ∷ xs) key sid now ms h =
    ap (insert_record x) (sort_records-append xs key sid now ms h.1)
    ∙ insert_record-before x (sort_records xs) key sid now ms h.0

messages-append :
    (xs : List StoredLine) (key sid : String) (now : ℕ) (ms : List ConversationMessage)
    → messages_after 0 (xs ++ lines_of key sid now ms) ≡ messages_after 0 xs ++ ms
unfolding messages_after lines_of
messages-append [] key sid now [] = refl
messages-append [] key sid now (m ∷ ms) =
    ap (λ (l : List ConversationMessage). m ∷ l) (messages-append [] key sid now ms)
messages-append (x ∷ xs) key sid now ms =
    ap (λ (l : List ConversationMessage). x.message ∷ l) (messages-append xs key sid now ms)

no_limit : (ms : List ConversationMessage) → last_messages 0 ms ≡ ms
unfolding last_messages
no_limit [] = refl
no_limit (m ∷ ms) = refl

-- Where no line of a session was recorded after the given time, the messages recorded at that time
-- are read back behind all that readConversationMessages reads before they are appended, in their
-- order, if it is called without a cursor and without a limit.
pub read-append_lines :
    (key sid : String) (now : ℕ) (ms : List ConversationMessage) (ls : List Line)
    → RecordedBy now (lines_for key ls)
    → read_conversation_messages key 0 0 (append_lines (lines_of key sid now ms) ls)
      ≡ read_conversation_messages key 0 0 ls ++ ms
unfolding read_conversation_messages append_lines
read-append_lines key sid now ms ls h =
    let new = lines_of key sid now ms in
    no_limit _
    ∙ ap (λ (l : List StoredLine). messages_after 0 (sort_records l))
        (lines_for-append key ls (stored_all new)
          ∙ ap (λ (l : List StoredLine). lines_for key ls ++ l) (lines_for-own key sid now ms))
    ∙ ap (messages_after 0) (sort_records-append (lines_for key ls) key sid now ms h)
    ∙ messages-append (sort_records (lines_for key ls)) key sid now ms
    ∙ ap (λ (l : List ConversationMessage). l ++ ms)
        (sym (no_limit (messages_after 0 (sort_records (lines_for key ls)))))
