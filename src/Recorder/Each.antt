-- ===== src/Recorder/Each.antt =====
-- What `recordConversation` of src/core/conversation/l0-recorder.ts does with each message by itself.
use Prim.Native.String.{◌++◌ as glue}
use chris_tencent_db_agent_m.Prelude.{
  zero, sym, String, Option, not, or_else, leb, length, ℕ, suc, ◌≡◌, refl, ◌∙◌, ap, Bool, true,
  false, ◌&&◌, ◌||◌, none, some, List, [], ◌∷◌, ◌++◌, ltb, ◌==◌, str_eq, eq_iff, if◌then◌else◌,
  arith, if_then, if_else,
}
use chris_tencent_db_agent_m.Recorder.{
  Texts, Raw, RawMessage, RawContent, whole, parts, other, raw_text, texts_of, join_lines, drop,
  uses_slice, ConversationMessage, Original, record_conversation, cleaned, sanitized, with_original,
  newer, sliced, extract_user_assistant_messages, is_spoken, is_speaker, spoken, spoken_text,
}

abbrev followed : String → Option String → String
followed t none = t
followed t (some rest) = glue t (glue "\n" rest)

-- The texts of the parts that have one, with line breaks between them.
abbrev said_parts : List (Option String) → Option String
said_parts [] = none
said_parts (none ∷ ps) = said_parts ps
said_parts (some t ∷ ps) = some (followed t (said_parts ps))

abbrev said : RawContent → String
said (whole s) = s
said (parts ps) = or_else (said_parts ps) ""
said other = ""

-- What is behind the first `n` messages, if there are so many.
abbrev behind_first : ℕ → List Raw → Option (List Raw)
behind_first zero ms = some ms
behind_first (suc n) [] = none
behind_first (suc n) (m ∷ ms) = behind_first n ms

abbrev pub considered : Option ℕ → List Raw → List Raw
considered none ms = ms
considered (some n) ms = or_else (behind_first n ms) ms

-- The message that is recorded of one of the host's that says a text, if any is.
abbrev recorded_of : Texts → ℕ → ℕ → ℕ → RawMessage → String → List ConversationMessage
recorded_of tx now cursor i m words =
    let text = tx.trim (tx.strip_images words) in
    let plain = tx.sanitize_text text in
    let clean = if str_eq m.role "assistant" then tx.strip_code_blocks plain else plain in
    let time = or_else m.timestamp now in
    let id = if str_eq m.id "" then tx.fresh_id i else m.id in
    if ((str_eq m.role "user" || str_eq m.role "assistant")
        && not (str_eq words "")
        && not (str_eq text ""))
      && (cursor == 0 || ltb cursor time)
      && tx.should_capture clean
    then record { id = id; role = m.role; content = clean; timestamp = time } ∷ []
    else []

unfoldable pub recorded_one : Texts → ℕ → ℕ → ℕ → Raw → List ConversationMessage
recorded_one tx now cursor i none = []
recorded_one tx now cursor i (some m) = recorded_of tx now cursor i m (said m.content)

unfoldable pub recorded_each : Texts → ℕ → ℕ → ℕ → List Raw → List ConversationMessage
unfolding recorded_one
recorded_each tx now cursor i [] = []
recorded_each tx now cursor i (m ∷ ms) =
    recorded_one tx now cursor i m ++ recorded_each tx now cursor (suc i) ms

joined : List String → Option String
joined [] = none
joined (u ∷ us) = some (join_lines (u ∷ us))

followed-joined : (t : String) (us : List String) → followed t (joined us) ≡ join_lines (t ∷ us)
unfolding joined join_lines
followed-joined t [] = refl
followed-joined t (u ∷ us) = refl

said-joined : (ps : List (Option String)) → said_parts ps ≡ joined (texts_of ps)
unfolding texts_of joined
said-joined [] = refl
said-joined (none ∷ ps) = said-joined ps
said-joined (some t ∷ ps) =
    ap (λ o. some (followed t o)) (said-joined ps) ∙ ap some (followed-joined t (texts_of ps))

or-joined : (us : List String) → or_else (joined us) "" ≡ join_lines us
unfolding joined join_lines
or-joined [] = refl
or-joined (u ∷ us) = refl

said-raw_text : (c : RawContent) → said c ≡ raw_text c
unfolding raw_text
said-raw_text (whole s) = refl
said-raw_text (parts ps) = ap (λ o. or_else o "") (said-joined ps) ∙ or-joined (texts_of ps)
said-raw_text other = refl

drop-behind_first :
    (n : ℕ) (ms all : List Raw)
    → (if leb n (length ms) then drop n ms else all) ≡ or_else (behind_first n ms) all
unfolding drop
drop-behind_first zero ms all = ground arith
drop-behind_first (suc n) [] all = ground arith
drop-behind_first (suc n) (m ∷ ms) all = ground (arith, drop-behind_first n ms all)

sliced-considered : (o : Option ℕ) (ms : List Raw) → sliced o ms ≡ considered o ms
unfolding sliced uses_slice drop
sliced-considered none ms = refl
sliced-considered (some zero) ms = refl
sliced-considered (some (suc n)) ms = ground (arith, drop-behind_first (suc n) ms ms)

newer-cons :
    (cursor : ℕ) (m : ConversationMessage) (ms : List ConversationMessage)
    → newer cursor (m ∷ ms)
      ≡ (if cursor == 0 || ltb cursor m.timestamp then m ∷ newer cursor ms else newer cursor ms)
unfolding newer
newer-cons cursor m ms = ground arith

newer-nil : (cursor : ℕ) → newer cursor [] ≡ []
unfolding newer
newer-nil cursor = ground arith

sanitized-nil : (tx : Texts) → sanitized tx [] ≡ []
unfolding sanitized
sanitized-nil tx = refl

kept :
    (c : ConversationMessage) (fits : Bool) (rest each : List ConversationMessage)
    → rest ≡ each
    → (if fits then c ∷ rest else rest) ≡ (if fits then c ∷ [] else []) ++ each
kept c true rest each h = ap (λ (l : List ConversationMessage). c ∷ l) h
kept c false rest each h = h

one_more :
    (tx : Texts) (c : ConversationMessage) (spoke new : Bool) (cursor : ℕ)
    (rest : List ConversationMessage) (each : List ConversationMessage)
    → (cursor == 0 || ltb cursor c.timestamp) ≡ new
    → sanitized tx (newer cursor rest) ≡ each
    → sanitized tx (newer cursor (if spoke then c ∷ rest else rest))
      ≡ (if spoke && new && tx.should_capture (cleaned tx c).content then cleaned tx c ∷ [] else [])
        ++ each
unfolding sanitized
one_more tx c false new cursor rest each e h = h
one_more tx c true true cursor rest each e h =
    ap (sanitized tx)
      (newer-cons cursor c rest ∙ if_then _ (c ∷ newer cursor rest) (newer cursor rest) e)
    ∙ kept (cleaned tx c) (tx.should_capture (cleaned tx c).content) _ each h
one_more tx c true false cursor rest each e h =
    ap (sanitized tx)
      (newer-cons cursor c rest ∙ if_else _ (c ∷ newer cursor rest) (newer cursor rest) e)
    ∙ h

one-spoken :
    (tx : Texts) (now cursor i : ℕ) (m : RawMessage)
    → (if is_spoken tx m
          && (cursor == 0 || ltb cursor (spoken tx now i m).timestamp)
          && tx.should_capture (cleaned tx (spoken tx now i m)).content
        then cleaned tx (spoken tx now i m) ∷ []
        else [])
      ≡ recorded_one tx now cursor i (some m)
unfolding is_spoken is_speaker spoken spoken_text cleaned recorded_one
one-spoken tx now cursor i m = ap (recorded_of tx now cursor i m) (sym (said-raw_text m.content))

each-from :
    (tx : Texts) (now cursor i : ℕ) (ms : List Raw)
    → sanitized tx (newer cursor (extract_user_assistant_messages tx now i ms))
      ≡ recorded_each tx now cursor i ms
unfolding extract_user_assistant_messages recorded_each
each-from tx now cursor i [] = ap (sanitized tx) (newer-nil cursor) ∙ sanitized-nil tx
each-from tx now cursor i (none ∷ ms) = each-from tx now cursor (suc i) ms
each-from tx now cursor i (some m ∷ ms) =
    one_more tx (spoken tx now i m) (is_spoken tx m) _ cursor _ _ refl
      (each-from tx now cursor (suc i) ms)
    ∙ ap (◌++ recorded_each tx now cursor (suc i) ms) (one-spoken tx now cursor i m)

-- Without an original text, recordConversation records, of the messages behind the given count or
-- of all if there are not so many, just those of the user and of the assistant whose text is not
-- empty, also once trimmed and without images, whose time is beyond the cursor if there is one,
-- and whose sanitized text, an assistant's without its code blocks, is to be captured: each with
-- its id or a made up one, its role, that sanitized text, and its time or that of the call, in
-- their order.
pub record_conversation-each :
    (tx : Texts) (now cursor : ℕ) (o : Original) (raws : List Raw)
    → o.user_text ≡ ""
    → record_conversation tx now o cursor raws
      ≡ recorded_each tx now cursor 0 (considered o.message_count raws)
unfolding record_conversation with_original
record_conversation-each tx now cursor o raws e =
    ap (sanitized tx)
      (if_then (str_eq o.user_text "") _ _ (ground (arith, e, eq_iff o.user_text "")))
    ∙ each-from tx now cursor 0 (sliced o.message_count raws)
    ∙ ap (recorded_each tx now cursor 0) (sliced-considered o.message_count raws)
