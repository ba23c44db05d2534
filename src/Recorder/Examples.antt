-- ===== src/Recorder/Examples.antt =====
-- Runs of src/core/hooks/auto-capture.ts and src/core/conversation/l0-recorder.ts.
use chris_tencent_db_agent_m.Prelude.{
  ℕ, ◌≡◌, ◌≢◌, ◌<◌, refl, String, true, false, none, some, List, [], ◌∷◌, ◌++◌, arith, All,
}
use chris_tencent_db_agent_m.Prelude.Maps
use chris_tencent_db_agent_m.Checkpoint.{
  Checkpoint, default_checkpoint, default_runner, get_runner_state, after_timestamp,
  capture_atomically,
}
use chris_tencent_db_agent_m.Checkpoint.Cursor.{cursor}
use chris_tencent_db_agent_m.Recorder.{
  Texts, Raw, whole, ConversationMessage, Original, record_conversation,
}
use chris_tencent_db_agent_m.Recorder.Capture.{
  CaptureCall, saved, unlocked, unsaved, run_captures, captured_of,
}
use chris_tencent_db_agent_m.Recorder.Rounds.{IsIncreasing, run_captures-IsIncreasing}
use chris_tencent_db_agent_m.Recorder.Each.{considered, recorded_each, record_conversation-each}
use chris_tencent_db_agent_m.Recorder.Reading.{
  Line, parsed, skipped, lines_of, lines_for, append_lines, read_conversation_messages,
  read-append_lines, RecordedBy,
}

abbrev tx : Texts
tx = record {
  trim = λ s. s;
  strip_images = λ s. s;
  sanitize_text = λ s. s;
  strip_code_blocks = λ s. s;
  should_capture = λ s. true;
  fresh_id = λ n. "new";
}

abbrev says : String → ℕ → Raw
says text at = some (record { role = "user"; content = whole text; timestamp = some at; id = text })

abbrev message : String → ℕ → ConversationMessage
message text at = record { id = text; role = "user"; content = text; timestamp = at }

abbrev plain : Original
plain = record { user_text = ""; message_count = none }

abbrev call : List Raw → CaptureCall
call raws = record {
  now = 50;
  raws = raws;
  original = plain;
  plugin_start = none;
  has_scheduler = true;
  indexing = record { has_store = false; deferred = false; answers = [] };
  ending = saved;
}

abbrev start : Checkpoint
start = record default_checkpoint {
  runner_states = ("s", record default_runner { last_captured_timestamp = 3 }) ∷ [];
}

-- The host hands over the whole conversation each time.
abbrev two_rounds : List CaptureCall
two_rounds =
    call (says "a" 2 ∷ says "b" 5 ∷ none ∷ [])
    ∷ record (call []) { ending = unlocked }
    ∷ call (says "a" 2 ∷ says "b" 5 ∷ says "c" 9 ∷ [])
    ∷ []

two_recorded :
    (run_captures tx "s" two_rounds start).1 ≡ (message "b" 5 ∷ []) ∷ [] ∷ (message "c" 9 ∷ []) ∷ []
unfolding run_captures record_conversation after_timestamp get_runner_state Maps.get
    capture_atomically captured_of Maps.set
two_recorded = refl

start-cursor : 0 < cursor start "s"
unfolding get_runner_state Maps.get
start-cursor = omega arith

none-unsaved : All (λ (r : CaptureCall). r.ending ≢ unsaved) two_rounds
none-unsaved = ((λ e. cc), ((λ e. cc), ((λ e. cc), tt)))

run_captures-IsIncreasing_example :
    IsIncreasing (cursor start "s") (run_captures tx "s" two_rounds start).1
run_captures-IsIncreasing_example =
    run_captures-IsIncreasing tx "s" two_rounds start none-unsaved start-cursor

-- Where the checkpoint cannot be written, the next call records the same message again.
twice_recorded :
    (run_captures tx "s"
      (record (call (says "b" 5 ∷ [])) { ending = unsaved } ∷ call (says "b" 5 ∷ []) ∷ [])
      start).1
    ≡ (message "b" 5 ∷ []) ∷ (message "b" 5 ∷ []) ∷ []
unfolding run_captures record_conversation after_timestamp get_runner_state Maps.get
    capture_atomically captured_of Maps.set
twice_recorded = refl

record_conversation-each_example :
    record_conversation tx 50 plain 3 (says "a" 2 ∷ says "b" 5 ∷ [])
    ≡ recorded_each tx 50 3 0 (considered none (says "a" 2 ∷ says "b" 5 ∷ []))
record_conversation-each_example =
    record_conversation-each tx 50 3 plain (says "a" 2 ∷ says "b" 5 ∷ []) refl

abbrev file : List Line
file =
    skipped
    ∷ parsed
        (record { session_key = "s"; session_id = ""; recorded_at = 10; message = message "a" 2 })
    ∷ parsed
        (record { session_key = "t"; session_id = ""; recorded_at = 99; message = message "x" 1 })
    ∷ []

file-RecordedBy : RecordedBy 50 (lines_for "s" file)
unfolding lines_for
file-RecordedBy = (omega arith, tt)

read-append_lines_example :
    read_conversation_messages "s" 0 0 (append_lines (lines_of "s" "" 50 (message "b" 5 ∷ [])) file)
    ≡ read_conversation_messages "s" 0 0 file ++ (message "b" 5 ∷ [])
read-append_lines_example = read-append_lines "s" "" 50 (message "b" 5 ∷ []) file file-RecordedBy
