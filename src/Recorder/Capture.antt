-- ===== src/Recorder/Capture.antt =====
-- `performAutoCapture` of src/core/hooks/auto-capture.ts: the recording within `captureAtomically` of
-- src/utils/checkpoint.ts, and the index of the store.
use chris_tencent_db_agent_m.Prelude.{
  ℕ, suc, max, String, Bool, true, false, Option, none, some, List, [], ◌∷◌, length, if◌then◌else◌,
}
use chris_tencent_db_agent_m.Checkpoint.{
  Checkpoint, Captured, capture_atomically, after_timestamp, get_runner_state,
}
use chris_tencent_db_agent_m.Recorder.{
  Texts, Raw, ConversationMessage, Original, record_conversation,
}

-- `Math.max` of the timestamps.
unfoldable pub newest_time : ℕ → List ConversationMessage → ℕ
newest_time n [] = n
newest_time n (m ∷ ms) = newest_time (max n m.timestamp) ms

-- What the callback of `captureAtomically` returns.
unfoldable pub captured_of : List ConversationMessage → Option Captured
unfolding newest_time
captured_of [] = none
captured_of (m ∷ ms) =
    some (record { max_timestamp = newest_time m.timestamp ms; message_count = length (m ∷ ms) })

-- How the store answers for a message: `upsertL0` returns true or false, or throws.
pub data Upsert : Type 0 where
  written refused failed : Upsert

-- Whether there is a store, and one whose embeddings are made later, and its answer for each message.
pub record Indexing : Type 0 where
  pub has_store : Bool
  pub deferred : Bool
  pub answers : List Upsert

is_written : Upsert → Bool
is_written written = true
is_written _ = false

-- `l0VectorsWritten` and the records left for the background.
unfoldable pub index_messages : Bool → List Upsert → List ConversationMessage → ℕ × List String
unfolding is_written
index_messages deferred [] ms = (0, [])
index_messages deferred (u ∷ us) [] = (0, [])
index_messages deferred (u ∷ us) (m ∷ ms) =
    let (n, later) = index_messages deferred us ms in
    if is_written u then (suc n, if deferred then m.content ∷ later else later) else (n, later)

pub record AutoCaptureResult : Type 0 where
  pub scheduler_notified : Bool
  pub l0_recorded_count : ℕ
  pub l0_vectors_written : ℕ
  pub filtered_messages : List ConversationMessage
  pub background : List String

-- How `captureAtomically` ends: as it should, or it throws before the messages are recorded, or after
-- them as the checkpoint is written.
pub data Ending : Type 0 where
  saved unlocked unsaved : Ending

-- One call: the messages, and what happens around them.
pub record CaptureCall : Type 0 where
  pub now : ℕ
  pub raws : List Raw
  pub original : Original
  pub plugin_start : Option ℕ
  pub has_scheduler : Bool
  pub indexing : Indexing
  pub ending : Ending

-- What `recordConversation` records, and the checkpoint after it.
unfoldable pub recorded_from : Texts → CaptureCall → ℕ → List ConversationMessage
recorded_from tx r after = record_conversation tx r.now r.original after r.raws

unfoldable pub recorded_by : Texts → String → CaptureCall → Checkpoint → List ConversationMessage
unfolding recorded_from
recorded_by tx key r cp =
    recorded_from tx r (after_timestamp r.plugin_start (get_runner_state cp key))

unfoldable pub captured_by : Texts → String → CaptureCall → Checkpoint → Checkpoint
unfolding recorded_from
captured_by tx key r cp =
    capture_atomically key r.plugin_start (λ after. captured_of (recorded_from tx r after)) cp

-- Both, by how the capture ends.
unfoldable pub captured_at :
    Ending → Texts → String → CaptureCall → Checkpoint → Checkpoint × List ConversationMessage
unfolding recorded_by captured_by
captured_at saved tx key r cp = (captured_by tx key r cp, recorded_by tx key r cp)
captured_at unlocked tx key r cp = (cp, [])
captured_at unsaved tx key r cp = (cp, recorded_by tx key r cp)

unfoldable pub indexed : Indexing → List ConversationMessage → ℕ × List String
unfolding index_messages
indexed ix ms = if ix.has_store then index_messages ix.deferred ix.answers ms else (0, [])

-- The embeddings, which go to the store only, are left out.
unfoldable pub perform_auto_capture :
    Texts → String → CaptureCall → Checkpoint → Checkpoint × AutoCaptureResult
unfolding captured_at indexed
perform_auto_capture tx key r cp =
    let (cp', ms) = captured_at r.ending tx key r cp in
    let (n, later) = indexed r.indexing ms in
    (
      cp',
      record {
        scheduler_notified = r.has_scheduler;
        l0_recorded_count = length ms;
        l0_vectors_written = n;
        filtered_messages = ms;
        background = later;
      },
    )

-- Calls one after the other, and the messages that each records.
unfoldable pub run_captures :
    Texts → String → List CaptureCall → Checkpoint → Checkpoint × List (List ConversationMessage)
unfolding perform_auto_capture
run_captures tx key [] cp = (cp, [])
run_captures tx key (r ∷ rs) cp =
    let (cp', result) = perform_auto_capture tx key r cp in
    let (out, logged) = run_captures tx key rs cp' in (out, result.filtered_messages ∷ logged)
