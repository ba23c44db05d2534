-- ===== src/Checkpoint.antt =====
-- `CheckpointManager` of src/utils/checkpoint.ts: the data of a checkpoint, and what each of its
-- methods changes in one. The counters are natural numbers; `now` is the ISO time of the host.
pub mod Reading
pub mod Split
pub mod Cursor
pub mod FileLock
pub mod Examples
use chris_tencent_db_agent_m.Prelude.{
  ℕ, suc, ◌+◌, String, Bool, true, false, ◌&&◌, Option, none, some, List, [], ◌∷◌, ltb, ◌==◌, max,
  or_else, if◌then◌else◌,
}
use chris_tencent_db_agent_m.Prelude.Maps
use chris_tencent_db_agent_m.Prelude.Maps.{Map}
use chris_tencent_db_agent_m.Pipeline.State.{SessionState}

pub record RunnerState : Type 0 where
  pub last_captured_timestamp : ℕ
  pub last_l1_cursor : ℕ
  pub last_scene_name : String

pub record Checkpoint : Type 0 where
  pub last_captured_timestamp : ℕ
  pub total_processed : ℕ
  pub last_persona_at : ℕ
  pub last_persona_time : String
  pub request_persona_update : Bool
  pub persona_update_reason : String
  pub memories_since_last_persona : ℕ
  pub scenes_processed : ℕ
  pub runner_states : Map RunnerState
  pub pipeline_states : Map SessionState
  pub l0_conversations_count : ℕ
  pub total_memories_extracted : ℕ

unfoldable pub default_runner : RunnerState
default_runner = record { last_captured_timestamp = 0; last_l1_cursor = 0; last_scene_name = "" }

unfoldable pub default_pipeline : SessionState
default_pipeline = record {
  conversation_count = 0;
  last_extraction_time = "";
  last_extraction_updated_time = "";
  last_active_time = 0;
  l2_pending_l1_count = 0;
  warmup_threshold = 0;
  l2_last_extraction_time = "";
}

unfoldable pub default_checkpoint : Checkpoint
default_checkpoint = record {
  last_captured_timestamp = 0;
  total_processed = 0;
  last_persona_at = 0;
  last_persona_time = "";
  request_persona_update = false;
  persona_update_reason = "";
  memories_since_last_persona = 0;
  scenes_processed = 0;
  runner_states = [];
  pipeline_states = [];
  l0_conversations_count = 0;
  total_memories_extracted = 0;
}

unfoldable pub clear_persona_request : Checkpoint → Checkpoint
clear_persona_request cp = record cp { request_persona_update = false; persona_update_reason = "" }

unfoldable pub mark_persona_generated : String → ℕ → Checkpoint → Checkpoint
mark_persona_generated now total_processed cp = record cp {
  last_persona_at = total_processed;
  last_persona_time = now;
  memories_since_last_persona = 0;
  request_persona_update = false;
  persona_update_reason = "";
}

unfoldable pub set_persona_update_request : String → Checkpoint → Checkpoint
set_persona_update_request reason cp = record cp {
  request_persona_update = true;
  persona_update_reason = reason;
}

unfoldable pub increment_scenes_processed : Checkpoint → Checkpoint
increment_scenes_processed cp = record cp { scenes_processed = cp.scenes_processed + 1 }

unfoldable pub get_runner_state : Checkpoint → String → RunnerState
unfolding default_runner
get_runner_state cp key = or_else (Maps.get cp.runner_states key) default_runner

-- What the caller of `getRunnerState` writes into the state it has got.
unfoldable pub put_runner_state : String → RunnerState → Checkpoint → Checkpoint
put_runner_state key state cp = record cp { runner_states = Maps.set cp.runner_states key state }

unfoldable get_pipeline_state : ℕ → Checkpoint → String → SessionState
unfolding default_pipeline
get_pipeline_state now cp key =
    or_else (Maps.get cp.pipeline_states key) (record default_pipeline { last_active_time = now })

-- The states that are merged have all their fields, so that none of an old one remains.
merged : Map SessionState → Map SessionState → Map SessionState
merged [] old = old
merged ((key, state) ∷ states) old = merged states (Maps.set old key state)

unfoldable pub merge_pipeline_states : Map SessionState → Checkpoint → Checkpoint
unfolding merged
merge_pipeline_states states cp = record cp { pipeline_states = merged states cp.pipeline_states }

-- A cursor of 0 is no cursor.
l1_cursor : Option ℕ → ℕ → ℕ
l1_cursor none old = old
l1_cursor (some cursor) old = if cursor == 0 then old else cursor

unfoldable pub mark_l1_extraction_complete :
    String → ℕ → Option ℕ → Option String → Checkpoint → Checkpoint
unfolding l1_cursor get_runner_state put_runner_state
mark_l1_extraction_complete key extracted cursor scene cp =
    let state = get_runner_state cp key in
    record (put_runner_state key
      (record state {
        last_l1_cursor = l1_cursor cursor state.last_l1_cursor;
        last_scene_name = or_else scene state.last_scene_name;
      })
      cp) {
        total_memories_extracted = cp.total_memories_extracted + extracted;
        memories_since_last_persona = cp.memories_since_last_persona + extracted;
      }

pub record Captured : Type 0 where
  pub max_timestamp : ℕ
  pub message_count : ℕ

-- The time after which messages are new: the cursor, or the start of the plugin where there is none.
unfoldable pub after_timestamp : Option ℕ → RunnerState → ℕ
after_timestamp start state =
    if state.last_captured_timestamp == 0 then or_else start 0 else state.last_captured_timestamp

unfoldable pub capture_over : Option Captured → String → Checkpoint → Checkpoint
unfolding get_runner_state put_runner_state
capture_over none key cp = put_runner_state key (get_runner_state cp key) cp
capture_over (some r) key cp =
    record (put_runner_state key
      (record (get_runner_state cp key) { last_captured_timestamp = r.max_timestamp }) cp) {
        last_captured_timestamp = max cp.last_captured_timestamp r.max_timestamp;
        total_processed = cp.total_processed + r.message_count;
        l0_conversations_count = cp.l0_conversations_count + 1;
      }

-- `captureAtomically`; the callback `fn` comes from outside.
unfoldable pub capture_atomically :
    String → Option ℕ → (ℕ → Option Captured) → Checkpoint → Checkpoint
unfolding capture_over after_timestamp get_runner_state
capture_atomically key start fn cp =
    capture_over (fn (after_timestamp start (get_runner_state cp key))) key cp
