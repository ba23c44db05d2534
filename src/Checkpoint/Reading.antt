-- ===== src/Checkpoint/Reading.antt =====
-- `readRaw` and `writeRaw` of src/utils/checkpoint.ts. The parsing and printing of JSON come from
-- outside: what a text parses to has the fields that it has. Fields that the type does not name are
-- left out.
pub mod RoundTrip
use chris_tencent_db_agent_m.Prelude.{
  ℕ, ◌≡◌, refl, ap, ap₂, String, Bool, Option, none, some, List, [], ◌∷◌, or_else, str_eq,
  if◌then◌else◌, is_some,
}
use chris_tencent_db_agent_m.Prelude.Maps.{Map}
use chris_tencent_db_agent_m.Pipeline.State.{SessionState}
use chris_tencent_db_agent_m.Checkpoint.{
  RunnerState, Checkpoint, default_runner, default_pipeline, default_checkpoint,
}

pub record ParsedRunner : Type 0 where
  pub last_captured_timestamp : Option ℕ
  pub last_l1_cursor : Option ℕ
  pub last_scene_name : Option String

pub record ParsedPipeline : Type 0 where
  pub conversation_count : Option ℕ
  pub last_extraction_time : Option String
  pub last_extraction_updated_time : Option String
  pub last_active_time : Option ℕ
  pub l2_pending_l1_count : Option ℕ
  pub warmup_threshold : Option ℕ
  pub l2_last_extraction_time : Option String

-- The state of a session before it was split in two.
pub record OldState : Type 0 where
  pub runner : ParsedRunner
  pub pipeline : ParsedPipeline

pub record Parsed : Type 0 where
  pub last_captured_timestamp : Option ℕ
  pub total_processed : Option ℕ
  pub last_persona_at : Option ℕ
  pub last_persona_time : Option String
  pub request_persona_update : Option Bool
  pub persona_update_reason : Option String
  pub memories_since_last_persona : Option ℕ
  pub scenes_processed : Option ℕ
  pub runner_states : Option (Map ParsedRunner)
  pub pipeline_states : Option (Map ParsedPipeline)
  pub l0_conversations_count : Option ℕ
  pub total_memories_extracted : Option ℕ
  pub session_states : Option (Map OldState)

map_values : {V W : Type 0} → (V → W) → Map V → Map W
map_values f [] = []
map_values f ((k, v) ∷ m) = (k, f v) ∷ map_values f m

full_runner : ParsedRunner → RunnerState
unfolding default_runner
full_runner p = record {
  last_captured_timestamp =
      or_else p.last_captured_timestamp default_runner.last_captured_timestamp;
  last_l1_cursor = or_else p.last_l1_cursor default_runner.last_l1_cursor;
  last_scene_name = or_else p.last_scene_name default_runner.last_scene_name;
}

full_pipeline : ParsedPipeline → SessionState
unfolding default_pipeline
full_pipeline p =
    let d = default_pipeline in
    record {
      conversation_count = or_else p.conversation_count d.conversation_count;
      last_extraction_time = or_else p.last_extraction_time d.last_extraction_time;
      last_extraction_updated_time =
          or_else p.last_extraction_updated_time d.last_extraction_updated_time;
      last_active_time = or_else p.last_active_time d.last_active_time;
      l2_pending_l1_count = or_else p.l2_pending_l1_count d.l2_pending_l1_count;
      warmup_threshold = or_else p.warmup_threshold d.warmup_threshold;
      l2_last_extraction_time = or_else p.l2_last_extraction_time d.l2_last_extraction_time;
    }

-- An old state's warm-up threshold is not taken over.
old_pipeline : OldState → SessionState
unfolding full_pipeline default_pipeline
old_pipeline o = record (full_pipeline o.pipeline) {
  warmup_threshold = default_pipeline.warmup_threshold;
}

old_runner : OldState → RunnerState
unfolding full_runner
old_runner o = full_runner o.runner

-- The states of the sessions, old or split.
states_of :
    Option (Map OldState)
    → Option (Map ParsedRunner)
    → Option (Map ParsedPipeline)
    → Map RunnerState × Map SessionState
unfolding map_values full_runner full_pipeline old_runner old_pipeline
states_of (some old) none none = (map_values old_runner old, map_values old_pipeline old)
states_of old runners pipelines =
    (map_values full_runner (or_else runners []), map_values full_pipeline (or_else pipelines []))

unfoldable pub with_defaults : Parsed → Checkpoint
unfolding states_of default_checkpoint
with_defaults p =
    let d = default_checkpoint in
    let (runners, pipelines) = states_of p.session_states p.runner_states p.pipeline_states in
    record {
      last_captured_timestamp = or_else p.last_captured_timestamp d.last_captured_timestamp;
      total_processed = or_else p.total_processed d.total_processed;
      last_persona_at = or_else p.last_persona_at d.last_persona_at;
      last_persona_time = or_else p.last_persona_time d.last_persona_time;
      request_persona_update = or_else p.request_persona_update d.request_persona_update;
      persona_update_reason = or_else p.persona_update_reason d.persona_update_reason;
      memories_since_last_persona =
          or_else p.memories_since_last_persona d.memories_since_last_persona;
      scenes_processed = or_else p.scenes_processed d.scenes_processed;
      runner_states = runners;
      pipeline_states = pipelines;
      l0_conversations_count = or_else p.l0_conversations_count d.l0_conversations_count;
      total_memories_extracted = or_else p.total_memories_extracted d.total_memories_extracted;
    }

parsed_or_default : Option Parsed → Checkpoint
unfolding with_defaults
parsed_or_default none = default_checkpoint
parsed_or_default (some p) = with_defaults p

-- The file's text, if it can be read. One that is empty or does not parse gives the default.
unfoldable pub read_raw : (String → Option Parsed) → Option String → Checkpoint
unfolding parsed_or_default
read_raw parse none = default_checkpoint
read_raw parse (some text) =
    let read = parsed_or_default (parse text) in if str_eq text "" then default_checkpoint else read
