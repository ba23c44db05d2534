-- ===== src/Checkpoint/Reading/RoundTrip.antt =====
-- That a checkpoint of src/utils/checkpoint.ts that is written is read back.
use chris_tencent_db_agent_m.Prelude.{
  ◌≡◌, ◌≢◌, refl, ap, ap₂, ◌∙◌, String, Option, none, some, [], ◌∷◌, str_eq, eq_iff, arith, if_else,
}
use chris_tencent_db_agent_m.Prelude.Maps.{Map}
use chris_tencent_db_agent_m.Pipeline.State.{SessionState}
use chris_tencent_db_agent_m.Checkpoint.{RunnerState, Checkpoint, default_checkpoint}
use chris_tencent_db_agent_m.Checkpoint.Reading.{
  Parsed, ParsedRunner, ParsedPipeline, map_values, full_runner, full_pipeline, with_defaults,
  parsed_or_default, read_raw,
}

-- A session's state with all its fields.
abbrev pub whole_runner : RunnerState → ParsedRunner
whole_runner s = record {
  last_captured_timestamp = some s.last_captured_timestamp;
  last_l1_cursor = some s.last_l1_cursor;
  last_scene_name = some s.last_scene_name;
}

abbrev pub whole_pipeline : SessionState → ParsedPipeline
whole_pipeline s = record {
  conversation_count = some s.conversation_count;
  last_extraction_time = some s.last_extraction_time;
  last_extraction_updated_time = some s.last_extraction_updated_time;
  last_active_time = some s.last_active_time;
  l2_pending_l1_count = some s.l2_pending_l1_count;
  warmup_threshold = some s.warmup_threshold;
  l2_last_extraction_time = some s.l2_last_extraction_time;
}

-- What the text of a checkpoint parses to: all its fields, and no old states.
unfoldable pub whole : Checkpoint → Parsed
unfolding map_values
whole cp = record {
  last_captured_timestamp = some cp.last_captured_timestamp;
  total_processed = some cp.total_processed;
  last_persona_at = some cp.last_persona_at;
  last_persona_time = some cp.last_persona_time;
  request_persona_update = some cp.request_persona_update;
  persona_update_reason = some cp.persona_update_reason;
  memories_since_last_persona = some cp.memories_since_last_persona;
  scenes_processed = some cp.scenes_processed;
  runner_states = some (map_values whole_runner cp.runner_states);
  pipeline_states = some (map_values whole_pipeline cp.pipeline_states);
  l0_conversations_count = some cp.l0_conversations_count;
  total_memories_extracted = some cp.total_memories_extracted;
  session_states = none;
}

runners-whole : (m : Map RunnerState) → map_values full_runner (map_values whole_runner m) ≡ m
unfolding map_values full_runner
runners-whole [] = refl
runners-whole ((k, s) ∷ m) = ap (λ (r : Map RunnerState). (k, s) ∷ r) (runners-whole m)

pipelines-whole :
    (m : Map SessionState) → map_values full_pipeline (map_values whole_pipeline m) ≡ m
unfolding map_values full_pipeline
pipelines-whole [] = refl
pipelines-whole ((k, s) ∷ m) = ap (λ (r : Map SessionState). (k, s) ∷ r) (pipelines-whole m)

with_defaults-whole : (cp : Checkpoint) → with_defaults (whole cp) ≡ cp
unfolding with_defaults whole
with_defaults-whole cp =
    ap₂
      (λ (r : Map RunnerState) (p : Map SessionState). record cp {
        runner_states = r;
        pipeline_states = p;
      })
      (runners-whole cp.runner_states) (pipelines-whole cp.pipeline_states)

-- A checkpoint whose text is not empty and parses to all its fields, with no old session states,
-- is read back as it was written: no default replaces a field, in the sessions' states either.
pub read_raw-print :
    (parse : String → Option Parsed) (print : Checkpoint → String) (cp : Checkpoint)
    → parse (print cp) ≡ some (whole cp)
    → print cp ≢ ""
    → read_raw parse (some (print cp)) ≡ cp
unfolding read_raw parsed_or_default
read_raw-print parse print cp law n =
    if_else (str_eq (print cp) "") default_checkpoint (parsed_or_default (parse (print cp)))
      (ground (arith, eq_iff (print cp) "", n))
    ∙ ap parsed_or_default law
    ∙ with_defaults-whole cp
