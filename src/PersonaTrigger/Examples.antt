-- ===== src/PersonaTrigger/Examples.antt =====
-- Runs of src/core/persona/persona-trigger.ts.
use chris_tencent_db_agent_m.Prelude.{◌≡◌, true}
use chris_tencent_db_agent_m.Checkpoint.{default_checkpoint}
use chris_tencent_db_agent_m.PersonaTrigger.{Scene, should_generate}
use chris_tencent_db_agent_m.PersonaTrigger.Reasons.{is_wanted, should_generate-is_wanted}

abbrev scene : Scene
scene = record { interval = 50; has_scene_files = true; has_persona_body = true; digits = λ n. "n" }

should_generate-is_wanted_example :
    (should_generate scene default_checkpoint).should ≡ is_wanted scene default_checkpoint
should_generate-is_wanted_example = should_generate-is_wanted scene default_checkpoint
