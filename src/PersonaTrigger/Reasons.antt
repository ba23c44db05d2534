-- ===== src/PersonaTrigger/Reasons.antt =====
-- When src/core/persona/persona-trigger.ts triggers, and when it is done.
use chris_tencent_db_agent_m.Prelude.{
  ℕ, ◌≡◌, ◌<◌, String, Bool, true, false, ◌&&◌, ◌||◌, not, ltb, leb, ◌==◌, str_eq, arith,
}
use chris_tencent_db_agent_m.Checkpoint.{Checkpoint, mark_persona_generated}
use chris_tencent_db_agent_m.PersonaTrigger.{Scene, should_generate, has_generated_persona}

-- A request; scenes of which there should be a persona and is none; the first scene's memories; or
-- as many memories as the interval.
abbrev pub is_wanted : Scene → Checkpoint → Bool
is_wanted s cp =
    cp.request_persona_update
    || (s.has_scene_files
        && not s.has_persona_body
        && (ltb 0 cp.scenes_processed
            || ltb 0 cp.last_persona_at
            || not (str_eq cp.last_persona_time "")))
    || (cp.scenes_processed == 1 && ltb 0 cp.memories_since_last_persona)
    || leb s.interval cp.memories_since_last_persona

-- The trigger's priorities decide that a persona is generated exactly when it is requested, or
-- there are scene files, no persona's body, and a processed scene or an earlier persona, or the
-- first scene has given memories, or the memories since the last persona have reached the
-- interval.
pub should_generate-is_wanted :
    (s : Scene) (cp : Checkpoint) → (should_generate s cp).should ≡ is_wanted s cp
unfolding should_generate has_generated_persona
should_generate-is_wanted s cp = ground arith

-- Once a persona is marked as generated and its body is there, with an interval above 0, the
-- trigger does not ask for another.
mark_persona_generated-settles :
    (s : Scene) (cp : Checkpoint) (now : String) (total : ℕ)
    → s.has_persona_body ≡ true
    → 0 < s.interval
    → (should_generate s (mark_persona_generated now total cp)).should ≡ false
unfolding should_generate has_generated_persona mark_persona_generated
mark_persona_generated-settles s cp now total h i = ground (arith, h, i)
