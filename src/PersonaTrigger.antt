-- ===== src/PersonaTrigger.antt =====
-- `PersonaTrigger` of src/core/persona/persona-trigger.ts: whether a persona is to be generated, and
-- why. Whether there are scene files and a persona's body comes from the storage.
pub mod Reasons
pub mod Examples
use Prim.Native.String.{◌++◌ as glue}
use chris_tencent_db_agent_m.Prelude.{
  ℕ, String, Bool, true, false, ◌&&◌, ◌||◌, not, ltb, leb, ◌==◌, str_eq, if◌then◌else◌,
}
use chris_tencent_db_agent_m.Checkpoint.{Checkpoint}

-- What the trigger finds in the storage; `digits` writes a number.
pub record Scene : Type 0 where
  pub interval : ℕ
  pub has_scene_files : Bool
  pub has_persona_body : Bool
  pub digits : ℕ → String

pub record TriggerResult : Type 0 where
  pub should : Bool
  pub reason : String

triggered : String → TriggerResult
triggered reason = record { should = true; reason = reason }

unfoldable pub has_generated_persona : Scene → Checkpoint → Bool
has_generated_persona s cp =
    ltb 0 cp.last_persona_at || not (str_eq cp.last_persona_time "") || s.has_persona_body

unfoldable pub should_generate : Scene → Checkpoint → TriggerResult
unfolding triggered has_generated_persona
should_generate s cp =
    if cp.request_persona_update
    then triggered (
        glue "主动请求: "
          (if str_eq cp.persona_update_reason "" then "Agent 请求更新" else cp.persona_update_reason))
    else if ltb 0 cp.scenes_processed && not (has_generated_persona s cp) && s.has_scene_files
    then triggered "首次冷启动：首次提取完成且有场景文件"
    else if has_generated_persona s cp && s.has_scene_files && not s.has_persona_body
    then triggered "恢复：persona.md 正文丢失或为空，需要重新生成"
    else if cp.scenes_processed == 1 && ltb 0 cp.memories_since_last_persona
    then triggered "首次 Scene Block 提取完成"
    else if leb s.interval cp.memories_since_last_persona
    then triggered (
        glue "达到阈值: "
          (glue (s.digits cp.memories_since_last_persona) (glue " >= " (s.digits s.interval))))
    else record { should = false; reason = "" }
