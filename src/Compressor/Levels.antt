-- ===== src/Compressor/Levels.antt =====
-- `resolveLevel` of src/offload_server/compact/compressor.ts. A ratio is a fraction.
use chris_tencent_db_agent_m.Prelude.{ℕ, ◌*◌, Bool, Option, leb, or_else, if◌then◌else◌}

pub record Ratio : Type 0 where
  pub num : ℕ
  pub den : ℕ

abbrev pub at_least : Ratio → Ratio → Bool
at_least r s = leb (s.num * r.den) (r.num * s.den)

pub data CompactionLevel : Type 0 where
  fastpath mild aggressive emergency : CompactionLevel

pub record LevelConfig : Type 0 where
  pub mild_ratio : Option Ratio
  pub aggressive_ratio : Option Ratio
  pub emergency_ratio : Option Ratio

unfoldable pub resolve_level : Ratio → LevelConfig → CompactionLevel
resolve_level r config =
    let mild_at = or_else config.mild_ratio (record { num = 50; den = 100 }) in
    let aggressive_at = or_else config.aggressive_ratio (record { num = 85; den = 100 }) in
    let emergency_at = or_else config.emergency_ratio (record { num = 95; den = 100 }) in
    if at_least r emergency_at
    then emergency
    else if at_least r aggressive_at
    then aggressive
    else if at_least r mild_at
    then mild
    else fastpath
