-- ===== src/StatefulPipeline/Agreement.antt =====
-- That src/utils/stateful-pipeline-manager.ts computes what src/utils/pipeline-manager.ts does.
use chris_tencent_db_agent_m.Prelude.{ℕ, ◌≡◌, not, ◌||◌, some, arith, leb, if◌then◌else◌}
use chris_tencent_db_agent_m.Pipeline.State.{SessionState}
use chris_tencent_db_agent_m.Pipeline.State
use chris_tencent_db_agent_m.Pipeline.Timing
use chris_tencent_db_agent_m.Pipeline.Timing.{advance_warmup_threshold}
use chris_tencent_db_agent_m.StatefulPipeline.{Config, get_effective_threshold, next_threshold}
use chris_tencent_db_agent_m.StatefulPipeline.Worker.{desired_time, last_l2_of}

-- Two configurations with the same thresholds and intervals.
abbrev pub Agrees : State.Config → Config → Type 0
Agrees c d =
    (c.enable_warmup ≡ d.enable_warmup)
    × (c.every_n_conversations ≡ d.every_n_conversations)
    × (c.l2_delay_after_l1_ms ≡ d.l2_delay_after_l1_ms)
    × (c.l2_min_interval_ms ≡ d.l2_min_interval_ms)

-- Where their configurations agree on the warm-up, everyNConversations and the L2 intervals, the
-- two managers compute the same effective threshold of a session, the same next warm-up threshold,
-- and the same desired time of L2 from the time of its last run.
thresholds-agree :
    (c : State.Config) (d : Config) (s : SessionState) (now : ℕ)
    → Agrees c d
    → (Timing.get_effective_threshold c s ≡ get_effective_threshold d s.warmup_threshold)
      × ((advance_warmup_threshold c s).warmup_threshold ≡ (
          if not d.enable_warmup || leb s.warmup_threshold 0
          then s.warmup_threshold
          else next_threshold d s.warmup_threshold))
      × (desired_time d now (some s) ≡ Timing.desired_time c now (last_l2_of d (some s)))
unfolding Timing.get_effective_threshold get_effective_threshold advance_warmup_threshold
    next_threshold desired_time Timing.desired_time
thresholds-agree c d s now h =
    (ground (arith, h.0, h.1), ground (arith, h.0, h.1), ground (arith, h.2, h.3))
