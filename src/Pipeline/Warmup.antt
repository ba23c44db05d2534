-- ===== src/Pipeline/Warmup.antt =====
-- The warm-up of src/utils/pipeline-manager.ts: 1, 2, 4, 8, … up to `everyNConversations`.
use native.Mathlib.Nat.{pow-suc}
use chris_tencent_db_agent_m.Prelude.{ℕ, zero, suc, ◌^◌, ◌<◌, ◌≤◌, ◌≡◌, true, min, arith, ◌⊎◌, inl}
use chris_tencent_db_agent_m.Pipeline.State.{Config, SessionState}
use chris_tencent_db_agent_m.Pipeline.Timing.{get_effective_threshold, advance_warmup_threshold}

-- The state after `n` runs of L1.
abbrev pub after_runs : Config → ℕ → SessionState → SessionState
after_runs c zero s = s
after_runs c (suc n) s = advance_warmup_threshold c (after_runs c n s)

pow-pos : (n : ℕ) → 0 < 2 ^ n
pow-pos zero = omega arith
pow-pos (suc n) = omega (arith, pow-pos n, pow-suc 2 n)

-- Either the warm-up goes on at 2 ^ n, or it is over and 2 ^ n has reached the limit.
after_runs-threshold :
    (c : Config) (n : ℕ) (s : SessionState)
    → c.enable_warmup ≡ true
    → s.warmup_threshold ≡ 1
    → let t = (after_runs c n s).warmup_threshold in
      (t ≡ 2 ^ n) ⊎ ((t ≡ 0) × (c.every_n_conversations ≤ 2 ^ n))
unfolding advance_warmup_threshold
after_runs-threshold c zero s e w = inl (ground arith)
after_runs-threshold c (suc n) s e w = ground (arith, after_runs-threshold c n s, pow-suc 2 n)

-- With warm-up enabled, after n runs of L1 the effective threshold of a session that began at
-- warm-up threshold 1 is 2 ^ n, or everyNConversations if that is less.
threshold-after_runs :
    (c : Config) (n : ℕ) (s : SessionState)
    → c.enable_warmup ≡ true
    → s.warmup_threshold ≡ 1
    → get_effective_threshold c (after_runs c n s) ≡ min (2 ^ n) c.every_n_conversations
unfolding get_effective_threshold
threshold-after_runs c n s e w = ground (arith, after_runs-threshold c n s, pow-pos n)

-- The effective threshold of a session is at most everyNConversations, whether it warms up or not.
threshold-le :
    (c : Config) (s : SessionState) → get_effective_threshold c s ≤ c.every_n_conversations
unfolding get_effective_threshold
threshold-le c s = ground arith
