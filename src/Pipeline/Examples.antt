-- ===== src/Pipeline/Examples.antt =====
-- A life of the manager of src/utils/pipeline-manager.ts, step by step, and its theorems on it.
use chris_tencent_db_agent_m.Prelude.{◌≡◌, refl, true, false, some, List, [], ◌∷◌, ◌++◌, arith}
use chris_tencent_db_agent_m.Prelude.Maps
use chris_tencent_db_agent_m.SerialQueue
use chris_tencent_db_agent_m.Pipeline.State.{
  Manager, Config, CapturedMessage, SessionState, Backlog, L1Phase, init, timers_of, put_timers,
  put_state, buffer_of, put_buffer, persist_states, new_state,
}
use chris_tencent_db_agent_m.Pipeline.Timing.{get_effective_threshold}
use chris_tencent_db_agent_m.Pipeline.L1.{enqueue_l1, l1_runner_failed, l1_runner_returned}
use chris_tencent_db_agent_m.Pipeline.L1.Task.{QueuedOnce}
use chris_tencent_db_agent_m.Pipeline.L1.Outcomes.{held, held-l1_failed}
use chris_tencent_db_agent_m.Pipeline.Notify.{notify_conversation, notify_resumed}
use chris_tencent_db_agent_m.Pipeline.Lifecycle.{Turn, notifies, resumes, l1_returns, step, run}
use chris_tencent_db_agent_m.Pipeline.Lifecycle.QueuedOnce.{run-QueuedOnce, init-QueuedOnce}
use chris_tencent_db_agent_m.Pipeline.L3.Single.{Single, L3Turn, l3_run, l3_run-Single}
use chris_tencent_db_agent_m.Pipeline.Notify.{gc_stale_sessions}
use chris_tencent_db_agent_m.Pipeline.Notify.Collected.{
  KeepsBuffers, gc_stale_sessions-KeepsBuffers,
}

abbrev config : Config
config = record {
  l1_idle_timeout_ms = 60_000;
  every_n_conversations = 5;
  enable_warmup = true;
  l2_delay_after_l1_ms = 90_000;
  l2_min_interval_ms = 900_000;
  l2_max_interval_ms = 3_600_000;
  session_active_window_ms = 86_400_000;
  should_skip = λ _. false;
  iso_string = λ _. "2026-01-01T00:00:00.000Z";
  has_l1_runner = true;
  has_l2_runner = true;
  has_l3_runner = true;
  has_persister = true;
}

abbrev hello : CapturedMessage
hello = record { role = "user"; content = "hello"; timestamp = "t1" }

-- The first conversation of a session reaches the warm-up threshold of 1, and L1 runs.
abbrev first : List Turn
first = notifies 1000 "s" (hello ∷ []) ∷ resumes 1001 "s" 1 ∷ []

first_runs : (run first (init config)).l1_phase ≡ L1Phase.at_runner "s" (hello ∷ [])
unfolding run step init notify_conversation notify_resumed enqueue_l1 SerialQueue.add put_timers
    timers_of buffer_of put_buffer persist_states put_state Maps.get Maps.set
    get_effective_threshold new_state
first_runs = refl

-- The runner fails, with a message that came while it ran in the buffer.
abbrev at_work : Manager
at_work = run (first ++ (notifies 1002 "s" (hello ∷ []) ∷ [])) (init config)

at_work-phase : at_work.l1_phase ≡ L1Phase.at_runner "s" (hello ∷ [])
unfolding run step init notify_conversation notify_resumed enqueue_l1 SerialQueue.add put_timers
    timers_of buffer_of put_buffer persist_states put_state Maps.get Maps.set
    get_effective_threshold new_state
at_work-phase = refl

held-l1_failed_example : held "s" (l1_runner_failed 2000 at_work) ≡ held "s" at_work
held-l1_failed_example = held-l1_failed 2000 "s" "s" (hello ∷ []) at_work at_work-phase

abbrev full : Backlog
full = record { has_full_backlog = true; has_more = true }

-- The runner has returned, and says that it left a full backlog.
abbrev backlogged : List Turn
backlogged = first ++ (l1_returns (some full) ∷ [])

abbrev left_behind : Manager
left_behind = run backlogged (init config)

left_behind-phase : left_behind.l1_phase ≡ L1Phase.at_persist "s" (some full)
unfolding run step init notify_conversation notify_resumed enqueue_l1 l1_runner_returned
    SerialQueue.add put_timers timers_of buffer_of put_buffer persist_states put_state Maps.get
    Maps.set get_effective_threshold new_state
left_behind-phase = refl

run-QueuedOnce_example : QueuedOnce (run backlogged (init config))
run-QueuedOnce_example = run-QueuedOnce backlogged (init config) (init-QueuedOnce config)

left_behind-QueuedOnce : QueuedOnce left_behind
left_behind-QueuedOnce = run-QueuedOnce backlogged (init config) (init-QueuedOnce config)

abbrev warming : SessionState
warming = new_state config 1000

-- L3 runs.
abbrev dreaming : Manager
dreaming = l3_run (L3Turn.triggers ∷ []) (init config)

init-Single : Single (init config)
unfolding init
init-Single = record {
  unpaused = refl;
  landed = λ _. refl;
  working = λ _. refl;
  phased = refl;
  one = refl;
  pending = λ e _. ground arith;
}

l3_run-Single_example : Single (l3_run (L3Turn.triggers ∷ []) (init config))
l3_run-Single_example = l3_run-Single (L3Turn.triggers ∷ []) (init config) init-Single

dreaming-Single : Single dreaming
dreaming-Single = l3_run-Single (L3Turn.triggers ∷ []) (init config) init-Single

gc_stale_sessions-KeepsBuffers_example :
    KeepsBuffers at_work (gc_stale_sessions 400_000_000 at_work)
gc_stale_sessions-KeepsBuffers_example = gc_stale_sessions-KeepsBuffers 400_000_000 at_work

-- Two idle sessions.
abbrev idle : Manager
idle = record (init config) {
  session_states = ("old", new_state config 1000) ∷ ("new", new_state config 300_000_000) ∷ [];
}
