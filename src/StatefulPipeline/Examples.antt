-- ===== src/StatefulPipeline/Examples.antt =====
-- Theorems of src/utils/stateful-pipeline-manager.ts at concrete inputs.
use chris_tencent_db_agent_m.Prelude.{
  ◌≡◌, refl, inl, arith, eq_iff, String, true, false, some, [], ◌∷◌,
}
use chris_tencent_db_agent_m.Prelude.Maps
use chris_tencent_db_agent_m.Pipeline.State
use chris_tencent_db_agent_m.Pipeline.State.{SessionState}
use chris_tencent_db_agent_m.StateBackend.State.{init, k}
use chris_tencent_db_agent_m.StateBackend.Sessions.{get_session_state}
use chris_tencent_db_agent_m.StatefulPipeline.{Config, Manager, notify_with}
use chris_tencent_db_agent_m.StatefulPipeline.Warmup.{IsNext, warmup_stuck, warmup-notify_default}

abbrev config : Config
config = record {
  l1_idle_timeout_ms = 60_000;
  every_n_conversations = 5;
  enable_warmup = true;
  l2_delay_after_l1_ms = 90_000;
  l2_min_interval_ms = 900_000;
  l2_max_interval_ms = 3_600_000;
  should_skip = λ _. false;
  digits = λ _. "7";
  epoch_of = λ _. 0;
  task_data = λ _ id. id;
  has_persister = true;
}

-- The same settings of the other manager.
abbrev in_process : State.Config
in_process = record {
  l1_idle_timeout_ms = 60_000;
  every_n_conversations = 5;
  enable_warmup = true;
  l2_delay_after_l1_ms = 90_000;
  l2_min_interval_ms = 900_000;
  l2_max_interval_ms = 3_600_000;
  session_active_window_ms = 86_400_000;
  should_skip = λ _. false;
  iso_string = λ _. "t";
  has_l1_runner = true;
  has_l2_runner = true;
  has_l3_runner = true;
  has_persister = true;
}

abbrev warming : SessionState
warming = record {
  conversation_count = 1;
  last_extraction_time = "";
  last_extraction_updated_time = "";
  last_active_time = 900;
  l2_pending_l1_count = 0;
  warmup_threshold = 2;
  l2_last_extraction_time = "";
}

-- The session `s` of the instance `a`, in a manager whose default instance is given.
abbrev serving : String → Manager
serving instance = record {
  config = config;
  backend = record (init false) { session_states = ("a:s", warming) ∷ [] };
  default_instance_id = instance;
  destroyed = false;
  active_instances = [];
  persisted = [];
}

warmup_stuck_example :
    (x : SessionState) × (get_session_state "a" "s"
        (notify_with 1000 "a" "s" 1 (serving "__unset__")).0.backend
      ≡ some x)
    × (x.warmup_threshold ≡ 2)
unfolding get_session_state Maps.get k
warmup_stuck_example =
    warmup_stuck 1000 "a" "s" 1 (serving "__unset__") warming
      (λ e. ground (arith, eq_iff "__unset__:s" "a:s")) refl

warmup-notify_default_example :
    (x : SessionState) × (get_session_state "a" "s"
        (notify_with 1000 "a" "s" 1 (serving "a")).0.backend
      ≡ some x)
    × (x.conversation_count ≡ 0)
    × IsNext 5 2 x.warmup_threshold
unfolding get_session_state Maps.get k
warmup-notify_default_example =
    warmup-notify_default 1000 "s" 1 (serving "a") warming refl (ground arith) refl
      (inl (omega arith))
