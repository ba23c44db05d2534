-- ===== src/StateBackend/Capture.antt =====
-- `captureAtomic` of src/core/state/local-backend.ts, cut at its `await`s: the message is appended,
-- the rounds are counted, and after an enqueued task the count is reset. Another call may come
-- between two parts. The session's state is the one in the map as long as no call replaces it there.
pub mod Outcomes
use chris_tencent_db_agent_m.Prelude.{
  ℕ, ◌+◌, String, Bool, true, false, List, [], ◌++◌, leb, or_else, if◌then◌else◌,
}
use chris_tencent_db_agent_m.Prelude.Maps
use chris_tencent_db_agent_m.Pipeline.State.{SessionState}
use chris_tencent_db_agent_m.StateBackend.State.{TaskPayload, Effect, Backend, k, default_state}
use chris_tencent_db_agent_m.StateBackend.Sessions.{append_buffer}
use chris_tencent_db_agent_m.StateBackend.Timers.{set_timer, remove_timer}
use chris_tencent_db_agent_m.StateBackend.Tasks.{enqueue_task}

pub record CaptureParams : Type 0 where
  pub instance_id : String
  pub session_id : String
  pub message_json : String
  pub threshold : ℕ
  pub fire_at_ms : ℕ
  pub timer_member : String
  pub task_payload : TaskPayload
  pub now_ms : ℕ
  pub rounds : ℕ

pub record CaptureResult : Type 0 where
  pub triggered : Bool
  pub conversation_count : ℕ

-- The state of the session, with the rounds counted.
unfoldable pub counted : CaptureParams → Backend → SessionState
unfolding default_state
counted p b =
    let s =
      or_else (Maps.get b.session_states (k p.instance_id p.session_id)) (default_state p.now_ms) in
    record s { conversation_count = s.conversation_count + p.rounds; last_active_time = p.now_ms }

unfoldable pub put_counted : CaptureParams → SessionState → Backend → Backend
put_counted p s b = record b {
  session_states = Maps.set b.session_states (k p.instance_id p.session_id) s;
}

-- The threshold is reached: what the call does is the task and, after the `await`, `capture_reset`.
unfoldable pub reaches : CaptureParams → Backend → Bool
unfolding counted
reaches p b = leb p.threshold (counted p b).conversation_count

unfoldable pub capture_counted : CaptureParams → Backend → Backend × List Effect
unfolding reaches put_counted counted
capture_counted p b =
    let b' = put_counted p (counted p b) b in
    if reaches p b
    then enqueue_task p.task_payload b'
    else set_timer p.now_ms p.instance_id p.timer_member p.fire_at_ms b'

reset_count : SessionState → SessionState
reset_count s = record s { conversation_count = 0 }

unfoldable pub capture_reset : CaptureParams → Backend → Backend × List Effect
unfolding reset_count put_counted
capture_reset p b =
    let s =
      or_else (Maps.get b.session_states (k p.instance_id p.session_id)) (default_state p.now_ms) in
    remove_timer p.instance_id p.timer_member (put_counted p (reset_count s) b)

-- The whole call, where no other comes between its parts.
unfoldable pub capture_atomic : CaptureParams → Backend → (Backend × List Effect) × CaptureResult
unfolding reaches capture_counted capture_reset counted
capture_atomic p b =
    let b1 = append_buffer p.instance_id p.session_id p.message_json b in
    let (b2, es) = capture_counted p b1 in
    if reaches p b1
    then (
      (let (b3, more) = capture_reset p b2 in (b3, es ++ more)),
      record { triggered = true; conversation_count = 0 },
    )
    else (
      (b2, es),
      record { triggered = false; conversation_count = (counted p b1).conversation_count },
    )
