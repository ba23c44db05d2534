-- ===== src/StateBackend/Capture/Outcomes.antt =====
-- What a capture of src/core/state/local-backend.ts does, alone and between the parts of another.
use text.Mathlib.TextPositions.{eq_refl}
use chris_tencent_db_agent_m.Prelude.{
  ℕ, ◌+◌, ◌≡◌, refl, ap, ◌∙◌, String, Bool, true, false, none, some, List, [], ◌∷◌, ◌++◌, arith,
  leb, str_eq, or_else, if◌then◌else◌, if_then,
}
use chris_tencent_db_agent_m.Prelude.Maps
use chris_tencent_db_agent_m.Prelude.Maps.{get-set}
use chris_tencent_db_agent_m.Pipeline.State.{SessionState}
use chris_tencent_db_agent_m.StateBackend.State.{Effect, Backend, k, default_state}
use chris_tencent_db_agent_m.StateBackend.Sessions.{buffer_at, append_buffer}
use chris_tencent_db_agent_m.StateBackend.Sessions.Buffers.{buffer_at-append}
use chris_tencent_db_agent_m.StateBackend.Timers.Frame.{set_timer-frame, remove_timer-frame}
use chris_tencent_db_agent_m.StateBackend.Timers.Earlier.{
  time_at, time_at-set_timer, time_at-remove,
}
use chris_tencent_db_agent_m.StateBackend.Tasks.Frame.{enqueue-frame}
use chris_tencent_db_agent_m.StateBackend.Capture.{
  CaptureParams, CaptureResult, counted, put_counted, reaches, capture_counted, reset_count,
  capture_reset, capture_atomic,
}

abbrev pub key_of : CaptureParams → String
key_of p = k p.instance_id p.session_id

-- The session's state before the capture, a new one where there is none.
abbrev pub old : CaptureParams → Backend → SessionState
old p b = or_else (Maps.get b.session_states (key_of p)) (default_state p.now_ms)

-- The old count and the rounds of the capture.
abbrev pub total : CaptureParams → Backend → ℕ
total p b = (old p b).conversation_count + p.rounds

states-counted :
    (p : CaptureParams) (b : Backend)
    → (capture_counted p b).0.session_states ≡ Maps.set b.session_states (key_of p) (counted p b)
unfolding capture_counted put_counted
states-counted p b = ground (
  arith,
  enqueue-frame p.task_payload (put_counted p (counted p b) b),
  set_timer-frame p.now_ms p.instance_id p.timer_member p.fire_at_ms
      (put_counted p (counted p b) b),
)

state-counted :
    (p : CaptureParams) (b : Backend)
    → Maps.get (capture_counted p b).0.session_states (key_of p) ≡ some (counted p b)
state-counted p b = ground (
  arith,
  states-counted p b,
  get-set b.session_states (key_of p) (key_of p) (counted p b),
  eq_refl (key_of p),
)

buffers-counted : (p : CaptureParams) (b : Backend) → (capture_counted p b).0.buffers ≡ b.buffers
unfolding capture_counted put_counted
buffers-counted p b = ground (
  arith,
  enqueue-frame p.task_payload (put_counted p (counted p b) b),
  set_timer-frame p.now_ms p.instance_id p.timer_member p.fire_at_ms
      (put_counted p (counted p b) b),
)

time-counted :
    (p : CaptureParams) (b : Backend)
    → reaches p b ≡ false
    → time_at (capture_counted p b).0 (k p.instance_id p.timer_member) ≡ some p.fire_at_ms
unfolding capture_counted
time-counted p b h = ground (
  arith,
  time_at-set_timer p.now_ms p.instance_id p.timer_member p.fire_at_ms
      (put_counted p (counted p b) b) (k p.instance_id p.timer_member),
  eq_refl (k p.instance_id p.timer_member),
)

state-reset :
    (p : CaptureParams) (s : SessionState) (b : Backend)
    → Maps.get b.session_states (key_of p) ≡ some s
    → Maps.get (capture_reset p b).0.session_states (key_of p)
      ≡ some (record s { conversation_count = 0 })
unfolding capture_reset put_counted reset_count
state-reset p s b e =
    let old =
      or_else (Maps.get b.session_states (k p.instance_id p.session_id)) (default_state p.now_ms) in
    let x : SessionState = record old { conversation_count = 0 } in
    ground (
      arith,
      remove_timer-frame p.instance_id p.timer_member (put_counted p x b),
      get-set b.session_states (key_of p) (key_of p) x,
      eq_refl (key_of p),
    )

buffers-reset : (p : CaptureParams) (b : Backend) → (capture_reset p b).0.buffers ≡ b.buffers
unfolding capture_reset put_counted
buffers-reset p b = (remove_timer-frame p.instance_id p.timer_member _).1

time-reset :
    (p : CaptureParams) (b : Backend)
    → time_at (capture_reset p b).0 (k p.instance_id p.timer_member) ≡ none
unfolding capture_reset
time-reset p b = ground (
  arith,
  time_at-remove p.instance_id p.timer_member
      (put_counted p
        (record (or_else (Maps.get b.session_states (k p.instance_id p.session_id))
          (default_state p.now_ms)) { conversation_count = 0 })
        b)
      (k p.instance_id p.timer_member),
  eq_refl (k p.instance_id p.timer_member),
)

buffered :
    (p : CaptureParams) (b b' : Backend)
    → b'.buffers ≡ (append_buffer p.instance_id p.session_id p.message_json b).buffers
    → buffer_at b' (key_of p) ≡ buffer_at b (key_of p) ++ (p.message_json ∷ [])
unfolding buffer_at
buffered p b b' e =
    ap (λ (m : Maps.Map (List String)). or_else (Maps.get m (key_of p)) []) e
    ∙ buffer_at-append p.instance_id p.session_id p.message_json (key_of p) b
    ∙ if_then (str_eq (key_of p) (key_of p)) _ _ (eq_refl (key_of p))

-- What a capture that triggers, or one that does not, leaves behind.
abbrev pub Outcome :
    CaptureParams → Backend → Bool → (Backend × List Effect) × CaptureResult → Type 0
Outcome p b fires r =
    (r.1.triggered ≡ fires)
    × (r.1.conversation_count ≡ (if fires then 0 else total p b))
    × (Maps.get r.0.0.session_states (key_of p)
        ≡ some (record (old p b) {
          conversation_count = if fires then 0 else total p b;
          last_active_time = p.now_ms;
        }))
    × (buffer_at r.0.0 (key_of p) ≡ buffer_at b (key_of p) ++ (p.message_json ∷ []))
    × (time_at r.0.0 (k p.instance_id p.timer_member) ≡ (if fires then none else some p.fire_at_ms))

branch-Outcome :
    (p : CaptureParams) (b : Backend) (fires : Bool)
    → let b1 = append_buffer p.instance_id p.session_id p.message_json b in
      let r2 = capture_counted p b1 in
      let r3 = capture_reset p r2.0 in
      reaches p b1 ≡ fires
      → Outcome p b fires (
          if fires
          then ((r3.0, r2.1 ++ r3.1), record { triggered = true; conversation_count = 0 })
          else (r2, record { triggered = false; conversation_count = total p b1 }))
unfolding counted append_buffer
branch-Outcome p b true h =
    let b1 = append_buffer p.instance_id p.session_id p.message_json b in
    let b2 = (capture_counted p b1).0 in
    (
      refl,
      refl,
      state-reset p (counted p b1) b2 (state-counted p b1),
      buffered p b (capture_reset p b2).0 (buffers-reset p b2 ∙ buffers-counted p b1),
      time-reset p b2,
    )
branch-Outcome p b false h =
    let b1 = append_buffer p.instance_id p.session_id p.message_json b in
    (
      refl,
      refl,
      state-counted p b1,
      buffered p b (capture_counted p b1).0 (buffers-counted p b1),
      time-counted p b1 h,
    )

-- A capture that no other call interrupts triggers exactly when the session's count, 0 for a new
-- session, with the capture's rounds added reaches the threshold. The message is then at the end
-- of the session's buffer; the stored count, which is also the count in the result, is 0 if it
-- triggers and that sum if not; the stored active time is the capture's, and the rest of the state
-- is as before; and the timer's member has no timer if it triggers and is set to the given time if
-- not.
pub capture_atomic-Outcome :
    (p : CaptureParams) (b : Backend)
    → Outcome p b (leb p.threshold (total p b)) (capture_atomic p b)
unfolding capture_atomic reaches counted append_buffer
capture_atomic-Outcome p b = branch-Outcome p b (leb p.threshold (total p b)) refl

-- When a capture triggers and a second capture of the same session and threshold is counted before
-- the count of the first is reset, the second triggers as well.
reaches_again :
    (p q : CaptureParams) (b : Backend)
    → q.instance_id ≡ p.instance_id
    → q.session_id ≡ p.session_id
    → q.threshold ≡ p.threshold
    → reaches p b ≡ true
    → reaches q (capture_counted p b).0 ≡ true
unfolding reaches counted
reaches_again p q b ei es et h = ground (arith, state-counted p b)
