-- ===== src/Recorder/Rounds.antt =====
-- The times of what the captures of src/core/hooks/auto-capture.ts record.
use chris_tencent_db_agent_m.Prelude.{
  ℕ, ◌≤◌, ◌<◌, ◌≡◌, ◌≢◌, refl, sym, ◌∙◌, ap, max, String, ◌&&◌, Option, none, some, List, [], ◌∷◌,
  ltb, ◌==◌, keep, str_eq, eq_iff, if_elim, All, arith, subst,
}
use chris_tencent_db_agent_m.Prelude.Maps.{get-set}
use chris_tencent_db_agent_m.Checkpoint.{
  Checkpoint, RunnerState, capture_atomically, capture_over, after_timestamp, get_runner_state,
  put_runner_state,
}
use chris_tencent_db_agent_m.Checkpoint.Cursor.{cursor}
use chris_tencent_db_agent_m.Recorder.{
  Texts, ConversationMessage, record_conversation, cleaned, sanitized, put_original, replaced_at,
  with_original, newer, extract_user_assistant_messages, sliced,
}
use chris_tencent_db_agent_m.Recorder.Capture.{
  newest_time, captured_of, Ending, saved, unlocked, unsaved, CaptureCall, recorded_from,
  recorded_by, captured_by, captured_at, perform_auto_capture, run_captures,
}

-- The times of messages.
abbrev Times {κ} : (ℕ → Type κ) → List ConversationMessage → Type κ
Times P = All (λ m. P m.timestamp)

kept-Times :
    (cursor : ℕ) (ms : List ConversationMessage)
    → Times (λ t. cursor < t) (keep (λ (m : ConversationMessage). ltb cursor m.timestamp) ms)
kept-Times cursor [] = tt
kept-Times cursor (m ∷ ms) =
    if_elim (Times (λ t. cursor < t)) (ltb cursor m.timestamp) (m ∷ _) _
      (λ e. (ground (arith, e), kept-Times cursor ms)) (λ _. kept-Times cursor ms)

newer-Times :
    (cursor : ℕ) (ms : List ConversationMessage)
    → 0 < cursor
    → Times (λ t. cursor < t) (newer cursor ms)
unfolding newer
newer-Times cursor ms h =
    if_elim (Times (λ t. cursor < t)) (cursor == 0) ms _ (λ e. absurd (ground (arith, e, h)))
      (λ _. kept-Times cursor ms)

module _ {κ} (P : ℕ → Type κ) where
  put_original-Times :
      (ts : ℕ) (text : String) (ms : List ConversationMessage)
      → Times P ms
      → Times P (put_original ts text ms)
  unfolding put_original
  put_original-Times ts text [] h = h
  put_original-Times ts text (m ∷ ms) h =
      if_elim (Times P) (str_eq m.role "user" && m.timestamp == ts)
        (record m { content = text } ∷ ms) (m ∷ put_original ts text ms) (λ _. h)
        (λ _. (h.0, put_original-Times ts text ms h.1))

  replaced_at-Times :
      (o : Option ℕ) (text : String) (ms : List ConversationMessage)
      → Times P ms
      → Times P (replaced_at o text ms)
  unfolding replaced_at
  replaced_at-Times none text ms h = h
  replaced_at-Times (some ts) text ms h = put_original-Times ts text ms h

  sanitized-Times :
      (tx : Texts) (ms : List ConversationMessage) → Times P ms → Times P (sanitized tx ms)
  unfolding sanitized cleaned
  sanitized-Times tx [] h = h
  sanitized-Times tx (m ∷ ms) h =
      if_elim (Times P) (tx.should_capture (cleaned tx m).content) (cleaned tx m ∷ sanitized tx ms)
        (sanitized tx ms) (λ _. (h.0, sanitized-Times tx ms h.1)) (λ _. sanitized-Times tx ms h.1)

record-Times :
    (tx : Texts) (r : CaptureCall) (after : ℕ)
    → 0 < after
    → Times (λ t. after < t) (recorded_from tx r after)
unfolding recorded_from record_conversation with_original
record-Times tx r after h =
    let P : ℕ → Type 0 = λ t. after < t in
    let ms =
      newer after
        (extract_user_assistant_messages tx r.now 0 (sliced r.original.message_count r.raws)) in
    sanitized-Times P tx _ (
      if_elim (Times P) (str_eq r.original.user_text "") ms _ (λ _. newer-Times after _ h)
        (λ _. replaced_at-Times P _ r.original.user_text ms (newer-Times after _ h)))

put-cursor :
    (key : String) (s : RunnerState) (cp : Checkpoint)
    → cursor (put_runner_state key s cp) key ≡ s.last_captured_timestamp
unfolding get_runner_state put_runner_state
put-cursor key s cp = ground (arith, get-set cp.runner_states key key s, eq_iff key key)

-- The cursor after a capture is the newest_time time recorded, if all are after the cursor before.
capture-cursor :
    (ms : List ConversationMessage) (key : String) (cp : Checkpoint)
    → Times (λ t. cursor cp key < t) ms
    → cursor (capture_over (captured_of ms) key cp) key ≡ newest_time (cursor cp key) ms
unfolding capture_over captured_of newest_time
capture-cursor [] key cp h = put-cursor key (get_runner_state cp key) cp
capture-cursor (m ∷ ms) key cp h =
    put-cursor key
      (record (get_runner_state cp key) { last_captured_timestamp = newest_time m.timestamp ms }) cp
    ∙ ap (λ (n : ℕ). newest_time n ms) (omega (arith, h.0))

newest_time_le : (n : ℕ) (ms : List ConversationMessage) → n ≤ newest_time n ms
unfolding newest_time
newest_time_le n [] = omega arith
newest_time_le n (m ∷ ms) = omega (arith, newest_time_le (max n m.timestamp) ms)

after-cursor :
    (start : Option ℕ) (s : RunnerState)
    → 0 < s.last_captured_timestamp
    → after_timestamp start s ≡ s.last_captured_timestamp
unfolding after_timestamp
after-cursor start s h = ground (arith, h)

-- Each message of a call is newer than all those of the calls before, and than the time given.
abbrev pub IsIncreasing : ℕ → List (List ConversationMessage) → Type 0
IsIncreasing n [] = Unit
IsIncreasing n (ms ∷ rest) = Times (λ t. n < t) ms × IsIncreasing (newest_time n ms) rest

-- The checkpoint and the messages of one capture.
abbrev Advances : String → Checkpoint → Checkpoint × List ConversationMessage → Type 0
Advances key cp p =
    Times (λ t. cursor cp key < t) p.1 × (cursor p.0 key ≡ newest_time (cursor cp key) p.1)

saved-Advances :
    (tx : Texts) (key : String) (r : CaptureCall) (cp : Checkpoint)
    → 0 < cursor cp key
    → Advances key cp (captured_by tx key r cp, recorded_by tx key r cp)
unfolding captured_by recorded_by capture_atomically
saved-Advances tx key r cp h =
    let s = get_runner_state cp key in
    let later : Times (λ t. cursor cp key < t)
        (recorded_from tx r (after_timestamp r.plugin_start s)) =
      subst (λ (n : ℕ). Times (λ t. cursor cp key < t) (recorded_from tx r n))
        (sym (after-cursor r.plugin_start s h)) (record-Times tx r (cursor cp key) h) in
    (later, capture-cursor (recorded_from tx r (after_timestamp r.plugin_start s)) key cp later)

captured-Advances :
    (o : Ending) (tx : Texts) (key : String) (r : CaptureCall) (cp : Checkpoint)
    → o ≢ unsaved
    → 0 < cursor cp key
    → Advances key cp (captured_at o tx key r cp)
unfolding captured_at newest_time
captured-Advances saved tx key r cp d h = saved-Advances tx key r cp h
captured-Advances unlocked tx key r cp d h = (tt, refl)
captured-Advances unsaved tx key r cp d h = absurd (d refl)

-- Over any captures of a session that has a cursor, of which none fails between the recording of
-- its messages and the writing of the checkpoint, the recorded times of the messages of a capture
-- are beyond the cursor and beyond the recorded times of all captures before it. A message to
-- which the host gives no time is recorded with that of its capture.
pub run_captures-IsIncreasing :
    (tx : Texts) (key : String) (rs : List CaptureCall) (cp : Checkpoint)
    → All (λ (r : CaptureCall). r.ending ≢ unsaved) rs
    → 0 < cursor cp key
    → IsIncreasing (cursor cp key) (run_captures tx key rs cp).1
unfolding run_captures perform_auto_capture
run_captures-IsIncreasing tx key [] cp ok h = tt
run_captures-IsIncreasing tx key (r ∷ rs) cp ok h =
    let (cp', ms) = captured_at r.ending tx key r cp in
    let step = captured-Advances r.ending tx key r cp ok.0 h in
    (
      step.0,
      subst (λ (n : ℕ). IsIncreasing n (run_captures tx key rs cp').1) step.1
          (run_captures-IsIncreasing tx key rs cp' ok.1
            (omega (arith, h, step.1, newest_time_le (cursor cp key) ms))),
    )
