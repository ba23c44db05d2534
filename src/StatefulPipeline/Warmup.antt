-- ===== src/StatefulPipeline/Warmup.antt =====
-- Under which instance the warm-up of src/utils/stateful-pipeline-manager.ts goes on.
use text.Mathlib.TextPositions.{eq_refl}
use chris_tencent_db_agent_m.Prelude.{
  ℕ, ◌+◌, ◌*◌, ◌⊎◌, ◌≡◌, ◌≢◌, ◌≤◌, ◌<◌, refl, sym, ap, ◌∙◌, String, true, false, Option, some,
  arith, leb, str_eq, eq_iff, or_else, if_map, if_same, if_then, if_else, not, ◌||◌, if◌then◌else◌,
  subst,
}
use chris_tencent_db_agent_m.Prelude.Maps.{get-set}
use chris_tencent_db_agent_m.Pipeline.State.{SessionState}
use chris_tencent_db_agent_m.StateBackend.State.{Backend, k, default_state}
use chris_tencent_db_agent_m.StateBackend.Sessions.{
  Patch, get_session_state, update_session_state, patched,
}
use chris_tencent_db_agent_m.StateBackend.Capture.{counted, capture_atomic}
use chris_tencent_db_agent_m.StateBackend.Capture.Outcomes.{total, capture_atomic-Outcome}
use chris_tencent_db_agent_m.StatefulPipeline.{
  Config, Manager, next_threshold, advance_warmup_in_backend, capture_params, warmup_of, activate,
  notify_with, get_effective_threshold, warmup_patch,
}

-- The session after a capture, before its warm-up is advanced.
captured : ℕ → String → String → ℕ → Manager → Manager
captured now id key rounds m = record m {
  backend = (capture_atomic (capture_params now id key rounds m) m.backend).0.0;
  active_instances = activate id m.active_instances;
}

-- The capture counts the rounds of the session and changes its warm-up threshold in nothing.
state-captured :
    (now : ℕ) (id key : String) (rounds : ℕ) (m : Manager) (s : SessionState)
    → get_session_state id key m.backend ≡ some s
    → (x : SessionState) × (get_session_state id key (captured now id key rounds m).backend
        ≡ some x)
      × (x.warmup_threshold ≡ s.warmup_threshold)
unfolding captured get_session_state capture_params counted
state-captured now id key rounds m s e =
    let p = capture_params now id key rounds m in
    let x : SessionState = record (counted p m.backend) {
      conversation_count = if leb p.threshold (total p m.backend) then 0 else total p m.backend;
    } in
    (
      x,
      (capture_atomic-Outcome p m.backend).2,
      ap (λ (o : Option SessionState). (or_else o (default_state now)).warmup_threshold) e,
    )

get-update :
    (now : ℕ) (i s j t : String) (p : Patch) (b : Backend)
    → get_session_state j t (update_session_state now i s p b) ≡ (
        if str_eq (k i s) (k j t)
        then some (patched p (or_else (get_session_state i s b) (default_state now)))
        else get_session_state j t b)
unfolding get_session_state update_session_state
get-update now i s j t p b = get-set b.session_states (k i s) (k j t) _

-- `advanceWarmupInBackend` leaves every key alone but the session's under the default instance.
frame-advance :
    (now : ℕ) (id key : String) (current : ℕ) (m : Manager)
    → k m.default_instance_id key ≢ k id key
    → get_session_state id key (advance_warmup_in_backend now key current m).backend
      ≡ get_session_state id key m.backend
unfolding advance_warmup_in_backend
frame-advance now id key current m h =
    let d = m.default_instance_id in
    let same : str_eq (k d key) (k id key) ≡ false = ground (arith, eq_iff (k d key) (k id key)) in
    if_map (λ (n : Manager). get_session_state id key n.backend)
      (not m.enable_warmup || leb current 0) m _ _ _ refl
      (get-update now d key id key (warmup_patch m.config current) m.backend
        ∙ if_else (str_eq (k d key) (k id key)) _ _ same)
    ∙ if_same (not m.enable_warmup || leb current 0) (get_session_state id key m.backend)

state-notify :
    (now : ℕ) (id key : String) (rounds : ℕ) (m : Manager)
    → k m.default_instance_id key ≢ k id key
    → get_session_state id key (notify_with now id key rounds m).0.backend
      ≡ get_session_state id key (captured now id key rounds m).backend
unfolding notify_with captured
state-notify now id key rounds m h =
    let m' : Manager = captured now id key rounds m in
    let trig = (capture_atomic (capture_params now id key rounds m) m.backend).1.triggered in
    let warmup = warmup_of (get_session_state id key m.backend) 1 in
    if_map (λ (n : Manager). get_session_state id key n.backend) trig
      (advance_warmup_in_backend now key warmup m') m' _ _ (frame-advance now id key warmup m' h)
      refl
    ∙ if_same trig (get_session_state id key m'.backend)

-- A notification of a session whose key is not the one under the default instance never changes
-- the session's warm-up threshold, whether it triggers or not.
pub warmup_stuck :
    (now : ℕ) (id key : String) (rounds : ℕ) (m : Manager) (s : SessionState)
    → k m.default_instance_id key ≢ k id key
    → get_session_state id key m.backend ≡ some s
    → (x : SessionState) × (get_session_state id key (notify_with now id key rounds m).0.backend
        ≡ some x)
      × (x.warmup_threshold ≡ s.warmup_threshold)
warmup_stuck now id key rounds m s h e =
    let c = state-captured now id key rounds m s e in
    (c.0, state-notify now id key rounds m h ∙ c.1, c.2)

state-advance :
    (now : ℕ) (key : String) (current : ℕ) (m : Manager) (x : SessionState)
    → m.enable_warmup ≡ true
    → 0 < current
    → get_session_state m.default_instance_id key m.backend ≡ some x
    → get_session_state m.default_instance_id key
        (advance_warmup_in_backend now key current m).backend
      ≡ some
          (record x { conversation_count = 0; warmup_threshold = next_threshold m.config current })
unfolding advance_warmup_in_backend warmup_patch patched
state-advance now key current m x w h e =
    let d = m.default_instance_id in
    let goes_on : (not m.enable_warmup || leb current 0) ≡ false = ground arith in
    let p = warmup_patch m.config current in
    ap (λ (n : Manager). get_session_state d key n.backend)
      (if_else (not m.enable_warmup || leb current 0) m _ goes_on)
    ∙ get-update now d key d key p m.backend
    ∙ if_then (str_eq (k d key) (k d key)) _ _ (eq_refl (k d key))
    ∙ ap (λ (o : Option SessionState). some (patched p (or_else o (default_state now)))) e

triggered-default :
    (now : ℕ) (id key : String) (rounds : ℕ) (m : Manager) (s : SessionState)
    → get_session_state id key m.backend ≡ some s
    → leb (get_effective_threshold m.config s.warmup_threshold) (s.conversation_count + rounds)
      ≡ true
    → (capture_atomic (capture_params now id key rounds m) m.backend).1.triggered ≡ true
unfolding capture_params counted get_session_state
triggered-default now id key rounds m s e f =
    (capture_atomic-Outcome (capture_params now id key rounds m) m.backend).0
    ∙ ap
        (λ (o : Option SessionState).
          leb (get_effective_threshold m.config (warmup_of o (if m.enable_warmup then 1 else 0)))
            ((or_else o (default_state now)).conversation_count + rounds))
        e
    ∙ f

-- Twice the old threshold while that stays below everyNConversations, and 0 from there on.
abbrev pub IsNext : ℕ → ℕ → ℕ → Type 0
IsNext every old new = (new ≡ 2 * old) × (2 * old < every) ⊎ (new ≡ 0) × (every ≤ 2 * old)

next_threshold-IsNext :
    (c : Config) (old : ℕ) → IsNext c.every_n_conversations old (next_threshold c old)
unfolding next_threshold
next_threshold-IsNext c old = ground arith

reached :
    (m : Manager) (threshold n : ℕ)
    → m.enable_warmup ≡ true
    → 0 < threshold
    → (threshold ≤ n) ⊎ (m.every_n_conversations ≤ n)
    → leb (get_effective_threshold m.config threshold) n ≡ true
unfolding get_effective_threshold
reached m threshold n w h f = ground arith

-- With warm-up enabled, when a notification of a session of the default instance, whose warm-up
-- threshold is above 0, brings its count with the rounds to that threshold or to
-- everyNConversations, the session's count is 0 afterwards and its warm-up threshold is twice the
-- old one if that is below everyNConversations, and 0 if not.
pub warmup-notify_default :
    (now : ℕ) (key : String) (rounds : ℕ) (m : Manager) (s : SessionState)
    → m.enable_warmup ≡ true
    → 0 < s.warmup_threshold
    → get_session_state m.default_instance_id key m.backend ≡ some s
    → (s.warmup_threshold ≤ s.conversation_count + rounds)
      ⊎ (m.every_n_conversations ≤ s.conversation_count + rounds)
    → (x : SessionState) × (get_session_state m.default_instance_id key
          (notify_with now m.default_instance_id key rounds m).0.backend
        ≡ some x)
      × (x.conversation_count ≡ 0)
      × IsNext m.every_n_conversations s.warmup_threshold x.warmup_threshold
unfolding notify_with captured
warmup-notify_default now key rounds m s w h e f =
    let d = m.default_instance_id in
    let m' : Manager = captured now d key rounds m in
    let current = warmup_of (get_session_state d key m.backend) 1 in
    let same : current ≡ s.warmup_threshold = ap (λ (o : Option SessionState). warmup_of o 1) e in
    let c = state-captured now d key rounds m s e in
    let x : SessionState = record c.0 {
      conversation_count = 0;
      warmup_threshold = next_threshold m.config current;
    } in
    (
      x,
      ap (λ (n : Manager). get_session_state d key n.backend)
            (if_then _ (advance_warmup_in_backend now key current m') m'
              (triggered-default now d key rounds m s e (reached m s.warmup_threshold _ w h f)))
          ∙ state-advance now key current m' c.0 w (subst (λ n. 0 < n) (sym same) h) c.1,
      refl,
      subst (IsNext m.every_n_conversations s.warmup_threshold)
          (sym (ap (next_threshold m.config) same))
          (next_threshold-IsNext m.config s.warmup_threshold),
    )
