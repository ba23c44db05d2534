-- ===== src/StatefulPipeline/Flush.antt =====
-- What a flush of a session of src/utils/stateful-pipeline-manager.ts does.
use Prim.Native.String.{◌++◌ as glue}
use text.Mathlib.TextPositions.{eq_refl}
use chris_tencent_db_agent_m.Prelude.{
  ℕ, ◌+◌, ◌≡◌, sym, ap, ◌∙◌, String, Bool, false, ◌||◌, Option, none, some, List, [], ◌∷◌, ◌++◌,
  ◌==◌, arith, if_else, subst,
}
use chris_tencent_db_agent_m.Prelude.Maps
use chris_tencent_db_agent_m.Pipeline.State.{SessionState}
use chris_tencent_db_agent_m.StateBackend.State.{
  TaskPayload, InternalTimer, flush, Effect, Backend, k,
}
use chris_tencent_db_agent_m.StateBackend.Sessions.{get_session_state}
use chris_tencent_db_agent_m.StateBackend.Timers.{clear_handle, remove_timer, drop_timer}
use chris_tencent_db_agent_m.StateBackend.Timers.Earlier.{time_at, time_at-remove}
use chris_tencent_db_agent_m.StateBackend.Tasks.{enqueue_task}
use chris_tencent_db_agent_m.StateBackend.Tasks.Frame.{enqueue-frame}
use chris_tencent_db_agent_m.StateBackend.Tasks.Order.{delivered, count, count-enqueue}
use chris_tencent_db_agent_m.StatefulPipeline.{
  Manager, effective_id, is_refused, task_of, flush_over, flush_session,
}

delivered-cleared :
    (t : Option InternalTimer) (es : List Effect) → delivered (clear_handle t ++ es) ≡ delivered es
unfolding clear_handle
delivered-cleared t es = ground arith

-- The flush of a session: its idle timer is gone, and one flush task is queued or handed over.
abbrev pub Flushed : ℕ → String → String → Manager → Manager × List Effect → Type 0
Flushed now id key m r =
    (time_at r.0.backend (k id (glue key ":L1_idle")) ≡ none)
    × ((test : TaskPayload → Bool)
        → count test (delivered r.1) + count test r.0.backend.task_queue
          ≡ count test m.backend.task_queue + count test (task_of flush "flush-" now id key m ∷ []))

enqueue-Flushed :
    (now : ℕ) (id key : String) (m : Manager)
    → let r1 = remove_timer id (glue key ":L1_idle") m.backend in
      let r2 = enqueue_task (task_of flush "flush-" now id key m) r1.0 in
      Flushed now id key m (record m { backend = r2.0 }, r1.1 ++ r2.1)
unfolding remove_timer drop_timer time_at
enqueue-Flushed now id key m =
    let member = glue key ":L1_idle" in
    let task = task_of flush "flush-" now id key m in
    let b1 : Backend = (remove_timer id member m.backend).0 in
    let r2 = enqueue_task task b1 in
    let at = k id member in
    (
      ground (arith, enqueue-frame task b1, time_at-remove id member m.backend at, eq_refl at),
      λ test.
          ap (λ ts. count test ts + count test r2.0.task_queue)
            (delivered-cleared (Maps.get m.backend.timers at) r2.1)
          ∙ count-enqueue test task b1,
    )

flush_over-Flushed :
    (now : ℕ) (id key : String) (m : Manager) (s : SessionState)
    → (s.conversation_count == 0) ≡ false
    → Flushed now id key m (flush_over (some s) now id key m)
unfolding flush_over
flush_over-Flushed now id key m s h =
    subst (Flushed now id key m) (sym (if_else (s.conversation_count == 0) _ _ h))
      (enqueue-Flushed now id key m)

-- In a manager that is not destroyed, for an instance id that is set and a session that is not
-- skipped and has a count other than 0, flushSession takes away the session's idle timer and
-- enqueues one flush task of the session: of the tasks that pass any test, those handed over and
-- those then in the queue are together those that were in it and that task.
flush_session-Flushed :
    (now : ℕ) (key : String) (given : Option String) (m : Manager) (s : SessionState)
    → m.should_skip key ≡ false
    → is_refused given m ≡ false
    → get_session_state (effective_id given m) key m.backend ≡ some s
    → (s.conversation_count == 0) ≡ false
    → Flushed now (effective_id given m) key m (flush_session now key given m)
unfolding flush_session
flush_session-Flushed now key given m s skip refused e h =
    let id = effective_id given m in
    subst (Flushed now id key m)
      (sym (
        if_else (m.should_skip key || is_refused given m) _ _ (ground arith)
        ∙ ap (λ (o : Option SessionState). flush_over o now id key m) e))
      (flush_over-Flushed now id key m s h)
