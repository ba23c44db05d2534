-- ===== src/ManagedTimer/Laws.antt =====
-- What holds of the timers of src/utils/managed-timer.ts.
use chris_tencent_db_agent_m.Prelude.{
  ℕ, ◌≡◌, Bool, true, Option, none, some, List, [], ◌∷◌, arith, ltb, is_some, if◌then◌else◌, min,
}
use chris_tencent_db_agent_m.ManagedTimer.{
  Timer, Effect, set_timeout, clear_timeout, called, schedule, schedule_at, try_advance_to, cancel,
  flush, fire, pending, scheduled_time, calls,
}

-- One call of the interface, with the time and the handle that `setTimeout` would return; or the
-- host's timeout, with the value of the owner's `isDestroyed`.
pub data Op {ℓ} (C : Type ℓ) : Type ℓ where
  schedules schedules_at tries_to_advance : ℕ → ℕ → ℕ → C → Op C
  cancels flushes : Op C
  fires : Bool → Op C

module _ {ℓ} {C : Type ℓ} where
  unfoldable pub step : Op C → Timer C → Timer C × List (Effect C)
  unfolding schedule schedule_at try_advance_to cancel flush fire
  step (schedules now fresh delay cb) t = schedule now fresh delay cb t
  step (schedules_at now fresh epoch cb) t = schedule_at now fresh epoch cb t
  step (tries_to_advance now fresh epoch cb) t = (try_advance_to now fresh epoch cb t).0
  step cancels t = cancel t
  step flushes t = flush t
  step (fires destroyed) t = fire destroyed t

  -- The timeout that the host holds for the timer, none at most, and `set_timeout` only while it
  -- holds none: `f` before the effects and `g` after.
  abbrev pub Hosted : Option ℕ → List (Effect C) → Option ℕ → Type 0
  Hosted f [] g = f ≡ g
  Hosted f (set_timeout h delay ∷ es) g = (f ≡ none) × Hosted (some h) es g
  Hosted f (clear_timeout h ∷ es) g = (f ≡ some h) × Hosted none es g
  Hosted f (called cb ∷ es) g = Hosted f es g

  -- What the host holds when the operation begins: its own timeout is gone when it fires.
  abbrev pub held : Op C → Timer C → Option ℕ
  held (fires destroyed) t = none
  held _ t = t.handle

  -- Whatever the operation, each timeout that it sets is set while the host holds none for the
  -- timer, each timeout that it clears is the one that the host holds, and the handle that the
  -- timer keeps is that of the timeout that the host then holds: no timeout of a timer is lost or
  -- doubled.
  step-Hosted : (op : Op C) (t : Timer C) → Hosted (held op t) (step op t).1 (step op t).0.handle
  unfolding step
  step-Hosted (schedules now fresh delay cb) t = ground arith
  step-Hosted _ t = ground arith

  -- A pending timer has a callback; one that is not pending has neither callback nor time.
  abbrev pub IsValid : Timer C → Type 0
  IsValid t = (is_some t.handle ≡ is_some t.callback) × (t.handle ≡ none → t.scheduled_at ≡ 0)

  -- Each operation keeps a timer well-formed: it has a callback exactly when it is pending, and a
  -- timer that is not pending has no time.
  keeps-IsValid : (op : Op C) (t : Timer C) → IsValid t → IsValid (step op t).0
  unfolding step
  keeps-IsValid (schedules now fresh delay cb) t v = ground arith
  keeps-IsValid _ t v = ground arith

  -- After tryAdvanceTo the timer is pending, at the given time if it was not pending and else at
  -- the earlier of the two times, and the result says whether the timer was newly set or moved to
  -- a strictly earlier time.
  pub try_advance_to-min :
      (now fresh epoch : ℕ) (cb : C) (t : Timer C)
      → let r = try_advance_to now fresh epoch cb t in
        (pending r.0.0 ≡ true)
        × (scheduled_time r.0.0 ≡ (if pending t then min epoch (scheduled_time t) else epoch))
        × (r.1 ≡ (if pending t then ltb epoch (scheduled_time t) else true))
  unfolding try_advance_to pending scheduled_time
  try_advance_to-min now fresh epoch cb t = ground arith

  -- Where an operation on a well-formed timer calls a callback, it is the callback that the timer
  -- holds, it is called once, and the timer is not pending after it.
  calls-step :
      (op : Op C) (t : Timer C) (cb : C) (more : List C)
      → IsValid t
      → calls (step op t).1 ≡ cb ∷ more
      → (t.callback ≡ some cb) × (more ≡ []) × ((step op t).0.handle ≡ none)
  unfolding step
  calls-step (schedules now fresh delay c) t cb more v e = ground arith
  calls-step _ t cb more v e = ground arith
