-- ===== src/ManagedTimer.antt =====
-- `ManagedTimer` of src/utils/managed-timer.ts. A callback is a value of `C`. `setTimeout` and the
-- clock belong to the host: an operation takes the time `now` and, where it calls `setTimeout`, the
-- handle that this call returns, and gives the host calls and the callbacks that it makes as effects.
pub mod Laws
pub mod Examples
use chris_tencent_db_agent_m.Prelude.{
  ℕ, ◌+◌, ◌-◌, Bool, true, false, Option, none, some, List, [], ◌∷◌, ◌++◌, ltb, is_some,
  if◌then◌else◌,
}

pub data Effect {ℓ} (C : Type ℓ) : Type ℓ where
  set_timeout : ℕ → ℕ → Effect C  -- the handle, and the delay in ms
  clear_timeout : ℕ → Effect C
  called : C → Effect C

pub record Timer {ℓ} (C : Type ℓ) : Type ℓ where
  pub handle : Option ℕ
  pub callback : Option C
  pub scheduled_at : ℕ

module _ {ℓ} {C : Type ℓ} where
  unfoldable pub new : Timer C
  new = record { handle = none; callback = none; scheduled_at = 0 }

  clear_handle : Option ℕ → List (Effect C)
  clear_handle none = []
  clear_handle (some h) = clear_timeout h ∷ []

  unfoldable pub cancel_internal : Timer C → Timer C × List (Effect C)
  unfolding clear_handle
  cancel_internal t =
      (record { handle = none; callback = none; scheduled_at = 0 }, clear_handle t.handle)

  unfoldable pub schedule : ℕ → ℕ → ℕ → C → Timer C → Timer C × List (Effect C)
  unfolding cancel_internal
  schedule now fresh delay_ms cb t =
      let (t', cleared) = cancel_internal t in
      (
        record { handle = some fresh; callback = some cb; scheduled_at = now + delay_ms },
        cleared ++ (set_timeout fresh delay_ms ∷ []),
      )

  -- `Math.max(0, epochMs - now)` is the truncated difference.
  unfoldable pub schedule_at : ℕ → ℕ → ℕ → C → Timer C → Timer C × List (Effect C)
  unfolding cancel_internal
  schedule_at now fresh epoch_ms cb t =
      let (t', cleared) = cancel_internal t in
      (
        record { handle = some fresh; callback = some cb; scheduled_at = epoch_ms },
        cleared ++ (set_timeout fresh (epoch_ms - now) ∷ []),
      )

  advance_from : Option ℕ → ℕ → ℕ → ℕ → C → Timer C → (Timer C × List (Effect C)) × Bool
  advance_from none now fresh epoch_ms cb t = (schedule_at now fresh epoch_ms cb t, true)
  advance_from (some h) now fresh epoch_ms cb t =
      if ltb epoch_ms t.scheduled_at
      then (schedule_at now fresh epoch_ms cb t, true)
      else ((t, []), false)

  unfoldable pub try_advance_to : ℕ → ℕ → ℕ → C → Timer C → (Timer C × List (Effect C)) × Bool
  unfolding advance_from schedule_at
  try_advance_to now fresh epoch_ms cb t = advance_from t.handle now fresh epoch_ms cb t

  unfoldable pub cancel : Timer C → Timer C × List (Effect C)
  unfolding cancel_internal
  cancel t = cancel_internal t

  call : Option C → List (Effect C)
  call none = []
  call (some cb) = called cb ∷ []

  flush_from : Option ℕ → Timer C → Timer C × List (Effect C)
  flush_from none t = (t, [])
  flush_from (some h) t = let (t', cleared) = cancel_internal t in (t', cleared ++ call t.callback)

  unfoldable pub flush : Timer C → Timer C × List (Effect C)
  unfolding flush_from cancel_internal call
  flush t = flush_from t.handle t

  -- The host's timeout for this timer has run out.
  unfoldable pub fire : Bool → Timer C → Timer C × List (Effect C)
  unfolding call
  fire is_destroyed t = (
    record { handle = none; callback = none; scheduled_at = 0 },
    if is_destroyed then [] else call t.callback,
  )

  unfoldable pub pending : Timer C → Bool
  pending t = is_some t.handle

  unfoldable pub scheduled_time : Timer C → ℕ
  scheduled_time t = if is_some t.handle then t.scheduled_at else 0

  -- The callbacks that an effect list calls.
  abbrev pub calls : List (Effect C) → List C
  calls [] = []
  calls (called cb ∷ es) = cb ∷ calls es
  calls (_ ∷ es) = calls es
