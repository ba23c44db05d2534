-- ===== src/ManagedTimer/Examples.antt =====
-- Tests of the timers of src/utils/managed-timer.ts, and their theorems at concrete inputs.
use chris_tencent_db_agent_m.Prelude.{
  ◌≡◌, arith, refl, String, true, some, List, [], ◌∷◌, ltb, min, if◌then◌else◌,
}
use chris_tencent_db_agent_m.ManagedTimer.{
  Timer, set_timeout, clear_timeout, try_advance_to, pending, scheduled_time,
}
use chris_tencent_db_agent_m.ManagedTimer.Laws.{IsValid, try_advance_to-min}

-- Armed for 500, with handle 3.
abbrev armed : Timer String
armed = record { handle = some 3; callback = some "idle"; scheduled_at = 500 }

armed-IsValid : IsValid armed
armed-IsValid = (refl, λ e. ground arith)

abbrev no_more : List String
no_more = []

advanced : (try_advance_to 100 4 400 "l2" armed).0.1 ≡ clear_timeout 3 ∷ set_timeout 4 300 ∷ []
unfolding try_advance_to
advanced = refl

try_advance_to-min_example :
    let r = try_advance_to 100 4 400 "l2" armed in
    (pending r.0.0 ≡ true)
    × (scheduled_time r.0.0 ≡ (if pending armed then min 400 (scheduled_time armed) else 400))
    × (r.1 ≡ (if pending armed then ltb 400 (scheduled_time armed) else true))
try_advance_to-min_example = try_advance_to-min 100 4 400 "l2" armed
