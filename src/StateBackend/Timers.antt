-- ===== src/StateBackend/Timers.antt =====
-- The timers of src/core/state/local-backend.ts. The host is asked for a timeout only where an
-- `onTimerExpired` is given.
pub mod Frame
pub mod Earlier
use text.Mathlib.Text.{starts_with}
use chris_tencent_db_agent_m.Prelude.{
  ℕ, suc, ◌-◌, String, Bool, true, false, ◌&&◌, Option, none, some, List, [], ◌∷◌, ◌++◌, leb,
  if◌then◌else◌,
}
use chris_tencent_db_agent_m.Prelude.Maps
use chris_tencent_db_agent_m.Prelude.Maps.{Map}
use chris_tencent_db_agent_m.StateBackend.State.{
  TimerEntry, InternalTimer, Effect, set_timeout, clear_timeout, timer_expired, Backend, k,
  prefix_of,
}

-- `if (existing?.handle) clearTimeout(existing.handle)`.
unfoldable pub clear_handle : Option InternalTimer → List Effect
clear_handle none = []
clear_handle (some t) = elim t.handle [ none ↦ [] | some h ↦ clear_timeout h ∷ [] ]

put_timer : String → String → ℕ → Option ℕ → Backend → Backend
put_timer key member fire_at handle b = record b {
  timers =
      Maps.set b.timers key (record { member = member; fire_at_ms = fire_at; handle = handle });
}

-- `Math.max(0, fireAtMs - Date.now())` is the truncated difference.
unfoldable pub set_timer : ℕ → String → String → ℕ → Backend → Backend × List Effect
unfolding clear_handle put_timer
set_timer now instance_id member fire_at b =
    let key = k instance_id member in
    let cleared = clear_handle (Maps.get b.timers key) in
    if b.has_listener
    then (
      put_timer key member fire_at (some b.handles) (record b { handles = suc b.handles }),
      cleared ++ (set_timeout b.handles (fire_at - now) ∷ []),
    )
    else (put_timer key member fire_at none b, cleared)

earlier_than :
    Option InternalTimer → ℕ → String → String → ℕ → Backend → (Backend × List Effect) × Bool
unfolding set_timer
earlier_than none now instance_id member fire_at b =
    (set_timer now instance_id member fire_at b, true)
earlier_than (some t) now instance_id member fire_at b =
    if leb t.fire_at_ms fire_at
    then ((b, []), false)
    else (set_timer now instance_id member fire_at b, true)

unfoldable pub set_timer_if_earlier :
    ℕ → String → String → ℕ → Backend → (Backend × List Effect) × Bool
unfolding earlier_than
set_timer_if_earlier now instance_id member fire_at b =
    earlier_than (Maps.get b.timers (k instance_id member)) now instance_id member fire_at b

-- The timer at a key is cleared and leaves the map.
unfoldable pub drop_timer : String → Backend → Backend × List Effect
unfolding clear_handle
drop_timer key b =
    (record b { timers = Maps.delete b.timers key }, clear_handle (Maps.get b.timers key))

unfoldable pub remove_timer : String → String → Backend → Backend × List Effect
unfolding drop_timer
remove_timer instance_id member b = drop_timer (k instance_id member) b

expired_in : String → ℕ → Map InternalTimer → List TimerEntry
expired_in prefix now [] = []
expired_in prefix now ((key, t) ∷ rest) =
    let others = expired_in prefix now rest in
    if starts_with key prefix && leb t.fire_at_ms now
    then record { member = t.member; fire_at_ms = t.fire_at_ms } ∷ others
    else others

drop_entries : String → List TimerEntry → Backend → Backend × List Effect
unfolding remove_timer
drop_entries instance_id [] b = (b, [])
drop_entries instance_id (entry ∷ entries) b =
    let (b', es) = remove_timer instance_id entry.member b in
    let (b'', more) = drop_entries instance_id entries b' in (b'', es ++ more)

unfoldable pub get_expired_timers : String → ℕ → Backend → (Backend × List Effect) × List TimerEntry
unfolding expired_in drop_entries
get_expired_timers instance_id now b =
    let expired = expired_in (prefix_of instance_id) now b.timers in
    (drop_entries instance_id expired b, expired)

-- The host's timeout that `setTimer` set runs out: it holds the key, the member and the time.
unfoldable pub timeout_fires : String → TimerEntry → Backend → Backend × List Effect
timeout_fires key entry b =
    (record b { timers = Maps.delete b.timers key }, timer_expired entry ∷ [])
