-- ===== src/StateBackend/Timers/Earlier.antt =====
-- When the timers of src/core/state/local-backend.ts are moved, and which of them expire.
use text.Mathlib.Text.{starts_with}
use text.Mathlib.TextEquality.{starts_with_iff}
use text.Mathlib.TextPositions.{eq_refl}
use chris_tencent_db_agent_m.Prelude.{
  ℕ, ◌≡◌, ◌≤◌, refl, ◌⊎◌, inl, inr, String, Bool, true, Option, none, some, List, [], ◌∷◌, arith,
  ltb, min, str_eq, eq_iff, All, subst, if◌then◌else◌,
}
use chris_tencent_db_agent_m.Prelude.Maps
use chris_tencent_db_agent_m.Prelude.Maps.{Map, get-set, get-delete}
use chris_tencent_db_agent_m.StateBackend.State.{TimerEntry, InternalTimer, Backend, k, prefix_of}
use chris_tencent_db_agent_m.StateBackend.Timers.{
  set_timer, put_timer, earlier_than, set_timer_if_earlier, drop_timer, remove_timer, expired_in,
  drop_entries, get_expired_timers,
}

fire_time : Option InternalTimer → Option ℕ
fire_time none = none
fire_time (some t) = some t.fire_at_ms

-- The time of the timer at a key.
unfoldable pub time_at : Backend → String → Option ℕ
unfolding fire_time
time_at b key = fire_time (Maps.get b.timers key)

pub time_at-set_timer :
    (now : ℕ) (i m : String) (fire_at : ℕ) (b : Backend) (key : String)
    → time_at (set_timer now i m fire_at b).0 key
      ≡ (if str_eq (k i m) key then some fire_at else time_at b key)
unfolding time_at set_timer put_timer
time_at-set_timer now i m fire_at b key = ground (
  arith,
  get-set b.timers (k i m) key
      (record { member = m; fire_at_ms = fire_at; handle = some b.handles }),
  get-set b.timers (k i m) key (record { member = m; fire_at_ms = fire_at; handle = none }),
)

-- The earlier of two times, where the first may be missing.
abbrev pub earlier : Option ℕ → ℕ → ℕ
earlier none fire_at = fire_at
earlier (some t) fire_at = min fire_at t

abbrev pub is_earlier : Option ℕ → ℕ → Bool
is_earlier none fire_at = true
is_earlier (some t) fire_at = ltb fire_at t

-- After setTimerIfEarlier the member's timer is at the given time if it had none and else at the
-- earlier of the two, no other key's time changes, and the result says whether the timer was newly
-- set or moved to a strictly earlier time.
pub set_timer_if_earlier-min :
    (now : ℕ) (i m : String) (fire_at : ℕ) (b : Backend) (key : String)
    → let r = set_timer_if_earlier now i m fire_at b in
      (time_at r.0.0 key ≡ (
        if str_eq (k i m) key then some (earlier (time_at b (k i m)) fire_at) else time_at b key))
      × (r.1 ≡ is_earlier (time_at b (k i m)) fire_at)
unfolding set_timer_if_earlier earlier_than time_at
set_timer_if_earlier-min now i m fire_at b key =
    (ground (arith, time_at-set_timer now i m fire_at b key, eq_iff (k i m) key), ground arith)

pub time_at-remove :
    (i m : String) (b : Backend) (key : String)
    → time_at (remove_timer i m b).0 key ≡ (if str_eq (k i m) key then none else time_at b key)
unfolding time_at remove_timer drop_timer
time_at-remove i m b key = ground (arith, get-delete b.timers (k i m) key)

expired_in-due :
    (prefix : String) (now : ℕ) (ts : Map InternalTimer)
    → All (λ e. e.fire_at_ms ≤ now) (expired_in prefix now ts)
unfolding expired_in
expired_in-due prefix now [] = tt
expired_in-due prefix now ((key, t) ∷ ts) = ground (arith, expired_in-due prefix now ts)

-- An entry of a member in a list.
abbrev pub Reports : String → ℕ → List TimerEntry → Type 0
Reports m time [] = ⊥
Reports m time (e ∷ es) = ((e.member ≡ m) × (e.fire_at_ms ≡ time)) ⊎ Reports m time es

expired_in-Reports :
    (prefix key : String) (now : ℕ) (t : InternalTimer) (ts : Map InternalTimer)
    → Maps.get ts key ≡ some t
    → starts_with key prefix ≡ true
    → t.fire_at_ms ≤ now
    → Reports t.member t.fire_at_ms (expired_in prefix now ts)
unfolding expired_in Maps.get
expired_in-Reports prefix key now t [] e p h = ground arith
expired_in-Reports prefix key now t ((j, x) ∷ ts) e p h =
    ground (arith, eq_iff j key, expired_in-Reports prefix key now t ts)

gone_stays :
    (i : String) (es : List TimerEntry) (b : Backend) (key : String)
    → time_at b key ≡ none
    → time_at (drop_entries i es b).0 key ≡ none
unfolding drop_entries
gone_stays i [] b key h = h
gone_stays i (e ∷ es) b key h =
    gone_stays i es (remove_timer i e.member b).0 key
      (ground (arith, time_at-remove i e.member b key))

reported_goes :
    (i m : String) (time : ℕ) (es : List TimerEntry) (b : Backend)
    → Reports m time es
    → time_at (drop_entries i es b).0 (k i m) ≡ none
unfolding drop_entries
reported_goes i m time [] b r = elim r [ ]
reported_goes i m time (e ∷ es) b (inl (p, q)) =
    gone_stays i es (remove_timer i e.member b).0 (k i m)
      (ground (arith, time_at-remove i e.member b (k i m), eq_refl (k i m)))
reported_goes i m time (e ∷ es) b (inr r) =
    reported_goes i m time es (remove_timer i e.member b).0 r

starts_with-k : (i m : String) → starts_with (k i m) (prefix_of i) ≡ true
unfolding k prefix_of
starts_with-k i m = (starts_with_iff (k i m) (prefix_of i)).1 (m, refl)

-- Each timer that getExpiredTimers reports has reached its time.
get_expired_timers-due :
    (i : String) (now : ℕ) (b : Backend)
    → All (λ e. e.fire_at_ms ≤ now) (get_expired_timers i now b).1
unfolding get_expired_timers
get_expired_timers-due i now b = expired_in-due (prefix_of i) now b.timers

-- A timer that an instance's member has, under its own name and with its time reached, is reported
-- by getExpiredTimers of that instance, with its time, and is no longer set afterwards.
due-get_expired_timers :
    (i m : String) (now : ℕ) (t : InternalTimer) (b : Backend)
    → Maps.get b.timers (k i m) ≡ some t
    → t.member ≡ m
    → t.fire_at_ms ≤ now
    → let r = get_expired_timers i now b in
      Reports m t.fire_at_ms r.1 × (time_at r.0.0 (k i m) ≡ none)
unfolding get_expired_timers
due-get_expired_timers i m now t b e f h =
    let r : Reports m t.fire_at_ms (expired_in (prefix_of i) now b.timers) =
      subst (λ x. Reports x t.fire_at_ms (expired_in (prefix_of i) now b.timers)) f
        (expired_in-Reports (prefix_of i) (k i m) now t b.timers e (starts_with-k i m) h) in
    (r, reported_goes i m t.fire_at_ms _ b r)
