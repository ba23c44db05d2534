-- ===== src/Pipeline/Frame.antt =====
-- What the helpers of src/utils/pipeline-manager.ts leave alone: the L1 queue, its task in flight and
-- which sessions are marked as queued for L1.
use chris_tencent_db_agent_m.Prelude.{
  ℕ, String, ◌≡◌, refl, ◌∙◌, Bool, true, false, List, arith, str_eq, eq_iff, if◌then◌else◌,
}
use chris_tencent_db_agent_m.Prelude.Maps.{get-set}
use chris_tencent_db_agent_m.Pipeline.State.{
  Manager, CapturedMessage, SessionState, SessionTimers, timers_of, put_timers, put_state,
  put_buffer, persist_states,
}
use chris_tencent_db_agent_m.Pipeline.Timing.{
  schedule_l1_idle, advance_l2_timer, arm_l2_max_interval,
}

pub timers_of-put_timers :
    (m : Manager) (k j : String) (t : SessionTimers)
    → timers_of (put_timers m k t) j ≡ (if str_eq k j then t else timers_of m j)
unfolding timers_of put_timers
timers_of-put_timers m k j t = ground (arith, get-set m.session_timers k j t)

pub timers_of-put_timers_self :
    (m : Manager) (key : String) (t : SessionTimers) → timers_of (put_timers m key t) key ≡ t
timers_of-put_timers_self m key t =
    timers_of-put_timers m key key t ∙ ground (arith, eq_iff key key)

abbrev pub is_queued : Manager → String → Bool
is_queued m k = (timers_of m k).l1_queued

pub record SameL1 (m m' : Manager) : Type 0 where
  pub queue : m'.l1_queue ≡ m.l1_queue
  pub phase : m'.l1_phase ≡ m.l1_phase
  pub flags : (k : String) → is_queued m' k ≡ is_queued m k

pub SameL1-refl : (m : Manager) → SameL1 m m
SameL1-refl m = record { queue = refl; phase = refl; flags = λ k. refl }

pub SameL1-trans : (a b c : Manager) → SameL1 a b → SameL1 b c → SameL1 a c
SameL1-trans a b c p q = record {
  queue = q.queue ∙ p.queue;
  phase = q.phase ∙ p.phase;
  flags = λ k. q.flags k ∙ p.flags k;
}

pub SameL1-put_timers :
    (m : Manager) (key : String) (t : SessionTimers)
    → t.l1_queued ≡ is_queued m key
    → SameL1 m (put_timers m key t)
SameL1-put_timers m key t h = record {
  queue = unfold put_timers in refl;
  phase = unfold put_timers in refl;
  flags = λ k. ground (arith, timers_of-put_timers m key k t, eq_iff key k);
}

pub SameL1-put_state :
    (m : Manager) (key : String) (s : SessionState) → SameL1 m (put_state m key s)
unfolding put_state timers_of
SameL1-put_state m key s = record { queue = refl; phase = refl; flags = λ k. refl }

pub SameL1-put_buffer :
    (m : Manager) (key : String) (b : List CapturedMessage) → SameL1 m (put_buffer m key b)
unfolding put_buffer timers_of
SameL1-put_buffer m key b = record { queue = refl; phase = refl; flags = λ k. refl }

pub SameL1-persist_states : (m : Manager) → SameL1 m (persist_states m)
unfolding persist_states timers_of
SameL1-persist_states m = record {
  queue = ground arith;
  phase = ground arith;
  flags = λ k. ground arith;
}

-- A new set of timers for `key`, after a handle is taken.
SameL1-arm :
    (m : Manager) (h : ℕ) (key : String) (t : SessionTimers)
    → t.l1_queued ≡ is_queued m key
    → SameL1 m (put_timers (record m { handles = h }) key t)
unfolding timers_of
SameL1-arm m h key t e =
    let s = SameL1-put_timers (record m { handles = h }) key t e in
    record { queue = s.queue; phase = s.phase; flags = s.flags }

pub SameL1-schedule_l1_idle :
    (now delay : ℕ) (key : String) (m : Manager) → SameL1 m (schedule_l1_idle now delay key m)
unfolding schedule_l1_idle
SameL1-schedule_l1_idle now delay key m = SameL1-arm m _ key _ refl

pub SameL1-if :
    (b : Bool) (m x y : Manager) → SameL1 m x → SameL1 m y → SameL1 m (if b then x else y)
SameL1-if true m x y p q = p
SameL1-if false m x y p q = q

pub SameL1-advance_l2_timer :
    (now : ℕ) (key : String) (m : Manager) → SameL1 m (advance_l2_timer now key m)
unfolding advance_l2_timer
SameL1-advance_l2_timer now key m =
    SameL1-if m.destroyed m _ _ (SameL1-refl m) (SameL1-arm m _ key _ refl)

pub SameL1-arm_l2_max_interval :
    (now : ℕ) (key : String) (m : Manager) → SameL1 m (arm_l2_max_interval now key m)
unfolding arm_l2_max_interval
SameL1-arm_l2_max_interval now key m =
    SameL1-if m.destroyed m _ _ (SameL1-refl m) (SameL1-arm m _ key _ refl)
