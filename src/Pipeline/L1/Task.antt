-- ===== src/Pipeline/L1/Task.antt =====
-- The L1 queue of src/utils/pipeline-manager.ts, its marks and the task in flight: how they agree, and
-- that the start of a task and `enqueueL1` keep it so.
use chris_tencent_db_agent_m.Prelude.{
  ℕ, ◌≡◌, refl, sym, ap, ◌∙◌, String, Bool, true, false, Option, none, some, List, [], ◌∷◌, arith,
  if◌then◌else◌, subst,
}
use chris_tencent_db_agent_m.Prelude.Maps
use chris_tencent_db_agent_m.ManagedTimer
use chris_tencent_db_agent_m.SerialQueue
use chris_tencent_db_agent_m.SerialQueue.{Queue, Event, started, settled, cleared, woken}
use chris_tencent_db_agent_m.SerialQueue.Marks.{
  Sound, Sound-marks, mark, add-Sound, flight_after, flight_after-add,
}
use chris_tencent_db_agent_m.Pipeline.State.{
  Manager, SessionState, SessionTimers, L1Phase, timers_of, put_timers, put_buffer,
}
use chris_tencent_db_agent_m.Pipeline.Frame.{
  SameL1, SameL1-refl, SameL1-put_timers, SameL1-put_state, SameL1-put_buffer,
  SameL1-persist_states, is_queued, timers_of-put_timers,
}
use chris_tencent_db_agent_m.Pipeline.L1.{count_l1, begin_at, begin_l1, after_l1_events, enqueue_l1}

-- The session of the task in flight.
abbrev pub phase_key : L1Phase → Option String
phase_key L1Phase.no_task = none
phase_key (L1Phase.at_runner key buffer) = some key
phase_key (L1Phase.at_persist key result) = some key
phase_key (L1Phase.at_end key) = some key

-- The phase is that of the task in flight, and the marks say which sessions have a task: one each.
pub record QueuedOnce (m : Manager) : Type 0 where
  pub phased : phase_key m.l1_phase ≡ m.l1_queue.flight
  pub sound : Sound m.l1_queue (is_queued m)

pub SameL1-QueuedOnce : (m m' : Manager) → SameL1 m m' → QueuedOnce m → QueuedOnce m'
SameL1-QueuedOnce m m' s v = record {
  phased = rw (s.phase, s.queue) v.phased;
  sound =
      subst (λ q. Sound q (is_queued m')) (sym s.queue)
        (Sound-marks m.l1_queue (is_queued m) (is_queued m') s.flags v.sound);
}

-- The same queue and marks, and the phase of a task of `key`.
pub record Moved (m m' : Manager) (key : Option String) : Type 0 where
  pub queue : m'.l1_queue ≡ m.l1_queue
  pub phase : phase_key m'.l1_phase ≡ key
  pub flags : (k : String) → is_queued m' k ≡ is_queued m k

pub SameL1-Moved : (a b : Manager) → SameL1 a b → Moved a b (phase_key a.l1_phase)
SameL1-Moved a b s = record { queue = s.queue; phase = ap phase_key s.phase; flags = s.flags }

pub Moved-trans : (a b c : Manager) (k j : Option String) → Moved a b k → Moved b c j → Moved a c j
Moved-trans a b c k j p q = record {
  queue = q.queue ∙ p.queue;
  phase = q.phase;
  flags = λ x. q.flags x ∙ p.flags x;
}

pub to_phase : (m : Manager) (p : L1Phase) → Moved m (record m { l1_phase = p }) (phase_key p)
unfolding timers_of
to_phase m p = record { queue = refl; phase = refl; flags = λ k. refl }

pub Moved-QueuedOnce :
    (m m' : Manager) (key : String)
    → Moved m m' (some key)
    → phase_key m.l1_phase ≡ some key
    → QueuedOnce m
    → QueuedOnce m'
Moved-QueuedOnce m m' key s e v = record {
  phased = s.phase ∙ sym e ∙ v.phased ∙ ap (λ (q : Queue String). q.flight) (sym s.queue);
  sound =
      subst (λ q. Sound q (is_queued m')) (sym s.queue)
        (Sound-marks m.l1_queue (is_queued m) (is_queued m') s.flags v.sound);
}

Moved-if :
    (b : Bool) (m x y : Manager) (key : Option String)
    → Moved m x key
    → Moved m y key
    → Moved m (if b then x else y) key
Moved-if true m x y key p q = p
Moved-if false m x y key p q = q

touch :
    (m : Manager) (resolved : List ℕ)
    → Moved m (record m { resolved = resolved }) (phase_key m.l1_phase)
unfolding timers_of
touch m resolved = record { queue = refl; phase = refl; flags = λ k. refl }

pub count : (key : String) (s : Option SessionState) (m : Manager) → SameL1 m (count_l1 key s m)
unfolding count_l1
count key none m = SameL1-refl m
count key (some s) m = SameL1-put_state m key _

begin_from :
    (key : String) (s : Option SessionState) (m : Manager) → Moved m (begin_at key s m) (some key)
unfolding begin_at
begin_from key none m = to_phase m _
begin_from key (some s) m =
    let m1 : Manager = put_buffer m key [] in
    let d = SameL1-Moved m m1 (SameL1-put_buffer m key []) in
    let m2 : Manager = count_l1 key (some s) m1 in
    let c = SameL1-Moved m1 m2 (count key (some s) m1) in
    let m3 : Manager = record m2 { l1_phase = L1Phase.at_persist key none } in
    Moved-if m.has_l1_runner m _ _ (some key) (Moved-trans m m1 _ _ _ d (to_phase m1 _)) (
      Moved-trans m m1 _ _ _ d (
        Moved-trans m1 m2 _ _ _ c
          (Moved-trans m2 m3 _ _ _ (to_phase m2 _) (SameL1-Moved m3 _ (SameL1-persist_states m3)))))

-- The phase follows the events, and the rest stays.
after_events :
    (es : List (Event String)) (m : Manager)
    → Moved m (after_l1_events es m) (flight_after es (phase_key m.l1_phase))
unfolding after_l1_events begin_l1
after_events [] m = SameL1-Moved m m (SameL1-refl m)
after_events (started key ∷ es) m =
    let m' : Manager = begin_l1 key m in
    let b = begin_from key (Maps.get m.session_states key) m in
    Moved-trans m m' _ _ _ b (
      subst (λ f. Moved m' (after_l1_events es m') (flight_after es f)) b.phase
        (after_events es m'))
after_events (settled _ _ ∷ es) m = after_events es m
after_events (cleared _ ∷ es) m = after_events es m
after_events (woken waiter ∷ es) m =
    let m' : Manager = record m { resolved = waiter ∷ m.resolved } in
    Moved-trans m m' _ _ _ (touch m (waiter ∷ m.resolved)) (after_events es m')

-- An operation of the queue, and what follows from its events.
pub queue_step :
    (m1 : Manager) (q : Queue String) (es : List (Event String))
    → phase_key m1.l1_phase ≡ m1.l1_queue.flight
    → Sound q (is_queued m1)
    → flight_after es m1.l1_queue.flight ≡ q.flight
    → QueuedOnce (after_l1_events es (record m1 { l1_queue = q }))
unfolding timers_of
queue_step m1 q es p s f =
    let m2 : Manager = record m1 { l1_queue = q } in
    let a = after_events es m2 in
    record {
      phased =
          a.phase ∙ ap (flight_after es) p ∙ f ∙ ap (λ (x : Queue String). x.flight) (sym a.queue);
      sound =
          subst (λ x. Sound x (is_queued (after_l1_events es m2))) (sym a.queue)
            (Sound-marks q (is_queued m2) _ a.flags s);
    }

-- The marks after a write to the timers of `key`.
pub marks-put_timers :
    (m : Manager) (key : String) (t : SessionTimers) (k : String)
    → is_queued (put_timers m key t) k ≡ mark key t.l1_queued (is_queued m) k
marks-put_timers m key t k = ground (arith, timers_of-put_timers m key k t)

pub QueuedOnce-if :
    (b : Bool) (x y : Manager)
    → (b ≡ true → QueuedOnce x)
    → (b ≡ false → QueuedOnce y)
    → QueuedOnce (if b then x else y)
QueuedOnce-if true x y p q = p refl
QueuedOnce-if false x y p q = q refl

pub enqueue_l1-QueuedOnce :
    (key : String) (m : Manager) → QueuedOnce m → QueuedOnce (enqueue_l1 key m)
unfolding enqueue_l1
enqueue_l1-QueuedOnce key m v =
    let timers = timers_of m key in
    let t : SessionTimers = record timers {
      l1_idle = (ManagedTimer.cancel timers.l1_idle).0;
      l1_queued = true;
    } in
    let m1 : Manager = put_timers m key t in
    let (q, es) = SerialQueue.add key m.l1_queue in
    QueuedOnce-if timers.l1_queued _ _
      (λ _. SameL1-QueuedOnce m _ (SameL1-put_timers m key timers refl) v)
      λ h.
        unfold put_timers in
        queue_step m1 q es v.phased
          (Sound-marks q (mark key true (is_queued m)) (is_queued m1)
            (unfold put_timers in marks-put_timers m key t)
            (add-Sound m.l1_queue (is_queued m) v.sound key h))
          (flight_after-add key m.l1_queue)
