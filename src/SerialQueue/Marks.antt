-- ===== src/SerialQueue/Marks.antt =====
-- A queue of src/utils/serial-queue.ts whose tasks are keys, beside a mark for each key that has a
-- task: no key is queued twice.
use chris_tencent_db_agent_m.Prelude.{
  ℕ, suc, ◌+◌, ◌≡◌, refl, String, Bool, true, false, Option, none, some, List, [], ◌∷◌, ◌++◌, map,
  arith, str_eq, eq_iff, if◌then◌else◌,
}
use chris_tencent_db_agent_m.SerialQueue.{
  Queue, Event, started, woken, add, settle, finish, on_idle,
}

abbrev pub occurs : String → List String → ℕ
occurs k [] = 0
occurs k (x ∷ xs) = let rest = occurs k xs in if str_eq x k then suc rest else rest

occurs-append : (k : String) (xs ys : List String) → occurs k (xs ++ ys) ≡ occurs k xs + occurs k ys
occurs-append k [] ys = omega arith
occurs-append k (x ∷ xs) ys = ground (arith, occurs-append k xs ys)

-- The tasks of `k`: waiting, and in flight.
abbrev pub tasks : String → Queue String → ℕ
tasks k q = elim q.flight [
  | none ↦ occurs k q.queue
  | some x ↦ if str_eq x k then suc (occurs k q.queue) else occurs k q.queue
]

pub record Sound (q : Queue String) (marks : String → Bool) : Type 0 where
  pub unpaused : q.paused ≡ false
  pub landed : q.running ≡ false → q.flight ≡ none
  pub working : q.running ≡ false → q.queue ≡ []
  pub once : (k : String) → tasks k q ≡ (if marks k then 1 else 0)

pub Sound-marks :
    (q : Queue String) (f g : String → Bool) → ((k : String) → g k ≡ f k) → Sound q f → Sound q g
Sound-marks q f g e s = record {
  unpaused = s.unpaused;
  landed = s.landed;
  working = s.working;
  once = λ k. rw (e k) (s.once k);
}

abbrev pub mark : String → Bool → (String → Bool) → String → Bool
mark key b marks k = if str_eq key k then b else marks k

module _ (q : Queue String) (marks : String → Bool) (s : Sound q marks) where
  pub add-Sound : (key : String) → marks key ≡ false → Sound (add key q).0 (mark key true marks)
  unfolding add
  add-Sound key h = record {
    unpaused = ground (arith, s.unpaused);
    landed = ground (arith, s.landed, s.working, s.unpaused);
    working = ground (arith, s.landed, s.working, s.unpaused);
    once = λ k. ground (
      arith,
      s.once k,
      s.once key,
      s.landed,
      s.working,
      s.unpaused,
      eq_iff key k,
      occurs-append k q.queue (key ∷ []),
    );
  }

  pub settle-Sound :
      (key : String) → q.flight ≡ some key → Sound (settle true q).0 (mark key false marks)
  unfolding settle
  settle-Sound key h = record {
    unpaused = ground (arith, s.unpaused);
    landed = ground (arith, s.landed);
    working = ground (arith, s.working);
    once = λ k. ground (arith, s.once k);
  }

  pub finish-Sound : Sound (finish q).0 marks
  unfolding finish
  finish-Sound = record {
    unpaused = ground (arith, s.unpaused);
    landed = ground (arith, s.landed, s.unpaused);
    working = ground (arith, s.working, s.unpaused);
    once = λ k. ground (arith, s.once k);
  }

  pub on_idle-Sound : (waiter : ℕ) → Sound (on_idle waiter q).0 marks
  unfolding on_idle
  on_idle-Sound waiter = record {
    unpaused = ground (arith, s.unpaused);
    landed = ground (arith, s.landed);
    working = ground (arith, s.working);
    once = λ k. ground (arith, s.once k);
  }

-- The task in flight after the events, if it was `f` before them.
abbrev pub flight_after : List (Event String) → Option String → Option String
flight_after [] f = f
flight_after (started k ∷ es) f = flight_after es (some k)
flight_after (_ ∷ es) f = flight_after es f

flight_after-woken : (ws : List ℕ) (f : Option String) → flight_after (map woken ws) f ≡ f
flight_after-woken [] f = refl
flight_after-woken (w ∷ ws) f = flight_after-woken ws f

pub flight_after-add :
    (key : String) (q : Queue String) → flight_after (add key q).1 q.flight ≡ (add key q).0.flight
unfolding add
flight_after-add key q = ground arith

pub flight_after-finish :
    (q : Queue String) → flight_after (finish q).1 q.flight ≡ (finish q).0.flight
unfolding finish
flight_after-finish q = ground (arith, flight_after-woken q.idle_resolvers q.flight)

pub flight_after-on_idle :
    (waiter : ℕ) (q : Queue String)
    → flight_after (on_idle waiter q).1 q.flight ≡ (on_idle waiter q).0.flight
unfolding on_idle
flight_after-on_idle waiter q = ground arith
