-- ===== src/SerialQueue/Idle.antt =====
-- When the queue of src/utils/serial-queue.ts works, and who waits for `onIdle`.
use chris_tencent_db_agent_m.Prelude.{
  ℕ, suc, Bool, ◌≡◌, refl, sym, ap, subst, true, false, some, List, [], ◌∷◌, ◌++◌, map, length,
  arith,
}
use chris_tencent_db_agent_m.SerialQueue.{
  Queue, Event, started, cleared, woken, Op, adds, clears, finishes, settles, drain, idle, clear,
  step, run,
}

module _ {ℓ} {A : Type ℓ} where
  -- Unless a task runs or the queue is paused, nothing is left waiting.
  abbrev pub IsWorking : Queue A → Type ℓ
  IsWorking q = q.running ≡ false → q.paused ≡ false → q.queue ≡ []

  step-IsWorking : (op : Op A) (q : Queue A) → IsWorking q → IsWorking (step op q).0
  unfolding step drain
  step-IsWorking (adds a) q v = ground arith
  step-IsWorking _ q v = ground arith

  -- From a queue in which nothing waits unless a task runs or the queue is paused, whatever calls
  -- are made and however the tasks settle, nothing waits unless a task runs or the queue is
  -- paused.
  run-IsWorking : (ops : List (Op A)) (q : Queue A) → IsWorking q → IsWorking (run ops q).0
  unfolding run
  run-IsWorking [] q v = v
  run-IsWorking (op ∷ ops) q v = run-IsWorking ops (step op q).0 (step-IsWorking op q v)

  -- No waiter is left in an idle queue.
  abbrev pub HasNoStranded : Queue A → Type ℓ
  HasNoStranded q = q.running ≡ false → q.queue ≡ [] → q.idle_resolvers ≡ []

  -- Each operation, but a clear while nothing runs, keeps the queue free of stranded waiters: a
  -- queue that is empty and runs nothing has no onIdle waiter.
  step-HasNoStranded :
      (op : Op A) (q : Queue A)
      → (op ≡ clears → q.running ≡ true)
      → HasNoStranded q
      → HasNoStranded (step op q).0
  unfolding step drain
  step-HasNoStranded (adds a) q c v = ground arith
  step-HasNoStranded clears q c v = λ stopped _. cc (c refl)
  step-HasNoStranded _ q c v = ground arith

  abbrev pub woken_by : List (Event A) → List ℕ
  woken_by [] = []
  woken_by (woken w ∷ es) = w ∷ woken_by es
  woken_by (_ ∷ es) = woken_by es

  woken_by-cleared : (xs : List A) → woken_by (map cleared xs) ≡ []
  woken_by-cleared [] = refl
  woken_by-cleared (x ∷ xs) = woken_by-cleared xs

  -- The events of waking waiters: nothing else happens.
  abbrev wakes : List ℕ → List (Event A)
  wakes ws = map woken ws

module _ {ℓ} (A : Type ℓ) where
  woken_by-wakes : (ws : List ℕ) → woken_by (wakes {A = A} ws ++ []) ≡ ws
  woken_by-wakes [] = refl
  woken_by-wakes (w ∷ ws) = ap (◌∷◌ w) (woken_by-wakes ws)

module _ {ℓ} {A : Type ℓ} where
  -- When clear is called while nothing runs, the queue is idle and yet keeps every onIdle waiter,
  -- and resolves none.
  pub clear_strands :
      (q : Queue A)
      → q.running ≡ false
      → let (q', events) = clear q in
        (idle q' ≡ true) × (q'.idle_resolvers ≡ q.idle_resolvers) × (woken_by events ≡ [])
  unfolding clear idle
  clear_strands q h = (ground arith, refl, woken_by-cleared q.queue)

  abbrev pub starts_of : List (Event A) → List A
  starts_of [] = []
  starts_of (started a ∷ es) = a ∷ starts_of es
  starts_of (_ ∷ es) = starts_of es

  starts_of-wakes : (ws : List ℕ) → starts_of (wakes ws ++ []) ≡ []
  starts_of-wakes [] = refl
  starts_of-wakes (w ∷ ws) = starts_of-wakes ws

  -- The task in flight succeeds or fails and its promise chain ends, once for each outcome.
  abbrev pub rounds : List Bool → List (Op A)
  rounds [] = []
  rounds (b ∷ bs) = settles b ∷ finishes ∷ rounds bs

  abbrev pub busy : List A → List ℕ → A → Queue A
  busy xs ws a = record {
    queue = xs;
    running = true;
    paused = false;
    idle_resolvers = ws;
    flight = some a;
  }

  -- What is left when one round for the task in flight and one for each of `xs` has run.
  abbrev pub Drained : List A → List ℕ → Queue A × List (Event A) → Type ℓ
  Drained xs ws r =
      (starts_of r.1 ≡ xs)
      × (woken_by r.1 ≡ ws)
      × (r.0.queue ≡ [])
      × (r.0.running ≡ false)
      × (r.0.idle_resolvers ≡ [])

  busy-Drained :
      (xs : List A) (ws : List ℕ) (a : A) (outcomes : List Bool)
      → length outcomes ≡ suc (length xs)
      → Drained xs ws (run (rounds outcomes) (busy xs ws a))
  unfolding run step drain
  busy-Drained xs ws a [] n = absurd (omega arith)
  busy-Drained [] ws a (b ∷ []) n = (starts_of-wakes ws, woken_by-wakes A ws, refl, refl, refl)
  busy-Drained [] ws a (b ∷ c ∷ bs) n = absurd (omega arith)
  busy-Drained (x ∷ xs) ws a (b ∷ bs) n =
      let ih = busy-Drained xs ws x bs (omega arith) in (ap (◌∷◌ x) ih.0, ih.1, ih.2, ih.3, ih.4)

  -- From a queue that is not paused and runs a task, once that task and every waiting one has been
  -- resolved or rejected, in any combination, and has ended its promise chain, the waiting tasks
  -- have been started in the order of the queue, the onIdle waiters are resolved in theirs, and
  -- the queue is empty, runs nothing and keeps no waiter.
  pub run-Drained :
      (q : Queue A) (a : A) (outcomes : List Bool)
      → q.running ≡ true
      → q.paused ≡ false
      → q.flight ≡ some a
      → length outcomes ≡ suc (length q.queue)
      → Drained q.queue q.idle_resolvers (run (rounds outcomes) q)
  run-Drained q a outcomes h p f n =
      let e : q ≡ busy q.queue q.idle_resolvers a = ground arith in
      subst (λ r. Drained q.queue q.idle_resolvers (run (rounds outcomes) r)) (sym e)
        (busy-Drained q.queue q.idle_resolvers a outcomes n)
