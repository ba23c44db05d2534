-- ===== src/SerialQueue/Order.antt =====
-- The order in which tasks leave the queue of src/utils/serial-queue.ts, and that one runs at a time.
use mathlib.Core.List.{append_assoc, append-nil}
use chris_tencent_db_agent_m.Prelude.{
  ℕ, ◌≡◌, refl, sym, ap, ◌∙◌, false, Option, none, some, List, [], ◌∷◌, ◌++◌, map, arith,
}
use chris_tencent_db_agent_m.SerialQueue.{
  Queue, Event, started, settled, cleared, woken, Op, adds, pauses, starts, clears, finishes, waits,
  settles, drain, step, run,
}

module _ {ℓ} {A : Type ℓ} where
  -- The tasks that leave the queue, by being started or cleared.
  abbrev pub removals : List (Event A) → List A
  removals [] = []
  removals (started a ∷ es) = a ∷ removals es
  removals (cleared a ∷ es) = a ∷ removals es
  removals (settled a b ∷ es) = removals es
  removals (woken w ∷ es) = removals es

  abbrev pub additions : List (Op A) → List A
  additions [] = []
  additions (adds a ∷ ops) = a ∷ additions ops
  additions (_ ∷ ops) = additions ops

  removals-append : (es fs : List (Event A)) → removals (es ++ fs) ≡ removals es ++ removals fs
  removals-append [] fs = refl
  removals-append (started a ∷ es) fs = ap (◌∷◌ a) (removals-append es fs)
  removals-append (cleared a ∷ es) fs = ap (◌∷◌ a) (removals-append es fs)
  removals-append (settled a b ∷ es) fs = removals-append es fs
  removals-append (woken w ∷ es) fs = removals-append es fs

  removals-cleared : (xs : List A) → removals (map cleared xs) ≡ xs
  removals-cleared [] = refl
  removals-cleared (x ∷ xs) = ap (◌∷◌ x) (removals-cleared xs)

  removals-woken : (ws : List ℕ) → removals (map woken ws) ≡ []
  removals-woken [] = refl
  removals-woken (w ∷ ws) = removals-woken ws

  removals-drain : (q : Queue A) → removals (drain q).1 ++ (drain q).0.queue ≡ q.queue
  unfolding drain
  removals-drain q = ground arith

  removals-step :
      (op : Op A) (q : Queue A)
      → removals (step op q).1 ++ (step op q).0.queue ≡ q.queue ++ additions (op ∷ [])
  unfolding step drain
  removals-step (adds a) q = ground arith
  removals-step pauses q = sym (append-nil q.queue)
  removals-step starts q = ground (arith, append-nil q.queue)
  removals-step clears q =
      append-nil (removals (map cleared q.queue))
      ∙ removals-cleared q.queue
      ∙ sym (append-nil q.queue)
  removals-step finishes q = ground (arith, append-nil q.queue, removals-woken q.idle_resolvers)
  removals-step (waits w) q = ground (arith, append-nil q.queue)
  removals-step (settles b) q = ground (arith, append-nil q.queue)

  additions-cons :
      (op : Op A) (ops : List (Op A)) → additions (op ∷ ops) ≡ additions (op ∷ []) ++ additions ops
  additions-cons (adds a) ops = refl
  additions-cons pauses ops = refl
  additions-cons starts ops = refl
  additions-cons clears ops = refl
  additions-cons finishes ops = refl
  additions-cons (waits w) ops = refl
  additions-cons (settles b) ops = refl

  -- Whatever calls are made and however the tasks settle, the tasks that have left the queue,
  -- started or cleared, followed by those still in it, are the tasks that were in it followed by
  -- those added, in that order: the queue is first in, first out, and loses and repeats no task.
  pub removals-run :
      (ops : List (Op A)) (q : Queue A)
      → removals (run ops q).1 ++ (run ops q).0.queue ≡ q.queue ++ additions ops
  unfolding run
  removals-run [] q = sym (append-nil q.queue)
  removals-run (op ∷ ops) q =
      let (q', es) = step op q in
      rw (removals-append es (run ops q').1, append_assoc, removals-run ops q')
        (rw (← append_assoc (removals es) q'.queue (additions ops), removals-step op q)
          (rw (additions-cons op ops, append_assoc)))

  -- A log in which a task is started only while none is in flight, and what is settled is the task
  -- in flight: `f` is in flight before it and `g` after it.
  abbrev pub Serial : Option A → List (Event A) → Option A → Type ℓ
  Serial f [] g = f ≡ g
  Serial f (started a ∷ es) g = (f ≡ none) × Serial (some a) es g
  Serial f (settled a b ∷ es) g = (f ≡ some a) × Serial none es g
  Serial f (cleared a ∷ es) g = Serial f es g
  Serial f (woken w ∷ es) g = Serial f es g

  Serial-append :
      (f g h : Option A) (es fs : List (Event A))
      → Serial f es g
      → Serial g fs h
      → Serial f (es ++ fs) h
  Serial-append f g h [] fs p q = rw p q
  Serial-append f g h (started a ∷ es) fs p q = (p.0, Serial-append (some a) g h es fs p.1 q)
  Serial-append f g h (settled a b ∷ es) fs p q = (p.0, Serial-append none g h es fs p.1 q)
  Serial-append f g h (cleared a ∷ es) fs p q = Serial-append f g h es fs p q
  Serial-append f g h (woken w ∷ es) fs p q = Serial-append f g h es fs p q

  Serial-cleared : (f : Option A) (xs : List A) → Serial f (map cleared xs) f
  Serial-cleared f [] = refl
  Serial-cleared f (x ∷ xs) = Serial-cleared f xs

  Serial-woken : (f : Option A) (ws : List ℕ) → Serial f (map woken ws) f
  Serial-woken f [] = refl
  Serial-woken f (w ∷ ws) = Serial-woken f ws

  -- A queue that is not running holds no entry in flight.
  abbrev pub IsValid : Queue A → Type ℓ
  IsValid q = q.running ≡ false → q.flight ≡ none

  pub step-IsValid : (op : Op A) (q : Queue A) → IsValid q → IsValid (step op q).0
  unfolding step drain
  step-IsValid (adds a) q v = ground arith
  step-IsValid _ q v = ground arith

  step-Serial :
      (op : Op A) (q : Queue A) → IsValid q → Serial q.flight (step op q).1 (step op q).0.flight
  unfolding step drain
  step-Serial (adds a) q v = ground arith
  step-Serial clears q v = Serial-cleared q.flight q.queue
  step-Serial finishes q v = ground (arith, Serial-woken none q.idle_resolvers)
  step-Serial _ q v = ground arith

  -- From a queue that holds no entry in flight unless it is running, whatever calls are made, a
  -- task is started only while none is in flight, and the task that is settled is the one in
  -- flight: one task runs at a time.
  pub run-Serial :
      (ops : List (Op A)) (q : Queue A)
      → IsValid q
      → Serial q.flight (run ops q).1 (run ops q).0.flight
  unfolding run
  run-Serial [] q v = refl
  run-Serial (op ∷ ops) q v =
      Serial-append q.flight (step op q).0.flight _ (step op q).1 (run ops (step op q).0).1
        (step-Serial op q v) (run-Serial ops (step op q).0 (step-IsValid op q v))
