-- ===== src/StateBackend/Tasks/Delivery.antt =====
-- Which calls of `consumeTask` in src/core/state/local-backend.ts get the enqueued tasks. Resolving a
-- promise that is settled does nothing, and a task that does so reaches none.
use chris_tencent_db_agent_m.Prelude.{
  ℕ, ◌+◌, ◌≡◌, refl, sym, ap, ◌∙◌, Bool, true, false, none, some, List, [], ◌∷◌, ◌++◌, arith, subst,
  if◌then◌else◌, if_elim, ◌==◌,
}
use chris_tencent_db_agent_m.StateBackend.State.{TaskPayload, Waiter, Effect, Backend, resolved}
use chris_tencent_db_agent_m.StateBackend.Tasks.{
  insert, hand_over, enqueue_task, consume_from, consume_task, waiter_times_out,
}
use chris_tencent_db_agent_m.StateBackend.Tasks.Order.{
  Op, enqueues, consumes, times_out, step, run, count, enqueued, count-append, count-insert,
  enqueued-cons,
}
use chris_tencent_db_agent_m.StateBackend.Tasks.Pending.{
  has_promise, ArePending, AreUsed, pending-settle, pending-add, pending-without, Tracks,
  used-settle, used-more, resolving, pending-Tracks,
}

-- The tasks that the effects resolve a promise with that is not settled yet, if those given are.
abbrev pub received : List ℕ → List Effect → List TaskPayload
received settled [] = []
received settled (resolved p none ∷ es) = received (p ∷ settled) es
received settled (resolved p (some t) ∷ es) =
    let rest = received (p ∷ settled) es in if has_promise p settled then rest else t ∷ rest
received settled (_ ∷ es) = received settled es

unfoldable pub settled_after : List ℕ → List Effect → List ℕ
settled_after settled [] = settled
settled_after settled (resolved p o ∷ es) = settled_after (p ∷ settled) es
settled_after settled (_ ∷ es) = settled_after settled es

pub settled_after-append :
    (s : List ℕ) (es fs : List Effect)
    → settled_after s (es ++ fs) ≡ settled_after (settled_after s es) fs
unfolding settled_after
settled_after-append s [] fs = refl
settled_after-append s (resolved p o ∷ es) fs = settled_after-append (p ∷ s) es fs
settled_after-append s (e ∷ es) fs = ground (arith, settled_after-append s es fs)

pub received-append :
    (s : List ℕ) (es fs : List Effect)
    → received s (es ++ fs) ≡ received s es ++ received (settled_after s es) fs
unfolding settled_after
received-append s [] fs = refl
received-append s (resolved p none ∷ es) fs = received-append (p ∷ s) es fs
received-append s (resolved p (some t) ∷ es) fs = ground (arith, received-append (p ∷ s) es fs)
received-append s (e ∷ es) fs = ground (arith, received-append s es fs)

-- Each call of consumeTask has a new promise, and a timeout is of a call made before.
abbrev pub AreFresh : List ℕ → List Op → Type 0
AreFresh used [] = Unit
AreFresh used (enqueues t ∷ ops) = AreFresh used ops
AreFresh used (consumes p block_ms ∷ ops) = (has_promise p used ≡ false) × AreFresh (p ∷ used) ops
AreFresh used (times_out p ∷ ops) = (has_promise p used ≡ true) × AreFresh used ops

used_after : Op → List ℕ → List ℕ
used_after (enqueues t) used = used
used_after (consumes p block_ms) used = p ∷ used
used_after (times_out p) used = used

module _ (test : TaskPayload → Bool) where
  -- The tasks received and those left in the queue.
  kept : List ℕ → Backend × List Effect → ℕ
  kept settled r = count test (received settled r.1) + count test r.0.task_queue

  count-hand_over :
      (s used : List ℕ) (ws : List Waiter) (ts : List TaskPayload) (b : Backend)
      → ArePending s used ws
      → b.task_queue ≡ ts
      → kept s (hand_over ws ts b) ≡ count test ts
  unfolding kept hand_over
  count-hand_over s used [] ts b v e = omega (arith, ap (count test) e)
  count-hand_over s used (w ∷ ws) [] b v e = omega (arith, ap (count test) e)
  count-hand_over s used (w ∷ ws) (t ∷ ts) b v e = ground (arith, v.0)

  count-step :
      (op : Op) (s used : List ℕ) (b : Backend)
      → AreFresh used (op ∷ [])
      → Tracks s used b.consume_waiters
      → kept s (step op b) ≡ count test b.task_queue + count test (enqueued (op ∷ []))
  unfolding step enqueue_task consume_task consume_from waiter_times_out Tracks AreUsed kept
  count-step (enqueues task) s used b f v =
      count-hand_over s used b.consume_waiters (insert task b.task_queue)
        (record b { task_queue = insert task b.task_queue }) v.1 refl
      ∙ ground (arith, count-insert test task b.task_queue)
  count-step (consumes p block_ms) s used b f v = ground (arith, v.0 p f.0)
  count-step (times_out p) s used b f v = omega arith

track-hand_over :
    (s used : List ℕ) (ws : List Waiter) (ts : List TaskPayload) (b : Backend)
    → b.consume_waiters ≡ ws
    → Tracks s used ws
    → let r = hand_over ws ts b in Tracks (settled_after s r.1) used r.0.consume_waiters
unfolding hand_over settled_after Tracks AreUsed
track-hand_over s used [] ts b e v = subst (Tracks s used) (sym e) v
track-hand_over s used (w ∷ ws) [] b e v =
    (used-settle w.promise s used v.1.1 v.0, pending-settle w.promise s used ws v.1.2 v.1.3)
track-hand_over s used (w ∷ ws) (t ∷ ts) b e v =
    (used-settle w.promise s used v.1.1 v.0, pending-settle w.promise s used ws v.1.2 v.1.3)

track-consume :
    (ts : List TaskPayload) (p block_ms : ℕ) (s used : List ℕ) (b : Backend)
    → has_promise p used ≡ false
    → Tracks s used b.consume_waiters
    → let r = consume_from ts p block_ms b in
      Tracks (settled_after s r.1) (p ∷ used) r.0.consume_waiters
unfolding consume_from settled_after Tracks AreUsed
track-consume (t ∷ ts) p block_ms s used b f v = resolving p s used b.consume_waiters f v
track-consume [] p block_ms s used b f v =
    if_elim
      (λ (r : Backend × List Effect). Tracks (settled_after s r.1) (p ∷ used) r.0.consume_waiters)
      (block_ms == 0) _ _ (λ _. resolving p s used b.consume_waiters f v)
      (λ _. (
        used-more p s used v.0,
        pending-add (record { promise = p; timer = b.handles }) s used b.consume_waiters f (v.0 p f)
            v.1,
      ))

track-step :
    (op : Op) (s used : List ℕ) (b : Backend)
    → AreFresh used (op ∷ [])
    → Tracks s used b.consume_waiters
    → let r = step op b in Tracks (settled_after s r.1) (used_after op used) r.0.consume_waiters
unfolding step enqueue_task consume_task consume_from waiter_times_out used_after settled_after
    Tracks
track-step (enqueues task) s used b f v =
    track-hand_over s used b.consume_waiters (insert task b.task_queue)
      (record b { task_queue = insert task b.task_queue }) refl v
track-step (consumes p block_ms) s used b f v = track-consume b.task_queue p block_ms s used b f.0 v
track-step (times_out p) s used b f v =
    (used-settle p s used f.0 v.0, pending-without p s used b.consume_waiters v.1)

pub enqueue-Tracks :
    (task : TaskPayload) (s used : List ℕ) (b : Backend)
    → Tracks s used b.consume_waiters
    → let r = enqueue_task task b in Tracks (settled_after s r.1) used r.0.consume_waiters
unfolding used_after step
enqueue-Tracks task s used b v = track-step (enqueues task) s used b tt v

pub received-enqueue :
    (test : TaskPayload → Bool) (task : TaskPayload) (s used : List ℕ) (b : Backend)
    → Tracks s used b.consume_waiters
    → let r = enqueue_task task b in
      count test (received s r.1) + count test r.0.task_queue
      ≡ count test b.task_queue + count test (task ∷ [])
unfolding kept step
received-enqueue test task s used b v = count-step test (enqueues task) s used b tt v

fresh-cons :
    (op : Op) (ops : List Op) (used : List ℕ)
    → AreFresh used (op ∷ ops)
    → AreFresh used (op ∷ []) × AreFresh (used_after op used) ops
unfolding used_after
fresh-cons (enqueues t) ops used f = (tt, f)
fresh-cons (consumes p block_ms) ops used f = ((f.0, tt), f.1)
fresh-cons (times_out p) ops used f = ((f.0, tt), f.1)

count-ops :
    (test : TaskPayload → Bool) (ops : List Op) (s used : List ℕ) (b : Backend)
    → AreFresh used ops
    → Tracks s used b.consume_waiters
    → count test (received s (run ops b).1) + count test (run ops b).0.task_queue
      ≡ count test b.task_queue + count test (enqueued ops)
unfolding run kept
count-ops test [] s used b f v = omega arith
count-ops test (op ∷ ops) s used b f v =
    let (b', es) = step op b in
    let g = fresh-cons op ops used f in
    let e1 = count-step test op s used b g.0 v in
    let e2 =
      count-ops test ops (settled_after s es) (used_after op used) b' g.1
        (track-step op s used b g.0 v) in
    rw
      (
        received-append s es (run ops b').1,
        count-append test (received s es) (received (settled_after s es) (run ops b').1),
      )
      (rw (enqueued-cons op ops, count-append test (enqueued (op ∷ [])) (enqueued ops))
        (omega arith))

-- Over any sequence of enqueued tasks, calls of consumeTask with new promises and timeouts of
-- calls made before, from a backend whose waiting calls have different promises of which none is
-- settled: the tasks that resolve a promise which is not settled yet and those left in the queue
-- are together those that were in it and those enqueued. Of the tasks that pass any test there are
-- as many on both sides.
pub received-run :
    (test : TaskPayload → Bool) (ops : List Op) (used : List ℕ) (b : Backend)
    → AreFresh used ops
    → ArePending [] used b.consume_waiters
    → count test (received [] (run ops b).1) + count test (run ops b).0.task_queue
      ≡ count test b.task_queue + count test (enqueued ops)
received-run test ops used b f v =
    count-ops test ops [] used b f (pending-Tracks used b.consume_waiters v)
