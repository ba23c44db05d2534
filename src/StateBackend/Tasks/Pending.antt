-- ===== src/StateBackend/Tasks/Pending.antt =====
-- What is known of the promises that the calls of `consumeTask` in
-- src/core/state/local-backend.ts wait with.
use chris_tencent_db_agent_m.Prelude.{
  ℕ, ◌≡◌, refl, Bool, true, false, ◌||◌, List, [], ◌∷◌, ◌++◌, arith, subst, All, if_elim, ◌==◌,
}
use chris_tencent_db_agent_m.StateBackend.State.{Waiter}
use chris_tencent_db_agent_m.StateBackend.Tasks.{without}

abbrev pub has_promise : ℕ → List ℕ → Bool
has_promise p [] = false
has_promise p (q ∷ qs) = q == p || has_promise p qs

-- The waiting calls have different promises, each of which is used and none of which is settled.
abbrev pub ArePending : List ℕ → List ℕ → List Waiter → Type 0
ArePending settled used [] = Unit
ArePending settled used (w ∷ ws) =
    (has_promise w.promise settled ≡ false)
    × (has_promise w.promise used ≡ true)
    × All (λ (v : Waiter). v.promise == w.promise ≡ false) ws
    × ArePending settled used ws

unfoldable pub AreUsed : List ℕ → List ℕ → Type 0
AreUsed settled used = (p : ℕ) → has_promise p used ≡ false → has_promise p settled ≡ false

pub pending-settle :
    (p : ℕ) (s used : List ℕ) (ws : List Waiter)
    → All (λ (v : Waiter). v.promise == p ≡ false) ws
    → ArePending s used ws
    → ArePending (p ∷ s) used ws
pending-settle p s used [] a v = tt
pending-settle p s used (w ∷ ws) a v =
    (ground (arith, a.0, v.0), v.1, v.2, pending-settle p s used ws a.1 v.3)

differ :
    (p q : ℕ) (used : List ℕ)
    → has_promise p used ≡ false
    → has_promise q used ≡ true
    → q == p ≡ false
differ p q [] f g = cc
differ p q (u ∷ us) f g = ground (arith, differ p q us)

unused :
    (p : ℕ) (s used : List ℕ) (ws : List Waiter)
    → has_promise p used ≡ false
    → ArePending s used ws
    → All (λ (v : Waiter). v.promise == p ≡ false) ws
unused p s used [] f v = tt
unused p s used (w ∷ ws) f v = (differ p w.promise used f v.1, unused p s used ws f v.3)

pending-use :
    (p : ℕ) (s used : List ℕ) (ws : List Waiter) → ArePending s used ws → ArePending s (p ∷ used) ws
pending-use p s used [] v = tt
pending-use p s used (w ∷ ws) v = (v.0, ground (arith, v.1), v.2, pending-use p s used ws v.3)

All-add :
    (p : ℕ) (w : Waiter) (ws : List Waiter)
    → w.promise == p ≡ false
    → All (λ (v : Waiter). v.promise == p ≡ false) ws
    → All (λ (v : Waiter). v.promise == p ≡ false) (ws ++ (w ∷ []))
All-add p w [] e a = (e, tt)
All-add p w (x ∷ ws) e a = (a.0, All-add p w ws e a.1)

pub pending-add :
    (x : Waiter) (s used : List ℕ) (ws : List Waiter)
    → has_promise x.promise used ≡ false
    → has_promise x.promise s ≡ false
    → ArePending s used ws
    → ArePending s (x.promise ∷ used) (ws ++ (x ∷ []))
pending-add x s used [] f g v = (g, ground arith, tt, tt)
pending-add x s used (w ∷ ws) f g v = (
  v.0,
  ground (arith, v.1),
  All-add w.promise x ws (ground (arith, differ x.promise w.promise used f v.1)) v.2,
  pending-add x s used ws f g v.3,
)

All-without :
    (p q : ℕ) (ws : List Waiter)
    → All (λ (v : Waiter). v.promise == q ≡ false) ws
    → All (λ (v : Waiter). v.promise == q ≡ false) (without p ws)
unfolding without
All-without p q [] a = tt
All-without p q (w ∷ ws) a =
    if_elim (All (λ (v : Waiter). v.promise == q ≡ false)) (w.promise == p) ws _ (λ _. a.1)
      (λ _. (a.0, All-without p q ws a.1))

pub pending-without :
    (p : ℕ) (s used : List ℕ) (ws : List Waiter)
    → ArePending s used ws
    → ArePending (p ∷ s) used (without p ws)
unfolding without
pending-without p s used [] v = tt
pending-without p s used (w ∷ ws) v =
    if_elim (ArePending (p ∷ s) used) (w.promise == p) ws (w ∷ without p ws)
      (λ e.
        pending-settle p s used ws
          (subst (λ n. All (λ (x : Waiter). x.promise == n ≡ false) ws) (ground (arith, e)) v.2)
          v.3)
      (λ e. (
        ground (arith, e, v.0),
        v.1,
        All-without p w.promise ws v.2,
        pending-without p s used ws v.3,
      ))

-- What an operation, given its effects, leaves of what is known of the promises.
unfoldable pub Tracks : List ℕ → List ℕ → List Waiter → Type 0
Tracks settled used ws = AreUsed settled used × ArePending settled used ws

pub used-settle :
    (p : ℕ) (s used : List ℕ) → has_promise p used ≡ true → AreUsed s used → AreUsed (p ∷ s) used
unfolding AreUsed
used-settle p s used h k q f = ground (arith, differ q p used f h, k q f)

pub used-more : (p : ℕ) (s used : List ℕ) → AreUsed s used → AreUsed s (p ∷ used)
unfolding AreUsed
used-more p s used k q f = ground (arith, k q)

-- A new promise is settled at once.
pub resolving :
    (p : ℕ) (s used : List ℕ) (ws : List Waiter)
    → has_promise p used ≡ false
    → Tracks s used ws
    → Tracks (p ∷ s) (p ∷ used) ws
unfolding Tracks
resolving p s used ws f v = (
  used-settle p s (p ∷ used) (ground arith) (used-more p s used v.0),
  pending-settle p s (p ∷ used) ws (unused p s used ws f v.1) (pending-use p s used ws v.1),
)

-- What is known of the promises before anything happens, and over an enqueued task.
pub pending-Tracks : (used : List ℕ) (ws : List Waiter) → ArePending [] used ws → Tracks [] used ws
unfolding Tracks AreUsed
pending-Tracks used ws v = (λ p _. refl, v)
