-- ===== src/Compressor/Untouched.antt =====
-- That src/offload_server/compact/compressor.ts truncates nothing but tool results.
use chris_tencent_db_agent_m.Prelude.{
  ℕ, zero, suc, ◌+◌, ◌<◌, ◌≡◌, ◌≢◌, refl, ◌∙◌, ap, ap₂, or_else, Bool, true, false, ◌&&◌, not,
  Option, none, some, List, [], ◌∷◌, ltb, arith, if_elim, if◌then◌else◌, length, is_empty, ◌==◌,
}
use chris_tencent_db_agent_m.FastPath.Messages.{Message, is_tool_result_message, is_mmd_message}
use chris_tencent_db_agent_m.Compressor.Slots.{
  Env, Slot, text_length, sum_tokens, tool_result_truncate_chars, last_user_from, is_last_user_at,
  protected_start, find_last_user_message_index,
}
use chris_tencent_db_agent_m.Compressor.Truncate.{
  is_oversized, longest_length, longest_from, update_at, Truncation, truncate_round,
  truncate_rounds, truncate_kept, truncate_all, Scale,
}
use chris_tencent_db_agent_m.Compressor.Marks.{is_deletable}
use chris_tencent_db_agent_m.Compressor.Aggressive.{counted, count_all, baseline}
use chris_tencent_db_agent_m.Compressor.Passes.{holds_at}
use chris_tencent_db_agent_m.Compressor.Keeps.{message_at}

abbrev Misses : ℕ → Option (ℕ × ℕ) → Type 0
Misses j none = Unit
Misses j (some (i, len)) = i ≢ j

passed-Misses :
    (env : Env) (test : Slot → Bool) (i j : ℕ) (ss : List Slot) (best : Option (ℕ × ℕ))
    → j < i
    → Misses j best
    → Misses j (longest_from env test i ss best)
unfolding longest_from
passed-Misses env test i j [] best l h = h
passed-Misses env test i j (s ∷ ss) best l h =
    passed-Misses env test (suc i) j ss _ (omega (arith, l)) (
      if_elim (Misses j) (test s && ltb (longest_length best) (text_length env s.message))
        (some (i, text_length env s.message)) best (λ _ e. omega (arith, e, l)) (λ _. h))

longest-Misses :
    (env : Env) (test : Slot → Bool) (i j k : ℕ) (ss : List Slot) (best : Option (ℕ × ℕ))
    → j ≡ i + k
    → holds_at test ss k ≡ false
    → Misses j best
    → Misses j (longest_from env test i ss best)
unfolding longest_from holds_at
longest-Misses env test i j k [] best q e h = h
longest-Misses env test i j zero (s ∷ ss) best q e h =
    passed-Misses env test (suc i) j ss _ (omega (arith, q)) (
      if_elim (Misses j) (test s && ltb (longest_length best) (text_length env s.message))
        (some (i, text_length env s.message)) best (λ w. ground (arith, w, e)) (λ _. h))
longest-Misses env test i j (suc k) (s ∷ ss) best q e h =
    longest-Misses env test (suc i) j k ss _ (omega (arith, q)) e (
      if_elim (Misses j) (test s && ltb (longest_length best) (text_length env s.message))
        (some (i, text_length env s.message)) best (λ _ same. omega (arith, same, q)) (λ _. h))

update-other :
    (f : Slot → Slot) (i j : ℕ) (ss : List Slot)
    → i ≢ j
    → message_at (update_at f i ss) j ≡ message_at ss j
unfolding update_at message_at
update-other f i j [] d = refl
update-other f zero zero (s ∷ ss) d = absurd (d refl)
update-other f zero (suc j) (s ∷ ss) d = refl
update-other f (suc i) zero (s ∷ ss) d = refl
update-other f (suc i) (suc j) (s ∷ ss) d = update-other f i j ss (λ e. d (ap suc e))

-- A test that reads the message only.
abbrev passes : (Slot → Bool) → Option Message → Bool
passes test none = false
passes test (some m) = test (record { message = m; tokens = 0 })

pub holds-passes :
    (test : Slot → Bool) (ss : List Slot) (j : ℕ)
    → ((s : Slot) → test s ≡ test (record { message = s.message; tokens = 0 }))
    → holds_at test ss j ≡ passes test (message_at ss j)
unfolding holds_at message_at
holds-passes test [] j h = refl
holds-passes test (s ∷ ss) zero h = h s
holds-passes test (s ∷ ss) (suc j) h = holds-passes test ss j h

choice-misses {κ} :
    (P : Truncation → Type κ) (j : ℕ) (b : Bool) (o : Option (ℕ × ℕ)) (stop : Truncation)
    (next : ℕ → Truncation)
    → Misses j o
    → P stop
    → ((i : ℕ) → i ≢ j → P (next i))
    → P (elim b [ true ↦ elim o [ none ↦ stop | some (i, len) ↦ next i ] | false ↦ stop ])
choice-misses P j true none stop next h p q = p
choice-misses P j true (some (i, len)) stop next h p q = q i h
choice-misses P j false o stop next h p q = p

pub truncate_rounds-other :
    (env : Env) (test : Slot → Bool) (short : Truncation → Bool) (f : Slot → Slot) (n j : ℕ)
    (t : Truncation)
    → ((s : Slot) → test s ≡ test (record { message = s.message; tokens = 0 }))
    → passes test (message_at t.slots j) ≡ false
    → message_at (truncate_rounds env test short f n t).slots j ≡ message_at t.slots j
unfolding truncate_rounds truncate_round
truncate_rounds-other env test short f zero j t h e = refl
truncate_rounds-other env test short f (suc n) j t h e =
    choice-misses (λ (r : Truncation). message_at r.slots j ≡ message_at t.slots j) j (short t)
      (longest_from env test 0 t.slots none) t
      (λ i. truncate_rounds env test short f n (truncate_round f i t))
      (longest-Misses env test 0 j j t.slots none (omega arith) (holds-passes test t.slots j h ∙ e)
        tt)
      refl
      (λ i d.
        let same = update-other f i j t.slots d in
        truncate_rounds-other env test short f n j (truncate_round f i t) h
          (ap (passes test) same ∙ e)
        ∙ same)

-- A message that is no tool result is not truncated.
pub truncate_kept-other :
    (env : Env) (scale : Scale) (excess j : ℕ) (ss : List Slot) (m : Message)
    → message_at ss j ≡ some m
    → is_tool_result_message m ≡ false
    → message_at (truncate_kept env scale excess ss).slots j ≡ some m
unfolding truncate_kept is_oversized
truncate_kept-other env scale excess j ss m e r =
    truncate_rounds-other env _ _ _ (length ss) j _ (λ s. refl)
      (ap
          (passes (λ (s : Slot).
            not (is_mmd_message s.message) && is_oversized env tool_result_truncate_chars s))
          e
        ∙ ground (arith, r))
    ∙ e

pub truncate_all-other :
    (env : Env) (scale : Scale) (excess j : ℕ) (ss : List Slot) (m : Message)
    → message_at ss j ≡ some m
    → is_tool_result_message m ≡ false
    → message_at (truncate_all env scale excess ss).slots j ≡ some m
unfolding truncate_all is_oversized
truncate_all-other env scale excess j ss m e r =
    truncate_rounds-other env _ _ _ (length ss) j _ (λ s. refl)
      (ap (passes (is_oversized env tool_result_truncate_chars)) e ∙ ground (arith, r))
    ∙ e

message_at-count_all :
    (env : Env) (ss : List Slot) (j : ℕ) → message_at (count_all env ss) j ≡ message_at ss j
unfolding message_at count_all counted
message_at-count_all env [] j = refl
message_at-count_all env (s ∷ ss) zero = refl
message_at-count_all env (s ∷ ss) (suc j) = message_at-count_all env ss j

pub message_at-baseline :
    (env : Env) (ss : List Slot) (j : ℕ) → message_at (baseline env ss) j ≡ message_at ss j
unfolding baseline
message_at-baseline env ss j =
    if_elim (λ (l : List Slot). message_at l j ≡ message_at ss j)
      (sum_tokens ss == 0 && not (is_empty ss)) (count_all env ss) ss
      (λ _. message_at-count_all env ss j) (λ _. refl)

-- Whether a message is deletable does not depend on its tokens.
pub deletable-message :
    (env : Env) (ss : List Slot) (j : ℕ) (m : Message)
    → message_at ss j ≡ some m
    → holds_at (is_deletable env) ss j ≡ is_deletable env (record { message = m; tokens = 0 })
unfolding is_deletable
deletable-message env ss j m e =
    holds-passes (is_deletable env) ss j (λ s. refl) ∙ ap (passes (is_deletable env)) e

last_user-count_all :
    (env : Env) (i : ℕ) (ss : List Slot) → last_user_from i (count_all env ss) ≡ last_user_from i ss
unfolding last_user_from count_all counted
last_user-count_all env i [] = refl
last_user-count_all env i (s ∷ ss) =
    ap
      (λ (o : Option ℕ). elim o [
        | some j ↦ some j
        | none ↦ if is_last_user_at s.message then some i else none
      ])
      (last_user-count_all env (suc i) ss)

length-count_all : (env : Env) (ss : List Slot) → length (count_all env ss) ≡ length ss
unfolding count_all
length-count_all env [] = refl
length-count_all env (s ∷ ss) = ap suc (length-count_all env ss)

pub protected_start-baseline :
    (env : Env) (ss : List Slot) → protected_start (baseline env ss) ≡ protected_start ss
unfolding baseline protected_start find_last_user_message_index
protected_start-baseline env ss =
    if_elim (λ (l : List Slot). protected_start l ≡ protected_start ss)
      (sum_tokens ss == 0 && not (is_empty ss)) (count_all env ss) ss
      (λ _.
        ap₂ (λ (o : Option ℕ) (n : ℕ). or_else o n) (last_user-count_all env 0 ss)
          (length-count_all env ss))
      (λ _. refl)
