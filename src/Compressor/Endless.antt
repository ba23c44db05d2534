-- ===== src/Compressor/Endless.antt =====
-- The loops that truncate in src/offload_server/compact/compressor.ts: what they free, and when they
-- end.
use chris_tencent_db_agent_m.Prelude.{
  ℕ, zero, suc, ◌+◌, ◌<◌, ◌≡◌, refl, String, Bool, true, false, ◌&&◌, ◌||◌, Option, none, some,
  List, [], ◌∷◌, ltb, arith, if_elim, is_some,
}
use chris_tencent_db_agent_m.FastPath.Messages.{Message}
use chris_tencent_db_agent_m.Compressor.Slots.{Env, Slot, sum_tokens, text_length}
use chris_tencent_db_agent_m.Compressor.Truncate.{
  is_oversized, longest_length, longest_from, truncate_slot, update_at, tokens_at, Truncation,
  truncate_round, truncate_rounds, tail_rounds, truncate_tail_tool_results,
}
use chris_tencent_db_agent_m.Compressor.Oversized.{truncate_slot-is_oversized}

pub sum-update_at :
    (f : Slot → Slot) (i : ℕ) (ss : List Slot)
    → sum_tokens (update_at f i ss) + tokens_at ss i
      ≡ sum_tokens ss + tokens_at (update_at f i ss) i
unfolding sum_tokens update_at tokens_at
sum-update_at f i [] = refl
sum-update_at f zero (s ∷ ss) = omega arith
sum-update_at f (suc i) (s ∷ ss) = omega (arith, sum-update_at f i ss)

-- What was freed is what the slots have less.
abbrev pub Balanced : ℕ → Truncation → Type 0
Balanced total t = sum_tokens t.slots + t.gain ≡ total + t.loss

pub truncate_round-Balanced :
    (f : Slot → Slot) (i total : ℕ) (t : Truncation)
    → Balanced total t
    → Balanced total (truncate_round f i t)
unfolding truncate_round
truncate_round-Balanced f i total t h = omega (arith, h, sum-update_at f i t.slots)

unfoldable pub any_oversized : Env → ℕ → List Slot → Bool
any_oversized env limit [] = false
any_oversized env limit (s ∷ ss) = is_oversized env limit s || any_oversized env limit ss

any-update_at :
    (env : Env) (limit : ℕ) (counted : String → Message → ℕ) (i : ℕ) (ss : List Slot)
    → any_oversized env limit ss ≡ true
    → any_oversized env limit (update_at (truncate_slot env limit counted) i ss) ≡ true
unfolding any_oversized update_at
any-update_at env limit counted i [] h = h
any-update_at env limit counted zero (s ∷ ss) h =
    ground (arith, h, truncate_slot-is_oversized env limit counted s)
any-update_at env limit counted (suc i) (s ∷ ss) h =
    ground (arith, h, any-update_at env limit counted i ss)

round-any :
    (env : Env) (limit : ℕ) (counted : String → Message → ℕ) (i : ℕ) (t : Truncation)
    → any_oversized env limit t.slots ≡ true
    → any_oversized env limit (truncate_round (truncate_slot env limit counted) i t).slots ≡ true
unfolding truncate_round
round-any env limit counted i t h = any-update_at env limit counted i t.slots h

some-longest :
    (env : Env) (test : Slot → Bool) (i : ℕ) (ss : List Slot) (best : Option (ℕ × ℕ))
    → is_some best ≡ true
    → is_some (longest_from env test i ss best) ≡ true
unfolding longest_from
some-longest env test i [] best h = h
some-longest env test i (s ∷ ss) best h = some-longest env test (suc i) ss _ (
    if_elim (λ (o : Option (ℕ × ℕ)). is_some o ≡ true)
      (test s && ltb (longest_length best) (text_length env s.message))
      (some (i, text_length env s.message)) best (λ _. refl) (λ _. h))

oversized-positive :
    (env : Env) (limit : ℕ) (s : Slot)
    → is_oversized env limit s ≡ true
    → ltb 0 (text_length env s.message) ≡ true
unfolding is_oversized
oversized-positive env limit s h = ground (arith, h)

any-longest :
    (env : Env) (limit i : ℕ) (ss : List Slot)
    → any_oversized env limit ss ≡ true
    → is_some (longest_from env (is_oversized env limit) i ss none) ≡ true
unfolding longest_from any_oversized longest_length
any-longest env limit i [] h = ground (arith, h)
any-longest env limit i (s ∷ ss) h =
    let test = is_oversized env limit in
    let longer = test s && ltb 0 (text_length env s.message) in
    if_elim (λ (o : Option (ℕ × ℕ)). is_some (longest_from env test (suc i) ss o) ≡ true) longer
      (some (i, text_length env s.message)) none
      (λ _. some-longest env test (suc i) ss (some (i, text_length env s.message)) refl)
      (λ e. any-longest env limit (suc i) ss (ground (arith, h, e, oversized-positive env limit s)))

-- A round's choice, where the loop goes on and there is a longest message.
choice {ℓ} :
    {A : Type ℓ} (b : Bool) (o : Option (ℕ × ℕ)) (over stuck : A) (next : ℕ → A) (out : A)
    → b ≡ true
    → is_some o ≡ true
    → ((i : ℕ) → next i ≡ out)
    → (elim b [ true ↦ elim o [ none ↦ stuck | some (i, len) ↦ next i ] | false ↦ over ]) ≡ out
choice true none over stuck next out b o h = cc
choice true (some (i, len)) over stuck next out b o h = h i
choice false o over stuck next out b _ h = cc

tail_rounds-endless :
    (env : Env) (estimate : String → ℕ) (limit to_free total n : ℕ) (t : Truncation)
    → any_oversized env limit t.slots ≡ true
    → Balanced total t
    → total < to_free
    → tail_rounds env estimate limit to_free n t ≡ none
unfolding tail_rounds
tail_rounds-endless env estimate limit to_free total zero t any b h = ground (arith, b, h)
tail_rounds-endless env estimate limit to_free total (suc n) t any b h =
    let f = truncate_slot env limit (λ text _. estimate text) in
    choice (ltb t.gain (to_free + t.loss))
      (longest_from env (is_oversized env limit) 0 t.slots none) (some t) (some t)
      (λ i. tail_rounds env estimate limit to_free n (truncate_round f i t)) none
      (ground (arith, b, h)) (any-longest env limit 0 t.slots any)
      (λ i.
        tail_rounds-endless env estimate limit to_free total n (truncate_round f i t)
          (round-any env limit (λ text _. estimate text) i t any)
          (truncate_round-Balanced f i total t b) h)

-- Where some tool result is longer than the limit and more tokens are to be freed than the
-- messages have, the loop of truncateTailToolResults is not over after any number of rounds, since
-- a truncated text is still longer than the limit.
pub truncate_tail_tool_results-endless :
    (env : Env) (estimate : String → ℕ) (limit to_free : ℕ) (ss : List Slot) (n : ℕ)
    → any_oversized env limit ss ≡ true
    → sum_tokens ss < to_free
    → truncate_tail_tool_results env estimate limit to_free n ss ≡ none
unfolding truncate_tail_tool_results
truncate_tail_tool_results-endless env estimate limit to_free ss n any h =
    tail_rounds-endless env estimate limit to_free (sum_tokens ss) n
      (record { slots = ss; gain = 0; loss = 0 }) any refl h

choice-holds {ℓ κ} :
    {A : Type ℓ} (P : A → Type κ) (b : Bool) (o : Option (ℕ × ℕ)) (stop : A) (next : ℕ → A)
    → P stop
    → ((i : ℕ) → P (next i))
    → P (elim b [ true ↦ elim o [ none ↦ stop | some (i, len) ↦ next i ] | false ↦ stop ])
choice-holds P true none stop next p q = p
choice-holds P true (some (i, len)) stop next p q = q i
choice-holds P false o stop next p q = p

pub truncate_rounds-Balanced :
    (env : Env) (test : Slot → Bool) (short : Truncation → Bool) (f : Slot → Slot) (total n : ℕ)
    (t : Truncation)
    → Balanced total t
    → Balanced total (truncate_rounds env test short f n t)
unfolding truncate_rounds
truncate_rounds-Balanced env test short f total zero t b = b
truncate_rounds-Balanced env test short f total (suc n) t b =
    choice-holds (Balanced total) (short t) (longest_from env test 0 t.slots none) t
      (λ i. truncate_rounds env test short f n (truncate_round f i t)) b
      (λ i.
        truncate_rounds-Balanced env test short f total n (truncate_round f i t)
          (truncate_round-Balanced f i total t b))
