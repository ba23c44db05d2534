-- ===== src/Compressor/Truncate.antt =====
-- The truncation of large tool results in src/offload_server/compact/compressor.ts.
use chris_tencent_db_agent_m.Prelude.{
  ℕ, zero, suc, ◌+◌, ◌*◌, max, Bool, true, false, ◌&&◌, not, Option, none, some, List, [], ◌∷◌,
  length, ltb, if◌then◌else◌, String,
}
use Prim.Native.Nat.{◌/◌}
use Prim.Native.String.{count}
use chris_tencent_db_agent_m.FastPath.Messages.{Message, is_tool_result_message, is_mmd_message}
use chris_tencent_db_agent_m.Compressor.Slots.{
  Env, Slot, get_text_content, set_text_content, text_length, truncated_text,
  tool_result_truncate_chars,
}

unfoldable pub is_oversized : Env → ℕ → Slot → Bool
unfolding text_length
is_oversized env limit s = is_tool_result_message s.message && ltb limit (text_length env s.message)

-- `maxIdx` and `maxLen`; none for -1 and 0.
unfoldable pub longest_length : Option (ℕ × ℕ) → ℕ
longest_length none = 0
longest_length (some (i, n)) = n

-- The loop over the messages from an index on.
unfoldable pub longest_from : Env → (Slot → Bool) → ℕ → List Slot → Option (ℕ × ℕ) → Option (ℕ × ℕ)
unfolding longest_length text_length
longest_from env test i [] best = best
longest_from env test i (s ∷ ss) best = longest_from env test (suc i) ss (
    if test s && ltb (longest_length best) (text_length env s.message)
    then some (i, text_length env s.message)
    else best)

-- A slot with its text truncated; the count of the new tokens is the caller's.
unfoldable pub truncate_slot : Env → ℕ → (String → Message → ℕ) → Slot → Slot
unfolding set_text_content truncated_text get_text_content
truncate_slot env limit counted s =
    let cut_text = truncated_text env limit (get_text_content env s.message) in
    let after = set_text_content cut_text s.message in
    record { message = after; tokens = counted cut_text after }

unfoldable pub update_at : (Slot → Slot) → ℕ → List Slot → List Slot
update_at f i [] = []
update_at f zero (s ∷ ss) = f s ∷ ss
update_at f (suc i) (s ∷ ss) = s ∷ update_at f i ss

unfoldable pub tokens_at : List Slot → ℕ → ℕ
tokens_at [] i = 0
tokens_at (s ∷ ss) zero = s.tokens
tokens_at (s ∷ ss) (suc i) = tokens_at ss i

-- The slots, and what was freed: `gain - loss`.
pub record Truncation : Type 0 where
  pub slots : List Slot
  pub gain : ℕ
  pub loss : ℕ

-- One round: the tokens of the message before and after.
unfoldable pub truncate_round : (Slot → Slot) → ℕ → Truncation → Truncation
unfolding update_at tokens_at
truncate_round f i t =
    let after = update_at f i t.slots in
    record { slots = after; gain = t.gain + tokens_at t.slots i; loss = t.loss + tokens_at after i }

-- `scale` is `num / den`, and a number of the client's tokens is compared as a multiple of `1 / den`.
pub record Scale : Type 0 where
  pub num : ℕ
  pub den : ℕ

-- `freedClient < excess`.
unfoldable pub falls_short : Scale → ℕ → Truncation → Bool
falls_short scale excess t = ltb (t.gain * scale.num) (excess * scale.den + t.loss * scale.num)

-- The loop of at most as many rounds as there are messages.
unfoldable pub truncate_rounds :
    Env → (Slot → Bool) → (Truncation → Bool) → (Slot → Slot) → ℕ → Truncation → Truncation
unfolding longest_from truncate_round
truncate_rounds env test short f zero t = t
truncate_rounds env test short f (suc n) t = elim (short t) [
  | true ↦ elim (longest_from env test 0 t.slots none) [
    | none ↦ t
    | some (i, len) ↦ truncate_rounds env test short f n (truncate_round f i t)
  ]
  | false ↦ t
]

unfoldable pub precise_slot : Env → Slot → Slot
unfolding truncate_slot
precise_slot env = truncate_slot env tool_result_truncate_chars (λ _ m. env.tokens_of m)

-- Phase 1 of `aggressiveCompress`.
unfoldable pub truncate_kept : Env → Scale → ℕ → List Slot → Truncation
unfolding is_oversized truncate_rounds precise_slot falls_short
truncate_kept env scale excess ss =
    truncate_rounds env
      (λ s. not (is_mmd_message s.message) && is_oversized env tool_result_truncate_chars s)
      (falls_short scale excess) (precise_slot env) (length ss)
      (record { slots = ss; gain = 0; loss = 0 })

-- Phase 1 of `emergencyCompress`.
unfoldable pub truncate_all : Env → Scale → ℕ → List Slot → Truncation
unfolding is_oversized truncate_rounds precise_slot falls_short
truncate_all env scale excess ss =
    truncate_rounds env (is_oversized env tool_result_truncate_chars) (falls_short scale excess)
      (precise_slot env) (length ss) (record { slots = ss; gain = 0; loss = 0 })

-- `truncateTailToolResults`: the loop has no bound of its own, and none is a run that is not over
-- after the given number of rounds. The state's slots are those from the protected index on.
unfoldable pub tail_rounds : Env → (String → ℕ) → ℕ → ℕ → ℕ → Truncation → Option Truncation
unfolding longest_from truncate_round is_oversized truncate_slot get_text_content
tail_rounds env estimate limit to_free zero t =
    if ltb t.gain (to_free + t.loss) then none else some t
tail_rounds env estimate limit to_free (suc n) t = elim (ltb t.gain (to_free + t.loss)) [
  | true ↦ elim (longest_from env (is_oversized env limit) 0 t.slots none) [
    | none ↦ some t
    | some (i, len) ↦
        tail_rounds env estimate limit to_free n
          (truncate_round (truncate_slot env limit (λ s _. estimate s)) i t)
  ]
  | false ↦ some t
]

unfoldable pub truncate_tail_tool_results :
    Env → (String → ℕ) → ℕ → ℕ → ℕ → List Slot → Option Truncation
unfolding tail_rounds
truncate_tail_tool_results env estimate limit to_free rounds ss =
    tail_rounds env estimate limit to_free rounds (record { slots = ss; gain = 0; loss = 0 })

-- `estimateText`.
unfoldable pub estimate_text : String → ℕ
estimate_text s = max 1 ((count s + 3) / 4)
