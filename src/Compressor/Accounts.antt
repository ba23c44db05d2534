-- ===== src/Compressor/Accounts.antt =====
-- The tokens that src/offload_server/compact/compressor.ts says are left.
use chris_tencent_db_agent_m.Prelude.{
  ℕ, ◌+◌, ◌-◌, ◌*◌, ◌<◌, ◌≡◌, refl, sym, ap, Bool, true, false, List, [], ◌∷◌, String, ltb, leb,
  arith, if_elim, if_then, if_else, subst, length,
}
use native.Mathlib.Nat.{mul_comm, add-mul}
use chris_tencent_db_agent_m.Compressor.Slots.{Env, Slot, protected_start, sum_tokens}
use chris_tencent_db_agent_m.Compressor.Truncate.{Truncation, truncate_kept, Scale, falls_short}
use chris_tencent_db_agent_m.Compressor.Endless.{Balanced, truncate_rounds-Balanced}
use chris_tencent_db_agent_m.Compressor.Deletion.{orphan_at, orphan_all, deleted_result_ids}
use chris_tencent_db_agent_m.Compressor.Aggressive.{
  baseline, current_tokens, scale_of, to_delete, execute, delete_phases, after_truncation, rounded,
  remaining_after, no_deletion, aggressive_compress, Compressed,
}
use chris_tencent_db_agent_m.Compressor.Batch.{unmarked_slots, marked_slots, delete_marked-at_once}

sum-split :
    (ss : List Slot) (bs : List Bool)
    → sum_tokens (unmarked_slots ss bs) + sum_tokens (marked_slots ss bs) ≡ sum_tokens ss
unfolding sum_tokens unmarked_slots marked_slots
sum-split [] bs = refl
sum-split (s ∷ ss) [] = omega arith
sum-split (s ∷ ss) (true ∷ bs) = omega (arith, sum-split ss bs)
sum-split (s ∷ ss) (false ∷ bs) = omega (arith, sum-split ss bs)

tokens-orphan_at :
    (deleted : List String) (s : Slot) (b : Bool) → (orphan_at deleted s b).0.tokens ≡ s.tokens
unfolding orphan_at
tokens-orphan_at deleted s true = refl
tokens-orphan_at deleted s false = ground arith

sum-orphan_all :
    (deleted : List String) (ss : List Slot) (bs : List Bool)
    → sum_tokens (orphan_all deleted ss bs).0 ≡ sum_tokens ss
unfolding sum_tokens orphan_all
sum-orphan_all deleted [] bs = refl
sum-orphan_all deleted (s ∷ ss) [] = refl
sum-orphan_all deleted (s ∷ ss) (b ∷ bs) =
    omega (arith, tokens-orphan_at deleted s b, sum-orphan_all deleted ss bs)

sum-execute :
    (ss : List Slot) (marks : List Bool)
    → sum_tokens (execute ss marks).slots + (execute ss marks).freed ≡ sum_tokens ss
unfolding execute
sum-execute ss marks =
    let (ss', marks') = orphan_all (deleted_result_ids ss marks) ss marks in
    let (left, ids, gone) = delete_marked-at_once ss' marks' in
    omega (
      arith,
      ap sum_tokens left,
      gone,
      sum-split ss' marks',
      sum-orphan_all (deleted_result_ids ss marks) ss marks,
    )

scaled-left :
    (c total gain loss freed left : ℕ)
    → left + freed + gain ≡ total + loss
    → c * total + loss * c - (gain + freed) * c ≡ c * left
scaled-left c total gain loss freed left h = omega (
  arith,
  mul_comm c total,
  mul_comm c left,
  add-mul total loss c,
  add-mul gain freed c,
  add-mul (left + freed) gain c,
  add-mul left freed c,
  ap (λ (n : ℕ). n * c) h,
)

-- What is said to be left is the baseline in proportion to the tokens of the slots left.
abbrev pub InProportion : ℕ → ℕ → Compressed → Type 0
InProportion current total c = c.remaining_tokens ≡ rounded (current * sum_tokens c.slots) total

delete_phases-InProportion :
    (env : Env) (limit current total excess : ℕ) (t : Truncation)
    → Balanced total t
    → InProportion current total
        (delete_phases env limit (record { num = current; den = total }) current excess t)
unfolding delete_phases remaining_after
delete_phases-InProportion env limit current total excess t b =
    let scale : Scale = record { num = current; den = total } in
    let d = execute t.slots (to_delete env limit scale excess t) in
    ap (λ (n : ℕ). rounded n total)
      (scaled-left current total t.gain t.loss d.freed (sum_tokens d.slots)
        (omega (arith, b, sum-execute t.slots (to_delete env limit scale excess t))))

pub after_truncation-InProportion :
    (env : Env) (limit current total excess : ℕ) (t : Truncation)
    → Balanced total t
    → InProportion current total
        (after_truncation env limit (record { num = current; den = total }) current excess t)
unfolding after_truncation no_deletion remaining_after
after_truncation-InProportion env limit current total excess t b =
    let scale : Scale = record { num = current; den = total } in
    if_elim (InProportion current total) (falls_short scale excess t) _ _
      (λ _. delete_phases-InProportion env limit current total excess t b)
      (λ _.
        ap (λ (n : ℕ). rounded n total)
          (scaled-left current total t.gain t.loss 0 (sum_tokens t.slots) (omega (arith, b))))

pub scale_of-positive :
    (current : ℕ) (ss : List Slot)
    → 0 < sum_tokens ss
    → scale_of current ss ≡ record { num = current; den = sum_tokens ss }
unfolding scale_of
scale_of-positive current ss h =
    if_then (ltb 0 (sum_tokens ss)) (record { num = current; den = sum_tokens ss })
      (record { num = 1; den = 1 }) (ground (arith, h))

truncate_kept-Balanced :
    (env : Env) (scale : Scale) (excess : ℕ) (ss : List Slot)
    → Balanced (sum_tokens ss) (truncate_kept env scale excess ss)
unfolding truncate_kept
truncate_kept-Balanced env scale excess ss =
    truncate_rounds-Balanced env _ _ _ (sum_tokens ss) (length ss) _ refl

-- Where the baseline is above the target and the local tokens are not all 0, the tokens that
-- aggressiveCompress says are left are the baseline times the share of the local tokens that the
-- messages left have, rounded.
pub aggressive_compress-remaining :
    (env : Env) (ss : List Slot) (target client : ℕ)
    → target < current_tokens client (baseline env ss)
    → 0 < sum_tokens (baseline env ss)
    → (aggressive_compress env ss target client).remaining_tokens
      ≡ rounded
          (current_tokens client (baseline env ss)
            * sum_tokens (aggressive_compress env ss target client).slots)
          (sum_tokens (baseline env ss))
unfolding aggressive_compress
aggressive_compress-remaining env given target client h pos =
    let ss = baseline env given in
    let current = current_tokens client ss in
    let over = sum_tokens ss in
    let at : Scale → Compressed = λ scale.
      after_truncation env (protected_start ss) scale current (current - target)
        (truncate_kept env scale (current - target) ss) in
    subst (InProportion current over)
      (sym (if_else (leb current target) _ (at (scale_of current ss)) (ground (arith, h))))
      (subst (λ (scale : Scale). InProportion current over (at scale))
        (sym (scale_of-positive current ss pos))
        (after_truncation-InProportion env (protected_start ss) current over (current - target) _
          (truncate_kept-Balanced env _ (current - target) ss)))
