-- ===== src/Compressor/Restored.antt =====
-- That `emergencyCompress` of src/offload_server/compact/compressor.ts keeps every diagram's message.
use chris_tencent_db_agent_m.Prelude.{
  ℕ, ◌+◌, ◌-◌, ◌*◌, ◌<◌, ◌≡◌, refl, sym, ◌∙◌, Bool, true, false, ◌||◌, List, [], ◌∷◌, ◌++◌, leb,
  arith, if◌then◌else◌, subst, length, keep,
}
use chris_tencent_db_agent_m.FastPath.Messages.{is_mmd_message}
use mathlib.Core.List.{append_assoc}
use chris_tencent_db_agent_m.Compressor.Slots.{Env, Slot, sum_tokens, protected_start}
use chris_tencent_db_agent_m.Compressor.Truncate.{Scale, truncate_all}
use chris_tencent_db_agent_m.Compressor.Endless.{truncate_rounds-Balanced}
use chris_tencent_db_agent_m.Compressor.Aggressive.{
  Compressed, baseline, current_tokens, after_truncation, no_deletion, rounded,
}
use chris_tencent_db_agent_m.Compressor.Emergency.{
  extract_mmd, restore, restored, compress_rest, emergency_compress,
}
use chris_tencent_db_agent_m.Compressor.Accounts.{
  InProportion, after_truncation-InProportion, scale_of-positive,
}

unfoldable pub backwards : List Slot → List Slot
backwards [] = []
backwards (s ∷ ss) = backwards ss ++ (s ∷ [])

restore-backwards : (ms ss : List Slot) → restore ms ss ≡ backwards ms ++ ss
unfolding restore backwards
restore-backwards [] ss = refl
restore-backwards (m ∷ ms) ss =
    restore-backwards ms (m ∷ ss) ∙ sym (append_assoc (backwards ms) (m ∷ []) ss)

unfoldable pub mmd_slots : List Slot → List Slot
mmd_slots ss = keep (λ (s : Slot). is_mmd_message s.message) ss

extract-mmd_slots : (ss : List Slot) → (extract_mmd ss).1 ≡ mmd_slots ss
unfolding extract_mmd mmd_slots
extract-mmd_slots [] = refl
extract-mmd_slots (s ∷ ss) = ground (arith, extract-mmd_slots ss)

-- The messages that are no diagram's.
unfoldable pub other_slots : List Slot → List Slot
unfolding extract_mmd
other_slots ss = (extract_mmd ss).0

compress_rest-InProportion :
    (env : Env) (ss : List Slot) (current target : ℕ)
    → 0 < sum_tokens ss
    → InProportion current (sum_tokens ss) (compress_rest env ss current target)
unfolding compress_rest truncate_all
compress_rest-InProportion env ss current target pos =
    let excess = current - target in
    subst
      (λ (scale : Scale). InProportion current (sum_tokens ss) (
        after_truncation env (protected_start ss) scale current excess
          (truncate_all env scale excess ss)))
      (sym (scale_of-positive current ss pos))
      (after_truncation-InProportion env (protected_start ss) current (sum_tokens ss) excess _
        (truncate_rounds-Balanced env _ _ _ (sum_tokens ss) (length ss) _ refl))

-- The diagrams' slots, backwards, come before the rest, of which the tokens are as the test says.
unfoldable pub IsRestored : List Slot → Bool → ℕ → ℕ → Compressed → Type 0
IsRestored mmd early current total c =
    (rest : List Slot) × (c.slots ≡ backwards mmd ++ rest)
    × (c.remaining_tokens
        ≡ (if early then current + sum_tokens mmd else rounded (current * sum_tokens rest) total))

restored-IsRestored :
    (mmd : List Slot) (early : Bool) (current total : ℕ) (c : Compressed)
    → c.remaining_tokens
      ≡ (if early then current + sum_tokens mmd else rounded (current * sum_tokens c.slots) total)
    → IsRestored mmd early current total (restored mmd c)
unfolding restored IsRestored
restored-IsRestored mmd early current total c h = (c.slots, restore-backwards mmd c.slots, h)

by_early :
    (env : Env) (ss mmd : List Slot) (current target : ℕ) (early : Bool)
    → 0 < sum_tokens ss
    → IsRestored mmd early current (sum_tokens ss) (
        if early
        then restored mmd (no_deletion (current + sum_tokens mmd) ss)
        else restored mmd (compress_rest env ss current target))
unfolding no_deletion
by_early env ss mmd current target true pos =
    restored-IsRestored mmd true current (sum_tokens ss) (no_deletion (current + sum_tokens mmd) ss)
      refl
by_early env ss mmd current target false pos =
    restored-IsRestored mmd false current (sum_tokens ss) (compress_rest env ss current target)
      (compress_rest-InProportion env ss current target pos)

-- Where the local tokens of the messages that are no diagrams' are not all 0, emergencyCompress
-- leaves all the diagrams' messages, in the reverse of their order, before what it leaves of the
-- others; the tokens it says are left count the diagrams' if it deletes nothing for being below
-- the target or having two messages, and else are the baseline times the share of the others'
-- tokens that is left, rounded.
pub emergency_compress-IsRestored :
    (env : Env) (given : List Slot) (target client : ℕ)
    → 0 < sum_tokens (baseline env (other_slots given))
    → IsRestored
        (mmd_slots given)
        (leb (current_tokens client (baseline env (other_slots given))) target
          || leb (length (baseline env (other_slots given))) 2)
        (current_tokens client (baseline env (other_slots given)))
        (sum_tokens (baseline env (other_slots given)))
        (emergency_compress env given target client)
unfolding emergency_compress other_slots
emergency_compress-IsRestored env given target client pos =
    let ss = baseline env (extract_mmd given).0 in
    let current = current_tokens client ss in
    let early = leb current target || leb (length ss) 2 in
    subst
      (λ (mmd : List Slot).
        IsRestored mmd early current (sum_tokens ss) (emergency_compress env given target client))
      (extract-mmd_slots given) (by_early env ss (extract_mmd given).1 current target early pos)
