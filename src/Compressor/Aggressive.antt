-- ===== src/Compressor/Aggressive.antt =====
-- `aggressiveCompress` of src/offload_server/compact/compressor.ts. Its doubles are exact fractions,
-- and a client's total that is not given is 0.
use chris_tencent_db_agent_m.Prelude.{
  ℕ, ◌+◌, ◌-◌, ◌*◌, Bool, ◌&&◌, not, List, [], ◌∷◌, String, length, ltb, leb, ◌==◌, is_empty,
  if◌then◌else◌,
}
use Prim.Native.Nat.{◌/◌}
use chris_tencent_db_agent_m.Compressor.Slots.{Env, Slot, sum_tokens, protected_start}
use chris_tencent_db_agent_m.Compressor.Truncate.{Scale, Truncation, truncate_kept, falls_short}
use chris_tencent_db_agent_m.Compressor.Marks.{scan_from_head}
use chris_tencent_db_agent_m.Compressor.Pairs.{ensure_tool_pair_integrity}
use chris_tencent_db_agent_m.Compressor.Deletion.{
  deleted_result_ids, orphan_all, delete_marked, Deleted, indices_from,
}

unfoldable pub counted : Env → Slot → Slot
counted env s = record s { tokens = env.tokens_of s.message }

unfoldable pub count_all : Env → List Slot → List Slot
unfolding counted
count_all env [] = []
count_all env (s ∷ ss) = counted env s ∷ count_all env ss

-- The tokens are counted where the array gives none.
unfoldable pub baseline : Env → List Slot → List Slot
unfolding count_all sum_tokens
baseline env ss = if sum_tokens ss == 0 && not (is_empty ss) then count_all env ss else ss

unfoldable pub current_tokens : ℕ → List Slot → ℕ
unfolding sum_tokens
current_tokens client ss = if ltb 0 client then client else sum_tokens ss

unfoldable pub scale_of : ℕ → List Slot → Scale
unfolding sum_tokens
scale_of current ss =
    if ltb 0 (sum_tokens ss)
    then record { num = current; den = sum_tokens ss }
    else record { num = 1; den = 1 }

-- `deleteFreedLocal < scaledExcess`.
unfoldable pub needs_more : Scale → ℕ → Truncation → ℕ → Bool
needs_more scale excess t freed =
    ltb ((freed + t.gain) * scale.num) (excess * scale.den + t.loss * scale.num)

-- `Math.round` of a fraction.
unfoldable pub rounded : ℕ → ℕ → ℕ
rounded n d = (2 * n + d) / (2 * d)

-- `Math.round(currentTokens - freedClient)`.
unfoldable pub remaining_after : Scale → ℕ → Truncation → ℕ → ℕ
unfolding rounded
remaining_after scale current t freed =
    rounded (current * scale.den + t.loss * scale.num - (t.gain + freed) * scale.num) scale.den

pub record Compressed : Type 0 where
  pub slots : List Slot
  pub deleted_count : ℕ
  pub deleted_ids : List String
  pub remaining_tokens : ℕ

-- Phase 2: the indices to delete.
unfoldable pub to_delete : Env → ℕ → Scale → ℕ → Truncation → List Bool
unfolding scan_from_head ensure_tool_pair_integrity needs_more
to_delete env limit scale excess t =
    ensure_tool_pair_integrity t.slots
      (scan_from_head env t.slots limit (needs_more scale excess t)).marks

-- Phase 3.
unfoldable pub execute : List Slot → List Bool → Deleted
unfolding orphan_all deleted_result_ids delete_marked
execute ss marks =
    let (stripped, marks') = orphan_all (deleted_result_ids ss marks) ss marks in
    delete_marked stripped marks'

unfoldable pub marked_count : List Slot → List Bool → ℕ
unfolding orphan_all deleted_result_ids
marked_count ss marks =
    length (indices_from 0 (orphan_all (deleted_result_ids ss marks) ss marks).1)

unfoldable pub delete_phases : Env → ℕ → Scale → ℕ → ℕ → Truncation → Compressed
unfolding to_delete execute remaining_after marked_count
delete_phases env limit scale current excess t =
    let marks = to_delete env limit scale excess t in
    let d = execute t.slots marks in
    record {
      slots = d.slots;
      deleted_count = marked_count t.slots marks;
      deleted_ids = d.ids;
      remaining_tokens = remaining_after scale current t d.freed;
    }

unfoldable pub no_deletion : ℕ → List Slot → Compressed
no_deletion remaining ss = record {
  slots = ss;
  deleted_count = 0;
  deleted_ids = [];
  remaining_tokens = remaining;
}

unfoldable pub after_truncation : Env → ℕ → Scale → ℕ → ℕ → Truncation → Compressed
unfolding falls_short no_deletion delete_phases remaining_after
after_truncation env limit scale current excess t =
    if falls_short scale excess t
    then delete_phases env limit scale current excess t
    else no_deletion (remaining_after scale current t 0) t.slots

unfoldable pub aggressive_compress : Env → List Slot → ℕ → ℕ → Compressed
unfolding baseline current_tokens scale_of truncate_kept after_truncation no_deletion
    protected_start
aggressive_compress env given target client =
    let ss = baseline env given in
    let current = current_tokens client ss in
    let scale = scale_of current ss in
    if leb current target
    then no_deletion current ss
    else after_truncation env (protected_start ss) scale current (current - target)
        (truncate_kept env scale (current - target) ss)
