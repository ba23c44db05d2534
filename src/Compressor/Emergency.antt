-- ===== src/Compressor/Emergency.antt =====
-- `emergencyCompress` of src/offload_server/compact/compressor.ts: the messages of diagrams are taken
-- out first, and put back at the head.
use chris_tencent_db_agent_m.Prelude.{ℕ, ◌+◌, ◌-◌, ◌||◌, List, [], ◌∷◌, length, leb, if◌then◌else◌}
use chris_tencent_db_agent_m.FastPath.Messages.{is_mmd_message}
use chris_tencent_db_agent_m.Compressor.Slots.{Env, Slot, sum_tokens, protected_start}
use chris_tencent_db_agent_m.Compressor.Truncate.{truncate_all}
use chris_tencent_db_agent_m.Compressor.Aggressive.{
  Compressed, baseline, current_tokens, scale_of, after_truncation, no_deletion,
}

-- The messages without the diagrams', and those in their order.
unfoldable pub extract_mmd : List Slot → List Slot × List Slot
extract_mmd [] = ([], [])
extract_mmd (s ∷ ss) =
    let (rest, mmd) = extract_mmd ss in
    if is_mmd_message s.message then (rest, s ∷ mmd) else (s ∷ rest, mmd)

-- Each is put in front of all the others.
unfoldable pub restore : List Slot → List Slot → List Slot
restore [] ss = ss
restore (m ∷ ms) ss = restore ms (m ∷ ss)

unfoldable pub restored : List Slot → Compressed → Compressed
unfolding restore
restored mmd c = record c { slots = restore mmd c.slots }

unfoldable pub compress_rest : Env → List Slot → ℕ → ℕ → Compressed
unfolding scale_of truncate_all after_truncation protected_start
compress_rest env ss current target =
    let scale = scale_of current ss in
    after_truncation env (protected_start ss) scale current (current - target)
      (truncate_all env scale (current - target) ss)

unfoldable pub emergency_compress : Env → List Slot → ℕ → ℕ → Compressed
unfolding extract_mmd baseline current_tokens restored no_deletion compress_rest sum_tokens
emergency_compress env given target client =
    let (others, mmd) = extract_mmd given in
    let ss = baseline env others in
    let current = current_tokens client ss in
    if leb current target || leb (length ss) 2
    then restored mmd (no_deletion (current + sum_tokens mmd) ss)
    else restored mmd (compress_rest env ss current target)
