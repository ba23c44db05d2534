-- ===== src/Compressor/Stays.antt =====
-- That src/offload_server/compact/compressor.ts keeps a protected message that has no part in a tool
-- call, unchanged.
use chris_tencent_db_agent_m.Prelude.{
  ◌||◌, ℕ, zero, suc, ◌≤◌, ◌≡◌, sym, ◌∙◌, ap, Bool, true, false, some, List, [], ◌∷◌, String, leb,
  arith, if_elim, subst, Bool-cases, inl, inr, ◌⊎◌, is_empty, keep, ◌-◌,
}
use chris_tencent_db_agent_m.FastPath.Messages.{
  Message, extract_all_tool_use_ids, is_tool_result_message, has,
}
use chris_tencent_db_agent_m.FastPath.Messages.{is_mmd_message}
use chris_tencent_db_agent_m.Compressor.Slots.{
  is_system_reminder, is_system, Env, Slot, protected_start,
}
use chris_tencent_db_agent_m.Compressor.Truncate.{Truncation, truncate_kept, Scale, falls_short}
use chris_tencent_db_agent_m.Compressor.Marks.{is_marked, is_deletable, scan_from_head}
use chris_tencent_db_agent_m.Compressor.Pairs.{ensure_tool_pair_integrity}
use chris_tencent_db_agent_m.Compressor.Deletion.{
  dangling, orphan_at, orphan_all, deleted_result_ids,
}
use chris_tencent_db_agent_m.Compressor.Aggressive.{
  baseline, current_tokens, scale_of, to_delete, execute, delete_phases, after_truncation,
  no_deletion, aggressive_compress, needs_more, Compressed,
}
use chris_tencent_db_agent_m.Compressor.Batch.{unmarked_slots, delete_marked-at_once}
use chris_tencent_db_agent_m.Compressor.Passes.{holds_at, IsCareful, scan_from_head-IsCareful}
use chris_tencent_db_agent_m.Compressor.Untouched.{
  truncate_kept-other, message_at-baseline, protected_start-baseline, deletable-message,
}
use chris_tencent_db_agent_m.Compressor.Keeps.{
  message_at, IsUnlinked, integrity_other, some-injective,
}

-- The message is one of the slots'.
abbrev pub Has : List Slot → Message → Type 0
Has ss m = (k : ℕ) × (message_at ss k ≡ some m)

next-Has : (s : Slot) (ss : List Slot) (m : Message) → Has ss m → Has (s ∷ ss) m
unfolding message_at
next-Has s ss m (k, e) = (suc k, e)

unmarked-Has :
    (ss : List Slot) (bs : List Bool) (j : ℕ) (m : Message)
    → message_at ss j ≡ some m
    → is_marked bs j ≡ false
    → Has (unmarked_slots ss bs) m
unfolding message_at is_marked unmarked_slots
unmarked-Has [] bs j m e h = cc
unmarked-Has (s ∷ ss) [] j m e h = (j, e)
unmarked-Has (s ∷ ss) (true ∷ bs) zero m e h = cc
unmarked-Has (s ∷ ss) (false ∷ bs) zero m e h = (0, e)
unmarked-Has (s ∷ ss) (true ∷ bs) (suc j) m e h = unmarked-Has ss bs j m e h
unmarked-Has (s ∷ ss) (false ∷ bs) (suc j) m e h =
    next-Has s (unmarked_slots ss bs) m (unmarked-Has ss bs j m e h)

no_dangling :
    (deleted : List String) (m : Message)
    → extract_all_tool_use_ids m ≡ []
    → is_empty (dangling deleted m) ≡ true
unfolding dangling
no_dangling deleted m e = ap (λ (xs : List String). is_empty (keep (has deleted) xs)) e

orphan_at-stays :
    (deleted : List String) (s : Slot)
    → extract_all_tool_use_ids s.message ≡ []
    → orphan_at deleted s false ≡ (s, false)
unfolding orphan_at
orphan_at-stays deleted s e = ground (arith, no_dangling deleted s.message e)

orphan_all-stays :
    (deleted : List String) (ss : List Slot) (bs : List Bool) (j : ℕ) (m : Message)
    → message_at ss j ≡ some m
    → extract_all_tool_use_ids m ≡ []
    → is_marked bs j ≡ false
    → (message_at (orphan_all deleted ss bs).0 j ≡ some m)
      × (is_marked (orphan_all deleted ss bs).1 j ≡ false)
unfolding orphan_all message_at is_marked
orphan_all-stays deleted [] bs j m e u h = cc
orphan_all-stays deleted (s ∷ ss) [] j m e u h = (e, h)
orphan_all-stays deleted (s ∷ ss) (b ∷ bs) zero m e u h =
    let same =
      orphan_at-stays deleted s (ap extract_all_tool_use_ids (some-injective s.message m e) ∙ u) in
    let at : orphan_at deleted s b ≡ (s, false) = ap (orphan_at deleted s) h ∙ same in
    (ap (λ (p : Slot × Bool). some p.0.message) at ∙ e, ap (λ (p : Slot × Bool). p.1) at)
orphan_all-stays deleted (s ∷ ss) (b ∷ bs) (suc j) m e u h =
    orphan_all-stays deleted ss bs j m e u h

execute-Has :
    (ss : List Slot) (marks : List Bool) (j : ℕ) (m : Message)
    → message_at ss j ≡ some m
    → extract_all_tool_use_ids m ≡ []
    → is_marked marks j ≡ false
    → Has (execute ss marks).slots m
unfolding execute
execute-Has ss marks j m e u h =
    let deleted = deleted_result_ids ss marks in
    let (at, unset) = orphan_all-stays deleted ss marks j m e u h in
    let (ss', marks') = orphan_all deleted ss marks in
    subst (λ (l : List Slot). Has l m) (sym (delete_marked-at_once ss' marks').0)
      (unmarked-Has ss' marks' j m at unset)

-- What is kept wherever it stands.
unfoldable pub is_protected : Env → Message → Bool
is_protected env m = is_mmd_message m || is_system_reminder env m || is_system m

not_deletable :
    (env : Env) (ss : List Slot) (j : ℕ) (m : Message)
    → message_at ss j ≡ some m
    → is_protected env m ≡ true
    → holds_at (is_deletable env) ss j ≡ false
unfolding is_deletable is_protected
not_deletable env ss j m e h = deletable-message env ss j m e ∙ ground (arith, h)

-- A message that the passes are to spare, at its index.
pub record IsSpared (env : Env) (limit j : ℕ) (ss : List Slot) (m : Message) : Type 0 where
  pub here : message_at ss j ≡ some m
  pub unlinked : IsUnlinked m
  pub spared : (limit ≤ j) ⊎ (is_protected env m ≡ true)

scan_spares :
    (env : Env) (limit j : ℕ) (ss : List Slot) (marks : List Bool) (m : Message)
    → IsCareful env ss limit marks
    → IsSpared env limit j ss m
    → is_marked marks j ≡ false
scan_spares env limit j ss marks m c s = elim (Bool-cases (is_marked marks j)) [
  | inr unset ↦ unset
  | inl set ↦ elim s.spared [
    | inl past ↦ absurd (omega (arith, past, c.within j set))
    | inr kept ↦ ground (arith, not_deletable env ss j m s.here kept, c.deletable j set)
  ]
]

delete_phases-Has :
    (env : Env) (limit : ℕ) (scale : Scale) (current excess j : ℕ) (t : Truncation) (m : Message)
    → IsSpared env limit j t.slots m
    → Has (delete_phases env limit scale current excess t).slots m
unfolding delete_phases to_delete
delete_phases-Has env limit scale current excess j t m s =
    let marks = (scan_from_head env t.slots limit (needs_more scale excess t)).marks in
    execute-Has t.slots (ensure_tool_pair_integrity t.slots marks) j m s.here s.unlinked.no_uses (
      integrity_other t.slots marks j m s.here s.unlinked (
        scan_spares env limit j t.slots marks m
          (scan_from_head-IsCareful env t.slots limit (needs_more scale excess t)) s))

after_truncation-Has :
    (env : Env) (limit : ℕ) (scale : Scale) (current excess j : ℕ) (t : Truncation) (m : Message)
    → IsSpared env limit j t.slots m
    → Has (after_truncation env limit scale current excess t).slots m
unfolding after_truncation no_deletion
after_truncation-Has env limit scale current excess j t m s =
    if_elim (λ (c : Compressed). Has c.slots m) (falls_short scale excess t) _ _
      (λ _. delete_phases-Has env limit scale current excess j t m s) (λ _. (j, s.here))

-- A message is spared in other slots where it is at the same index.
moved-IsSpared :
    (env : Env) (limit j : ℕ) (ss ss' : List Slot) (m : Message)
    → IsSpared env limit j ss m
    → message_at ss' j ≡ some m
    → IsSpared env limit j ss' m
moved-IsSpared env limit j ss ss' m s e = record {
  here = e;
  unlinked = s.unlinked;
  spared = s.spared;
}

-- A message that is no tool result and has no id of a tool call or result is among the messages
-- that aggressiveCompress leaves, unchanged, if it is a diagram's, a system reminder or the
-- system's message, or if it does not stand before the last user message; whatever the target and
-- the tokens.
pub aggressive_compress-Has :
    (env : Env) (ss : List Slot) (target client j : ℕ) (m : Message)
    → IsSpared env (protected_start ss) j ss m
    → is_tool_result_message m ≡ false
    → Has (aggressive_compress env ss target client).slots m
unfolding aggressive_compress no_deletion
aggressive_compress-Has env given target client j m s r =
    let ss = baseline env given in
    let current = current_tokens client ss in
    let scale = scale_of current ss in
    let here = message_at-baseline env given j ∙ s.here in
    let kept = truncate_kept env scale (current - target) ss in
    if_elim (λ (c : Compressed). Has c.slots m) (leb current target) _ _ (λ _. (j, here))
      (λ _.
        after_truncation-Has env (protected_start ss) scale current (current - target) j kept m (
          moved-IsSpared env (protected_start ss) j given kept.slots m
            (subst (λ (n : ℕ). IsSpared env n j given m) (sym (protected_start-baseline env given))
              s)
            (truncate_kept-other env scale (current - target) j ss m here r)))
