-- ===== src/Compressor/Marks.antt =====
-- The `Set` of the indices to delete in src/offload_server/compact/compressor.ts, as a mark for each
-- message.
use chris_tencent_db_agent_m.Prelude.{
  ℕ, zero, suc, ◌+◌, Bool, true, false, ◌&&◌, not, List, [], ◌∷◌, ltb, if◌then◌else◌,
}
use chris_tencent_db_agent_m.FastPath.Messages.{is_mmd_message, is_tool_result_message}
use chris_tencent_db_agent_m.Compressor.Slots.{Env, Slot, is_system_reminder, is_system}

unfoldable pub is_marked : List Bool → ℕ → Bool
is_marked [] i = false
is_marked (b ∷ bs) zero = b
is_marked (b ∷ bs) (suc i) = is_marked bs i

unfoldable pub mark : ℕ → List Bool → List Bool
mark i [] = []
mark zero (b ∷ bs) = true ∷ bs
mark (suc i) (b ∷ bs) = b ∷ mark i bs

unfoldable pub no_marks : List Slot → List Bool
no_marks [] = []
no_marks (s ∷ ss) = false ∷ no_marks ss

unfoldable pub unmarked : List Bool → ℕ
unmarked [] = 0
unmarked (b ∷ bs) = let rest = unmarked bs in if b then rest else suc rest

unfoldable pub count_non_mmd_excluding : List Slot → List Bool → ℕ
count_non_mmd_excluding [] marks = 0
count_non_mmd_excluding (s ∷ ss) [] =
    let rest = count_non_mmd_excluding ss [] in
    if not (is_mmd_message s.message) then suc rest else rest
count_non_mmd_excluding (s ∷ ss) (b ∷ bs) =
    let rest = count_non_mmd_excluding ss bs in
    if not b && not (is_mmd_message s.message) then suc rest else rest

-- `deleteIndices` and `deleteFreedLocal`.
pub record Scan : Type 0 where
  pub marks : List Bool
  pub freed : ℕ

pub data Turn : Type 0 where
  skip stop take : Turn

-- What the passes never delete.
unfoldable pub is_deletable : Env → Slot → Bool
is_deletable env s =
    not (is_mmd_message s.message)
    && not (is_system_reminder env s.message)
    && not (is_system s.message)

abbrev pub min_keep : ℕ
min_keep = 10

module _ (all : List Slot) (limit : ℕ) (short : ℕ → Bool) (wanted : Slot → Bool) where
  -- One index of a pass: past the limit or with enough freed the loop is over, and so it is where
  -- too few messages would be left.
  unfoldable pub turn : ℕ → Slot → Scan → Turn
  unfolding is_marked mark count_non_mmd_excluding
  turn i s st =
      if not (ltb i limit && short st.freed)
      then stop
      else if is_marked st.marks i
      then skip
      else if not (wanted s)
      then skip
      else if ltb (count_non_mmd_excluding all (mark i st.marks)) min_keep
      then stop
      else take

  unfoldable pub taken : ℕ → Slot → Scan → Scan
  unfolding mark
  taken i s st = record { marks = mark i st.marks; freed = st.freed + s.tokens }

  unfoldable pub pass_from : ℕ → List Slot → Scan → Scan
  unfolding turn taken
  pass_from i [] st = st
  pass_from i (s ∷ ss) st = elim (turn i s st) [
    | stop ↦ st
    | skip ↦ pass_from (suc i) ss st
    | take ↦ pass_from (suc i) ss (taken i s st)
  ]

-- Pass 1, over the tool results, and pass 2.
unfoldable pub is_wanted_result : Env → Slot → Bool
unfolding is_deletable
is_wanted_result env s = is_deletable env s && is_tool_result_message s.message

unfoldable pub pass_results : Env → List Slot → ℕ → (ℕ → Bool) → Scan
unfolding is_wanted_result pass_from no_marks
pass_results env ss limit short =
    pass_from ss limit short (is_wanted_result env) 0 ss (record { marks = no_marks ss; freed = 0 })

unfoldable pub pass_others : Env → List Slot → ℕ → (ℕ → Bool) → Scan → Scan
unfolding is_deletable pass_from
pass_others env ss limit short st =
    if short st.freed then pass_from ss limit short (is_deletable env) 0 ss st else st

unfoldable pub scan_from_head : Env → List Slot → ℕ → (ℕ → Bool) → Scan
unfolding pass_results pass_others
scan_from_head env ss limit short = pass_others env ss limit short (pass_results env ss limit short)
