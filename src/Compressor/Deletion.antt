-- ===== src/Compressor/Deletion.antt =====
-- The deletion of the marked messages in src/offload_server/compact/compressor.ts.
use chris_tencent_db_agent_m.Prelude.{
  ℕ, zero, suc, ◌+◌, Bool, true, false, not, List, [], ◌∷◌, ◌++◌, String, length, keep, is_empty,
  if◌then◌else◌, ◌==◌,
}
use chris_tencent_db_agent_m.FastPath.Messages.{
  Message, has, is_set, extract_tool_result_id, extract_all_tool_use_ids,
  is_assistant_with_tool_use, content_of, put_content,
}
use chris_tencent_db_agent_m.FastPath.{without_uses}
use chris_tencent_db_agent_m.Compressor.Slots.{Slot}
use chris_tencent_db_agent_m.Compressor.Truncate.{tokens_at}

unfoldable pub id_list : Message → List String
id_list m = let tid = extract_tool_result_id m in if is_set tid then tid ∷ [] else []

-- `deletedToolCallIds`.
unfoldable pub deleted_result_ids : List Slot → List Bool → List String
unfolding id_list
deleted_result_ids [] bs = []
deleted_result_ids (s ∷ ss) [] = []
deleted_result_ids (s ∷ ss) (b ∷ bs) =
    (if b then id_list s.message else []) ++ deleted_result_ids ss bs

unfoldable pub dangling : List String → Message → List String
dangling deleted m = keep (has deleted) (extract_all_tool_use_ids m)

unfoldable pub is_all_dangling : List String → Message → Bool
unfolding dangling
is_all_dangling deleted m = length (dangling deleted m) == length (extract_all_tool_use_ids m)

unfoldable pub strip_dangling : List String → Message → Message
unfolding dangling without_uses
strip_dangling deleted m = put_content (without_uses (has (dangling deleted m)) (content_of m)) m

-- A message that stays, whose calls of deleted results are taken out, or which is deleted too.
unfoldable pub orphan_at : List String → Slot → Bool → Slot × Bool
unfolding strip_dangling is_all_dangling
orphan_at deleted s true = (s, true)
orphan_at deleted s false =
    if not (is_assistant_with_tool_use s.message)
    then (s, false)
    else if is_empty (dangling deleted s.message)
    then (s, false)
    else if is_all_dangling deleted s.message
    then (s, true)
    else (record s { message = strip_dangling deleted s.message }, false)

unfoldable pub orphan_all : List String → List Slot → List Bool → List Slot × List Bool
unfolding orphan_at
orphan_all deleted [] bs = ([], [])
orphan_all deleted (s ∷ ss) [] = (s ∷ ss, [])
orphan_all deleted (s ∷ ss) (b ∷ bs) =
    let (s', b') = orphan_at deleted s b in
    let (ss', bs') = orphan_all deleted ss bs in (s' ∷ ss', b' ∷ bs')

-- The marked indices, the greatest first.
unfoldable pub indices_from : ℕ → List Bool → List ℕ
indices_from i [] = []
indices_from i (b ∷ bs) = indices_from (suc i) bs ++ (if b then i ∷ [] else [])

unfoldable pub remove_at : ℕ → List Slot → List Slot
remove_at i [] = []
remove_at zero (s ∷ ss) = ss
remove_at (suc i) (s ∷ ss) = s ∷ remove_at i ss

unfoldable pub ids_at : List Slot → ℕ → List String
unfolding id_list
ids_at [] i = []
ids_at (s ∷ ss) zero = id_list s.message
ids_at (s ∷ ss) (suc i) = ids_at ss i

-- What is left, `deletedIds` and `totalDeleteFreedLocal`.
pub record Deleted : Type 0 where
  pub slots : List Slot
  pub ids : List String
  pub freed : ℕ

unfoldable pub delete_at : ℕ → Deleted → Deleted
unfolding remove_at ids_at tokens_at
delete_at i d = record {
  slots = remove_at i d.slots;
  ids = d.ids ++ ids_at d.slots i;
  freed = d.freed + tokens_at d.slots i;
}

unfoldable pub delete_each : List ℕ → Deleted → Deleted
unfolding delete_at
delete_each [] d = d
delete_each (i ∷ is) d = delete_each is (delete_at i d)

unfoldable pub delete_marked : List Slot → List Bool → Deleted
unfolding delete_each indices_from
delete_marked ss marks =
    delete_each (indices_from 0 marks) (record { slots = ss; ids = []; freed = 0 })
