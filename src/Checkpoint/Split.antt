-- ===== src/Checkpoint/Split.antt =====
-- That the runners and the pipeline manager of src/utils/checkpoint.ts do not overwrite one another.
use chris_tencent_db_agent_m.Prelude.{
  ℕ, ◌≡◌, refl, ap, ◌∙◌, String, Option, none, some, List, [], ◌∷◌,
}
use chris_tencent_db_agent_m.Prelude.Maps.{Map}
use chris_tencent_db_agent_m.Pipeline.State.{SessionState}
use chris_tencent_db_agent_m.Checkpoint.{
  Checkpoint, Captured, mark_persona_generated, clear_persona_request, set_persona_update_request,
  increment_scenes_processed, mark_l1_extraction_complete, capture_atomically, capture_over,
  merge_pipeline_states, get_runner_state, after_timestamp,
}

-- The calls of `mutate`, but for the pipeline manager's.
pub data Op : Type 0 where
  marks_persona : String → ℕ → Op
  clears_request : Op
  sets_request : String → Op
  counts_scene : Op
  marks_l1 : String → ℕ → Option ℕ → Option String → Op
  captures : String → Option ℕ → (ℕ → Option Captured) → Op

unfoldable pub apply_op : Op → Checkpoint → Checkpoint
unfolding mark_persona_generated clear_persona_request set_persona_update_request
    increment_scenes_processed mark_l1_extraction_complete capture_atomically
apply_op (marks_persona now n) cp = mark_persona_generated now n cp
apply_op clears_request cp = clear_persona_request cp
apply_op (sets_request reason) cp = set_persona_update_request reason cp
apply_op counts_scene cp = increment_scenes_processed cp
apply_op (marks_l1 key n cursor scene) cp = mark_l1_extraction_complete key n cursor scene cp
apply_op (captures key start fn) cp = capture_atomically key start fn cp

-- Either side.
pub data Change : Type 0 where
  by_runner : Op → Change
  merges : Map SessionState → Change

unfoldable pub apply_changes : List Change → Checkpoint → Checkpoint
unfolding apply_op merge_pipeline_states
apply_changes [] cp = cp
apply_changes (by_runner op ∷ cs) cp = apply_changes cs (apply_op op cp)
apply_changes (merges states ∷ cs) cp = apply_changes cs (merge_pipeline_states states cp)

-- The changes of the one side, in their order.
abbrev pub runners_only : List Change → List Change
runners_only [] = []
runners_only (by_runner op ∷ cs) = by_runner op ∷ runners_only cs
runners_only (merges states ∷ cs) = runners_only cs

abbrev pub merges_only : List Change → List Change
merges_only [] = []
merges_only (by_runner op ∷ cs) = merges_only cs
merges_only (merges states ∷ cs) = merges states ∷ merges_only cs

capture-merge :
    (r : Option Captured) (key : String) (states : Map SessionState) (cp : Checkpoint)
    → capture_over r key (merge_pipeline_states states cp)
      ≡ merge_pipeline_states states (capture_over r key cp)
unfolding capture_over merge_pipeline_states
capture-merge none key states cp = refl
capture-merge (some r) key states cp = refl

op-merge :
    (op : Op) (states : Map SessionState) (cp : Checkpoint)
    → apply_op op (merge_pipeline_states states cp) ≡ merge_pipeline_states states (apply_op op cp)
unfolding apply_op merge_pipeline_states
op-merge (marks_persona now n) states cp = refl
op-merge clears_request states cp = refl
op-merge (sets_request reason) states cp = refl
op-merge counts_scene states cp = refl
op-merge (marks_l1 key n cursor scene) states cp = refl
op-merge (captures key start fn) states cp =
    capture-merge (fn (after_timestamp start (get_runner_state cp key))) key states cp

runners-merge :
    (cs : List Change) (states : Map SessionState) (cp : Checkpoint)
    → apply_changes (runners_only cs) (merge_pipeline_states states cp)
      ≡ merge_pipeline_states states (apply_changes (runners_only cs) cp)
unfolding apply_changes
runners-merge [] states cp = refl
runners-merge (by_runner op ∷ cs) states cp =
    ap (apply_changes (runners_only cs)) (op-merge op states cp)
    ∙ runners-merge cs states (apply_op op cp)
runners-merge (merges _ ∷ cs) states cp = runners-merge cs states cp

-- Neither side overwrites the other: any sequence of the runners' changes of a checkpoint and of
-- merges of pipeline states gives the checkpoint that the runners' changes alone give, followed by
-- the merges alone.
pub apply_changes-split :
    (cs : List Change) (cp : Checkpoint)
    → apply_changes cs cp ≡ apply_changes (merges_only cs) (apply_changes (runners_only cs) cp)
unfolding apply_changes
apply_changes-split [] cp = refl
apply_changes-split (by_runner op ∷ cs) cp = apply_changes-split cs (apply_op op cp)
apply_changes-split (merges states ∷ cs) cp =
    apply_changes-split cs (merge_pipeline_states states cp)
    ∙ ap (apply_changes (merges_only cs)) (runners-merge cs states cp)
