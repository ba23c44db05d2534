-- ===== src/Checkpoint/Cursor.antt =====
-- The cursors and counters of a checkpoint of src/utils/checkpoint.ts, over any calls.
use chris_tencent_db_agent_m.Prelude.{
  ℕ, ◌≤◌, ◌≡◌, refl, String, Option, none, some, List, [], ◌∷◌, All, arith, eq_iff, str_eq, or_else,
  if_elim, max,
}
use chris_tencent_db_agent_m.Prelude.Maps
use chris_tencent_db_agent_m.Prelude.Maps.{Map, get-set}
use chris_tencent_db_agent_m.Checkpoint.{
  RunnerState, Checkpoint, Captured, default_runner, mark_persona_generated, clear_persona_request,
  set_persona_update_request, increment_scenes_processed, mark_l1_extraction_complete,
  capture_atomically, capture_over, merge_pipeline_states, get_runner_state, put_runner_state,
  after_timestamp,
}
use chris_tencent_db_agent_m.Checkpoint.Split.{
  Op, marks_persona, clears_request, sets_request, counts_scene, marks_l1, captures, apply_op,
  Change, by_runner, merges, apply_changes,
}

-- A session's cursor is not beyond the newest message captured.
abbrev pub IsWithin : ℕ → Map RunnerState → Type 0
IsWithin limit m = All (λ x. x.1.last_captured_timestamp ≤ limit) m

-- The memories since the last persona are among those extracted.
abbrev pub IsConsistent : Checkpoint → Type 0
IsConsistent cp =
    IsWithin cp.last_captured_timestamp cp.runner_states
    × (cp.memories_since_last_persona ≤ cp.total_memories_extracted)

IsWithin-le : (m : Map RunnerState) (a b : ℕ) → a ≤ b → IsWithin a m → IsWithin b m
IsWithin-le [] a b h w = tt
IsWithin-le ((k, s) ∷ m) a b h w = (omega (arith, h, w.0), IsWithin-le m a b h w.1)

IsWithin-get :
    (m : Map RunnerState) (a : ℕ) (key : String)
    → IsWithin a m
    → (or_else (Maps.get m key) default_runner).last_captured_timestamp ≤ a
unfolding Maps.get default_runner
IsWithin-get [] a key w = omega arith
IsWithin-get ((k, s) ∷ m) a key w = ground (arith, w.0, IsWithin-get m a key w.1)

IsWithin-set :
    (m : Map RunnerState) (a : ℕ) (key : String) (s : RunnerState)
    → s.last_captured_timestamp ≤ a
    → IsWithin a m
    → IsWithin a (Maps.set m key s)
unfolding Maps.set
IsWithin-set [] a key s h w = (h, tt)
IsWithin-set ((k, t) ∷ m) a key s h w =
    if_elim (IsWithin a) (str_eq k key) _ _ (λ _. (h, w.1))
      (λ _. (w.0, IsWithin-set m a key s h w.1))

capture-IsConsistent :
    (r : Option Captured) (key : String) (cp : Checkpoint)
    → IsConsistent cp
    → IsConsistent (capture_over r key cp)
unfolding capture_over put_runner_state get_runner_state
capture-IsConsistent none key cp h = (
  IsWithin-set cp.runner_states cp.last_captured_timestamp key (get_runner_state cp key)
      (IsWithin-get cp.runner_states cp.last_captured_timestamp key h.0) h.0,
  h.1,
)
capture-IsConsistent (some r) key cp h =
    let limit = max cp.last_captured_timestamp r.max_timestamp in
    (
      IsWithin-set cp.runner_states limit key
          (record (get_runner_state cp key) { last_captured_timestamp = r.max_timestamp })
          (omega arith)
          (IsWithin-le cp.runner_states cp.last_captured_timestamp limit (omega arith) h.0),
      h.1,
    )

op-IsConsistent : (op : Op) (cp : Checkpoint) → IsConsistent cp → IsConsistent (apply_op op cp)
unfolding apply_op mark_persona_generated clear_persona_request set_persona_update_request
    increment_scenes_processed mark_l1_extraction_complete put_runner_state get_runner_state
    capture_atomically
op-IsConsistent (marks_persona now n) cp h = (h.0, omega arith)
op-IsConsistent clears_request cp h = h
op-IsConsistent (sets_request reason) cp h = h
op-IsConsistent counts_scene cp h = h
op-IsConsistent (marks_l1 key n cursor scene) cp h = (
  IsWithin-set cp.runner_states cp.last_captured_timestamp key _
      (IsWithin-get cp.runner_states cp.last_captured_timestamp key h.0) h.0,
  omega (arith, h.1),
)
op-IsConsistent (captures key start fn) cp h =
    capture-IsConsistent (fn (after_timestamp start (get_runner_state cp key))) key cp h

-- Over any changes of a checkpoint, no session's capture cursor is beyond the newest captured
-- timestamp of all, and the memories since the last persona are at most those extracted, if this
-- held at the start.
apply_changes-IsConsistent :
    (cs : List Change) (cp : Checkpoint) → IsConsistent cp → IsConsistent (apply_changes cs cp)
unfolding apply_changes merge_pipeline_states
apply_changes-IsConsistent [] cp h = h
apply_changes-IsConsistent (by_runner op ∷ cs) cp h =
    apply_changes-IsConsistent cs (apply_op op cp) (op-IsConsistent op cp h)
apply_changes-IsConsistent (merges states ∷ cs) cp h =
    apply_changes-IsConsistent cs (merge_pipeline_states states cp) h

-- A capture that finds messages finds none from before the time that it is given.
abbrev pub IsForward : Change → Type 0
IsForward (by_runner (captures key start fn)) =
    (after : ℕ) (r : Captured) → fn after ≡ some r → after ≤ r.max_timestamp
IsForward _ = Unit

abbrev pub cursor : Checkpoint → String → ℕ
cursor cp key = (get_runner_state cp key).last_captured_timestamp

cursor-put :
    (key j : String) (s : RunnerState) (cp : Checkpoint)
    → cursor cp key ≤ s.last_captured_timestamp
    → cursor cp j ≤ cursor (put_runner_state key s cp) j
unfolding get_runner_state put_runner_state
cursor-put key j s cp h = ground (arith, get-set cp.runner_states key j s, eq_iff key j, h)

le-after_timestamp :
    (start : Option ℕ) (s : RunnerState) → s.last_captured_timestamp ≤ after_timestamp start s
unfolding after_timestamp
le-after_timestamp start s = ground arith

cursor-capture :
    (r : Option Captured) (key j : String) (cp : Checkpoint)
    → ((x : Captured) → r ≡ some x → cursor cp key ≤ x.max_timestamp)
    → cursor cp j ≤ cursor (capture_over r key cp) j
unfolding capture_over
cursor-capture none key j cp h = cursor-put key j (get_runner_state cp key) cp (omega arith)
cursor-capture (some r) key j cp h =
    cursor-put key j
      (record (get_runner_state cp key) { last_captured_timestamp = r.max_timestamp }) cp (h r refl)

cursor-change :
    (c : Change) (j : String) (cp : Checkpoint)
    → IsForward c
    → cursor cp j ≤ cursor (apply_changes (c ∷ []) cp) j
unfolding apply_changes apply_op get_runner_state mark_persona_generated clear_persona_request
    set_persona_update_request increment_scenes_processed mark_l1_extraction_complete
    merge_pipeline_states capture_atomically
cursor-change (merges states) j cp f = omega arith
cursor-change (by_runner (marks_persona now n)) j cp f = omega arith
cursor-change (by_runner clears_request) j cp f = omega arith
cursor-change (by_runner (sets_request reason)) j cp f = omega arith
cursor-change (by_runner counts_scene) j cp f = omega arith
cursor-change (by_runner (marks_l1 key n cur scene)) j cp f = cursor-put key j _ cp (omega arith)
cursor-change (by_runner (captures key start fn)) j cp f =
    cursor-capture (fn (after_timestamp start (get_runner_state cp key))) key j cp (λ x e. omega (
      arith,
      f (after_timestamp start (get_runner_state cp key)) x e,
      le-after_timestamp start (get_runner_state cp key),
    ))

-- Over any changes of a checkpoint in which a capture that finds messages gives a newest timestamp
-- not before the time it was given, no session's capture cursor goes down.
pub cursor-apply_changes :
    (cs : List Change) (key : String) (cp : Checkpoint)
    → All IsForward cs
    → cursor cp key ≤ cursor (apply_changes cs cp) key
unfolding apply_changes
cursor-apply_changes [] key cp f = omega arith
cursor-apply_changes (by_runner op ∷ cs) key cp f = omega (
  arith,
  cursor-change (by_runner op) key cp f.0,
  cursor-apply_changes cs key (apply_op op cp) f.1,
)
cursor-apply_changes (merges states ∷ cs) key cp f = omega (
  arith,
  cursor-change (merges states) key cp f.0,
  cursor-apply_changes cs key (merge_pipeline_states states cp) f.1,
)
