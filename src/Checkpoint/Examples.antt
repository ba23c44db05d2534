-- ===== src/Checkpoint/Examples.antt =====
-- Runs on checkpoints of src/utils/checkpoint.ts.
use chris_tencent_db_agent_m.Prelude.{
  ℕ, zero, suc, inl, ◌+◌, ◌≡◌, ◌≤◌, refl, Option, none, some, List, [], ◌∷◌, arith, eq_iff,
}
use chris_tencent_db_agent_m.Checkpoint.{Captured, default_checkpoint, default_pipeline}
use chris_tencent_db_agent_m.Checkpoint.Reading.{read_raw}
use chris_tencent_db_agent_m.Checkpoint.Reading.RoundTrip.{whole, read_raw-print}
use chris_tencent_db_agent_m.Checkpoint.Split.{
  Change, by_runner, merges, marks_persona, marks_l1, captures, apply_changes, runners_only,
  merges_only, apply_changes-split,
}
use chris_tencent_db_agent_m.Checkpoint.Cursor.{
  IsConsistent, IsForward, cursor, cursor-apply_changes,
}
use chris_tencent_db_agent_m.Checkpoint.FileLock.{
  is_open, contains, FileLock, Event, enters, reads, writes, throws, run,
}
use chris_tencent_db_agent_m.Checkpoint.FileLock.Chain.{IsValid}
use chris_tencent_db_agent_m.Checkpoint.FileLock.Valid.{waiting}
use chris_tencent_db_agent_m.Checkpoint.FileLock.Refinement.{Atomics, run-Atomics}
use chris_tencent_db_agent_m.Checkpoint.FileLock.Serial.{
  apply_all, changes, outcome, outcome-run, turns, waiting-turns,
}

-- Messages up to the time 40 are there.
abbrev newest : ℕ → Option Captured
newest zero = some (record { max_timestamp = 40; message_count = 2 })
newest (suc n) = none

abbrev mixed : List Change
mixed =
    by_runner (captures "s" none newest)
    ∷ merges (("s", default_pipeline) ∷ [])
    ∷ by_runner (marks_l1 "s" 3 (some 40) none)
    ∷ by_runner (marks_persona "now" 2)
    ∷ []

apply_changes-split_example :
    apply_changes mixed default_checkpoint
    ≡ apply_changes (merges_only mixed) (apply_changes (runners_only mixed) default_checkpoint)
apply_changes-split_example = apply_changes-split mixed default_checkpoint

default-IsConsistent : IsConsistent default_checkpoint
unfolding default_checkpoint
default-IsConsistent = (tt, omega arith)

newest-IsForward : IsForward (by_runner (captures "s" none newest))
newest-IsForward zero r e = omega arith
newest-IsForward (suc n) r e = ground (arith, e)

cursor-apply_changes_example :
    cursor default_checkpoint "s" ≤ cursor (apply_changes mixed default_checkpoint) "s"
cursor-apply_changes_example =
    cursor-apply_changes mixed "s" default_checkpoint (newest-IsForward, (tt, (tt, (tt, tt))))

read_raw-print_example :
    read_raw (λ text. some (whole default_checkpoint)) (some "{}") ≡ default_checkpoint
read_raw-print_example =
    read_raw-print (λ text. some (whole default_checkpoint)) (λ cp. "{}") default_checkpoint refl
      (λ e. ground (arith, eq_iff "{}" ""))

abbrev idle : FileLock ℕ
idle = record { tail = none; gates = 0; released = []; sections = []; file = 5 }

-- A second call comes while the first has read the file; its own read waits.
abbrev contended : List (Event ℕ)
contended =
    enters (λ n. n + 1)
    ∷ reads 0
    ∷ enters (λ n. n + 10)
    ∷ reads 1
    ∷ writes 1
    ∷ writes 0
    ∷ reads 1
    ∷ writes 1
    ∷ []

contended_file : (run contended idle).file ≡ 16
unfolding run
contended_file = refl

idle-IsValid : IsValid idle
idle-IsValid = (tt, refl)

outcome-run_example :
    outcome (waiting (run contended idle)) ≡ apply_all (changes contended) (outcome (waiting idle))
outcome-run_example =
    outcome-run contended idle idle-IsValid (tt, (tt, (tt, (tt, (tt, (tt, (tt, (tt, tt))))))))

run-Atomics_example :
    Atomics
      (enters (λ n. n + 1) ∷ reads 0 ∷ throws 0 ∷ [])
      (waiting idle)
      (waiting (run (enters (λ n. n + 1) ∷ reads 0 ∷ throws 0 ∷ []) idle))
run-Atomics_example = run-Atomics (enters (λ n. n + 1) ∷ reads 0 ∷ throws 0 ∷ []) idle idle-IsValid

-- Two calls that wait.
abbrev queued_up : FileLock ℕ
queued_up = record {
  tail = some 1;
  gates = 2;
  released = [];
  sections =
      record { gate = 0; prev = none; change = λ n. n + 1; snapshot = none }
      ∷ record { gate = 1; prev = some 0; change = λ n. n + 10; snapshot = none }
      ∷ [];
  file = 5;
}

queued_up-IsValid : IsValid queued_up
unfolding is_open contains
queued_up-IsValid = (
  tt,
  (refl, inl refl, (refl, omega arith), (refl, refl, (refl, omega arith), omega arith, tt), refl),
)

waiting-turns_example :
    waiting (run (turns queued_up.sections) queued_up) ≡ (outcome (waiting queued_up), [])
waiting-turns_example = waiting-turns queued_up queued_up-IsValid
