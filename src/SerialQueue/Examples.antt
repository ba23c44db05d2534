-- ===== src/SerialQueue/Examples.antt =====
-- Tests of the queue of src/utils/serial-queue.ts, and its theorems at concrete inputs.
use chris_tencent_db_agent_m.Prelude.{
  ℕ, ◌≡◌, arith, refl, true, false, none, some, List, [], ◌∷◌, ◌++◌,
}
use chris_tencent_db_agent_m.SerialQueue.{
  Queue, started, settled, cleared, Op, adds, pauses, starts, clears, finishes, settles, idle,
  clear, step, run,
}
use chris_tencent_db_agent_m.SerialQueue.Order.{removals, Serial, removals-run, run-Serial}
use chris_tencent_db_agent_m.SerialQueue.Idle.{
  woken_by, clear_strands, rounds, Drained, run-Drained,
}

-- Task 7 runs, 8 and 9 wait, and one caller waits for the queue to be idle.
abbrev working : Queue ℕ
working = record {
  queue = 8 ∷ 9 ∷ [];
  running = true;
  paused = false;
  idle_resolvers = 1 ∷ [];
  flight = some 7;
}

-- Nothing runs, and task 5 waits behind `pause`.
abbrev held_back : Queue ℕ
held_back = record {
  queue = 5 ∷ [];
  running = false;
  paused = true;
  idle_resolvers = 2 ∷ [];
  flight = none;
}

abbrev ops : List (Op ℕ)
ops = adds 6 ∷ settles false ∷ finishes ∷ pauses ∷ settles true ∷ finishes ∷ starts ∷ clears ∷ []

events_of_ops :
    (run ops working).1 ≡ settled 7 false ∷ started 8 ∷ settled 8 true ∷ started 9 ∷ cleared 6 ∷ []
unfolding run step
events_of_ops = refl

removals-run_example : removals (run ops working).1 ++ (run ops working).0.queue ≡ 8 ∷ 9 ∷ 6 ∷ []
removals-run_example = removals-run ops working

run-Serial_example : Serial (some 7) (run ops working).1 (run ops working).0.flight
run-Serial_example = run-Serial ops working (λ e. ground arith)

clear_strands_example :
    (idle (clear held_back).0 ≡ true)
    × ((clear held_back).0.idle_resolvers ≡ 2 ∷ [])
    × (woken_by (clear held_back).1 ≡ [])
clear_strands_example = clear_strands held_back refl

run-Drained_example :
    Drained (8 ∷ 9 ∷ []) (1 ∷ []) (run (rounds (false ∷ true ∷ false ∷ [])) working)
run-Drained_example = run-Drained working 7 (false ∷ true ∷ false ∷ []) refl refl refl (omega arith)
