-- ===== src/Lib.antt =====
-- The memory pipeline of TencentDB Agent Memory, its recording and scheduling of extraction work, and
-- the compression of conversations on its offload server, modelled and proved.
--
-- The program records conversations (L0), extracts memories from them in batches (L1), groups the
-- memories into scenes (L2) and writes a persona (L3). Its scheduler is `MemoryPipelineManager` of
-- src/utils/pipeline-manager.ts: it buffers the messages of each session, runs L1 when a session
-- reaches a threshold or falls idle, arms a timer for L2 when L1 is over, and triggers L3 when L2 is.
-- It stands on two small components: `SerialQueue` of src/utils/serial-queue.ts, one queue for each
-- level, and `ManagedTimer` of src/utils/managed-timer.ts, two timers for each session. A second
-- scheduler, `StatefulPipelineManager` of src/utils/stateful-pipeline-manager.ts, keeps its state in
-- a backend; `LocalStateBackend` of src/core/state/local-backend.ts is the one within a process:
-- session states, buffers, timers, a priority queue of tasks, and locks. `PipelineWorker` of
-- src/services/pipeline-worker.ts consumes the tasks of that queue, under its locks.
-- `CheckpointManager` of src/utils/checkpoint.ts keeps what both schedulers have reached in a file,
-- which `PersonaTrigger` reads; the memories of L1 are written by the decisions of
-- src/core/record/l1-dedup.ts, and the stores come from a pool. The messages come from
-- `recordConversation` of src/core/conversation/l0-recorder.ts, within a capture of the checkpoint.
-- Apart from these, src/offload_server/compact/ makes a conversation shorter on its way to a model.
--
-- Files:
--   SerialQueue    src/utils/serial-queue.ts: `add`, `pause`, `start`, `onIdle`, `clear` and
--                  `drain`. The promise chain of a task is two steps, `settle` and `finish`.
--   ManagedTimer   src/utils/managed-timer.ts: `schedule`, `scheduleAt`, `tryAdvanceTo`, `cancel`,
--                  `flush` and `fire`, with the calls of the host's timeouts as effects.
--   Pipeline       src/utils/pipeline-manager.ts. Pipeline/State has its fields as a record, and the
--                  session state of src/utils/checkpoint.ts; Pipeline/Timing the thresholds and the
--                  timers; Pipeline/Notify `notifyConversation` and the garbage collection of
--                  sessions; Pipeline/L1, L2 and L3 the queues and the runs of the three levels;
--                  Pipeline/Lifecycle `start`, `flushSession`, `destroy` and the recovery, and
--                  `step`, one turn of the event loop.
--   StateBackend   src/core/state/local-backend.ts, with the types of src/core/state/types.ts: the
--                  buffers and session states (Sessions), the timers (Timers), the task queue and
--                  its waiting consumers (Tasks), the locks (Locks), `captureAtomic` (Capture), and
--                  `purgeInstance` and `destroy` (Lifecycle).
--   StatefulPipeline  src/utils/stateful-pipeline-manager.ts over that backend: notification, flush,
--                  warm-up, the L2 timer and the drain of a backlog (Worker), start and destroy
--                  (Lifecycle).
--   Worker         src/services/pipeline-worker.ts over that backend: the locks of tasks (Locks), the
--                  life of a consumed task (Jobs), what follows its execution (Ends), and start and
--                  stop (Lifecycle).
--   Checkpoint     src/utils/checkpoint.ts: the data of a checkpoint and the methods that change it;
--                  how its text is read (Reading); the lock of its file (FileLock).
--   StorePool      src/core/store/store-pool.ts: the pool of the instances' stores, with its eviction.
--   PersonaTrigger src/core/persona/persona-trigger.ts: when a persona is to be generated.
--   FastPath       src/offload_server/compact/fast-path.ts, with the messages of helpers.ts beside it
--                  (Messages): offloaded tool results are replaced or deleted again in a history.
--   Compressor     src/offload_server/compact/compressor.ts, on the same messages: their texts (Slots),
--                  the truncation of results (Truncate), the passes over the marks (Marks), the pairs
--                  of calls and results (Pairs), the deletion (Deletion), and the compressions
--                  (Levels, Mild, Aggressive, Emergency).
--   Recorder       src/core/conversation/l0-recorder.ts: what is recorded of a conversation, and how it
--                  is read again (Reading); and src/core/hooks/auto-capture.ts, which records within
--                  a capture of Checkpoint (Capture).
--   Dedup          src/core/record/l1-dedup.ts: the decisions that are read from a model's answer,
--                  and what they write (Writing), by src/core/record/l1-extractor.ts and l1-writer.ts.
-- Their child modules hold what is proved of them, and an Examples module the tests.
--   Prelude        the names, tests, lists and maps that they share.
--
-- An asynchronous function is cut at its awaits: each part between two awaits is a function on the
-- manager, and what a task in flight waits for is its phase. A turn of the event loop is a call, a
-- timeout, or the outcome of what a task waits for; turns come in any order. The clock is an argument
-- of each turn that reads it.
--
-- Numbers are natural numbers; times are in ms, and below 2 ^ 53 in the program. The fractions of the
-- compression are exact. Almost everything is structural recursion: the loops over the maps run over
-- the entries at their start. Two loops have fuel: that over the pairs of calls and results has a
-- round more than there are messages, and each round but the last marks one; and that of
-- `truncateTailToolResults` has any number of rounds, since it need not end.
--
-- `StatefulPipelineManager`, `StorePool` and the parts of the backend but `captureAtomic` are modelled
-- call by call, with no other call between the awaits of one. The worker's jobs and the calls of
-- `withFileLock` interleave.
--
-- Outside the model: the runners, the executor and the persister, whose outcomes are the turns;
-- logging, and metrics but the worker's; the stores that the pool creates, and the answers of those
-- that recorded messages are indexed in, with the embeddings; JSON, of which the reading of a
-- checkpoint takes what its text parses to, as do the reading of decisions and of recorded lines; the
-- tokenizer, and the regular expressions that clean a text or find a reminder; the session filter and
-- the ISO format of a time, which are functions of the configuration.
-- The rest of the repository is not modelled: the databases, the gateway, the SDKs, the prompts, and
-- of the compression `compressProtectedTail` and the scan functions, which nothing calls.
mod Prelude
pub mod SerialQueue
pub mod ManagedTimer
pub mod Pipeline
pub mod StateBackend
pub mod StatefulPipeline
pub mod Worker
pub mod StorePool
pub mod Checkpoint
pub mod PersonaTrigger
pub mod FastPath
pub mod Dedup
pub mod Compressor
pub mod Recorder
