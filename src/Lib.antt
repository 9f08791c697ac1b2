-- ===== src/Lib.antt =====
-- Verification of the agent runtime of agentic-kit: the core logic of packages/agentenkit/src.
--
-- The runtime takes jobs from a queue and runs an agent on a thread. A worker holds the run lock of
-- the thread while it works, moves the thread's state by compare-and-set, keeps the thread record,
-- makes the prompt from the stored messages and compacts them, parks a tool call that waits for an
-- answer, turns what it publishes into the events of a run stream
-- that readers follow, books what each model call used and cost, and settles the run at its end.
--
-- Base (with Tests, Lists and Maps) has what the others share: Boolean tests on native numbers, lists,
--   and a JavaScript `Map` with text keys as a list in insertion order (lookup, insert and erase are
--   Map's get, set and delete).
-- Kv: `MemoryKv` of packages/agentenkit/src/adapters/memory.ts, a function per method, with the clock
--   as an argument; a method that awaits its own read is two functions. Kv.Port is the contract of
--   packages/agentenkit/src/ports/kv.ts, in which each operation is one atomic step.
-- Lock: `Lease` and `parseLockValue` of packages/agentenkit/src/core/lease.ts, on Kv.Port. A timer's tick
--   is two functions, tick_start and tick_end, with the store's answer between them; Lock.World is a
--   step relation in which other holders act between any two steps.
-- History: repairDanglingToolCalls, promptHistory and promptMessage of
--   packages/agentenkit/src/core/messages.ts. The loop that looks ahead is a recursion that carries
--   what is owed.
-- StreamEvents: the events of packages/agentenkit/src/core/stream-events.ts.
-- Segment: `SegmentStream` of packages/agentenkit/src/core/segment.ts, the writer of a run stream.
--   `translate` is what `forward` computes from a published event and `forward` pushes it; `sent` is
--   what went to the store. Segment.Grammar is what a reader relies on, event by event.
-- Streams: `MemoryRunStreams` of packages/agentenkit/src/adapters/memory.ts, the store of run streams,
--   with its readers: a pass of `read` is a function, and waiting is a place in the store.
-- Queue: `MemoryQueue` of packages/agentenkit/src/adapters/memory.ts. `drain` runs on fuel, one unit
--   a job; the number of jobs is enough where handling puts none on the queue.
-- Threads, Events and Messages: the threads, the thread record and the messages of `MemoryStorage` in
--   packages/agentenkit/src/adapters/memory.ts.
-- Settling: the settle claim of packages/agentenkit/src/admin/memory.ts, and `settleRun` of
--   packages/agentenkit/src/core/settle.ts as a step relation (Settling.Runner) in which any number of
--   settlers act between each other's steps and each call of the store may throw before or after the
--   store has acted.
-- Publish: publish.ts and the keys of keys.ts in packages/agentenkit/src/core: the record, the bus and
--   the segment that an event goes to, and `transition` with the hot key of a thread's state.
-- Hitl: packages/agentenkit/src/core/hitl.ts: a park, the open parks as read from what is stored
--   (load_open_hitls is loadOpenHitls), and `respond`.
-- Stop: packages/agentenkit/src/core/stop.ts: `stop`, recordStoppedRun and closeOpenParks.
-- Run: packages/agentenkit/src/core/run.ts: the checks, the claim of the thread, the dispatch and
--   failDispatch. What others do between the steps is an argument.
-- Context: packages/agentenkit/src/core/context.ts: the plan of a compaction (plan_compaction), the
--   packing of lines into calls (chunk_lines), and the rounds of summary calls (summarize_lines), which
--   run on fuel, one unit a round; one more than there are lines is enough where the answers have no
--   character of two UTF-16 units. Texts are lists of code points.
-- Prune: `pruneEvents` of packages/agentenkit/src/core/prune.ts over the prune of the in-memory
--   storage. Its loop runs on fuel, a unit for a batch; one more than there are rows to delete is
--   enough.
-- StepLimit: `StepLimit` of packages/agentenkit/src/core/steplimit.ts, with its timer; the clock is an
--   argument.
-- Follow: `followEvents` of packages/agentenkit/src/core/follow.ts. Follow.World is a step relation with
--   the record, those who add to it, and a bus that may lose, repeat and reorder.
-- Usage and Tokens: packages/agentenkit/src/core/usage.ts, the totals (Usage), a run's ledger
--   (Usage.Ledger) and the counters of one report (Tokens).
--
-- Numbers are natural numbers; the source's counts, times and micros are never negative. A value of
-- type `unknown` stands as its JSON text. A clock, a fresh id, JSON.parse, a pricer and a storage's
-- failure are arguments. An async method is one step unless its module says otherwise; where another
-- party can act between its awaits, as between the two halves of a renewal, it is several.
--
-- Not modelled: the engine, its loop, tools and nested runs (core/engine.ts, core/loop.ts,
-- core/subagent.ts), which drive the parts above; the follow of a thread with its run stream, on top of
-- Follow and Streams; reclaiming and deleting; the database, cloud and sandbox adapters, whose core is
-- calls of their services; the React package, the Go runtime, the examples and the docs. Logging is
-- left out throughout.
pub mod Base
pub mod Context
pub mod Events
pub mod Follow
pub mod History
pub mod Hitl
pub mod Kv
pub mod Lock
pub mod Messages
pub mod Prune
pub mod Publish
pub mod Queue
pub mod Run
pub mod Segment
pub mod Settling
pub mod StepLimit
pub mod Stop
pub mod StreamEvents
pub mod Streams
pub mod Threads
pub mod Tokens
pub mod Usage
