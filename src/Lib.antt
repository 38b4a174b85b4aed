-- ===== src/Lib.antt =====
-- A model of MSR, a toolbox for measurement, control and regulation in Rust, and proofs about it.
--
-- crates/msr-legacy is a closed-loop runtime. A cycle (runtime.rs) takes a state and a duration: it sets
-- the targets of controllers, runs the active loops, counts down the timeouts, evaluates the rules,
-- applies the actions of the active rules, moves the state machines and applies their actions, and
-- returns the state with the errors that came up.
-- crates/msr-core has the parts of a real-time worker. A relay (sync/relay) hands a single value from
-- producers to consumers that wait on a condition variable; a progress hint (realtime/worker/progress)
-- is an atomic byte that senders switch and a receiver polls, with a relay to wake it up; a thread
-- (realtime/worker/thread) drives the callbacks of a worker and is the receiver. Records are kept in
-- memory or in CSV files (storage): a rolling writer (fs/csv) starts a new file when a limit is reached
-- (fs/policy), housekeeping removes old files, and readers look for the most recent records or filter
-- them by time. Two kinds of records stand on it, those of registers (register/recorder), whose values
-- have types (value), and those of a journal (event_journal). The plugins keep one storage for each group
-- of registers, or one journal, and handle messages one after the other.
--
-- Files and what they model:
-- - Prelude, Prelude/*: lists, options, results, `HashMap` as a list of entries, integers.
-- - Legacy/Float: `f64` as a record of operations, a parameter everywhere. Comparisons are Boolean
--   tests, and a law that a theorem needs is a named hypothesis; natural numbers fulfil the laws.
-- - Legacy/Util, Legacy/BangBang, Legacy/Pid: crates/msr-legacy/src/util.rs, bang_bang.rs and pid.rs.
-- - Legacy/Value, Legacy/State, Legacy/BoolExpr: value.rs and lib.rs.
-- - Legacy/Comparison, Legacy/Entities, Legacy/Fsm: comparison.rs, entities.rs (with `next` of a loop
--   from lib.rs) and fsm.rs.
-- - Legacy/Runtime: runtime.rs; Runtime/Loops has the loops of `next` up to the timeouts, Runtime/Rules
--   the rules, Runtime/Actions `apply_actions`.
-- - Sync/Atomic, Sync/Relay: crates/msr-core/src/sync/atomic.rs and sync/relay/mod.rs.
-- - Realtime/Progress, Realtime/Handover, Realtime/Sender:
--   crates/msr-core/src/realtime/worker/progress/mod.rs, from the atomic byte to the two endpoints.
-- - Realtime/Thread: crates/msr-core/src/realtime/worker/thread/mod.rs, `thread_fn` one statement at a
--   time (`advance`), with `wait_while_suspending` of the receiver; Thread/Steps has the runs.
-- - Time: crates/msr-core/src/time.rs, anchored instants and intervals on clocks that end.
-- - Fs/Bytes, Fs/Policy: crates/msr-core/src/fs/policy/mod.rs, when a file is rolled and how it is named;
--   file names are byte strings, and the format of time stamps is a parameter. Fs/Directory and Fs/System:
--   the filter of a directory's files, their order, and new files, in the same file.
-- - Fs/Csv: crates/msr-core/src/fs/csv/mod.rs, the rolling writer; Fs/Csv/Writing has `before_writing`,
--   `write_record` and `serialize`. The writer of the crate `csv` is an interface, CsvWriter.
-- - Storage, Storage/InMemory, Storage/Binary: crates/msr-core/src/storage/mod.rs. Records have an
--   interface, RecordPrelude.
-- - Storage/Csv: crates/msr-core/src/storage/csv.rs; Files has retention and statistics, Appending
--   `append_record`, Reading `recent_records` of FileRecordStorage, Deserializing the two operations of
--   FileRecordStorageWithDeserializer that read.
-- - EventJournal: crates/msr-core/src/event_journal/mod.rs, severities and stored records. EventJournal/Csv:
--   event_journal/csv.rs, the journal on CSV files with its filters.
-- - Value, Value/Scalar, Value/Scalar/Casts: crates/msr-core/src/value/mod.rs and value/scalar/mod.rs.
--   A signed integer is an integer, an unsigned one a natural number, with bounds as a predicate;
--   floating-point numbers and the conversions to them are parameters.
-- - Register, Register/Recorder: crates/msr-core/src/register/mod.rs and register/recorder/mod.rs.
--   Register/Recorder/Csv: register/recorder/csv.rs, the deserializer of rows, whose parsers are a
--   parameter (Parsers); Csv/Storage has the storage, Csv/RoundTrip and Csv/Recorded the way of a record
--   to a row and back, with the laws of printing and parsing (TextLaws) as a hypothesis.
-- - Plugin/RegisterRecorder: plugins/csv-register-recorder. The data stands in the module itself, and the
--   storage of a group with the file system around it is an interface, Recorders. Groups, Operations,
--   Observations and Smoke are src/internal/context.rs, Api is src/api, Invocations is
--   src/internal/invoke_context_from_message_loop.rs, and MessageLoop is src/internal/message_loop.rs: the
--   messages that a channel delivers are a list, a sender of a reply is a number, and what is published
--   and replied is a list in order.
-- - Plugin/EventJournal: plugins/csv-event-journal/src/internal/context.rs, with the storage as an
--   interface, Journals.
-- - Tests: the theorems on concrete inputs.
--
-- How the code is read. A `Duration` is its number of nanoseconds, a string an abstract text with
-- decidable equality. A method with `&mut self` is a function from the state to the state and the
-- result; a fallible one returns `Result`, whose error is the kind of the `std::io::Error`. A loop over a
-- collection is `for_each` with the body of the loop as a function. Only the loops that read the rows of
-- a file one at a time have fuel, one more than the number of rows, and it is proved to be enough. A `HashMap` is a
-- list of entries, in any order, since Rust leaves the order open; where a cycle iterates over a map that
-- it has built itself (the states of the rules) the order is a parameter. Panics are `none`.
-- Concurrency: a critical section of a mutex and an access to an atomic are one step each; the
-- interleavings are step relations (Sync/Relay/Wakeup, Realtime/Handover/Interleaving,
-- Realtime/Thread/Steps). The wait of a relay with a deadline is a function of what happens in its turns:
-- the instants that the clock shows and the values that the consumer finds.
--
-- Not modelled: memory orderings (a step is atomic and seen by all), poisoned mutexes, the text of
-- errors, serialization, a worker that panics, the waits for a state of the thread, debug assertions
-- (but whether that in the filter of a directory's files holds is recorded),
-- storage/field.rs, which is unused, the controllers of the plugins and crates/msr-plugin, which wrap
-- channels of tokio, and so far the parser of msr-legacy, cyclic control, and the message loop of the event
-- journal's plugin.
mod Prelude
mod Tests
pub mod Legacy
pub mod Sync
pub mod Realtime
pub mod Time
pub mod Fs
pub mod Storage
pub mod EventJournal
pub mod Value
pub mod Register
pub mod Plugin
