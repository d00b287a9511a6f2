-- ===== src/Lib.antt =====
-- NetLane chooses, for each program of a Windows machine, the network adapter that its traffic
-- leaves by. This library models the Rust implementation's own logic and proves what makes it
-- correct.
--
-- The parts and where they are modelled:
--
-- crates/netlane-core/src/model.rs is Model.antt: the policies a user writes, the adapters and
-- the connections. A policy names a route mode and perhaps an adapter. Model/Policies.antt has
-- the checks of a list of policies, of paths and of identifiers, and `resolve_interface`.
--
-- crates/netlane-core/src/planning.rs is Planning.antt: `plan` turns the policies and the
-- adapters into rules, `retire_missing` withdraws those without a present local executable and
-- `expand_related` adds policies for a program's helpers. The code that calls `exists` is its
-- questions to the file system, one at a time (Planning/Questions.antt); `answer` runs it over a
-- test. Planning/Answered.antt has the same code with the answers put in.
--
-- crates/netlane-core/src/engine.rs is Engine.antt: `RoutingEngine::apply`, `close` and `Drop`
-- over the trait `PolicySession`. The planned rules of planning.rs come in; filters in the
-- system's packet filter go out. A session's state is a value, an operation returns its result
-- and the next state. The real session (crates/netlane-windows/src/wfp.rs) calls Windows;
-- Engine/Laws.antt states the transactional behaviour that the engine relies on as the record
-- `IsTransactional`, and Engine/Tests.antt has a session in memory that fulfils it.
--
-- crates/netlane-core/src/default_connection.rs is DefaultConnection.antt: Plan.antt has the
-- checks of a reading (`Snapshot::validate`) and `plan`; Requests.antt has
-- `Request::verify_after` and `Request::validate_against`; Apply.antt has `apply` and
-- `Receipt::revert` over the trait `Settings`, whose state is arbitrary, so that other programs
-- may change the system between two calls. Apply/Foreign.antt states as the record `IsWatched`
-- that nobody else sets one interface during a revert, that a reading shows what the system has
-- of it, and that a write concerns the interface it names. Journals.antt has the recovery
-- journal, and DefaultConnection/Plan/Written.antt the reading after a write.
--
-- crates/netlane-core/src/traffic.rs is Traffic.antt: what each adapter has received and sent,
-- one round of `TrafficTracker::sample` at a time.
--
-- crates/netlane-core/src/quality.rs is Quality.antt: Window.antt has the samples of one adapter
-- and their summary, Monitor.antt the monitor that prepares requests for workers and takes their
-- results. The cancellation flag that a session shares with its requests is its place in a list
-- of flags, so that the flags of earlier sessions are still there.
--
-- crates/netlane-agent/src/lib.rs is Agent.antt. Session.antt has the elevated side,
-- `run_session`, with `apply_cycle` in Cycle.antt: it applies the plan of planning.rs with the
-- engine and the flags, and cleans up. Panel.antt, Exchange.antt and Control.antt have the other
-- side: the controller with its thread, `control_session` and the exit decision of
-- crates/netlane-app/src/lifecycle.rs. What a side awaits (a message, a lease, the exit of a
-- process) is a value in a record or a list of events, so that every order and every failure is a
-- value of it.
--
-- crates/netlane-agent/src/default_connection.rs is Agent/OneShot.antt: the change of the default
-- connection by an elevated process of its own, `exchange` and `control` on one side and `serve`
-- on the other.
--
-- crates/netlane-windows/src/flags.rs is Windows/Flags.antt: `TemporaryFlags` over the trait
-- `RoutePolicySettings`. crates/netlane-windows/src/protocol.rs is Windows/Protocol.antt: the
-- messages, and in Frames.antt the frames of `send` and `receive` over the bytes of a pipe. The
-- JSON of a message is a parameter.
--
-- crates/netlane-capture is Capture.antt: Types.antt has the data of lib.rs, Decode.antt
-- `summarize` of decode.rs, where an index out of range is an outcome of its own. Reader.antt
-- with its children has reader.rs: Input.antt the bounded input, Retain.antt `retain`,
-- Options.antt and Blocks.antt the blocks of PCAPNG, Reader.antt itself PCAP and `read_with`,
-- Files.antt `read` and `load`. A file is the list of its bytes and what comes behind them, its
-- end or an error such as a cancellation. Kept.antt with its children has the invariant of the
-- capture. Export.antt has the selections of export.rs and their files of both formats.
--
-- Text is a list of code points; an identifier (`Uuid`) is its 128-bit number. The numbers of
-- Rust's unsigned types are natural numbers, a `Duration` is its nanoseconds; a cast or a sum
-- that may wrap is written out (`% 2 ^ 32`, `% 2 ^ 64`); an `i64` of a capture is its bit
-- pattern. Errors are values that carry the message of the source. `expect` and `unwrap` are an
-- error or a `none` of their own where they stand.
--
-- Most loops run over a list. `inbox` of Windows/Protocol/Frames.antt, and `options`, `pcap_loop`
-- and `ng_loop` of the capture reader, run on fuel one above the number of bytes that are left:
-- every round takes a byte at least, and running out is an outcome of its own. `digits` of
-- Capture/Bytes.antt prints twenty digits, which hold every `u64`.
--
-- The arithmetic of `f64`, the parser of UUIDs, the Unicode tables, SHA-256, the text of bytes in
-- UTF-8 and its bytes, the print of an IPv6 address, the JSON of a message and what identifies an
-- adapter to the monitor (`Identity::of`, which parses its addresses) are parameters.
--
-- Not modelled: the user interface but for lifecycle.rs, the calls of Windows, the assistant, the
-- analysis, lookup, collection and quality tools of the capture library, the files of its
-- exports, and the parsers of JSON and addresses that other libraries implement. PolicyFile,
-- PolicyStore and JournalFile are file input and output. The calls of `PacketSink::progress`
-- report only.
pub mod Prelude
pub mod Model
pub mod Engine
pub mod DefaultConnection
pub mod Planning
pub mod Traffic
pub mod Windows
pub mod Agent
pub mod Quality
pub mod Capture
