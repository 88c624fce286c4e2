-- ===== src/Lib.antt =====
-- Verification of paperboat-helper, the remote runtime that owns terminal sessions, their output
-- and their input, previews, and the assigned configuration.
--
-- The modules of the library and the code that they are about, with paths from the repository's
-- root:
--
--  * History: internal/history/history.go, the bounded replay history (`History`, `append`,
--    `replay`, `restore`). History/Run: its calls in sequence.
--  * Session/State: internal/session/state.go, the lifecycles of sessions and attachments.
--  * Session/Ring, Session/Fanout: internal/session/fanout.go, the shared ring of output and
--    the cursors of the attachments; it carries the events of the history.
--  * Session/Attaching: internal/session/manager.go, the replay with which an attachment starts.
--    Session/Live: the output of a session, from what its process writes (`capture`) to what its
--    attachments read, over the history and the fanout.
--  * Session/Process: internal/session/manager.go, one session and the process that it runs
--    (`restart`, `close`, `process_ended`). Session/Manager: the sessions by identity and name.
--  * Session/Input: internal/session/input.go, the journal that makes input idempotent.
--  * Preview/Record, Preview/Registry: internal/preview/registry.go, the registry of previews.
--  * ConfigSync/Plan: internal/configsync/reconcile.go, the three-way comparison of files.
--  * Auth/Replay, Auth/Revocations: internal/auth/replay.go and revocations.go.
--  * Protocol/Binary, Protocol/Negotiation: internal/protocol/binary.go and negotiation.go, the
--    frames of a terminal, and the version and capabilities that a client is welcomed with.
--    Protocol/Binary/Writing: the loop that writes a frame out.
--  * Transfer: the rows of the file transfers, internal/store/store.go. Transfer/Creation and
--    Transfer/Service: internal/filetransfer/service.go, `create` and the other methods over the
--    rows and the files. Transfer/Run: their calls in sequence.
--  * Connector/Racing: internal/connector/racing.go, the race of two transports to the edge as a
--    step relation. Connector/Supervisor: internal/connector/supervisor.go, its loop and backoff.
--  * Config: internal/config/config.go, the configuration and its bounds, which the registry of
--    previews and the negotiation use.
--  * Operation: internal/operation/journal.go, the journal that runs an operation once.
--  * Base: helpers on lists, maps, words and results.
--
-- A record stands for a struct, with the fields of the source; a map is an association list
-- (`Base/Maps`), and where Go iterates a map the model takes the order of the list. A method of a
-- type with a mutex is one step: a function from the state before to the state after and the
-- answer. A uint64 is a natural number, whose sums and differences wrap at 2 ^ 64 where the source
-- does not exclude it (`Base/Words`). Errors are values of a data type per component
-- (`Base/Results`). Bytes are numbers.
--
-- Buffers of the output are immutable and reference-counted in the source; here an event holds its
-- bytes by value, so that the counts, the pools and the copying variants of the methods are not
-- modelled. A race is a relation of states, since its steps interleave. Code of other packages is a
-- parameter of the definitions that call it: SHA-256, the writer of a terminal, clocks and probes.
--
-- `insertEventLocked` and `writeAll` run on fuel. Each call of `insertEventLocked` of itself takes
-- an event out of the ring, so the length of the ring and one is enough; `Ring/Growth` proves that
-- the fuel does not run out on pieces of one stream. A round of `writeAll` takes a byte at least.
--
-- Not modelled: the packages that talk to the operating system, the network, git and SQLite, since
-- their code is calls of libraries, except for the rows of the file transfers, and the command
-- lines.
pub mod Auth
pub mod Base
pub mod Config
pub mod ConfigSync
pub mod Connector
pub mod History
pub mod Operation
pub mod Preview
pub mod Protocol
pub mod Session
pub mod Transfer
