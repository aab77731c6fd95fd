-- ===== src/Lib.antt =====
-- rust-supervisor-relay: a model of the relay between supervised target processes and remote
-- dashboards, and what holds of it.
--
-- The program. A target process registers at a local socket (src/registration.rs) and gets a lease
-- in the registry (src/registry.rs). An operator connects through TLS; the identity comes from the
-- client certificate or from the header of a trusted proxy (src/auth.rs, src/config.rs). The session
-- (src/session.rs) says hello, shows the active targets, binds them through their own sockets
-- (src/ipc_client.rs), passes on what they stream (src/relay.rs) and forwards commands
-- (src/command.rs), of which it keeps a trail (src/audit.rs). src/main.rs holds the command line, the
-- TLS set-up and the loops over registrations, connections and messages.
--
-- The files.
--   Base              Boolean tests, lists, texts, association lists for `HashMap`, `i64`; Bag is
--                     the quotient of the lists by the order of their members.
--   Error             src/error.rs. `RelayResult` has a third outcome for a panic of the task.
--   Effect            Code that reads and writes a state and may fail: what was written before a
--                     failure stays written. do blocks stand for `?`. Keeps has what code keeps of
--                     its state, Ends how code may end, Succeeds the state after it succeeds, each
--                     with a rule for each way to build code.
--   Time              The `time` crate: a time is a number of nanoseconds, sums are a parameter.
--   Paths             The paths of the standard library on Unix, by components.
--   Config            src/config.rs: `validate` and its parts, `ipc_path_is_allowed`,
--                     `is_allowed_remote_addr`, the loading of YAML.
--   Auth              src/auth.rs: the identities from a certificate and from a proxy's header;
--                     Laws and Certified say what they rest on.
--   Command           src/command.rs: wire names, the checks of a command.
--   Registration      src/registration.rs: the payload, the line, the peer's identity; Socket has
--                     the creation of the socket and its mode, Peers is about the identities.
--   Registry          src/registry.rs: the records and the queries; Validate, Register (`register`),
--                     Lease (`renew`, `expire_leases`) and Link (the marks of a connection) have the
--                     operations. Invariant, Preserve, Admit, Expiry, Reach, Ownership, Outcome, Live
--                     and Views have the laws. Reach has a step for every operation. Spec is a table
--                     of leases and its moves, which Refine relates to the registry. Place and
--                     Sockets are about where the targets' sockets are, Verdict and Judged about how a
--                     registration ends, Lapse about what an expiry ends. Alike, Unordered and Order
--                     are about the order in which the hash maps iterate.
--   Audit             src/audit.rs.
--   Ipc               src/ipc_client.rs: the trait `TargetIpcPort`; Json, Client, Unix have
--                     `UnixNdjsonIpcClient`, Answers its laws.
--   Session           src/session.rs: the messages and the session's record; Handshake, Stream, Bind,
--                     Control and Decode have the operations. Sequence, Gate, Binding, Bound, Trail,
--                     Opening and Refresh have the laws. Context is the session together with the
--                     registry, the audit trail and the targets' side, which one call may all
--                     write; Guarantee, Kept and KeptBinding have what every call keeps of it,
--                     Settled the binding with a side that always answers, Guarded what the
--                     targets' side is asked for. Protocol is the order of messages that is meant;
--                     Queue, QueueBinding, QueueRefresh and QueueCommand have what each call puts in
--                     the outbox, Steady which ways each call may end.
--   Relay             src/relay.rs; Delivery is what a session is to hear, Heard and Silence have
--                     the laws.
--   Diagnostics       src/diagnostics.rs, which no other file uses.
--   Main              src/main.rs. Args: the command line. Run: `run` and `main`; Started: its laws.
--                     Tls: `build_server_config`; Secured: its laws. Registrations: the loop of the
--                     registration socket; Foreign: other users at that socket. Connection: `handle_wss_connection`; Admission: its laws.
--                     WebSocket: the reading and writing of messages; Dashboard:
--                     `run_dashboard_session`; Stable: what it keeps if each of its calls does, for
--                     any property; Reading, Served, Guarded, AutoBind, Ending and Unopened: its laws.
--                     Wire, Answers, Received, Replies, Opening, Conversation, First and Conversed
--                     are about what a connection writes; Steady and Heard about how it ends; Vouched
--                     about what a TCP connection asks of the targets' side.
--                     Tasks: the tasks beside a connection.
--   Tests             Concrete runs.
--
-- How the code is modelled. A method on `&mut self` is a function on the state in `M`; an early
-- return is a `RelayResult`. A `HashMap` is an association list, whose keys the invariant of the
-- registry keeps distinct; the order of its entries stands for the unspecified order of iteration,
-- and lists with the same value at each key are the same map in another order (Base/Entries). A
-- `HashSet` of bound targets is a list that `bind` extends only by new members. Numbers are natural
-- numbers; the `u64` arithmetic of the sequences and the cast of a lease to `i64` wrap as written.
-- Two definitions run on fuel: `decimal`, which prints a `u32` in its ten digits, and the loop of
-- `run_dashboard_session` over the messages, where one unit for each item that arrives and one for
-- the end of the stream are enough, since each round takes an item.
--
-- Tasks. The connections and the registration loop share the registry under a mutex. A connection is
-- modelled by itself: `Runtime.others` says what the other tasks have done to the registry by the
-- time its lock is taken, and may be any function. `IsFair` says that they went through the
-- registry's own calls, `Reach`. Tasks has the program's own tasks as the others: at each lock any
-- turns of the registration loop and any connections, and beside these others in turn, to any depth.
--
-- Parameters: the clock's sums, which may leave its range; the file system, whose answers depend on
-- the time of the call, so that it may change between two; the parsers of addresses, URLs, YAML,
-- JSON and certificates; rustls and the TLS and web socket handshakes; the sink of the web socket;
-- what the listeners and the streams yield; SHA-256; `Uuid::new_v4`; the type of JSON values; the
-- socket of a target. `Time.IsLawful` says that a sum of times in range is exact,
-- `Ipc.Json.IsLawful` that a JSON value gives back what was put in. A target's side is any
-- implementation of `TargetIpcPort` over any state of its own, so it may answer, fail or panic as
-- it likes. `Main.Wire.IsWire` says what is relied on of the web socket: one call of `send` that
-- succeeds puts one frame on the wire, and nothing else does.
--
-- Not modelled: logging; the scheduling of tasks below the mutex of the registry; that a task waits
-- for ever; the plain accessors.
pub mod Base
pub mod Error
pub mod Time
pub mod Paths
pub mod Config
pub mod Auth
pub mod Command
pub mod Effect
pub mod Registration
pub mod Registry
pub mod Audit
pub mod Ipc
pub mod Session
pub mod Relay
pub mod Diagnostics
pub mod Main
mod Tests
