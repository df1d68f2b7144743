-- ===== src/Lib.antt =====
-- A model of oxiduct, a TCP and UDP proxy, and proofs about it.
--
-- The proxy admits connections through a limiter (src/limits.rs), relays each TCP connection by
-- two copying tasks that a watchdog supervises (src/proxy/tcp.rs), relays each UDP source by a
-- session of its own (src/proxy/udp.rs), and can announce the client to the target by a PROXY
-- protocol header (src/proxy/proxy_protocol.rs).
--
-- Files and what they model:
-- - Base and its children: names that the files share, lists, hash maps as association lists
--   (Base/Map), machine words (Base/Words).
-- - Clock: now_ms of src/clock.rs, over the readings of the standard library's clock. The other
--   models take its values as inputs.
-- - Net: IP and socket addresses of std::net.
-- - Limits: ConnLimits with try_acquire and the drop of a Guard. A mutex operation is one step,
--   from a limiter to the next. Limits/Lifetimes runs histories of connections that come and go
--   beside the list of live guards; Limits/Verdict and Limits/Warnings prove the decision and the
--   log lines. Counters are 32-bit and wrap as in a release build.
-- - Text: the texts of configurations as code points, with the searches and the number parsing of
--   str.
-- - Cli: expand_listen, the arguments as a record (Cli/Args), and parse_log_level (Cli/LogLevel),
--   whose parsers of a level and of a filter are parameters.
-- - Config: the configuration of a proxy and its validation; Config/Defaults the built-in values;
--   Config/Load the ways to it, from_cli, from_toml and load, whose file reader and TOML parser
--   are parameters. Config/Address, Config/Valid and Config/Agree prove what is accepted. Log and
--   error messages are constructors with the values they show.
-- - Proxy/ProxyProtocol: v2_header as a list of bytes; ProxyProtocol/Decode is a reader of the
--   protocol, written after its document.
-- - Proxy/Tcp/Watchdog: watchdog. A turn of its loop is given the clock, the last activity and the
--   event of its select by the environment. Sums and products saturate at the largest u64 as in
--   the source.
-- - Proxy/Tcp/Copy: copy_dir. A pass of its loop is given what the reader, the writer and the
--   cancellation do. Increments of the byte counter are recorded as calls, since the counter is
--   third-party code.
-- - Proxy/Tcp/Relay: relay, the two copying tasks and the watchdog as one system. A move is a pass
--   of a task, or its two parts, the read with the record of the activity and the write, or the
--   watchdog's checks, or the end of its wait; the tasks share the clock, the token and the
--   channel. Relay/Sides is about what a task has relayed, Completions, Wakes and Passes about the
--   channel and the flags, Relaying is what every move keeps, Closing about a relay that is over.
-- - Proxy/Tcp/Handle: handle, from the connect to the end of the relay, with the metrics in order;
--   Handle/Accounts balances them, Handle/Announced is about what the target reads.
-- - Proxy/Tcp/Serve: serve_graceful of TCP with its connection tasks; Serve/Slots maps its
--   histories to those of the limiter, Serve/Joined is about the time after the stop.
-- - Proxy/Tcp/Active: serve_graceful together with its connection tasks, each of which makes the
--   calls of its handle one by one, in any interleaving; a task that panics is not among them.
--   Active/Sums and Tasks count the calls and the tasks, Active/Invariant is what every event
--   keeps, Active/Gauge is about the gauge of active connections.
-- - SocketOpts: apply_tcp as the list of its calls.
-- - Proxy/Udp: the sessions of a UDP listener. Proxy/Udp/Steps has one event for each piece of a
--   task that runs under one lock: the listener's lookup of a source and its pending mark are two
--   events, so a setup task may run in between. Proxy/Udp/Guards, Slots, Caps and Histories count
--   the slots, Setups the pending marks, Replacement and Insertions the insertions; Drain and
--   Cleanup are about the drain tick and the cleanup task, Accounts and Balance about the counters
--   and the active gauge. Proxy/Udp/Open is open_session up to its socket. A session carries an id
--   for the clock cell and the token that it shares with its relay tasks. Proxy/Udp/Relay is the
--   two relay tasks of one session by themselves, with the packets and the turns of their loops;
--   Relay/Order and Relay/Histories are about what they pass on.
-- - Metrics: the exporter. Metrics/Utf8 is String::from_utf8_lossy, Metrics/Request the reading of
--   the request and its test, Metrics/Response the bytes that are written, Metrics/Handler the
--   whole of handle_request under its timeout, whose wakes come from the environment,
--   Metrics/Exporter the accept loop of serve, Metrics/Requests that loop with the requests that
--   its tasks answer. Request/FirstLine and Request/Lines are about requests cut into reads,
--   Request/Target describes the lines that ask for the metrics, Response/Reader is a reader of
--   HTTP written after RFC 9112, and Exporter/Pool a pool of tasks without a semaphore.
-- - Metrics/Families: the families of Metrics::new and their registration with a registry, which
--   is a parameter.
-- - Proxy/Dispatch: run_graceful of src/proxy/mod.rs.
-- - Main: main, from the choice of the settings to the exit. Main/Started is about the proxies
--   that are started, Main/Exit about the exit status.
-- - Service: the whole program, main and the loops that it has spawned, under the two tokens that
--   they share; a task ends well only once its loop has returned, and with an error only if its
--   address cannot be bound. Service/Nodes, Moves and Shutdown are about what is left at the exit.
-- - The Tests modules hold concrete runs.
--
-- A loop is a recursion on the list of what the environment gives it, so no fuel is needed: where
-- the list ends, the loop is still running, and the theorems on termination say which inputs end
-- it.
--
-- Not modelled: of src/metrics.rs the registry and its encoder, which are third-party code and
-- parameters; of src/main.rs the installation of the signal handlers, whose signal is an event.
-- The functions run and serve of src/proxy call their graceful variants with one token twice. Log
-- lines are left out but for the two warnings of the limiter.
pub mod Base
pub mod Net
pub mod Clock
pub mod Text
pub mod Limits
pub mod Cli
pub mod Config
pub mod SocketOpts
pub mod Metrics
pub mod Proxy
pub mod Main
pub mod Service
