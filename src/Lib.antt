-- ===== src/Lib.antt =====
-- Ombrac, a TCP and UDP tunnel over QUIC: models of the parts of the program that carry its own
-- logic, and theorems about them.
--
-- A client accepts local traffic (over SOCKS5, HTTP or a TUN device), opens an authenticated connection
-- to a server and sends each TCP stream over a stream of it, and each UDP packet as a datagram,
-- which is split into fragments where it is too large. The server reassembles the fragments,
-- resolves names and sends the traffic on.
--
-- The files, and the code that each one models:
--   Protocol: crates/ombrac/src/protocol.rs. The messages as records and data types with the
--     constructors of the code; split_packet with its u16 arithmetic; addresses and their text.
--     Protocol/Split and Protocol/Parse prove.
--   Reassembly: crates/ombrac/src/reassembly.rs. ReassemblyBuffer is a record, add_fragment,
--     is_complete and assemble_and_take are functions on it, and process passes the state of the
--     cache along. Its child modules build up from the invariant of one buffer (Invariant) over what
--     the fragments of one packet leave in it (Pieces, Consistent, Slots, Progress) to the safety and
--     the delivery of whole histories (Safety, Deliver, Reject).
--   Socks: crates/ombrac-client/src/endpoint/socks/protocol.rs. Readers take the octets that are left
--     and return what they read with the rest.
--   Endpoint: crates/ombrac-client/src/endpoint/socks/mod.rs. The exchange with a SOCKS5 client as
--     state passing on the control connection, and the UDP relay as a step on the events of its
--     select loop. It calls the readers of Socks.
--   Client: crates/ombrac-client/src/connection/mod.rs. The record ClientConnection is what that
--     struct shares and its lock guards; reconnect is one step, since it runs under the lock, and
--     with_retry lets other tasks change the state before it. Client/Stream opens a tunnel stream.
--   BufferedStream: crates/ombrac-client/src/connection/stream.rs, the octets that come before a stream.
--   Dispatcher: crates/ombrac-client/src/connection/datagram.rs and the numbering of sessions in
--     crates/ombrac-client/src/client.rs. The map of sessions, the guard that its lookups hold and the
--     channels are a step relation of the dispatcher's task and the owners of the sessions. Sessions
--     and Stuck prove on it, Reading on the delay of its loop.
--   Auth: crates/ombrac-server/src/connection/mod.rs. The server's verdict on a client, with what the
--     client observes of it; Auth/Verdict joins it to the client's handshake of Client, Auth/Processor
--     has what is done for a connection from there on, as the list of its actions. The limit on
--     connections is a step relation.
--   Server: crates/ombrac-server/src/connection/dns.rs and datagram.rs. handle_upstream_packet runs
--     the reassembler, looks up the session and yields the task that is spawned; run_task is that
--     task, later. Server/Loops has the accept loop and the way back of a session, turn by turn, and
--     what the sessions add to the metrics, as steps. Its child modules prove.
--   StreamTunnel: crates/ombrac-server/src/connection/stream.rs. A handler takes the guard of its stream
--     along and yields it with what both sides were sent; the task's counting, in the counters that all
--     connections share, and the limit on tasks are a step relation. Respond and Count prove, and Agree joins the handler to the client's
--     open_bidirectional of Client/Stream.
--   Config: crates/ombrac-client/src/config and crates/ombrac-server/src/config. The builders and the
--     merging of their sources; Sections and Precedence prove.
--   Copy: crates/ombrac-transport/src/io.rs. The two directions of a copy are halves that turn under
--     a schedule, with the token that ends one when the other has returned.
--   Netstack: crates/ombrac-netstack/src. This file is stack.rs, Udp is udp.rs, Device is device.rs, and
--     Worker and Stream are tcp.rs. A channel is the list of what it was sent with the number of
--     packets that were taken out, a ring buffer is a bounded queue, and smoltcp's socket is an
--     interface with laws (Flow). Sink, Roundtrip, Distribute, Flow, Pipe and Prune prove.
--   Tun: crates/ombrac-client/src/endpoint/tun.rs. Dns is its fake DNS, with the dropping of cache
--     entries and the calls of their listeners as steps; this file chooses targets and keeps the UDP flows, and reads the packets of
--     Netstack/Udp. Names and Flows prove. Forward is the loop from the device into the
--     stack's sink, and Forward/Routed proves.
--   Http: crates/ombrac-client/src/endpoint/http.rs. A handler yields its response with the list of what
--     it did: the tunnel that it asked for and the task that it spawned. Http/Answer proves.
--   Quic: crates/ombrac-transport/src/quic. The errors of the transport with their kinds, the loading of
--     certificates and keys, and what both sides choose for TLS. Quic/Tls proves.
--   Service: quic_server_from_config in crates/ombrac-server/src/service.rs and quic_client_from_config in
--     crates/ombrac-client/src/service.rs, from the records of Config to those of Quic; Server and
--     Client hold their theorems as well. Service/Drain is shutdown_with_drain, on the ticks of its
--     interval and the turns of the acceptor's loop.
--   BufferPool: crates/ombrac-netstack/src/buffer.rs, over BytesMut with the law of its reserve.
--   Metrics: crates/ombrac/src/metrics.rs, the counters.
--   Cache: what the code relies on of the moka crate, as an interface whose laws let a cache drop
--     entries, with Retains for one that drops none and Map as a cache that meets both.
--   Wire: reading octets and big endian numbers as tokio and the standard library do.
--   Net: addresses and errors of the standard library. Prelude: lists on the native numbers, tests
--     and results.
--
-- Errors are values of Result, a panic is none, and a state that code changes is passed along. What is
-- not in the repository is an argument: the resolver, the sockets, the QUIC connection, the bincode
-- codec, clap and serde, the clock. The text of an error keeps its format string.
--
-- Bounds: a u16 that the code casts or steps is cut at 65536; counters of u64 do not wrap. Fuel:
-- chunks takes the length of its input, since each chunk takes an octet at least; decimal takes five
-- rounds, the digits of a u16; binding a socket counts down the three attempts of the code;
-- send_rounds takes the length of the send buffer, of which every round but the last takes an octet. The
-- backoff's jitter is an exact fraction, rounded down, where the code rounds floating numbers.
--
-- Not modelled: quinn's endpoints, connections and streams; the settings of smoltcp's interface and
-- the waiting of its worker's loop; the accept loop of the HTTP proxy; logging, the start
-- and the end of the services, and the C interfaces.
pub mod Prelude
pub mod Net
pub mod Cache
pub mod Wire
pub mod Protocol
pub mod Reassembly
pub mod Socks
pub mod Auth
pub mod BufferPool
pub mod BufferedStream
pub mod Client
pub mod Config
pub mod Copy
pub mod Dispatcher
pub mod Endpoint
pub mod Http
pub mod Metrics
pub mod Netstack
pub mod Quic
pub mod Server
pub mod Service
pub mod StreamTunnel
pub mod Tun
