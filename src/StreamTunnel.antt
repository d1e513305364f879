-- ===== src/StreamTunnel.antt =====
-- crates/ombrac-server/src/connection/stream.rs: the server's side of a tunnel stream, with the messages
-- of crates/ombrac/src/codec.rs that it sends. The framed stream, the bincode codec, the sockets
-- and the timers are arguments.
pub mod Respond
pub mod Agree
pub mod Count
mod Examples
use ombrac.Prelude.{
  ℕ, zero, suc, Bool, Option, none, some, List, [], ◌∷◌, ◌++◌, ◌+◌, if◌then◌else◌, length, Result,
  ok, err, ◌>>=◌, ◌≡◌,
}
use ombrac.Net.{
  Bytes, invalid_data, unexpected_eof, timed_out, interrupted, IoError, io_error, IoResult,
  SocketAddr, v4, v6,
}
use ombrac.Metrics.{Counters, zero_counters}
use ombrac.Protocol.{
  Address, socket_v4, socket_v6, domain, ServerAuthResponse, ServerConnectResponse, connect_ok,
  connect_err, from_io_error,
}
use ombrac.Server.{Resolver, resolve_domain}
use ombrac.Auth.{ClientMessage, hello, connect}
use ombrac.Copy.{CopyBidirectionalStats, Turn, Side, run, begin, copy_bidirectional}

pub data ServerMessage : Type 0 where
  auth_response : ServerAuthResponse → ServerMessage
  connect_response : ServerConnectResponse → ServerMessage

pub record StreamGuard : Type 0 where
  pub initial_upstream_bytes : ℕ
  pub destination : Option Address
  pub reason : Option IoError
  pub stats : Option CopyBidirectionalStats

-- StreamGuard::default
abbrev pub new_guard : StreamGuard
new_guard = record { initial_upstream_bytes = 0; destination = none; reason = none; stats = none }

-- The client's end: the framed stream with its codec, and what the codec has read beyond the
-- request when the exchange of data begins.
pub record Framed : Type 0 where
  pub next_in_time : Bool
  pub next : Option (IoResult Bytes)
  pub decode : Bytes → IoResult ClientMessage
  pub encode : ServerMessage → IoResult Bytes
  pub send : Bytes → IoResult (Unit {0})
  pub read_buf : Bytes

-- The other end: name resolution, `TcpStream::connect`, the write of what was read ahead, and the
-- turns of copying that are made before the shutdown token is cancelled, if it is.
pub record Upstream : Type 0 where
  pub resolver : Resolver
  pub connect_in_time : Bool
  pub connect_to : SocketAddr → IoResult (Unit {0})
  pub write_all : Bytes → IoResult (Unit {0})
  pub turns : List (Side × Turn)

unfoldable pub connect_address : ClientMessage → IoResult Address
connect_address (connect c) = ok c.address
connect_address (hello h) = err (io_error invalid_data "expected connect message")

unfoldable pub read_connect_frame :
    (Bytes → IoResult ClientMessage) → Option (IoResult Bytes) → IoResult Address
read_connect_frame decode none = err (io_error unexpected_eof "stream closed unexpectedly")
read_connect_frame decode (some (err e)) = err e
read_connect_frame decode (some (ok payload)) = decode payload >>= connect_address

unfoldable pub read_connect_message : Framed → IoResult Address
read_connect_message p =
    if p.next_in_time
    then read_connect_frame p.decode p.next
    else err (io_error timed_out "timeout reading connect message")

unfoldable pub upstream_address : Resolver → Address → IoResult SocketAddr
upstream_address r (socket_v4 a) = ok (v4 a)
upstream_address r (socket_v6 a) = ok (v6 a)
upstream_address r (domain name port) = resolve_domain r name port

unfoldable pub connect_to_destination : Upstream → Address → IoResult (Unit {0})
connect_to_destination u dest = upstream_address u.resolver dest >>= λ addr.
    if u.connect_in_time then u.connect_to addr else err (io_error timed_out "connection timeout")

unfoldable pub response_of : IoResult (Unit {0}) → ServerConnectResponse
response_of (ok connected) = connect_ok
response_of (err e) = connect_err (from_io_error e) e.message

-- The frame that is sent.
unfoldable pub send_connect_response : Framed → IoResult (Unit {0}) → IoResult Bytes
send_connect_response p connect_result =
    p.encode (connect_response (response_of connect_result)) >>= λ encoded.
    p.send encoded >>= λ sent. ok encoded

-- What a handler leaves: its guard, the frames the client was sent, and the octets that the
-- destination was sent. Of a failed write of what was read ahead, none are recorded.
pub record Handled : Type 0 where
  pub guard : StreamGuard
  pub sent : List Bytes
  pub upstream : Bytes
  pub result : IoResult (Unit {0})

abbrev pub gave_up : StreamGuard → List Bytes → IoError → Handled
gave_up g sent e = record { guard = g; sent = sent; upstream = []; result = err e }

-- The select at the end: copying returns, or the shutdown comes first.
unfoldable pub copied :
    StreamGuard
    → Option (Result CopyBidirectionalStats (IoError × CopyBidirectionalStats))
    → StreamGuard × IoResult (Unit {0})
copied g none = (g, err (io_error interrupted "connection closed due to active closure"))
copied g (some (ok s)) = (record g { stats = some s }, ok tt)
copied g (some (err (e, s))) = (record g { stats = some s }, err e)

-- `write_all`, which is left out when nothing was read ahead.
unfoldable pub write_ahead : Upstream → Bytes → IoResult (Unit {0})
write_ahead u [] = ok tt
write_ahead u (x ∷ xs) = u.write_all (x ∷ xs)

unfoldable pub copy_after :
    Upstream → StreamGuard → Bytes → List Bytes → IoResult (Unit {0}) → Handled
copy_after u g ahead sent (err e) = gave_up g sent e
copy_after u g ahead sent (ok w) =
    let (g', result) = copied g (copy_bidirectional u.turns) in
    record {
      guard = g';
      sent = sent;
      upstream = ahead ++ (run begin u.turns).a_to_b.written;
      result = result;
    }

unfoldable pub exchange_data : Framed → Upstream → StreamGuard → List Bytes → Handled
exchange_data p u g sent =
    copy_after u (record g { initial_upstream_bytes = length p.read_buf }) p.read_buf sent
      (write_ahead u p.read_buf)

-- Steps 4 and 5 of handle_connect, once the response was sent.
unfoldable pub proceed : Framed → Upstream → StreamGuard → Bytes → IoResult (Unit {0}) → Handled
proceed p u g frame (ok connected) = exchange_data p u g (frame ∷ [])
proceed p u g frame (err e) = gave_up g (frame ∷ []) e

unfoldable pub respond :
    Framed → Upstream → StreamGuard → IoResult (Unit {0}) → IoResult Bytes → Handled
respond p u g connect_result (err e) = gave_up g [] e
respond p u g connect_result (ok frame) = proceed p u g frame connect_result

unfoldable pub handle_request : Framed → Upstream → StreamGuard → IoResult Address → Handled
handle_request p u g (err e) = gave_up g [] e
handle_request p u g (ok dest) =
    let connect_result = connect_to_destination u dest in
    respond p u (record g { destination = some dest }) connect_result
      (send_connect_response p connect_result)

unfoldable pub handle_connect : Framed → Upstream → StreamGuard → Handled
handle_connect p u g = handle_request p u g (read_connect_message p)

-- The counting of a stream's result and of its octets in the task of accept_loop.
unfoldable pub count_failure : Counters → IoResult (Unit {0}) → Counters
count_failure c (ok done) = c
count_failure c (err e) = record c { streams_failed = c.streams_failed + 1 }

unfoldable pub count_bytes : Counters → ℕ → Option CopyBidirectionalStats → Counters
count_bytes c initial none = c
count_bytes c initial (some s) = record c {
  bytes_rx = c.bytes_rx + s.b_to_a_bytes;
  bytes_tx = c.bytes_tx + (s.a_to_b_bytes + initial);
}

unfoldable pub count_opened : Counters → Counters
count_opened c = record c { streams_opened = c.streams_opened + 1 }

unfoldable pub count_closed : Counters → Counters
count_closed c = record c { streams_closed = c.streams_closed + 1 }

-- What the task does after handle_connect.
unfoldable pub count_handled : Counters → Handled → Counters
count_handled c h =
    count_closed
      (count_bytes (count_failure c h.result) h.guard.initial_upstream_bytes h.guard.stats)

-- A StreamTunnel: streams that were accepted and wait for a permit, the free permits, and the tasks
-- that hold one. The counters are those that all connections share, with the streams that the tunnels
-- of the other connections are handling.
pub record StreamTunnel : Type 0 where
  pub waiting : ℕ
  pub permits : ℕ
  pub running : ℕ
  pub elsewhere : ℕ
  pub counters : Counters

abbrev pub max_concurrent_connections : ℕ
max_concurrent_connections = 4096

-- StreamTunnel::new
abbrev pub new_tunnel : StreamTunnel
new_tunnel = record {
  waiting = 0;
  permits = max_concurrent_connections;
  running = 0;
  elsewhere = 0;
  counters = zero_counters;
}

-- A stream comes in; one that waits gets a permit; a running one ends. Another tunnel, which has
-- permits of its own, opens a stream or ends one, before this tunnel's first stream or after it.
pub data TunnelStep (s : StreamTunnel) : StreamTunnel → Type 0 where
  accepted : TunnelStep s (record s { waiting = s.waiting + 1 })
  acquired :
      (w n : ℕ)
      → s.waiting ≡ suc w
      → s.permits ≡ suc n
      → TunnelStep s (record s {
        waiting = w;
        permits = n;
        running = s.running + 1;
        counters = count_opened s.counters;
      })
  finished :
      (n : ℕ)
      → s.running ≡ suc n
      → (p : Framed) (u : Upstream)
      → TunnelStep s (record s {
        permits = s.permits + 1;
        running = n;
        counters = count_handled s.counters (handle_connect p u new_guard);
      })
  opened_elsewhere :
      TunnelStep s (record s { elsewhere = s.elsewhere + 1; counters = count_opened s.counters })
  finished_elsewhere :
      (n : ℕ)
      → s.elsewhere ≡ suc n
      → (p : Framed) (u : Upstream)
      → TunnelStep s (record s {
        elsewhere = n;
        counters = count_handled s.counters (handle_connect p u new_guard);
      })

-- The first tunnel of a server starts with counters at zero; a later one starts with what the others
-- have left, which their steps lead to.
pub data Reachable : StreamTunnel → Type 0 where
  start : Reachable new_tunnel
  later : (s t : StreamTunnel) → Reachable s → TunnelStep s t → Reachable t
