-- ===== src/Server/Loops.antt =====
-- The loops and the accounting of crates/ombrac-server/src/connection/datagram.rs: accept_loop of a
-- DatagramTunnel, the way back of a session (DownstreamHandler), and what the eviction listener of
-- create_session_cache counts. A loop runs on the list of what its select gives, turn by turn.
pub mod Accept
pub mod Downstream
pub mod Account
mod Examples
use ombrac.Prelude.{
  ℕ, Bool, true, false, Option, none, some, List, [], ◌∷◌, ◌++◌, ◌+◌, length, if◌then◌else◌, Result,
  ok, err,
}
use ombrac.Net.{Bytes, SocketAddr, ErrorKind, timed_out, IoError, io_error, IoResult}
use ombrac.Metrics.{Counters}
use ombrac.Protocol.{Address, from_socket_addr, UdpPacket, unfragmented}
use ombrac.Server.{Parts, Tunnel, Task, handle_upstream_packet}

abbrev pub is_timed_out : ErrorKind → Bool
is_timed_out timed_out = true
is_timed_out _ = false

-- A packet that could not be handled is only logged.
abbrev pub with_task : IoResult (Option Task) → List Task → List Task
with_task (err e) tasks = tasks
with_task (ok none) tasks = tasks
with_task (ok (some task)) tasks = task ∷ tasks

-- A turn of accept_loop: the shutdown, or what read_datagram gave.
pub data AcceptTurn : Type 0 where
  shutdown : AcceptTurn
  reading : IoResult Bytes → AcceptTurn

module _ (c : Parts) where
  -- What a loop has come to: the tunnel, the tasks that were spawned, and the result of a loop that
  -- has returned.
  abbrev pub Accepted : Type 0
  Accepted = Tunnel c × List Task × Option (IoResult (Unit {0}))

  unfoldable pub accept_loop : Tunnel c → List AcceptTurn → Accepted
  accept_loop t [] = (t, [], none)
  accept_loop t (shutdown ∷ rest) = (t, [], some (ok tt))
  accept_loop t (reading (ok packet_bytes) ∷ rest) =
      let (t', handled) = handle_upstream_packet c t packet_bytes in
      let (t'', tasks, result) = accept_loop t' rest in (t'', with_task handled tasks, result)
  accept_loop t (reading (err e) ∷ rest) =
      let further = accept_loop t rest in
      if is_timed_out e.kind then further else (t, [], some (err e))

-- A DownstreamHandler: its session, its count, and the datagrams that the connection has taken.
pub record DownstreamHandler : Type 0 where
  pub session_id : ℕ
  pub downstream_bytes : ℕ
  pub sent : List Bytes

-- A turn of its loop: the shutdown, or what recv_from gave, with what the connection's send_datagram
-- gives for it in time.
pub data DownstreamTurn : Type 0 where
  cancelled : DownstreamTurn
  receiving : IoResult (Bytes × SocketAddr) → Option (IoResult (Unit {0})) → DownstreamTurn

-- The datagram that the connection takes, and the result of send_datagram.
unfoldable pub send_datagram :
    IoResult Bytes → Option (IoResult (Unit {0})) → List Bytes × IoResult (Unit {0})
send_datagram (err e) sending = ([], err e)
send_datagram (ok encoded) none = ([], err (io_error timed_out "send_datagram timeout after {:?}"))
send_datagram (ok encoded) (some (err e)) = ([], err e)
send_datagram (ok encoded) (some (ok u)) = (encoded ∷ [], ok tt)

module _ (encode : UdpPacket → IoResult Bytes) where
  unfoldable pub process_and_send_datagram :
      ℕ → Address → Bytes → Option (IoResult (Unit {0})) → List Bytes × IoResult (Unit {0})
  process_and_send_datagram session_id address payload sending =
      send_datagram (encode (unfragmented session_id address payload)) sending

  -- A turn of the loop that is not its end. An error of either side is only logged.
  unfoldable pub downstream_turn :
      DownstreamHandler
      → IoResult (Bytes × SocketAddr)
      → Option (IoResult (Unit {0}))
      → DownstreamHandler
  downstream_turn h (err e) sending = h
  downstream_turn h (ok (payload, from_addr)) sending =
      let (taken, result) =
        process_and_send_datagram h.session_id (from_socket_addr from_addr) payload sending in
      record h { downstream_bytes = h.downstream_bytes + length payload; sent = h.sent ++ taken }

  unfoldable pub downstream_loop : DownstreamHandler → List DownstreamTurn → DownstreamHandler
  downstream_loop h [] = h
  downstream_loop h (cancelled ∷ rest) = h
  downstream_loop h (receiving received sending ∷ rest) =
      downstream_loop (downstream_turn h received sending) rest

-- The byte counts of a DatagramSession.
pub record Counts : Type 0 where
  pub upstream_bytes : ℕ
  pub downstream_bytes : ℕ

abbrev pub new_counts : Counts
new_counts = record { upstream_bytes = 0; downstream_bytes = 0 }

-- The spawned task and the handler add to the counts of their session.
abbrev pub count_upstream : Counts → Bytes → Counts
count_upstream s payload = record s { upstream_bytes = s.upstream_bytes + length payload }

abbrev pub count_downstream : Counts → Bytes → Counts
count_downstream s payload = record s { downstream_bytes = s.downstream_bytes + length payload }

-- The eviction listener, on the metrics.
abbrev pub session_closed : Counters → Counts → Counters
session_closed m s = record m {
  udp_sessions_closed = m.udp_sessions_closed + 1;
  bytes_rx = m.bytes_rx + s.upstream_bytes;
  bytes_tx = m.bytes_tx + s.downstream_bytes;
}

abbrev pub session_opened : Counters → Counters
session_opened m = record m { udp_sessions_opened = m.udp_sessions_opened + 1 }
