-- ===== src/Netstack/Worker.antt =====
-- crates/ombrac-netstack/src/tcp.rs: how packets are handed to the workers, and what a worker does with
-- one. The sockets of smoltcp are arguments.
use ombrac.Prelude.{
  ℕ, zero, suc, Bool, true, false, not, Option, none, some, List, [], ◌∷◌, ◌++◌, ◌%◌, ◌&&◌,
  if◌then◌else◌, ok, err,
}
use Prim.Native.Nat.{compare, Ordering}
use ombrac.Net.{Bytes, SocketAddr, v4, v6, socket_addr, other, io_error, IoResult}
use ombrac.Netstack.{
  Parsers, TcpHeader, IpProtocol, tcp, udp, icmp, icmpv6, other_protocol, IpPacket, new_checked,
  src_addr, dst_addr, protocol, payload,
}

-- The order of the standard library on octets and socket addresses.
abbrev pub then_compare : Ordering → Ordering → Ordering
then_compare Ordering.lt o = Ordering.lt
then_compare Ordering.eq o = o
then_compare Ordering.gt o = Ordering.gt

abbrev pub compare_octets : Bytes → Bytes → Ordering
compare_octets [] [] = Ordering.eq
compare_octets [] (y ∷ ys) = Ordering.lt
compare_octets (x ∷ xs) [] = Ordering.gt
compare_octets (x ∷ xs) (y ∷ ys) = then_compare (compare x y) (compare_octets xs ys)

abbrev pub compare_addr : SocketAddr → SocketAddr → Ordering
compare_addr (v4 a) (v4 b) = then_compare (compare_octets a.ip b.ip) (compare a.port b.port)
compare_addr (v4 a) (v6 b) = Ordering.lt
compare_addr (v6 a) (v4 b) = Ordering.gt
compare_addr (v6 a) (v6 b) = then_compare (compare_octets a.ip b.ip) (
    then_compare (compare a.port b.port)
      (then_compare (compare a.flowinfo b.flowinfo) (compare a.scope_id b.scope_id)))

-- The swap of the two addresses of a packet, so that the lesser one comes first.
unfoldable pub swap_if : Ordering → SocketAddr → SocketAddr → SocketAddr × SocketAddr
swap_if Ordering.lt addr1 addr2 = (addr1, addr2)
swap_if Ordering.eq addr1 addr2 = (addr1, addr2)
swap_if Ordering.gt addr1 addr2 = (addr2, addr1)

unfoldable pub ordered : SocketAddr → SocketAddr → SocketAddr × SocketAddr
ordered addr1 addr2 = swap_if (compare_addr addr1 addr2) addr1 addr2

abbrev pub is_tcp : IpProtocol → Bool
is_tcp tcp = true
is_tcp udp = false
is_tcp icmp = false
is_tcp icmpv6 = false
is_tcp other_protocol = false

-- The TCP header of a checked packet, where it is one.
unfoldable pub tcp_header : Parsers → IpPacket → Option TcpHeader
tcp_header w p = if is_tcp (protocol p) then w.tcp_checked (payload p) else none

-- A packet that is TCP, with its header.
unfoldable pub parse_tcp : Parsers → Option IpPacket → Option (IpPacket × TcpHeader)
parse_tcp w none = none
parse_tcp w (some p) = elim (tcp_header w p) [ some h ↦ some (p, h) | none ↦ none ]

-- The worker for a packet: the hash of its ordered addresses by XxHash64, or the first one.
unfoldable pub index_of : (SocketAddr → SocketAddr → ℕ) → ℕ → Option (IpPacket × TcpHeader) → ℕ
index_of hash num_workers none = 0
index_of hash num_workers (some (p, h)) =
    let (addr1, addr2) =
      ordered (socket_addr (src_addr p) h.src_port) (socket_addr (dst_addr p) h.dst_port) in
    hash addr1 addr2 % num_workers

unfoldable pub worker_index : Parsers → (SocketAddr → SocketAddr → ℕ) → ℕ → Bytes → ℕ
worker_index w hash num_workers packet =
    index_of hash num_workers (parse_tcp w (new_checked w packet))

-- A stream that is given to the application, by the addresses of its connection.
pub record Accepted : Type 0 where
  pub local_addr : SocketAddr
  pub remote_addr : SocketAddr

-- A worker: the streams emitted and the room for more, the sockets made (each by the address that it
-- listens on), and the frames that smoltcp is given with the room for more.
pub record Worker : Type 0 where
  pub emitted : List Accepted
  pub emit_room : ℕ
  pub sockets : List SocketAddr
  pub injected : List Bytes
  pub inject_room : ℕ

-- The end of accept_new_connection: the stream is emitted with `try_send`.
unfoldable pub emit : Worker → ℕ → Accepted → Worker
emit s zero stream = s
emit s (suc room) stream = record s {
  emitted = s.emitted ++ stream ∷ [];
  emit_room = room;
  sockets = s.sockets ++ stream.remote_addr ∷ [];
}

unfoldable pub after_listen : Worker → Accepted → IoResult (Unit {0}) → Worker × IoResult (Unit {0})
after_listen s stream (ok u) = (emit s s.emit_room stream, ok tt)
after_listen s stream (err e) = (s, err (io_error other e.message))

-- The stream of a packet's connection.
abbrev pub stream_of : IpPacket → TcpHeader → Accepted
stream_of p h = record {
  local_addr = socket_addr (src_addr p) h.src_port;
  remote_addr = socket_addr (dst_addr p) h.dst_port;
}

-- accept_new_connection; `listen` is smoltcp's, on the new socket.
unfoldable pub accept_new_connection :
    (SocketAddr → IoResult (Unit {0}))
    → Worker
    → IpPacket
    → TcpHeader
    → Worker × IoResult (Unit {0})
accept_new_connection listen s p h =
    after_listen s (stream_of p h) (listen (socket_addr (dst_addr p) h.dst_port))

-- A first packet of a connection gets its socket.
unfoldable pub accept_if_syn :
    (SocketAddr → IoResult (Unit {0}))
    → Worker
    → Option (IpPacket × TcpHeader)
    → Worker × IoResult (Unit {0})
accept_if_syn listen s none = (s, ok tt)
accept_if_syn listen s (some (p, h)) =
    if h.syn && not h.ack then accept_new_connection listen s p h else (s, ok tt)

-- `device_injector.try_send`
unfoldable pub inject : Worker → ℕ → Bytes → Worker × IoResult (Unit {0})
inject s zero frame = (s, err (io_error other "no available capacity"))
inject s (suc room) frame =
    (record s { injected = s.injected ++ frame ∷ []; inject_room = room }, ok tt)

unfoldable pub inject_after : Bytes → Worker × IoResult (Unit {0}) → Worker × IoResult (Unit {0})
inject_after frame (s, err e) = (s, err e)
inject_after frame (s, ok u) = inject s s.inject_room frame

unfoldable pub process_inbound_frame :
    Parsers → (SocketAddr → IoResult (Unit {0})) → Worker → Bytes → Worker × IoResult (Unit {0})
process_inbound_frame w listen s frame =
    inject_after frame (accept_if_syn listen s (parse_tcp w (new_checked w frame)))
