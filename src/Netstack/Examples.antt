-- ===== src/Netstack/Examples.antt =====
-- Parsers for packets of one octet per header field, a socket that is two queues, and the theorems of
-- the network stack (crates/ombrac-netstack/src) at inputs for them.

use ombrac.Prelude.{
  ℕ, zero, suc, true, false, Option, none, some, List, [], ◌∷◌, ◌++◌, ◌-◌, ◌*◌, ◌+◌, get_elem?, ltb,
  All, length, take, drop, take-append-drop, take-append_exact, drop-append_exact, append_assoc,
  length-append, ◌≡◌, ◌⊎◌, refl, sym, ap, ◌∙◌, arith, ok, err,
}
use ombrac.Net.{Bytes, ip_v4, SocketAddr, v4, v6, io_error, IoResult, other, pending}
use ombrac.Netstack.{
  version_4, IpProtocol, tcp, udp, other_protocol, IpHeader, UdpHeader, Parsers, IpPacket,
  StackSplitSink, ipv4, parse_version, new_checked, wrapped, new_sink, poll_ready, ready_container,
  poll_flush, flush_container, flush_packet, reserve, start_send, start_checked, keep_routed,
}
use ombrac.Netstack.Sink.{
  SinkOperation, feed_packet, flush_sink, take_udp, drop_udp, operate, run, IsRouted, new_channel,
  run-IsRouted, start_ready, feed,
}
use ombrac.Netstack.Udp.{UdpPacket, ip_header_len, recv, PacketBuilder, build, send_built, send}
use ombrac.Netstack.Roundtrip.{Builds, plain_packet, recv-send}
use ombrac.Netstack.Device.{NetstackDevice, tx_room, receive_all, receive_all_lem}
use ombrac.Netstack.Worker.{parse_tcp, tcp_header, worker_index}
use ombrac.Netstack.Distribute.{worker_index-reply}
use ombrac.Netstack.Stream.{new_connection, TcpSocket, handle_socket_io, prune_socket}
use ombrac.Netstack.Flow.{Flow}
use ombrac.Netstack.Pipe
use ombrac.Netstack.Pipe.{Pipe, StreamOperation, read, write, turn, segment, IsPipe, run-IsPipe}
use ombrac.Netstack.Prune.{reads, handle_socket_io-pruned}

abbrev host_1 : Bytes
host_1 = 10 ∷ 0 ∷ 0 ∷ 1 ∷ []

abbrev host_2 : Bytes
host_2 = 10 ∷ 0 ∷ 0 ∷ 2 ∷ []

-- A packet here is its protocol, the last octets of its two addresses, and what is behind them.
abbrev test_protocol : ℕ → IpProtocol
test_protocol zero = tcp
test_protocol (suc zero) = udp
test_protocol (suc (suc n)) = other_protocol

abbrev test_ipv4 : Bytes → Option IpHeader
test_ipv4 [] = none
test_ipv4 (a ∷ []) = none
test_ipv4 (a ∷ b ∷ []) = none
test_ipv4 (a ∷ b ∷ c ∷ rest) = some (record {
  src_addr = ip_v4 (10 ∷ 0 ∷ 0 ∷ b ∷ []);
  dst_addr = ip_v4 (10 ∷ 0 ∷ 0 ∷ c ∷ []);
  next_header = test_protocol a;
  header_len = 3;
  payload = rest;
})

abbrev test_parsers : Parsers
test_parsers = record {
  of_packet = λ b. some version_4;
  ipv4_checked = test_ipv4;
  ipv6_checked = λ b. none;
  udp_checked = λ b. some (record { src_port = 2000; dst_port = 53; payload_len = length b - 8 });
  tcp_checked = λ b. some (record { src_port = 2000; dst_port = 53; syn = true; ack = false });
}

abbrev udp_packet : Bytes
udp_packet = 1 ∷ 1 ∷ 2 ∷ []

abbrev tcp_packet : Bytes
tcp_packet = 0 ∷ 1 ∷ 2 ∷ []

-- The receiver of the UDP packets takes one and goes away, and the next UDP packet is lost when a TCP
-- packet is to be fed.
abbrev test_feeds : List SinkOperation
test_feeds =
    feed_packet udp_packet
    ∷ flush_sink
    ∷ take_udp
    ∷ drop_udp
    ∷ feed_packet udp_packet
    ∷ feed_packet tcp_packet
    ∷ feed_packet tcp_packet
    ∷ []

abbrev test_run : StackSplitSink × List (Bytes × IpProtocol) × List (Bytes × IpProtocol)
test_run = run test_parsers (new_sink (new_channel 1) (new_channel 1)) [] [] test_feeds

test_sink :
    (test_run.0.udp_inbound.sent ≡ udp_packet ∷ [])
    × (test_run.1 ≡ (udp_packet, udp) ∷ (udp_packet, udp) ∷ (tcp_packet, tcp) ∷ [])
    × (test_run.2 ≡ (udp_packet, udp) ∷ [])
unfolding run operate feed start_ready poll_ready ready_container poll_flush flush_container
    flush_packet reserve start_send start_checked keep_routed new_checked parse_version
test_sink = (refl, refl, refl)

run-IsRouted_example : IsRouted test_run.0 test_run.1 test_run.2
run-IsRouted_example = run-IsRouted test_parsers 1 1 test_feeds

abbrev six : Bytes
six = 0 ∷ 0 ∷ 0 ∷ 0 ∷ 0 ∷ 0 ∷ []

-- A header here is each address behind its length; the UDP header begins with the two ports.
abbrev test_ip_part : Bytes → Bytes → Bytes
test_ip_part src dst = length src ∷ (src ++ length dst ∷ dst)

abbrev test_udp_part : ℕ → ℕ → Bytes
test_udp_part sp dp = sp ∷ dp ∷ six

abbrev behind_source : ℕ → Bytes → Bytes → Option IpHeader
behind_source n src [] = none
behind_source n src (m ∷ rest) = some (record {
  src_addr = ip_v4 src;
  dst_addr = ip_v4 (take m rest);
  next_header = udp;
  header_len = suc (n + suc m);
  payload = drop m rest;
})

abbrev echo_ipv4 : Bytes → Option IpHeader
echo_ipv4 [] = none
echo_ipv4 (n ∷ rest) = behind_source n (take n rest) (drop n rest)

abbrev echo_udp : Bytes → Option UdpHeader
echo_udp [] = none
echo_udp (sp ∷ []) = none
echo_udp (sp ∷ dp ∷ rest) =
    some (record { src_port = sp; dst_port = dp; payload_len = length rest - 6 })

abbrev echo_parsers : Parsers
echo_parsers = record test_parsers { ipv4_checked = echo_ipv4; udp_checked = echo_udp }

abbrev test_builder : PacketBuilder
test_builder = record {
  ipv4_udp =
      λ src dst ttl sp dp content. ok (test_ip_part src dst ++ (test_udp_part sp dp ++ content));
  ipv6_udp = λ src dst ttl sp dp content. err (io_error other "");
}

abbrev test_ip_header : Bytes → Bytes → Bytes → IpHeader
test_ip_header src dst payload = record {
  src_addr = ip_v4 src;
  dst_addr = ip_v4 dst;
  next_header = udp;
  header_len = suc (length src + suc (length dst));
  payload = payload;
}

echo_ipv4-part :
    (src dst rest : Bytes)
    → echo_ipv4 (test_ip_part src dst ++ rest) ≡ some (test_ip_header src dst rest)
echo_ipv4-part src dst rest =
    rw
      (
        append_assoc src (length dst ∷ dst) rest,
        take-append_exact src (length dst ∷ (dst ++ rest)),
        drop-append_exact src (length dst ∷ (dst ++ rest)),
        take-append_exact dst rest,
        drop-append_exact dst rest,
      )
      refl

test_builder-Builds : Builds echo_parsers test_builder
unfolding new_checked parse_version ip_header_len
test_builder-Builds = (
  λ src dst ttl content made e.
      let whole : test_ip_part src.ip dst.ip ++ (test_udp_part src.port dst.port ++ content)
          ≡ made =
        cc (e) in
      (
        test_ip_part src.ip dst.ip,
        test_udp_part src.port dst.port,
        ipv4 (test_ip_header src.ip dst.ip (test_udp_part src.port dst.port ++ content)),
        sym whole,
        refl,
        rw (sym whole) (
            ap (λ h. wrapped ipv4 h)
              (echo_ipv4-part src.ip dst.ip (test_udp_part src.port dst.port ++ content))),
        omega (arith, length-append src.ip (length dst.ip ∷ dst.ip)),
        refl,
        refl,
        ap (λ n. some (record { src_port = src.port; dst_port = dst.port; payload_len = n }))
            (omega arith),
      ),
  λ src dst ttl content made e. absurd (cc (e)),
)

abbrev test_udp_packet : UdpPacket
test_udp_packet = record {
  content = 7 ∷ 9 ∷ [];
  src_addr = v4 (record { ip = host_1; port = 2000 });
  dst_addr = v4 (record { ip = host_2; port = 53 });
}

abbrev test_made : Bytes
test_made = test_ip_part host_1 host_2 ++ (test_udp_part 2000 53 ++ 7 ∷ 9 ∷ [])

test_send : send test_builder 64 false test_udp_packet ≡ ok test_made
unfolding send send_built build
test_send = refl

recv-send_example : recv echo_parsers (test_made ∷ []) ≡ ([], some (plain_packet test_udp_packet))
recv-send_example =
    recv-send echo_parsers test_builder 64 test_udp_packet test_made [] test_builder-Builds
      test_send

abbrev full_device : NetstackDevice
full_device = record {
  rx_queue = udp_packet ∷ tcp_packet ∷ [];
  rx_capacity = 4;
  tx_queue = udp_packet ∷ [];
  tx_capacity = 1;
  max_transmission_unit = 1500;
}

receive_all_lem_example :
    ((receive_all full_device 2).0 ≡ record full_device { rx_queue = [] })
    × (((tx_room full_device ≡ true)
          × ((receive_all full_device 2).1 ≡ udp_packet ∷ tcp_packet ∷ []))
        ⊎ ((tx_room full_device ≡ false) × ((receive_all full_device 2).1 ≡ [])))
receive_all_lem_example = receive_all_lem 2 full_device

abbrev test_header : ℕ → ℕ → IpPacket
test_header b c = ipv4 (record {
  src_addr = ip_v4 (10 ∷ 0 ∷ 0 ∷ b ∷ []);
  dst_addr = ip_v4 (10 ∷ 0 ∷ 0 ∷ c ∷ []);
  next_header = tcp;
  header_len = 3;
  payload = [];
})

-- A parser with the port of a host as its last octet.
abbrev port_parsers : Parsers
port_parsers = record test_parsers {
  tcp_checked = λ b. some (record { src_port = 80; dst_port = 80; syn = true; ack = false });
}

abbrev last_octet : SocketAddr → ℕ
last_octet (v4 a) = elim (get_elem? a.ip 3) [ some n ↦ n | none ↦ 0 ]
last_octet (v6 a) = 0

abbrev sum_hash : SocketAddr → SocketAddr → ℕ
sum_hash a b = 3 * last_octet a + last_octet b

parsed_1 :
    parse_tcp port_parsers (new_checked port_parsers tcp_packet)
    ≡ some (test_header 1 2, record { src_port = 80; dst_port = 80; syn = true; ack = false })
unfolding parse_tcp tcp_header new_checked parse_version
parsed_1 = refl

parsed_2 :
    parse_tcp port_parsers (new_checked port_parsers (0 ∷ 2 ∷ 1 ∷ []))
    ≡ some (test_header 2 1, record { src_port = 80; dst_port = 80; syn = true; ack = false })
unfolding parse_tcp tcp_header new_checked parse_version
parsed_2 = refl

worker_index-reply_example :
    worker_index port_parsers sum_hash 4 (0 ∷ 2 ∷ 1 ∷ [])
    ≡ worker_index port_parsers sum_hash 4 tcp_packet
worker_index-reply_example =
    worker_index-reply port_parsers sum_hash 4 tcp_packet (0 ∷ 2 ∷ 1 ∷ []) (test_header 1 2)
      (test_header 2 1) (record { src_port = 80; dst_port = 80; syn = true; ack = false })
      (record { src_port = 80; dst_port = 80; syn = true; ack = false }) parsed_1 parsed_2 refl refl

-- What came in, and what it was given to send; two octets at a time can be read.
abbrev queue_socket : TcpSocket (Bytes × Bytes)
queue_socket = record {
  can_recv = λ s. ltb 0 (length s.0);
  recv_slice = λ s. ok (take 2 s.0);
  dequeue = λ s n. (drop n s.0, s.1);
  can_send = λ s. true;
  send_room = λ s. 3;
  enqueue = λ s b. (s.0, s.1 ++ b);
  is_open = λ s. true;
  is_active = λ s. true;
  close = λ s. s;
}

queue_socket-rest :
    (s : Bytes × Bytes) (slice : Bytes)
    → ◌≡◌ {A = IoResult Bytes} (ok (take 2 s.0)) (ok slice)
    → (rest : Bytes) × (s.0 ≡ slice ++ rest)
queue_socket-rest (a, b) slice e =
    let same : take 2 a ≡ slice = cc (e) in
    (drop 2 a, sym (take-append-drop 2 a) ∙ ap (λ r. r ++ drop 2 a) same)

abbrev queue_socket-Flow : Flow queue_socket
queue_socket-Flow = record {
  incoming = λ s. s.0;
  outgoing = λ s. s.1;
  recv_slice-incoming = queue_socket-rest;
  incoming-dequeue = λ s n. refl;
  outgoing-dequeue = λ s n. refl;
  incoming-enqueue = λ s b. refl;
  arrive = λ s b. (s.0 ++ b, s.1);
  incoming-arrive = λ s b. refl;
  outgoing-arrive = λ s b. refl;
  outgoing-enqueue = λ s b. refl;
}

abbrev new_pipe : Pipe (Bytes × Bytes)
new_pipe = record {
  socket = ([], []);
  connection = new_connection 4 4;
  delivered = [];
  accepted = [];
  arrived = [];
}

abbrev test_operations : List StreamOperation
test_operations = segment (1 ∷ 2 ∷ 3 ∷ []) ∷ write (4 ∷ 5 ∷ []) ∷ turn ∷ read 1 ∷ turn ∷ []

run-IsPipe_example :
    IsPipe queue_socket queue_socket-Flow
      (Pipe.run queue_socket queue_socket-Flow new_pipe test_operations)
run-IsPipe_example =
    run-IsPipe queue_socket queue_socket-Flow new_pipe test_operations
      (refl, refl, omega arith, omega arith)

abbrev listening : TcpSocket (Bytes × Bytes)
listening = record queue_socket { is_active = λ s. false }

handle_socket_io-pruned_example :
    (prune_socket listening
        (handle_socket_io listening ([], []) (new_connection 4 4)).0
        (handle_socket_io listening ([], []) (new_connection 4 4)).1
      ≡ none)
    × All
        (λ r. r ≡ pending)
        (reads (handle_socket_io listening ([], []) (new_connection 4 4)).1 (8 ∷ 8 ∷ []))
handle_socket_io-pruned_example =
    handle_socket_io-pruned listening ([], []) 4 4 (8 ∷ 8 ∷ []) refl refl refl
