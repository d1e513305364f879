-- ===== src/Netstack.antt =====
-- crates/ombrac-netstack: the network stack in user space. This file is stack.rs, the packets and the
-- sink that takes them in; Udp is udp.rs, Device is device.rs, Worker and Stream are tcp.rs. The
-- parsers, sockets and packet builders of smoltcp and etherparse are arguments.
pub mod Sink
pub mod Udp
pub mod Roundtrip
pub mod Device
pub mod Worker
pub mod Distribute
pub mod Stream
pub mod Flow
pub mod Pipe
pub mod Prune
mod Examples
use ombrac.Prelude.{
  ℕ, Bool, true, false, Option, none, some, List, [], ◌∷◌, ◌++◌, ◌+◌, ◌-◌, ◌*◌, ltb, if◌then◌else◌,
  length, Result, ok, err,
}
use ombrac.Net.{
  Bytes, IpAddr, invalid_data, broken_pipe, IoError, io_error, IoResult, Poll, ready, pending,
}

pub data IpVersion : Type 0 where
  version_4 version_6 : IpVersion

-- smoltcp's IpProtocol, as far as the code names it.
pub data IpProtocol : Type 0 where
  tcp udp icmp icmpv6 other_protocol : IpProtocol

-- What a checked IP packet of smoltcp tells.
pub record IpHeader : Type 0 where
  pub src_addr : IpAddr
  pub dst_addr : IpAddr
  pub next_header : IpProtocol
  pub header_len : ℕ
  pub payload : Bytes

pub record UdpHeader : Type 0 where
  pub src_port : ℕ
  pub dst_port : ℕ
  pub payload_len : ℕ

pub record TcpHeader : Type 0 where
  pub src_port : ℕ
  pub dst_port : ℕ
  pub syn : Bool
  pub ack : Bool

-- smoltcp's parsers: `none` for a packet that they refuse.
pub record Parsers : Type 0 where
  pub of_packet : Bytes → Option IpVersion
  pub ipv4_checked : Bytes → Option IpHeader
  pub ipv6_checked : Bytes → Option IpHeader
  pub udp_checked : Bytes → Option UdpHeader
  pub tcp_checked : Bytes → Option TcpHeader

pub data IpPacket : Type 0 where
  ipv4 ipv6 : IpHeader → IpPacket

-- `map` of the constructor over a parser's result.
abbrev pub wrapped : (IpHeader → IpPacket) → Option IpHeader → Option IpPacket
wrapped make none = none
wrapped make (some h) = some (make h)

unfoldable pub parse_version : Parsers → Bytes → Option IpVersion → Option IpPacket
parse_version w packet none = none
parse_version w packet (some version_4) = wrapped ipv4 (w.ipv4_checked packet)
parse_version w packet (some version_6) = wrapped ipv6 (w.ipv6_checked packet)

-- IpPacket::new_checked
unfoldable pub new_checked : Parsers → Bytes → Option IpPacket
new_checked w packet = parse_version w packet (w.of_packet packet)

abbrev pub header : IpPacket → IpHeader
header (ipv4 h) = h
header (ipv6 h) = h

-- IpPacket::src_addr, dst_addr, protocol and payload.
abbrev pub src_addr : IpPacket → IpAddr
src_addr p = (header p).src_addr

abbrev pub dst_addr : IpPacket → IpAddr
dst_addr p = (header p).dst_addr

abbrev pub protocol : IpPacket → IpProtocol
protocol p = (header p).next_header

abbrev pub payload : IpPacket → Bytes
payload p = (header p).payload

-- Addresses are octets, durations are in seconds.
pub record NetStackConfig : Type 0 where
  pub mtu : ℕ
  pub channel_size : ℕ
  pub number_workers : ℕ
  pub tcp_send_buffer_size : ℕ
  pub tcp_recv_buffer_size : ℕ
  pub buffer_pool_size : ℕ
  pub buffer_pool_default_buffer_size : ℕ
  pub ipv4_addr : Bytes
  pub ipv4_prefix_len : ℕ
  pub ipv6_addr : Bytes
  pub ipv6_prefix_len : ℕ
  pub tcp_keep_alive : ℕ
  pub tcp_timeout : ℕ
  pub packet_batch_size : ℕ
  pub ip_ttl : ℕ

-- `map_or(4, ..)` of the parallelism that the system reports.
abbrev pub workers_or_four : Option ℕ → ℕ
workers_or_four none = 4
workers_or_four (some n) = n

abbrev pub default_config : Option ℕ → NetStackConfig
default_config available_parallelism = record {
  mtu = 1500;
  channel_size = 4096;
  number_workers = workers_or_four available_parallelism;
  tcp_send_buffer_size = 16 * 1024;
  tcp_recv_buffer_size = 16 * 1024;
  buffer_pool_size = 32;
  buffer_pool_default_buffer_size = 2 * 1024;
  ipv4_addr = 10 ∷ 0 ∷ 0 ∷ 1 ∷ [];
  ipv4_prefix_len = 24;
  ipv6_addr = 0 ∷ 0 ∷ 15 ∷ 172 ∷ 0 ∷ 0 ∷ 0 ∷ 0 ∷ 0 ∷ 0 ∷ 0 ∷ 0 ∷ 0 ∷ 0 ∷ 0 ∷ 1 ∷ [];
  ipv6_prefix_len = 64;
  tcp_timeout = 60;
  tcp_keep_alive = 28;
  packet_batch_size = 32;
  ip_ttl = 64;
}

-- A channel of packets: all that it was sent, how many were taken out, and whether its receiver is
-- gone.
pub record Channel : Type 0 where
  pub sent : List Bytes
  pub taken : ℕ
  pub capacity : ℕ
  pub closed : Bool

abbrev pub has_room : Channel → Bool
has_room c = ltb (length c.sent - c.taken) c.capacity

abbrev pub push : Channel → Bytes → Channel
push c packet = record c { sent = c.sent ++ packet ∷ [] }

pub record StackSplitSink : Type 0 where
  pub udp_inbound : Channel
  pub tcp_inbound : Channel
  pub packet_container : Option (Bytes × IpProtocol)

-- StackSplitSink::new
abbrev pub new_sink : Channel → Channel → StackSplitSink
new_sink udp_inbound tcp_inbound = record {
  udp_inbound = udp_inbound;
  tcp_inbound = tcp_inbound;
  packet_container = none;
}

-- The end of poll_flush: `reserve` fails, gives a permit or waits.
unfoldable pub reserve :
    StackSplitSink
    → Channel
    → (Channel → StackSplitSink)
    → Bytes × IpProtocol
    → StackSplitSink × Poll (IoResult (Unit {0}))
reserve s c update (item, proto) =
    if c.closed
    then (
      record s { packet_container = none },
      ready (
          err
            (io_error broken_pipe "Failed to send packet: channel closed for protocol {proto:?}")),
    )
    else if has_room c
    then (update (push c item), ready (ok tt))
    else (record s { packet_container = some (item, proto) }, pending)

unfoldable pub flush_packet :
    StackSplitSink → Bytes → IpProtocol → StackSplitSink × Poll (IoResult (Unit {0}))
flush_packet s item udp =
    reserve s s.udp_inbound (λ c. record s { udp_inbound = c; packet_container = none }) (item, udp)
flush_packet s item tcp =
    reserve s s.tcp_inbound (λ c. record s { tcp_inbound = c; packet_container = none }) (item, tcp)
flush_packet s item icmp =
    reserve s s.tcp_inbound (λ c. record s { tcp_inbound = c; packet_container = none })
      (item, icmp)
flush_packet s item icmpv6 =
    reserve s s.tcp_inbound (λ c. record s { tcp_inbound = c; packet_container = none })
      (item, icmpv6)
flush_packet s item other_protocol = (record s { packet_container = none }, ready (ok tt))

unfoldable pub flush_container :
    StackSplitSink → Option (Bytes × IpProtocol) → StackSplitSink × Poll (IoResult (Unit {0}))
flush_container s none = (s, ready (ok tt))
flush_container s (some (item, proto)) = flush_packet s item proto

unfoldable pub poll_flush : StackSplitSink → StackSplitSink × Poll (IoResult (Unit {0}))
poll_flush s = flush_container s s.packet_container

-- A packet that is kept is flushed first.
unfoldable pub ready_container :
    StackSplitSink → Option (Bytes × IpProtocol) → StackSplitSink × Poll (IoResult (Unit {0}))
ready_container s none = (s, ready (ok tt))
ready_container s (some x) = poll_flush s

unfoldable pub poll_ready : StackSplitSink → StackSplitSink × Poll (IoResult (Unit {0}))
poll_ready s = ready_container s s.packet_container

unfoldable pub keep_routed : StackSplitSink → Bytes → IpProtocol → StackSplitSink
keep_routed s item other_protocol = s
keep_routed s item tcp = record s { packet_container = some (item, tcp) }
keep_routed s item udp = record s { packet_container = some (item, udp) }
keep_routed s item icmp = record s { packet_container = some (item, icmp) }
keep_routed s item icmpv6 = record s { packet_container = some (item, icmpv6) }

unfoldable pub start_checked :
    StackSplitSink → Bytes → Option IpPacket → StackSplitSink × IoResult (Unit {0})
start_checked s item none = (s, err (io_error invalid_data "{}"))
start_checked s item (some packet) = (keep_routed s item (protocol packet), ok tt)

unfoldable pub start_send : Parsers → StackSplitSink → Bytes → StackSplitSink × IoResult (Unit {0})
start_send w s [] = (s, ok tt)
start_send w s (b ∷ rest) = start_checked s (b ∷ rest) (new_checked w (b ∷ rest))
