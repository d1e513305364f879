-- ===== src/Netstack/Udp.antt =====
-- crates/ombrac-netstack/src/udp.rs: UDP packets out of the tunnel's packets, and into them. The
-- packet's `data` is called content.
use ombrac.Prelude.{
  ℕ, Bool, Option, none, some, List, [], ◌∷◌, ◌+◌, ltb, if◌then◌else◌, length, take, drop, ok, err,
}
use ombrac.Net.{Bytes, SocketAddr, v4, v6, socket_addr, invalid_input, other, io_error, IoResult}
use ombrac.Netstack.{Parsers, UdpHeader, IpPacket, ipv4, ipv6, new_checked, src_addr, dst_addr}

pub record UdpPacket : Type 0 where
  pub content : Bytes
  pub src_addr : SocketAddr
  pub dst_addr : SocketAddr

abbrev pub udp_header_len : ℕ
udp_header_len = 8

-- smoltcp's IPV6_HEADER_LEN
abbrev pub ipv6_header_len : ℕ
ipv6_header_len = 40

unfoldable pub ip_header_len : IpPacket → ℕ
ip_header_len (ipv4 h) = h.header_len
ip_header_len (ipv6 h) = ipv6_header_len

-- The payload, once the UDP header was parsed.
unfoldable pub slice_payload : Bytes → IpPacket → UdpHeader → Option UdpPacket
slice_payload original p h =
    let payload_start = ip_header_len p + udp_header_len in
    if ltb (length original) (payload_start + h.payload_len)
    then none
    else some (record {
      content = take h.payload_len (drop payload_start original);
      src_addr = socket_addr (src_addr p) h.src_port;
      dst_addr = socket_addr (dst_addr p) h.dst_port;
    })

unfoldable pub parse_udp_header : Bytes → IpPacket → Option UdpHeader → Option UdpPacket
parse_udp_header original p none = none
parse_udp_header original p (some h) = slice_payload original p h

unfoldable pub parse_ip : Parsers → Bytes → Option IpPacket → Option UdpPacket
parse_ip w original none = none
parse_ip w original (some p) =
    if ltb (length original) (ip_header_len p + udp_header_len)
    then none
    else parse_udp_header original p (w.udp_checked (drop (ip_header_len p) original))

-- What SplitRead::recv makes of a packet of its channel.
unfoldable pub parse_packet : Parsers → Bytes → Option UdpPacket
parse_packet w original = parse_ip w original (new_checked w original)

-- SplitRead::recv: the packets that are left, and its result. An empty list stands for a closed
-- channel.
unfoldable pub recv : Parsers → List Bytes → List Bytes × Option UdpPacket
recv w [] = ([], none)
recv w (packet ∷ rest) = (rest, parse_packet w packet)

-- etherparse's PacketBuilder: the packet of a version, with addresses, time to live, ports and payload.
pub record PacketBuilder : Type 0 where
  pub ipv4_udp : Bytes → Bytes → ℕ → ℕ → ℕ → Bytes → IoResult Bytes
  pub ipv6_udp : Bytes → Bytes → ℕ → ℕ → ℕ → Bytes → IoResult Bytes

unfoldable pub build : PacketBuilder → ℕ → SocketAddr → SocketAddr → Bytes → IoResult Bytes
build b ttl (v4 src) (v4 dst) content = b.ipv4_udp src.ip dst.ip ttl src.port dst.port content
build b ttl (v6 src) (v6 dst) content = b.ipv6_udp src.ip dst.ip ttl src.port dst.port content
build b ttl (v4 src) (v6 dst) content =
    err (io_error invalid_input "UDP socket only supports IPv4 and IPv6")
build b ttl (v6 src) (v4 dst) content =
    err (io_error invalid_input "UDP socket only supports IPv4 and IPv6")

-- `self.send.send`, which fails when the channel is closed.
unfoldable pub send_built : Bool → IoResult Bytes → IoResult Bytes
send_built closed (err e) = err e
send_built closed (ok packet) =
    if closed then err (io_error other "send error: {err}") else ok packet

-- SplitWrite::send: the packet that it puts into the channel.
unfoldable pub send : PacketBuilder → ℕ → Bool → UdpPacket → IoResult Bytes
send b ttl closed p = send_built closed (build b ttl p.src_addr p.dst_addr p.content)
