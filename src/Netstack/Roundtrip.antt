-- ===== src/Netstack/Roundtrip.antt =====
-- Reading a UDP packet of which the network stack made a packet
-- (crates/ombrac-netstack/src/udp.rs).
use ombrac.Prelude.{
  ℕ, false, some, List, [], ◌∷◌, ◌++◌, ◌+◌, ltb, length, take, drop, take-append_exact,
  drop-append_exact, drop-drop, append-nil, length-append, Result-cases, inl, inr, ◌≡◌, refl, sym,
  ap, ◌∙◌, arith, ok,
}
use ombrac.Net.{
  Bytes, IpAddr, ip_v4, ip_v6, SocketAddr, SocketAddrV4, SocketAddrV6, v4, v6, socket_addr, port_of,
}
use ombrac.Netstack.{Parsers, UdpHeader, IpPacket, new_checked, src_addr, dst_addr}
use ombrac.Netstack.Udp.{
  UdpPacket, udp_header_len, ip_header_len, slice_payload, parse_udp_header, parse_ip, parse_packet,
  recv, PacketBuilder, build, send_built, send,
}

abbrev pub ip_of : SocketAddr → IpAddr
ip_of (v4 a) = ip_v4 a.ip
ip_of (v6 a) = ip_v6 a.ip

-- The address as a packet carries it, without the flow and scope of IPv6.
abbrev pub plain : SocketAddr → SocketAddr
plain a = socket_addr (ip_of a) (port_of a)

abbrev pub plain_packet : UdpPacket → UdpPacket
plain_packet u = record u { src_addr = plain u.src_addr; dst_addr = plain u.dst_addr }

-- The parsers read the packet's two headers as those of `u`, and its content stands behind them.
abbrev pub IsPacketOf : Parsers → UdpPacket → Bytes → Type 0
IsPacketOf w u packet =
    (ip_part : Bytes) × (udp_part : Bytes) × (p : IpPacket) × (packet
      ≡ ip_part ++ (udp_part ++ u.content))
    × (length udp_part ≡ udp_header_len)
    × (new_checked w packet ≡ some p)
    × (ip_header_len p ≡ length ip_part)
    × (src_addr p ≡ ip_of u.src_addr)
    × (dst_addr p ≡ ip_of u.dst_addr)
    × (w.udp_checked (udp_part ++ u.content)
        ≡ some (record {
          src_port = port_of u.src_addr;
          dst_port = port_of u.dst_addr;
          payload_len = length u.content;
        }))

slice_payload-content :
    (a u c : Bytes) (p : IpPacket) (h : UdpHeader)
    → ip_header_len p ≡ length a
    → length u ≡ udp_header_len
    → h.payload_len ≡ length c
    → slice_payload (a ++ (u ++ c)) p h
      ≡ some (record {
        content = c;
        src_addr = socket_addr (src_addr p) h.src_port;
        dst_addr = socket_addr (dst_addr p) h.dst_port;
      })
unfolding slice_payload
slice_payload-content a u c p h e f g =
    let whole : length (a ++ (u ++ c)) ≡ length a + (8 + length c) =
      omega (arith, length-append a (u ++ c), length-append u c, f) in
    let fits : ltb (length (a ++ (u ++ c))) (ip_header_len p + udp_header_len + h.payload_len)
        ≡ false =
      ground (arith, whole, e, g) in
    let start : drop (ip_header_len p + udp_header_len) (a ++ (u ++ c)) ≡ c =
      rw (e, sym f, drop-drop (length a) (length u) (a ++ (u ++ c)), drop-append_exact a (u ++ c))
        (drop-append_exact u c) in
    let all : take (length c) c ≡ c =
      ap (λ x. take (length c) x) (sym (append-nil c)) ∙ take-append_exact c [] in
    rw (fits, start, g, all) refl

recv-packet :
    (w : Parsers) (u : UdpPacket) (packet : Bytes) (rest : List Bytes)
    → IsPacketOf w u packet
    → recv w (packet ∷ rest) ≡ (rest, some (plain_packet u))
unfolding recv parse_packet parse_ip parse_udp_header
recv-packet w u packet rest (a, h, p, whole, eight, parsed, len, src, dst, udp_parsed) =
    let body : drop (ip_header_len p) packet ≡ h ++ u.content =
      rw (whole, len) (drop-append_exact a (h ++ u.content)) in
    let fits : ltb (length packet) (ip_header_len p + udp_header_len) ≡ false = ground (
      arith,
      ap length whole,
      length-append a (h ++ u.content),
      length-append h u.content,
      eight,
      len,
    ) in
    let read =
      slice_payload-content a h u.content p
        (record {
          src_port = port_of u.src_addr;
          dst_port = port_of u.dst_addr;
          payload_len = length u.content;
        })
        len eight refl in
    rw (parsed, fits, body, udp_parsed, whole, read, src, dst) refl

-- What the builder makes of addresses, ports and a content is a packet of them for the parsers.
abbrev pub Builds : Parsers → PacketBuilder → Type 0
Builds w b =
    ((src dst : SocketAddrV4) (ttl : ℕ) (content made : Bytes)
      → b.ipv4_udp src.ip dst.ip ttl src.port dst.port content ≡ ok made
      → IsPacketOf w (record { content = content; src_addr = v4 src; dst_addr = v4 dst }) made)
    × ((src dst : SocketAddrV6) (ttl : ℕ) (content made : Bytes)
        → b.ipv6_udp src.ip dst.ip ttl src.port dst.port content ≡ ok made
        → IsPacketOf w (record { content = content; src_addr = v6 src; dst_addr = v6 dst }) made)

build-IsPacketOf :
    (w : Parsers) (b : PacketBuilder) (ttl : ℕ) (src dst : SocketAddr) (content made : Bytes)
    → Builds w b
    → build b ttl src dst content ≡ ok made
    → IsPacketOf w (record { content = content; src_addr = src; dst_addr = dst }) made
unfolding build
build-IsPacketOf w b ttl (v4 src) (v4 dst) content made (law_4, law_6) e =
    law_4 src dst ttl content made e
build-IsPacketOf w b ttl (v6 src) (v6 dst) content made (law_4, law_6) e =
    law_6 src dst ttl content made e
build-IsPacketOf w b ttl (v4 src) (v6 dst) content made law e = absurd (cc (e))
build-IsPacketOf w b ttl (v6 src) (v4 dst) content made law e = absurd (cc (e))

-- With a builder whose packets the parsers read as what they were built of: a packet that the network
-- stack makes of a UDP packet is read back. recv gives the same content, source and destination,
-- without the flow and scope of IPv6, and takes one packet from its channel.
pub recv-send :
    (w : Parsers) (b : PacketBuilder) (ttl : ℕ) (u : UdpPacket) (packet : Bytes) (rest : List Bytes)
    → Builds w b
    → send b ttl false u ≡ ok packet
    → recv w (packet ∷ rest) ≡ (rest, some (plain_packet u))
unfolding send send_built
recv-send w b ttl u packet rest law e =
    elim (Result-cases (build b ttl u.src_addr u.dst_addr u.content)) [
      | inl (made, k) ↦
          let sent = rw k at e in
          recv-packet w u packet rest
            (build-IsPacketOf w b ttl u.src_addr u.dst_addr u.content packet law (k ∙ sent))
      | inr (x, k) ↦ absurd (cc (rw k at e))
    ]
