-- ===== src/Netstack/Sink/Operations.antt =====
-- A sink of the network stack with the receivers of its channels (StackSplitSink in
-- crates/ombrac-netstack/src/stack.rs), operation by operation.

use ombrac.Prelude.{
  Bool, true, false, Option, none, some, List, [], ◌∷◌, ◌++◌, ◌+◌, ltb, if◌then◌else◌, length, ok,
  err,
}
use ombrac.Net.{Bytes, IoResult, Poll, ready, pending}
use ombrac.Netstack.{
  IpProtocol, tcp, udp, icmp, icmpv6, other_protocol, Parsers, IpPacket, new_checked, protocol,
  Channel, StackSplitSink, poll_flush, poll_ready, start_send,
}

-- `SinkExt::feed`: a packet is given to the sink once it is ready for it.
unfoldable pub start_ready :
    Parsers → Bytes → StackSplitSink × Poll (IoResult (Unit {0})) → StackSplitSink
start_ready w item (s, ready (ok u)) = (start_send w s item).0
start_ready w item (s, ready (err e)) = s
start_ready w item (s, pending) = s

unfoldable pub feed : Parsers → StackSplitSink → Bytes → StackSplitSink
feed w s item = start_ready w item (poll_ready s)

-- A receiver takes a packet out of its channel, or goes away.
abbrev pub take_one : Channel → Channel
take_one c = if ltb c.taken (length c.sent) then record c { taken = c.taken + 1 } else c

abbrev pub close : Channel → Channel
close c = record c { closed = true }

pub data SinkOperation : Type 0 where
  feed_packet : Bytes → SinkOperation
  flush_sink take_udp take_tcp drop_udp drop_tcp : SinkOperation

unfoldable pub operate : Parsers → StackSplitSink → SinkOperation → StackSplitSink
operate w s (feed_packet item) = feed w s item
operate w s flush_sink = (poll_flush s).0
operate w s take_udp = record s { udp_inbound = take_one s.udp_inbound }
operate w s take_tcp = record s { tcp_inbound = take_one s.tcp_inbound }
operate w s drop_udp = record s { udp_inbound = close s.udp_inbound }
operate w s drop_tcp = record s { tcp_inbound = close s.tcp_inbound }

-- A packet with the protocol that it is kept under, if the sink takes packets of it.
abbrev pub supported : Bytes → IpProtocol → List (Bytes × IpProtocol)
supported item other_protocol = []
supported item tcp = (item, tcp) ∷ []
supported item udp = (item, udp) ∷ []
supported item icmp = (item, icmp) ∷ []
supported item icmpv6 = (item, icmpv6) ∷ []

abbrev pub supported_packet : Bytes → Option IpPacket → List (Bytes × IpProtocol)
supported_packet item none = []
supported_packet item (some packet) = supported item (protocol packet)

abbrev pub routed : Parsers → Bytes → List (Bytes × IpProtocol)
routed w [] = []
routed w (b ∷ rest) = supported_packet (b ∷ rest) (new_checked w (b ∷ rest))

-- What an operation adds to the packets that the sink has taken.
abbrev pub taken_ready : Parsers → Bytes → Poll (IoResult (Unit {0})) → List (Bytes × IpProtocol)
taken_ready w item (ready (ok u)) = routed w item
taken_ready w item (ready (err e)) = []
taken_ready w item pending = []

abbrev pub accepted : Parsers → StackSplitSink → SinkOperation → List (Bytes × IpProtocol)
accepted w s (feed_packet item) = taken_ready w item (poll_ready s).1
accepted w s flush_sink = []
accepted w s take_udp = []
accepted w s take_tcp = []
accepted w s drop_udp = []
accepted w s drop_tcp = []

-- The packet that the sink keeps, and what it loses of it: a call that fails drops it.
abbrev pub kept : StackSplitSink → List (Bytes × IpProtocol)
kept s = elim s.packet_container [ none ↦ [] | some x ↦ x ∷ [] ]

abbrev pub lost_by :
    List (Bytes × IpProtocol) → Poll (IoResult (Unit {0})) → List (Bytes × IpProtocol)
lost_by had (ready (ok u)) = []
lost_by had (ready (err e)) = had
lost_by had pending = []

abbrev pub lost : Parsers → StackSplitSink → SinkOperation → List (Bytes × IpProtocol)
lost w s (feed_packet item) = lost_by (kept s) (poll_ready s).1
lost w s flush_sink = lost_by (kept s) (poll_flush s).1
lost w s take_udp = []
lost w s take_tcp = []
lost w s drop_udp = []
lost w s drop_tcp = []

-- Operations in turn: the sink, all packets that it has taken, and those that it lost when a call of
-- it failed.
unfoldable pub run :
    Parsers
    → StackSplitSink
    → List (Bytes × IpProtocol)
    → List (Bytes × IpProtocol)
    → List SinkOperation
    → StackSplitSink × List (Bytes × IpProtocol) × List (Bytes × IpProtocol)
run w s taken gone [] = (s, taken, gone)
run w s taken gone (o ∷ os) =
    run w (operate w s o) (taken ++ accepted w s o) (gone ++ lost w s o) os

-- The packets for the UDP tunnel, and those for the TCP connections.
abbrev pub is_udp : IpProtocol → Bool
is_udp udp = true
is_udp tcp = false
is_udp icmp = false
is_udp icmpv6 = false
is_udp other_protocol = false

abbrev pub to_udp : List (Bytes × IpProtocol) → List Bytes
to_udp [] = []
to_udp ((item, p) ∷ rest) = if is_udp p then item ∷ to_udp rest else to_udp rest

abbrev pub to_tcp : List (Bytes × IpProtocol) → List Bytes
to_tcp [] = []
to_tcp ((item, p) ∷ rest) = if is_udp p then to_tcp rest else item ∷ to_tcp rest
