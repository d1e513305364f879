-- ===== src/Tun/Forward.antt =====
-- The way of packets from the TUN device into the network stack (forward_packets_from_tun_to_stack in
-- crates/ombrac-client/src/endpoint/tun.rs), over the sink of Netstack. The device's stream is what its
-- select gives, turn by turn, and its sink is polled again when one of the stack's receivers has taken
-- a packet.
pub mod Routed
use ombrac.Prelude.{true, ◌⊎◌, Option, none, some, List, [], ◌∷◌, ◌++◌, ◌≡◌, ◌≢◌, ok, err}
use ombrac.Net.{Bytes, invalid_data, broken_pipe, IoError, IoResult, Poll, ready, pending}
use ombrac.Netstack.{IpProtocol, Parsers, new_checked, StackSplitSink, poll_flush, start_send}
use ombrac.Netstack.Sink.{SinkOperation, take_udp, take_tcp, drop_udp, drop_tcp, operate, routed}

-- What a receiver of the stack does: it takes a packet out of its channel, or goes away.
pub data Receiver : Type 0 where
  udp_receiver tcp_receiver udp_gone tcp_gone : Receiver

abbrev pub receiving : Receiver → SinkOperation
receiving udp_receiver = take_udp
receiving tcp_receiver = take_tcp
receiving udp_gone = drop_udp
receiving tcp_gone = drop_tcp

abbrev pub receive : Parsers → StackSplitSink → Receiver → StackSplitSink
receive w s o = operate w s (receiving o)

unfoldable pub received : Parsers → StackSplitSink → List Receiver → StackSplitSink
received w s [] = s
received w s (o ∷ os) = received w (receive w s o) os

-- A sink, and the result of a call of it that has returned.
abbrev pub Waited : Type 0
Waited = StackSplitSink × Option (IoResult (Unit {0}))

abbrev pub settle : StackSplitSink × Poll (IoResult (Unit {0})) → (StackSplitSink → Waited) → Waited
settle (s, ready r) further = (s, some r)
settle (s, pending) further = further s

-- Flushing is polled until it has ended, or no receiver takes a packet any more. `poll_ready` flushes
-- what is kept as well, and is ready at once when nothing is.
unfoldable pub wait_flush : Parsers → StackSplitSink → List Receiver → Waited
wait_flush w s [] = settle (poll_flush s) (λ s'. (s', none))
wait_flush w s (o ∷ os) = settle (poll_flush s) (λ s'. wait_flush w (receive w s' o) os)

abbrev pub flushed : Parsers → List Receiver → StackSplitSink × IoResult (Unit {0}) → Waited
flushed w after (s, ok u) = wait_flush w s after
flushed w after (s, err e) = (s, some (err e))

abbrev pub started : Parsers → Bytes → List Receiver → Waited → Waited
started w packet after (s, none) = (s, none)
started w packet after (s, some (err e)) = (s, some (err e))
started w packet after (s, some (ok u)) = flushed w after (start_send w s packet)

-- `SinkExt::send`: the sink is waited for, given the packet and flushed.
unfoldable pub send : Parsers → StackSplitSink → Bytes → List Receiver → List Receiver → Waited
send w s packet before after = started w packet after (wait_flush w s before)

-- A turn: the token, or what the device's stream gave, with what the receivers do while the device is
-- waited for, and while the sink is, before and after it is given the packet.
pub data Turn : Type 0 where
  cancelled : Turn
  device : Option (IoResult Bytes) → List Receiver → List Receiver → List Receiver → Turn

pub data Stop : Type 0 where
  by_token device_closed : Stop
  by_device by_sink : IoError → Stop

pub data Progress : Type 0 where
  reading sending : Progress
  stopped : Stop → Progress

-- How far forwarding has come, with the packets that were read.
pub record Forwarded : Type 0 where
  pub sink : StackSplitSink
  pub read : List Bytes
  pub progress : Progress

abbrev pub go_on : Bytes → Waited → (StackSplitSink → Forwarded) → Forwarded
go_on packet (s, none) further = record { sink = s; read = packet ∷ []; progress = sending }
go_on packet (s, some (err e)) further = record {
  sink = s;
  read = packet ∷ [];
  progress = stopped (by_sink e);
}
go_on packet (s, some (ok u)) further = let r = further s in record r { read = packet ∷ r.read }

abbrev pub stop : StackSplitSink → Stop → Forwarded
stop s why = record { sink = s; read = []; progress = stopped why }

unfoldable pub forward_packets_from_tun_to_stack : Parsers → StackSplitSink → List Turn → Forwarded
forward_packets_from_tun_to_stack w s [] = record { sink = s; read = []; progress = reading }
forward_packets_from_tun_to_stack w s (cancelled ∷ rest) = stop s by_token
forward_packets_from_tun_to_stack w s (device none idle before after ∷ rest) = stop s device_closed
forward_packets_from_tun_to_stack w s (device (some (err e)) idle before after ∷ rest) =
    stop s (by_device e)
forward_packets_from_tun_to_stack w s (device (some (ok packet)) idle before after ∷ rest) =
    go_on packet (send w (received w s idle) packet before after)
      (λ s'. forward_packets_from_tun_to_stack w s' rest)

-- All packets among the turns, and what the sink takes of packets.
pub reads : List Turn → List Bytes
reads [] = []
reads (cancelled ∷ rest) = reads rest
reads (device none idle before after ∷ rest) = reads rest
reads (device (some (err e)) idle before after ∷ rest) = reads rest
reads (device (some (ok packet)) idle before after ∷ rest) = packet ∷ reads rest

pub all_routed : Parsers → List Bytes → List (Bytes × IpProtocol)
all_routed w [] = []
all_routed w (packet ∷ rest) = routed w packet ++ all_routed w rest

-- The sink refuses a packet with this error.
abbrev pub Refused : Parsers → Bytes → IoError → Type 0
Refused w packet e = (packet ≢ []) × (new_checked w packet ≡ none) × (e.kind ≡ invalid_data)

-- A receiver is gone, and a flush fails with this error.
abbrev pub Gone : StackSplitSink → IoError → Type 0
Gone s e = (e.kind ≡ broken_pipe) × ((s.udp_inbound.closed ≡ true) ⊎ (s.tcp_inbound.closed ≡ true))

-- How a state of forwarding comes about, with the packets that were not read and those that the sink
-- has lost.
abbrev pub Explained :
    Parsers → Forwarded → List Bytes → List (Bytes × IpProtocol) → Progress → Type 0
Explained w r rest gone reading = (rest ≡ []) × (gone ≡ []) × (r.sink.packet_container ≡ none)
Explained w r rest gone sending = gone ≡ []
Explained w r rest gone (stopped by_token) = (gone ≡ []) × (r.sink.packet_container ≡ none)
Explained w r rest gone (stopped device_closed) = (gone ≡ []) × (r.sink.packet_container ≡ none)
Explained w r rest gone (stopped (by_device e)) = (gone ≡ []) × (r.sink.packet_container ≡ none)
Explained w r rest gone (stopped (by_sink e)) =
    (front : List Bytes) × (last : Bytes) × (r.read ≡ front ++ last ∷ [])
    × (((gone ≡ []) × Refused w last e) ⊎ ((gone ≡ routed w last) × Gone r.sink e))
