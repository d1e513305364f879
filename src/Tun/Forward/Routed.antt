-- ===== src/Tun/Forward/Routed.antt =====
-- What forward_packets_from_tun_to_stack delivers, and why it stops
-- (crates/ombrac-client/src/endpoint/tun.rs).
use mathlib.Core.Path.{subst}
use ombrac.Prelude.{
  ℕ, Option, none, some, List, [], ◌∷◌, ◌++◌, ◌≡◌, ◌⊎◌, inl, inr, refl, sym, ap, ◌∙◌, append-nil,
  append_assoc, ok, err,
}
use ombrac.Net.{Bytes, invalid_data, IoError, io_error, IoResult, Poll, ready, pending}
use ombrac.Netstack.{
  IpProtocol, tcp, udp, icmp, icmpv6, other_protocol, protocol, keep_routed, Parsers, IpPacket,
  new_checked, StackSplitSink, new_sink, flush_container, poll_flush, start_checked, start_send,
}
use ombrac.Netstack.Sink.{
  routed, kept, kept_of, supported_packet, IsRouted, Good, After, IsReceiving, receive-Good,
  poll_flush-After, start_send-Good, operate, supported, new_channel,
}
use ombrac.Tun.Forward.{
  Explained, Forwarded, Progress, Receiver, Refused, Turn, Waited, all_routed, by_device, by_sink,
  by_token, cancelled, device, device_closed, flushed, forward_packets_from_tun_to_stack, go_on,
  reading, reads, receive, receiving, received, udp_gone, tcp_gone, Gone, send, sending, settle,
  stopped, tcp_receiver, udp_receiver, wait_flush,
}

abbrev PacketList : Type 0
PacketList = List (Bytes × IpProtocol)

-- Waiting for a flush of a sink that kept `had`, without loss before it: what it comes to.
abbrev Settled : PacketList → PacketList → Waited → Type 0
Settled taken had (s, none) = Good s taken []
Settled taken had (s, some (ok u)) = Good s taken [] × (s.packet_container ≡ none)
Settled taken had (s, some (err e)) = Good s taken had × Gone s e

settle-Settled :
    (taken had : PacketList) (r : StackSplitSink × Poll (IoResult (Unit {0})))
    (further : StackSplitSink → Waited)
    → After taken [] had r
    → ((s : StackSplitSink) → Good s taken [] → kept s ≡ had → Settled taken had (further s))
    → Settled taken had (settle r further)
settle-Settled taken had (s, ready (ok u)) further (g, e) h = (g, e)
settle-Settled taken had (s, ready (err x)) further (g, (e, kind, shut)) h = (g, (kind, shut))
settle-Settled taken had (s, pending) further (g, e) h = h s g e

receiving-IsReceiving : (o : Receiver) → IsReceiving (receiving o)
receiving-IsReceiving udp_receiver = tt
receiving-IsReceiving tcp_receiver = tt
receiving-IsReceiving udp_gone = tt
receiving-IsReceiving tcp_gone = tt

receive-container :
    (w : Parsers) (s : StackSplitSink) (o : Receiver)
    → (receive w s o).packet_container ≡ s.packet_container
unfolding operate
receive-container w s udp_receiver = refl
receive-container w s tcp_receiver = refl
receive-container w s udp_gone = refl
receive-container w s tcp_gone = refl

received-Good :
    (w : Parsers) (s : StackSplitSink) (taken : PacketList) (os : List Receiver)
    → Good s taken []
    → s.packet_container ≡ none
    → Good (received w s os) taken [] × ((received w s os).packet_container ≡ none)
unfolding received
received-Good w s taken [] g e = (g, e)
received-Good w s taken (o ∷ os) g e =
    received-Good w (receive w s o) taken os
      (receive-Good w s taken [] (receiving o) (receiving-IsReceiving o) g)
      (receive-container w s o ∙ e)

wait_flush-Settled :
    (w : Parsers) (s : StackSplitSink) (taken had : PacketList) (os : List Receiver)
    → Good s taken []
    → kept s ≡ had
    → Settled taken had (wait_flush w s os)
unfolding wait_flush
wait_flush-Settled w s taken had [] g e =
    settle-Settled taken had (poll_flush s) (λ s'. (s', none))
      (subst (λ k. After taken [] k (poll_flush s)) e (poll_flush-After s taken [] g)) (λ s' h k. h)
wait_flush-Settled w s taken had (o ∷ os) g e =
    settle-Settled taken had (poll_flush s) (λ s'. wait_flush w (receive w s' o) os)
      (subst (λ k. After taken [] k (poll_flush s)) e (poll_flush-After s taken [] g))
      (λ s' h k.
        wait_flush-Settled w (receive w s' o) taken had os
          (receive-Good w s' taken [] (receiving o) (receiving-IsReceiving o) h)
          (ap kept_of (receive-container w s' o) ∙ k))

flush_container-none :
    (s : StackSplitSink) (o : Option (Bytes × IpProtocol))
    → o ≡ none
    → flush_container s o ≡ (s, ready (ok tt))
unfolding flush_container
flush_container-none s none e = refl
flush_container-none s (some x) e = absurd (cc (e))

-- A sink that keeps nothing is ready at once.
wait_flush-none :
    (w : Parsers) (s : StackSplitSink) (os : List Receiver)
    → s.packet_container ≡ none
    → wait_flush w s os ≡ (s, some (ok tt))
unfolding wait_flush poll_flush
wait_flush-none w s [] e =
    ap (λ r. settle r (λ s'. (s', none))) (flush_container-none s s.packet_container e)
wait_flush-none w s (o ∷ os) e =
    ap (λ r. settle r (λ s'. wait_flush w (receive w s' o) os))
      (flush_container-none s s.packet_container e)

start_checked-err :
    (s : StackSplitSink) (item : Bytes) (o : Option IpPacket) (e : IoError)
    → (start_checked s item o).1 ≡ err e
    → (o ≡ none) × (e.kind ≡ invalid_data)
unfolding start_checked
start_checked-err s item none e q =
    let same : io_error invalid_data "{}" ≡ e = cc (q) in (refl, ap (λ x. x.kind) (sym same))
start_checked-err s item (some packet) e q = absurd (cc (q))

start_send-err :
    (w : Parsers) (s : StackSplitSink) (packet : Bytes) (e : IoError)
    → (start_send w s packet).1 ≡ err e
    → Refused w packet e
unfolding start_send
start_send-err w s [] e q = absurd (cc (q))
start_send-err w s (b ∷ rest) e q =
    let (refused, kind) = start_checked-err s (b ∷ rest) (new_checked w (b ∷ rest)) e q in
    (λ p. cc (p), refused, kind)

-- A sink that kept none keeps the packet that it was given, if it takes packets of its kind.
keep_routed-kept :
    (s : StackSplitSink) (item : Bytes) (p : IpProtocol)
    → s.packet_container ≡ none
    → kept (keep_routed s item p) ≡ supported item p
unfolding keep_routed
keep_routed-kept s item tcp e = refl
keep_routed-kept s item udp e = refl
keep_routed-kept s item icmp e = refl
keep_routed-kept s item icmpv6 e = refl
keep_routed-kept s item other_protocol e = ap kept_of e

start_checked-kept :
    (s : StackSplitSink) (item : Bytes) (o : Option IpPacket)
    → s.packet_container ≡ none
    → kept (start_checked s item o).0 ≡ supported_packet item o
unfolding start_checked
start_checked-kept s item none e = ap kept_of e
start_checked-kept s item (some packet) e = keep_routed-kept s item (protocol packet) e

start_send-kept :
    (w : Parsers) (s : StackSplitSink) (packet : Bytes)
    → s.packet_container ≡ none
    → kept (start_send w s packet).0 ≡ routed w packet
unfolding start_send
start_send-kept w s [] e = ap kept_of e
start_send-kept w s (b ∷ rest) e = start_checked-kept s (b ∷ rest) (new_checked w (b ∷ rest)) e

-- What sending a packet comes to.
abbrev Sent : Parsers → Bytes → PacketList → Waited → Type 0
Sent w packet taken (s, none) = Good s taken []
Sent w packet taken (s, some (ok u)) = Good s taken [] × (s.packet_container ≡ none)
Sent w packet taken (s, some (err e)) =
    (gone : PacketList) × Good s taken gone
    × (((gone ≡ []) × Refused w packet e) ⊎ ((gone ≡ routed w packet) × Gone s e))

Settled-Sent :
    (w : Parsers) (packet : Bytes) (taken : PacketList) (r : Waited)
    → Settled taken (routed w packet) r
    → Sent w packet taken r
Settled-Sent w packet taken (s, none) g = g
Settled-Sent w packet taken (s, some (ok u)) g = g
Settled-Sent w packet taken (s, some (err e)) (g, gone) = (routed w packet, g, inr (refl, gone))

flushed-Sent :
    (w : Parsers) (packet : Bytes) (taken : PacketList) (after : List Receiver)
    (r : StackSplitSink × IoResult (Unit {0}))
    → Good r.0 taken []
    → kept r.0 ≡ routed w packet
    → ((e : IoError) → r.1 ≡ err e → Refused w packet e)
    → Sent w packet taken (flushed w after r)
flushed-Sent w packet taken after (s, err e) g k h = ([], g, inl (refl, h e refl))
flushed-Sent w packet taken after (s, ok u) g k h =
    Settled-Sent w packet taken (wait_flush w s after)
      (wait_flush-Settled w s taken (routed w packet) after g k)

send-Sent :
    (w : Parsers) (s : StackSplitSink) (taken : PacketList) (packet : Bytes)
    (before after : List Receiver)
    → Good s taken [] × (s.packet_container ≡ none)
    → Sent w packet (taken ++ routed w packet) (send w s packet before after)
unfolding send
send-Sent w s taken packet before after (g, e) = rw (wait_flush-none w s before e) (
    flushed-Sent w packet (taken ++ routed w packet) after (start_send w s packet)
      (start_send-Good w s taken [] packet e g) (start_send-kept w s packet e)
      (start_send-err w s packet))

-- How far forwarding has come: the packets that were read are what the sink was given, and all of them
-- but for what follows where forwarding has stopped.
abbrev Followed : Parsers → PacketList → Forwarded → List Bytes → List Bytes → PacketList → Type 0
Followed w taken r all rest gone =
    Good r.sink (taken ++ all_routed w r.read) gone
    × (all ≡ r.read ++ rest)
    × Explained w r rest gone r.progress

-- A first packet does not change why forwarding has stopped.
Explained-cons :
    (w : Parsers) (packet : Bytes) (r : Forwarded) (rest : List Bytes) (gone : PacketList)
    (p : Progress)
    → Explained w r rest gone p
    → Explained w (record r { read = packet ∷ r.read }) rest gone p
Explained-cons w packet r rest gone reading e = e
Explained-cons w packet r rest gone sending e = e
Explained-cons w packet r rest gone (stopped by_token) e = e
Explained-cons w packet r rest gone (stopped device_closed) e = e
Explained-cons w packet r rest gone (stopped (by_device x)) e = e
Explained-cons w packet r rest gone (stopped (by_sink x)) (front, last, same, why) =
    (packet ∷ front, last, ap (λ l. packet ∷ l) same, why)

last-Good :
    (w : Parsers) (packet : Bytes) (s : StackSplitSink) (taken gone : PacketList)
    → Good s (taken ++ routed w packet) gone
    → Good s (taken ++ all_routed w (packet ∷ [])) gone
unfolding all_routed
last-Good w packet s taken gone g =
    subst (λ l. Good s (taken ++ l) gone) (sym (append-nil (routed w packet))) g

go_on-Followed :
    (w : Parsers) (taken : PacketList) (packet : Bytes) (r : Waited)
    (further : StackSplitSink → Forwarded) (all : List Bytes)
    → Sent w packet (taken ++ routed w packet) r
    → ((s : StackSplitSink)
        → Good s (taken ++ routed w packet) []
        → s.packet_container ≡ none
        → (rest : List Bytes) × (gone : PacketList) × Followed w
            (taken ++ routed w packet)
            (further s)
            all
            rest
            gone)
    → (rest : List Bytes) × (gone : PacketList) × Followed w taken
        (go_on packet r further)
        (packet ∷ all)
        rest
        gone
unfolding all_routed
go_on-Followed w taken packet (s, none) further all g h =
    (all, [], (last-Good w packet s taken [] g, refl, refl))
go_on-Followed w taken packet (s, some (err e)) further all (gone, g, why) h =
    (all, gone, (last-Good w packet s taken gone g, refl, ([], packet, refl, why)))
go_on-Followed w taken packet (s, some (ok u)) further all (g, e) h =
    let (rest, gone, (g', same, why)) = h s g e in
    (
      rest,
      gone,
      (
        subst (λ l. Good (further s).sink l gone) (append_assoc taken (routed w packet) _) g',
        ap (λ l. packet ∷ l) same,
        Explained-cons w packet (further s) rest gone (further s).progress why,
      ),
    )

unread-Good : (s : StackSplitSink) (taken : PacketList) → Good s taken [] → Good s (taken ++ []) []
unread-Good s taken g = subst (λ l. Good s l []) (sym (append-nil taken)) g

forward-Followed :
    (w : Parsers) (s : StackSplitSink) (taken : PacketList) (turns : List Turn)
    → Good s taken []
    → s.packet_container ≡ none
    → (rest : List Bytes) × (gone : PacketList) × Followed w taken
        (forward_packets_from_tun_to_stack w s turns)
        (reads turns)
        rest
        gone
unfolding forward_packets_from_tun_to_stack reads all_routed
forward-Followed w s taken [] g e = ([], [], (unread-Good s taken g, refl, (refl, refl, e)))
forward-Followed w s taken (cancelled ∷ rest) g e =
    (reads rest, [], (unread-Good s taken g, refl, (refl, e)))
forward-Followed w s taken (device none idle before after ∷ rest) g e =
    (reads rest, [], (unread-Good s taken g, refl, (refl, e)))
forward-Followed w s taken (device (some (err x)) idle before after ∷ rest) g e =
    (reads rest, [], (unread-Good s taken g, refl, (refl, e)))
forward-Followed w s taken (device (some (ok packet)) idle before after ∷ rest) g e =
    go_on-Followed w taken packet (send w (received w s idle) packet before after)
      (λ s'. forward_packets_from_tun_to_stack w s' rest) (reads rest)
      (send-Sent w (received w s idle) taken packet before after (received-Good w s taken idle g e))
      (λ s' g' e'. forward-Followed w s' (taken ++ routed w packet) rest g' e')

-- Whatever the TUN device gives, whenever the token is cancelled and however the two receivers take
-- packets out of channels of whatever size or go away: the packets that were read are the first ones
-- that the device gave, and they stand in the channels of their kinds, once and in their order, but
-- for the one that the sink still keeps and the last one when it was lost. While forwarding waits for
-- the device, it has read all packets and the sink keeps none. It stops with a sink's error only at a
-- packet that the parser refuses, with the kind InvalidData and no packet lost, or when a receiver is
-- gone, with the kind BrokenPipe and the last packet lost; and no packet is lost otherwise.
pub forward_packets_from_tun_to_stack-IsRouted :
    (w : Parsers) (m n : ℕ) (turns : List Turn)
    → let r =
        forward_packets_from_tun_to_stack w (new_sink (new_channel m) (new_channel n)) turns in
      (rest : List Bytes) × (gone : List (Bytes × IpProtocol)) × IsRouted r.sink
        (all_routed w r.read)
        gone
      × (reads turns ≡ r.read ++ rest)
      × Explained w r rest gone r.progress
forward_packets_from_tun_to_stack-IsRouted w m n turns =
    let (rest, gone, ((has, routes), same, why)) =
      forward-Followed w (new_sink (new_channel m) (new_channel n)) [] turns
        (tt, ((refl, λ p. refl), (refl, λ p. refl))) refl in
    (rest, gone, routes, same, why)
