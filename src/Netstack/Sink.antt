-- ===== src/Netstack/Sink.antt =====
-- What the sink of the network stack delivers (StackSplitSink in
-- crates/ombrac-netstack/src/stack.rs).
mod Operations
mod Lines
mod Flush
unfoldable pub use Operations.*
pub use Lines.*
pub use Flush.*
use mathlib.Core.Path.{subst}
use ombrac.Prelude.{
  ℕ, false, Option, none, some, List, [], ◌∷◌, ◌++◌, ◌+◌, ltb, Bool-cases, length, ◌≡◌, inl, inr,
  refl, sym, ap, ◌∙◌, ok, err,
}
use ombrac.Net.{Bytes, IoResult, Poll, ready, pending}
use ombrac.Netstack.{
  IpProtocol, tcp, udp, icmp, icmpv6, other_protocol, Parsers, IpPacket, new_checked, protocol,
  Channel, StackSplitSink, new_sink, poll_flush, ready_container, poll_ready, keep_routed,
  start_checked, start_send,
}

-- A packet that is given to a sink that keeps none.
keep-IsRouted :
    (s : StackSplitSink) (taken gone : List (Bytes × IpProtocol)) (x : Bytes × IpProtocol)
    → s.packet_container ≡ none
    → IsRouted s taken gone
    → IsRouted (record s { packet_container = some x }) (taken ++ x ∷ []) gone
keep-IsRouted s taken gone x e (u, t) =
    let u' : Line s.udp_inbound (to_udp gone) [] (to_udp taken) = rw e at u in
    let t' : Line s.tcp_inbound (to_tcp gone) [] (to_tcp taken) = rw e at t in
    (
      subst (Line s.udp_inbound (to_udp gone) (to_udp (x ∷ [])))
          (sym (to_udp-append taken (x ∷ [])))
          (Line-keep s.udp_inbound (to_udp gone) (to_udp (x ∷ [])) (to_udp taken) u'),
      subst (Line s.tcp_inbound (to_tcp gone) (to_tcp (x ∷ [])))
          (sym (to_tcp-append taken (x ∷ [])))
          (Line-keep s.tcp_inbound (to_tcp gone) (to_tcp (x ∷ [])) (to_tcp taken) t'),
    )

keep_routed-Good :
    (s : StackSplitSink) (taken gone : List (Bytes × IpProtocol)) (item : Bytes) (p : IpProtocol)
    → s.packet_container ≡ none
    → Good s taken gone
    → Good (keep_routed s item p) (taken ++ supported item p) gone
unfolding keep_routed
keep_routed-Good s taken gone item tcp e (c, r) = (tt, keep-IsRouted s taken gone _ e r)
keep_routed-Good s taken gone item udp e (c, r) = (tt, keep-IsRouted s taken gone _ e r)
keep_routed-Good s taken gone item icmp e (c, r) = (tt, keep-IsRouted s taken gone _ e r)
keep_routed-Good s taken gone item icmpv6 e (c, r) = (tt, keep-IsRouted s taken gone _ e r)
keep_routed-Good s taken gone item other_protocol e g = same-Good s taken gone g

start_checked-Good :
    (s : StackSplitSink) (taken gone : List (Bytes × IpProtocol)) (item : Bytes)
    (o : Option IpPacket)
    → s.packet_container ≡ none
    → Good s taken gone
    → Good (start_checked s item o).0 (taken ++ supported_packet item o) gone
unfolding start_checked
start_checked-Good s taken gone item none e g = same-Good s taken gone g
start_checked-Good s taken gone item (some packet) e g =
    keep_routed-Good s taken gone item (protocol packet) e g

pub start_send-Good :
    (w : Parsers) (s : StackSplitSink) (taken gone : List (Bytes × IpProtocol)) (item : Bytes)
    → s.packet_container ≡ none
    → Good s taken gone
    → Good (start_send w s item).0 (taken ++ routed w item) gone
unfolding start_send
start_send-Good w s taken gone [] e g = same-Good s taken gone g
start_send-Good w s taken gone (b ∷ rest) e g =
    start_checked-Good s taken gone (b ∷ rest) (new_checked w (b ∷ rest)) e g

start_ready-Good :
    (w : Parsers) (taken gone had : List (Bytes × IpProtocol)) (item : Bytes)
    (r : StackSplitSink × Poll (IoResult (Unit {0})))
    → After taken gone had r
    → Good (start_ready w item r) (taken ++ taken_ready w item r.1) (gone ++ lost_by had r.1)
unfolding start_ready
start_ready-Good w taken gone had item (s, ready (ok u)) (g, e) =
    start_send-Good w s taken (gone ++ []) item e g
start_ready-Good w taken gone had item (s, ready (err x)) (g, e) = same-Good s taken (gone ++ had) g
start_ready-Good w taken gone had item (s, pending) (g, e) = same-Good s taken (gone ++ []) g

take_one-kept : (c : Channel) → ((take_one c).sent ≡ c.sent) × ((take_one c).closed ≡ c.closed)
take_one-kept c = elim (Bool-cases (ltb c.taken (length c.sent))) [
  | inl e ↦ (rw e refl, rw e refl)
  | inr e ↦ (rw e refl, rw e refl)
]

-- A receiver that takes a packet, or goes away, leaves a line what it was.
Line-take :
    (c : Channel) (gone had taken : List Bytes)
    → Line c gone had taken
    → Line (take_one c) gone had taken
Line-take c gone had taken (e, none_lost) =
    let (same, still) = take_one-kept c in
    (ap (λ r. r ++ (gone ++ had)) same ∙ e, λ p. none_lost (sym still ∙ p))

Line-close :
    (c : Channel) (gone had taken : List Bytes)
    → Line c gone had taken
    → Line (close c) gone had taken
Line-close c gone had taken (e, none_lost) = (e, λ p. absurd (cc (p)))

-- The operations of the receivers, which take nothing and lose nothing.
abbrev pub IsReceiving : SinkOperation → Type 0
IsReceiving (feed_packet item) = ⊥
IsReceiving flush_sink = ⊥
IsReceiving take_udp = Unit
IsReceiving take_tcp = Unit
IsReceiving drop_udp = Unit
IsReceiving drop_tcp = Unit

pub receive-Good :
    (w : Parsers) (s : StackSplitSink) (taken gone : List (Bytes × IpProtocol)) (o : SinkOperation)
    → IsReceiving o
    → Good s taken gone
    → Good (operate w s o) taken gone
unfolding operate
receive-Good w s taken gone (feed_packet item) i g = absurd i
receive-Good w s taken gone flush_sink i g = absurd i
receive-Good w s taken gone take_udp i (c, (u, t)) =
    (c, (Line-take s.udp_inbound (to_udp gone) (to_udp (kept s)) (to_udp taken) u, t))
receive-Good w s taken gone take_tcp i (c, (u, t)) =
    (c, (u, Line-take s.tcp_inbound (to_tcp gone) (to_tcp (kept s)) (to_tcp taken) t))
receive-Good w s taken gone drop_udp i (c, (u, t)) =
    (c, (Line-close s.udp_inbound (to_udp gone) (to_udp (kept s)) (to_udp taken) u, t))
receive-Good w s taken gone drop_tcp i (c, (u, t)) =
    (c, (u, Line-close s.tcp_inbound (to_tcp gone) (to_tcp (kept s)) (to_tcp taken) t))

same-both :
    (s : StackSplitSink) (taken gone : List (Bytes × IpProtocol))
    → Good s taken gone
    → Good s (taken ++ []) (gone ++ [])
same-both s taken gone g = same-Good s taken (gone ++ []) (same-gone s taken gone g)

operate-Good :
    (w : Parsers) (s : StackSplitSink) (taken gone : List (Bytes × IpProtocol)) (o : SinkOperation)
    → Good s taken gone
    → Good (operate w s o) (taken ++ accepted w s o) (gone ++ lost w s o)
unfolding operate feed poll_ready
operate-Good w s taken gone (feed_packet item) g =
    start_ready-Good w taken gone (kept s) item (ready_container s s.packet_container)
      (ready_container-After s taken gone s.packet_container refl g)
operate-Good w s taken gone flush_sink g =
    same-Good (poll_flush s).0 taken (gone ++ lost_by (kept s) (poll_flush s).1)
      (poll_flush-After s taken gone g).0
operate-Good w s taken gone take_udp g =
    same-both (operate w s take_udp) taken gone (receive-Good w s taken gone take_udp tt g)
operate-Good w s taken gone take_tcp g =
    same-both (operate w s take_tcp) taken gone (receive-Good w s taken gone take_tcp tt g)
operate-Good w s taken gone drop_udp g =
    same-both (operate w s drop_udp) taken gone (receive-Good w s taken gone drop_udp tt g)
operate-Good w s taken gone drop_tcp g =
    same-both (operate w s drop_tcp) taken gone (receive-Good w s taken gone drop_tcp tt g)

run-Good :
    (w : Parsers) (s : StackSplitSink) (taken gone : List (Bytes × IpProtocol))
    (os : List SinkOperation)
    → Good s taken gone
    → let (s', taken', gone') = run w s taken gone os in Good s' taken' gone'
unfolding run
run-Good w s taken gone [] g = g
run-Good w s taken gone (o ∷ os) g =
    run-Good w (operate w s o) (taken ++ accepted w s o) (gone ++ lost w s o) os
      (operate-Good w s taken gone o g)

-- A channel that was sent nothing, with room for this many packets.
abbrev pub new_channel : ℕ → Channel
new_channel capacity = record { sent = []; taken = 0; capacity = capacity; closed = false }

-- Whatever packets the sink is given, in which order it is flushed and however its two receivers take
-- packets out of channels of whatever size or go away: the UDP packets that it has taken are those in
-- the channel of the UDP tunnel, then those that were lost in calls that failed, and then the one that
-- it still keeps, once and in their order, and the other packets stand so in the channel of the TCP
-- connections; and no packet is lost of a channel that has its receiver.
pub run-IsRouted :
    (w : Parsers) (m n : ℕ) (os : List SinkOperation)
    → let (s, taken, gone) = run w (new_sink (new_channel m) (new_channel n)) [] [] os in
      IsRouted s taken gone
run-IsRouted w m n os =
    (run-Good w (new_sink (new_channel m) (new_channel n)) [] [] os
      (tt, ((refl, λ p. refl), (refl, λ p. refl)))).1
