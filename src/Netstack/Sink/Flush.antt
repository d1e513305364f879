-- ===== src/Netstack/Sink/Flush.antt =====
-- What flushing does to the lines of the sink's channels (poll_flush and poll_ready in
-- crates/ombrac-netstack/src/stack.rs).
use mathlib.Core.Path.{subst}
use ombrac.Prelude.{
  true, false, Option, none, some, List, [], ◌∷◌, ◌++◌, Bool-cases, ◌≡◌, inl, inr, refl, sym, ok,
  err,
}
use ombrac.Net.{Bytes, broken_pipe, io_error, IoResult, Poll, ready, pending}
use ombrac.Netstack.{
  IpProtocol, tcp, udp, icmp, icmpv6, other_protocol, Channel, has_room, push, StackSplitSink,
  reserve, flush_packet, flush_container, poll_flush, ready_container,
}
use ombrac.Netstack.Sink.Operations.{kept, lost_by, is_udp, to_udp, to_tcp}
use ombrac.Netstack.Sink.Lines.{
  Line, Good, Flushed, Line-push, Line-lose, Line-same, lines-IsRouted, same-gone,
}

-- What a flush with this result has made of the sink.
abbrev pub After :
    List (Bytes × IpProtocol)
    → List (Bytes × IpProtocol)
    → List (Bytes × IpProtocol)
    → StackSplitSink × Poll (IoResult (Unit {0}))
    → Type 0
After taken gone had r = Good r.0 taken (gone ++ lost_by had r.1) × Flushed had r

pub reserve-closed :
    (s : StackSplitSink) (c : Channel) (update : Channel → StackSplitSink) (x : Bytes × IpProtocol)
    → c.closed ≡ true
    → reserve s c update x ≡ (
      record s { packet_container = none },
      ready (
          err
            (io_error broken_pipe "Failed to send packet: channel closed for protocol {proto:?}")),
    )
unfolding reserve
reserve-closed s c update (item, p) shut = simp (shut) refl

pub reserve-room :
    (s : StackSplitSink) (c : Channel) (update : Channel → StackSplitSink) (x : Bytes × IpProtocol)
    → c.closed ≡ false
    → has_room c ≡ true
    → reserve s c update x ≡ (update (push c x.0), ready (ok tt))
unfolding reserve
reserve-room s c update (item, p) o e = simp (o, e) refl

pub reserve-full :
    (s : StackSplitSink) (c : Channel) (update : Channel → StackSplitSink) (x : Bytes × IpProtocol)
    → c.closed ≡ false
    → has_room c ≡ false
    → reserve s c update x ≡ (record s { packet_container = some x }, pending)
unfolding reserve
reserve-full s c update (item, p) o e = simp (o, e) refl

abbrev pub udp_sent : StackSplitSink → Channel → StackSplitSink
udp_sent s c = record s { udp_inbound = c; packet_container = none }

abbrev pub tcp_sent : StackSplitSink → Channel → StackSplitSink
tcp_sent s c = record s { tcp_inbound = c; packet_container = none }

pub reserve-udp :
    (s : StackSplitSink) (taken gone : List (Bytes × IpProtocol)) (item : Bytes)
    → Good (record s { packet_container = some (item, udp) }) taken gone
    → After taken gone ((item, udp) ∷ []) (flush_packet s item udp)
unfolding flush_packet reserve
reserve-udp s taken gone item (c, (u, t)) = elim (Bool-cases s.udp_inbound.closed) [
  | inl shut ↦
      subst (After taken gone ((item, udp) ∷ []))
        (sym (reserve-closed s s.udp_inbound (udp_sent s) (item, udp) shut))
        (
          (
            tt,
            lines-IsRouted (record s { packet_container = none }) taken gone ((item, udp) ∷ [])
                (Line-lose s.udp_inbound item (to_udp gone) (to_udp taken) shut u)
                (Line-same s.tcp_inbound (to_tcp gone) [] (to_tcp taken) t),
          ),
          (refl, refl, inl shut),
        )
  | inr o ↦ elim (Bool-cases (has_room s.udp_inbound)) [
    | inl e ↦
        subst (After taken gone ((item, udp) ∷ []))
          (sym (reserve-room s s.udp_inbound (udp_sent s) (item, udp) o e))
          (
            same-gone (record s { udp_inbound = push s.udp_inbound item; packet_container = none })
                taken gone (tt, (Line-push s.udp_inbound item (to_udp gone) (to_udp taken) o u, t)),
            refl,
          )
    | inr e ↦
        subst (After taken gone ((item, udp) ∷ []))
          (sym (reserve-full s s.udp_inbound (udp_sent s) (item, udp) o e))
          (
            same-gone (record s { packet_container = some (item, udp) }) taken gone (c, (u, t)),
            refl,
          )
  ]
]

pub reserve-tcp :
    (s : StackSplitSink) (taken gone : List (Bytes × IpProtocol)) (item : Bytes) (p : IpProtocol)
    → is_udp p ≡ false
    → Good (record s { packet_container = some (item, p) }) taken gone
    → After taken gone ((item, p) ∷ []) (reserve s s.tcp_inbound (tcp_sent s) (item, p))
unfolding reserve
reserve-tcp s taken gone item p f (c, (u, t)) =
    let u' : Line s.udp_inbound (to_udp gone) [] (to_udp taken) = rw f at u in
    let t' : Line s.tcp_inbound (to_tcp gone) (item ∷ []) (to_tcp taken) = rw f at t in
    elim (Bool-cases s.tcp_inbound.closed) [
      | inl shut ↦
          subst (After taken gone ((item, p) ∷ []))
            (sym (reserve-closed s s.tcp_inbound (tcp_sent s) (item, p) shut))
            (
              (
                tt,
                lines-IsRouted (record s { packet_container = none }) taken gone ((item, p) ∷ [])
                    (rw f (Line-same s.udp_inbound (to_udp gone) [] (to_udp taken) u'))
                    (rw f (Line-lose s.tcp_inbound item (to_tcp gone) (to_tcp taken) shut t')),
              ),
              (refl, refl, inr shut),
            )
      | inr o ↦ elim (Bool-cases (has_room s.tcp_inbound)) [
        | inl e ↦
            subst (After taken gone ((item, p) ∷ []))
              (sym (reserve-room s s.tcp_inbound (tcp_sent s) (item, p) o e))
              (
                same-gone
                    (record s { tcp_inbound = push s.tcp_inbound item; packet_container = none })
                    taken gone
                    (tt, (u', Line-push s.tcp_inbound item (to_tcp gone) (to_tcp taken) o t')),
                refl,
              )
        | inr e ↦
            subst (After taken gone ((item, p) ∷ []))
              (sym (reserve-full s s.tcp_inbound (tcp_sent s) (item, p) o e))
              (
                same-gone (record s { packet_container = some (item, p) }) taken gone (c, (u, t)),
                refl,
              )
      ]
    ]

abbrev pub kept_of : Option (Bytes × IpProtocol) → List (Bytes × IpProtocol)
kept_of o = elim o [ none ↦ [] | some x ↦ x ∷ [] ]

pub flush_container-After :
    (s : StackSplitSink) (taken gone : List (Bytes × IpProtocol)) (o : Option (Bytes × IpProtocol))
    → Good (record s { packet_container = o }) taken gone
    → s.packet_container ≡ o
    → After taken gone (kept_of o) (flush_container s o)
unfolding flush_container flush_packet
flush_container-After s taken gone none g e = (
  same-gone s taken gone
      (subst (λ c. Good (record s { packet_container = c }) taken gone) (sym e) g),
  e,
)
flush_container-After s taken gone (some (item, udp)) g e = reserve-udp s taken gone item g
flush_container-After s taken gone (some (item, tcp)) g e = reserve-tcp s taken gone item tcp refl g
flush_container-After s taken gone (some (item, icmp)) g e =
    reserve-tcp s taken gone item icmp refl g
flush_container-After s taken gone (some (item, icmpv6)) g e =
    reserve-tcp s taken gone item icmpv6 refl g
flush_container-After s taken gone (some (item, other_protocol)) (c, r) e = absurd c

pub poll_flush-After :
    (s : StackSplitSink) (taken gone : List (Bytes × IpProtocol))
    → Good s taken gone
    → After taken gone (kept s) (poll_flush s)
unfolding poll_flush
poll_flush-After s taken gone g = flush_container-After s taken gone s.packet_container g refl

pub ready_container-After :
    (s : StackSplitSink) (taken gone : List (Bytes × IpProtocol)) (o : Option (Bytes × IpProtocol))
    → s.packet_container ≡ o
    → Good s taken gone
    → After taken gone (kept s) (ready_container s o)
unfolding ready_container
ready_container-After s taken gone none e g = (same-gone s taken gone g, e)
ready_container-After s taken gone (some x) e g = poll_flush-After s taken gone g
