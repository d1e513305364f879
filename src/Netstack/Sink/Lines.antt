-- ===== src/Netstack/Sink/Lines.antt =====
-- The packets for each of the sink's channels, as a line (StackSplitSink in
-- crates/ombrac-netstack/src/stack.rs).
use mathlib.Core.Path.{subst}
use ombrac.Prelude.{
  true, false, Option, none, some, List, [], ◌∷◌, ◌++◌, ◌≡◌, ◌⊎◌, refl, sym, ap, ◌∙◌, append-nil,
  append_assoc, ok, err,
}
use ombrac.Net.{Bytes, broken_pipe, IoResult, Poll, ready, pending}
use ombrac.Netstack.{
  IpProtocol, tcp, udp, icmp, icmpv6, other_protocol, Channel, push, StackSplitSink,
}
use ombrac.Netstack.Sink.Operations.{kept, to_udp, to_tcp}

pub to_udp-append : (xs ys : List (Bytes × IpProtocol)) → to_udp (xs ++ ys) ≡ to_udp xs ++ to_udp ys
to_udp-append [] ys = refl
to_udp-append ((item, udp) ∷ xs) ys = ap (λ r. item ∷ r) (to_udp-append xs ys)
to_udp-append ((item, tcp) ∷ xs) ys = to_udp-append xs ys
to_udp-append ((item, icmp) ∷ xs) ys = to_udp-append xs ys
to_udp-append ((item, icmpv6) ∷ xs) ys = to_udp-append xs ys
to_udp-append ((item, other_protocol) ∷ xs) ys = to_udp-append xs ys

pub to_tcp-append : (xs ys : List (Bytes × IpProtocol)) → to_tcp (xs ++ ys) ≡ to_tcp xs ++ to_tcp ys
to_tcp-append [] ys = refl
to_tcp-append ((item, udp) ∷ xs) ys = to_tcp-append xs ys
to_tcp-append ((item, tcp) ∷ xs) ys = ap (λ r. item ∷ r) (to_tcp-append xs ys)
to_tcp-append ((item, icmp) ∷ xs) ys = ap (λ r. item ∷ r) (to_tcp-append xs ys)
to_tcp-append ((item, icmpv6) ∷ xs) ys = ap (λ r. item ∷ r) (to_tcp-append xs ys)
to_tcp-append ((item, other_protocol) ∷ xs) ys = ap (λ r. item ∷ r) (to_tcp-append xs ys)

-- The packets for one channel: those that were taken are those in it, then those that were lost, and
-- then the one that is kept, in their order; and none is lost while the channel has its receiver.
abbrev pub Line : Channel → List Bytes → List Bytes → List Bytes → Type 0
Line c gone had taken = (c.sent ++ (gone ++ had) ≡ taken) × (c.closed ≡ false → gone ≡ [])

abbrev pub IsRouted :
    StackSplitSink → List (Bytes × IpProtocol) → List (Bytes × IpProtocol) → Type 0
IsRouted s taken gone =
    Line s.udp_inbound (to_udp gone) (to_udp (kept s)) (to_udp taken)
    × Line s.tcp_inbound (to_tcp gone) (to_tcp (kept s)) (to_tcp taken)

-- What is kept has a channel.
abbrev pub HasChannel : Option (Bytes × IpProtocol) → Type 0
HasChannel none = Unit
HasChannel (some (item, udp)) = Unit
HasChannel (some (item, tcp)) = Unit
HasChannel (some (item, icmp)) = Unit
HasChannel (some (item, icmpv6)) = Unit
HasChannel (some (item, other_protocol)) = ⊥

abbrev pub Good : StackSplitSink → List (Bytes × IpProtocol) → List (Bytes × IpProtocol) → Type 0
Good s taken gone = HasChannel s.packet_container × IsRouted s taken gone

-- A flush of a sink that kept `had`: it fails only when a receiver is gone, and keeps nothing
-- unless it waits.
abbrev pub Flushed :
    List (Bytes × IpProtocol) → StackSplitSink × Poll (IoResult (Unit {0})) → Type 0
Flushed had (s, ready (ok u)) = s.packet_container ≡ none
Flushed had (s, ready (err e)) =
    (s.packet_container ≡ none)
    × (e.kind ≡ broken_pipe)
    × ((s.udp_inbound.closed ≡ true) ⊎ (s.tcp_inbound.closed ≡ true))
Flushed had (s, pending) = kept s ≡ had

pub Line-push :
    (c : Channel) (x : Bytes) (gone taken : List Bytes)
    → c.closed ≡ false
    → Line c gone (x ∷ []) taken
    → Line (push c x) gone [] taken
Line-push c x gone taken o (e, none_lost) =
    let empty : gone ≡ [] = none_lost o in
    let e' : c.sent ++ x ∷ [] ≡ taken = rw empty at e in
    (rw (empty, append-nil (c.sent ++ x ∷ [])) e', λ p. empty)

pub Line-lose :
    (c : Channel) (x : Bytes) (gone taken : List Bytes)
    → c.closed ≡ true
    → Line c gone (x ∷ []) taken
    → Line c (gone ++ x ∷ []) [] taken
Line-lose c x gone taken o (e, none_lost) =
    (rw (append-nil (gone ++ x ∷ [])) e, λ p. absurd (cc (p, o)))

pub Line-same :
    (c : Channel) (gone had taken : List Bytes)
    → Line c gone had taken
    → Line c (gone ++ []) had taken
Line-same c gone had taken h = subst (λ g. Line c g had taken) (sym (append-nil gone)) h

pub Line-keep :
    (c : Channel) (gone had taken : List Bytes)
    → Line c gone [] taken
    → Line c gone had (taken ++ had)
Line-keep c gone had taken (e, none_lost) =
    let e' : c.sent ++ gone ≡ taken = rw (append-nil gone) at e in
    (sym (append_assoc c.sent gone had) ∙ ap (λ r. r ++ had) e', none_lost)

-- The lines of both channels after one more packet is lost.
pub lines-IsRouted :
    (s : StackSplitSink) (taken gone more : List (Bytes × IpProtocol))
    → Line s.udp_inbound (to_udp gone ++ to_udp more) (to_udp (kept s)) (to_udp taken)
    → Line s.tcp_inbound (to_tcp gone ++ to_tcp more) (to_tcp (kept s)) (to_tcp taken)
    → IsRouted s taken (gone ++ more)
lines-IsRouted s taken gone more u t = (
  subst (λ g. Line s.udp_inbound g (to_udp (kept s)) (to_udp taken)) (sym (to_udp-append gone more))
      u,
  subst (λ g. Line s.tcp_inbound g (to_tcp (kept s)) (to_tcp taken)) (sym (to_tcp-append gone more))
      t,
)

pub same-gone :
    (s : StackSplitSink) (taken gone : List (Bytes × IpProtocol))
    → Good s taken gone
    → Good s taken (gone ++ [])
same-gone s taken gone g = subst (Good s taken) (sym (append-nil gone)) g

pub same-Good :
    (s : StackSplitSink) (taken gone : List (Bytes × IpProtocol))
    → Good s taken gone
    → Good s (taken ++ []) gone
same-Good s taken gone g = subst (λ l. Good s l gone) (sym (append-nil taken)) g
