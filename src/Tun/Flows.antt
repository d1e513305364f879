-- ===== src/Tun/Flows.antt =====
-- The UDP packets of the TUN endpoint, one after the other
-- (crates/ombrac-client/src/endpoint/tun.rs).
use Prim.Native.Nat.{Ordering}
use ombrac.Prelude.{
  true, Option, none, some, List, [], ◌∷◌, ◌++◌, All, if◌then◌else◌, Bool-cases, ◌≡◌, inl, inr,
  refl, ap, ◌∙◌,
}
use ombrac.Net.{Bytes, SocketAddr}
use ombrac.Protocol.{Address}
use ombrac.Netstack.{Parsers}
use ombrac.Netstack.Udp.{UdpPacket, parse_packet}
use ombrac.Netstack.Worker.{compare_addr}
use ombrac.Netstack.Distribute.{flip, compare_addr-flip}
use ombrac.Tun.{
  TunConfig, UdpFlow, is_eq, same_addr, to_flow, enter_session, reply_packet, TunUdp, DnsCodec,
  process_udp_packet, process_incoming_udp_packets,
}

-- A packet that the network stack's reader refuses.
abbrev pub IsMalformed : Parsers → Bytes → Type 0
IsMalformed w packet = parse_packet w packet ≡ none

abbrev pub IsWellFormed : Parsers → Bytes → Type 0
IsWellFormed w packet = (u : UdpPacket) × (parse_packet w packet ≡ some u)

module _ (w : Parsers) (config : TunConfig) (codec : DnsCodec) where
  -- One malformed packet ends the reading of UDP packets: those before it are handled, and none of
  -- those behind it, however many come.
  pub process_incoming_udp_packets-stops :
      (s : TunUdp) (before : List Bytes) (bad : Bytes) (behind : List Bytes)
      → All (IsWellFormed w) before
      → IsMalformed w bad
      → process_incoming_udp_packets w config codec s (before ++ bad ∷ behind)
        ≡ ((process_incoming_udp_packets w config codec s before).0, behind)
  unfolding process_incoming_udp_packets
  process_incoming_udp_packets-stops s [] bad behind h e = rw (e, process_incoming_udp_packets) refl
  process_incoming_udp_packets-stops s (p ∷ ps) bad behind ((u, q), h) e =
      rw (q, process_incoming_udp_packets)
        (process_incoming_udp_packets-stops (process_udp_packet config codec s u) ps bad behind h e)

flip-fixed : (o : Ordering) → o ≡ flip o → o ≡ Ordering.eq
flip-fixed Ordering.lt e = absurd (cc (e))
flip-fixed Ordering.eq e = refl
flip-fixed Ordering.gt e = absurd (cc (e))

same_addr_self : (a : SocketAddr) → same_addr a a ≡ true
same_addr_self a = ap is_eq (flip-fixed (compare_addr a a) (compare_addr-flip a a))

-- The flow of a local address.
unfoldable pub find_flow : List UdpFlow → SocketAddr → Option UdpFlow
find_flow [] local = none
find_flow (flow ∷ rest) local =
    let later = find_flow rest local in if same_addr flow.local_addr local then some flow else later

module _ (local remote : SocketAddr) (m : Bytes × Address) where
  enter_session-new :
      (flows : List UdpFlow)
      → find_flow flows local ≡ none
      → find_flow (enter_session flows local remote m) local
        ≡ some (record {
          local_addr = local;
          fake_remote_addr = remote;
          queue = m ∷ [];
          receiving = true;
        })
  unfolding find_flow enter_session
  enter_session-new [] e = rw (same_addr_self local) refl
  enter_session-new (flow ∷ rest) e = elim (Bool-cases (same_addr flow.local_addr local)) [
    | inl t ↦ absurd (cc (rw t at e))
    | inr f ↦ rw (f, f) (enter_session-new rest (rw f at e))
  ]

  enter_session-head :
      (g : UdpFlow) (rest : List UdpFlow)
      → same_addr g.local_addr local ≡ true
      → g.receiving ≡ true
      → find_flow (enter_session (g ∷ rest) local remote m) local
        ≡ some (record g { queue = g.queue ++ m ∷ [] })
  unfolding find_flow enter_session
  enter_session-head g rest t r =
      let longer : UdpFlow = record g { queue = g.queue ++ m ∷ [] } in
      let sent : to_flow g m rest ≡ longer ∷ rest = ap (λ b. if b then longer ∷ rest else rest) r in
      let entered : enter_session (g ∷ rest) local remote m ≡ longer ∷ rest = rw t sent in
      ap (λ l. find_flow l local) entered ∙ rw t refl

  enter_session-again :
      (flows : List UdpFlow) (flow : UdpFlow)
      → find_flow flows local ≡ some flow
      → flow.receiving ≡ true
      → find_flow (enter_session flows local remote m) local
        ≡ some (record flow { queue = flow.queue ++ m ∷ [] })
  unfolding find_flow enter_session
  enter_session-again [] flow e r = absurd (cc (e))
  enter_session-again (g ∷ rest) flow e r = elim (Bool-cases (same_addr g.local_addr local)) [
    | inl t ↦
        let q : some g ≡ some flow = rw t at e in
        let same : g ≡ flow = cc (q) in
        let kept : g.receiving ≡ true = ap (λ (x : UdpFlow). x.receiving) same ∙ r in
        enter_session-head g rest t kept
        ∙ ap (λ (x : UdpFlow). some (record x { queue = x.queue ++ m ∷ [] })) same
    | inr f ↦ rw (f, f) (enter_session-again rest flow (rw f at e) r)
  ]

-- A flow keeps the remote address of its first packet: when an application sends from one local
-- address to a first and then to a second remote address, both packets go into one flow, and whatever
-- comes back for it, from either of them, is given to the application as coming from the first.
pub reply_packet-first :
    (flows : List UdpFlow) (local first second : SocketAddr) (m n : Bytes × Address)
    → find_flow flows local ≡ none
    → (flow : UdpFlow) × (find_flow
          (enter_session (enter_session flows local first m) local second n)
          local
        ≡ some flow)
      × (flow.queue ≡ m ∷ n ∷ [])
      × ((datagram : Bytes × Address) → (reply_packet flow datagram).src_addr ≡ first)
unfolding reply_packet
reply_packet-first flows local first second m n e =
    let made = enter_session-new local first m flows e in
    (
      _,
      enter_session-again local second n (enter_session flows local first m) _ made refl,
      refl,
      λ d. refl,
    )
