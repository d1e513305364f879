-- ===== src/Endpoint/Relay.antt =====
-- The relay of UDP datagrams (udp_relay_loop in crates/ombrac-client/src/endpoint/socks/mod.rs).
use ombrac.Prelude.{
  ◌≡◌, refl, inl, inr, Bool-cases, Result-cases, Option, none, some, List, [], ◌∷◌, ok, err, All,
  ◌==◌,
}
use ombrac.Net.{Bytes, SocketAddr, IoResult}
use ombrac.Protocol.{Address}
use ombrac.Socks.{
  SocksAddress, to_ombrac, try_from_ombrac, SocksUdpPacket, udp_from_buf, encode_unfragmented,
}
use ombrac.Socks.Address.{IsSocks}
use ombrac.Socks.Message.{udp_from_buf-encode}
use ombrac.Endpoint.{
  Event, control, from_tunnel, from_client, RelayState, relay_to_client, tunnel_packet, or_first,
  to_tunnel_client, relay_step, continue, udp_relay_loop,
}

-- All that was sent on the relay's socket went to the client's address.
abbrev pub ToClient : RelayState → Type 0
ToClient s = All (λ d. s.client_addr ≡ some d.1) s.relayed

-- The control connection ended among these events.
abbrev pub Closes : List Event → Type 0
Closes [] = ⊥
Closes (control (err e) ∷ es) = Unit
Closes (control (ok b) ∷ es) = Closes es
Closes (from_tunnel payload from ∷ es) = Closes es
Closes (from_client r ∷ es) = Closes es

abbrev pub IoUnit : Type 0
IoUnit = IoResult (Unit {0})

continue-ToClient :
    (r : RelayState × Option IoUnit) (k : RelayState → RelayState × Option IoUnit)
    → ToClient r.0
    → ((s : RelayState) → ToClient s → ToClient (k s).0)
    → ToClient (continue r k).0
continue-ToClient (s, none) k v f = f s v
continue-ToClient (s, some x) k v f = v

-- A turn that goes on or ends with an error.
abbrev pub NotOk : Option IoUnit → Type 0
NotOk none = Unit
NotOk (some (err e)) = Unit
NotOk (some (ok u)) = ⊥

continue-ok :
    (r : RelayState × Option IoUnit) (k : RelayState → RelayState × Option IoUnit) (t : RelayState)
    → NotOk r.1
    → continue r k ≡ (t, some (ok tt))
    → k r.0 ≡ (t, some (ok tt))
continue-ok (s, none) k t n q = q
continue-ok (s, some (err e)) k t n q = absurd (cc (q))
continue-ok (s, some (ok u)) k t n q = absurd n

module _ (relay_send : Bytes → SocketAddr → IoUnit) (session_send : Bytes → Address → IoUnit) where
  relay_to_client-ToClient :
      (s : RelayState) (payload : Bytes) (dest : SocketAddr) (from : IoResult SocksAddress)
      → s.client_addr ≡ some dest
      → ToClient s
      → ToClient (relay_to_client relay_send session_send s payload dest from).0
  unfolding relay_to_client
  relay_to_client-ToClient s payload dest (err e) c v = v
  relay_to_client-ToClient s payload dest (ok from) c v =
      elim (Result-cases (relay_send (encode_unfragmented from payload) dest)) [
        | inl (u, q) ↦ rw q (c, v)
        | inr (e, q) ↦ rw q v
      ]

  to_tunnel_client-ToClient :
      (s : RelayState) (held : Option SocketAddr) (payload : Bytes) (from : Address)
      → s.client_addr ≡ held
      → ToClient s
      → ToClient (to_tunnel_client relay_send session_send s held payload from).0
  to_tunnel_client-ToClient s none payload from c v = v
  to_tunnel_client-ToClient s (some dest) payload from c v =
      relay_to_client-ToClient s payload dest (try_from_ombrac from) c v

  tunnel_packet-ToClient :
      (s : RelayState) (r : IoResult SocksUdpPacket)
      → ToClient s
      → ToClient (tunnel_packet relay_send session_send s r).0
  unfolding tunnel_packet
  tunnel_packet-ToClient s (err e) v = v
  tunnel_packet-ToClient s (ok packet) v = elim (Bool-cases (packet.frag == 0)) [
    | inr b ↦ simp (b) v
    | inl b ↦ elim (Result-cases (session_send packet.payload (to_ombrac packet.address))) [
      | inl (u, q) ↦ simp (b, q) v
      | inr (e, q) ↦ simp (b, q) v
    ]
  ]

  first-ToClient :
      (held : Option SocketAddr) (src : SocketAddr) (sent : List (Bytes × SocketAddr))
      → All (λ d. held ≡ some d.1) sent
      → All (λ d. or_first held src ≡ some d.1) sent
  first-ToClient (some a) src sent v = v
  first-ToClient none src [] v = v
  first-ToClient none src (d ∷ sent) (e, v) = absurd (cc (e))

  relay_step-ToClient :
      (s : RelayState) (e : Event)
      → ToClient s
      → ToClient (relay_step relay_send session_send s e).0
  unfolding relay_step
  relay_step-ToClient s (control (ok b)) v = v
  relay_step-ToClient s (control (err e)) v = v
  relay_step-ToClient s (from_tunnel payload from) v =
      to_tunnel_client-ToClient s s.client_addr payload from refl v
  relay_step-ToClient s (from_client (err e)) v = v
  relay_step-ToClient s (from_client (ok (buf, src))) v =
      tunnel_packet-ToClient _ (udp_from_buf buf) (first-ToClient s.client_addr src s.relayed v)

  -- Whatever events come, and whether sending succeeds or not, every datagram on the relay's socket
  -- goes to the one address that the loop holds for its client.
  pub udp_relay_loop-ToClient :
      (s : RelayState) (es : List Event)
      → ToClient s
      → ToClient (udp_relay_loop relay_send session_send s es).0
  unfolding udp_relay_loop
  udp_relay_loop-ToClient s [] v = v
  udp_relay_loop-ToClient s (e ∷ es) v =
      continue-ToClient (relay_step relay_send session_send s e)
        (λ s'. udp_relay_loop relay_send session_send s' es) (relay_step-ToClient s e v)
        (λ s' v'. udp_relay_loop-ToClient s' es v')

  to_tunnel_client-NotOk :
      (s : RelayState) (held : Option SocketAddr) (payload : Bytes) (from : Address)
      → NotOk (to_tunnel_client relay_send session_send s held payload from).1
  unfolding relay_to_client
  to_tunnel_client-NotOk s none payload from = tt
  to_tunnel_client-NotOk s (some dest) payload from = elim (Result-cases (try_from_ombrac from)) [
    | inr (e, q) ↦ rw q tt
    | inl (a, q) ↦ elim (Result-cases (relay_send (encode_unfragmented a payload) dest)) [
      | inl (u, k) ↦ rw (q, k) tt
      | inr (e, k) ↦ rw (q, k) tt
    ]
  ]

  tunnel_packet-NotOk :
      (s : RelayState) (r : IoResult SocksUdpPacket)
      → NotOk (tunnel_packet relay_send session_send s r).1
  unfolding tunnel_packet
  tunnel_packet-NotOk s (err e) = tt
  tunnel_packet-NotOk s (ok packet) = elim (Bool-cases (packet.frag == 0)) [
    | inr b ↦ simp (b) tt
    | inl b ↦ elim (Result-cases (session_send packet.payload (to_ombrac packet.address))) [
      | inl (u, q) ↦ simp (b, q) tt
      | inr (e, q) ↦ simp (b, q) tt
    ]
  ]

  -- The loop ends without an error only when the control connection has ended.
  pub udp_relay_loop-ok :
      (s t : RelayState) (es : List Event)
      → udp_relay_loop relay_send session_send s es ≡ (t, some (ok tt))
      → Closes es
  unfolding udp_relay_loop relay_step
  udp_relay_loop-ok s t [] q = absurd (cc (q))
  udp_relay_loop-ok s t (control (err e) ∷ es) q = tt
  udp_relay_loop-ok s t (control (ok b) ∷ es) q = udp_relay_loop-ok s t es q
  udp_relay_loop-ok s t (from_tunnel payload from ∷ es) q =
      udp_relay_loop-ok (to_tunnel_client relay_send session_send s s.client_addr payload from).0 t
        es
        (continue-ok (to_tunnel_client relay_send session_send s s.client_addr payload from) _ t
          (to_tunnel_client-NotOk s s.client_addr payload from) q)
  udp_relay_loop-ok s t (from_client (err e) ∷ es) q = absurd (cc (q))
  udp_relay_loop-ok s t (from_client (ok (buf, src)) ∷ es) q =
      let held : RelayState = record s { client_addr = or_first s.client_addr src } in
      udp_relay_loop-ok (tunnel_packet relay_send session_send held (udp_from_buf buf)).0 t es (
        continue-ok (tunnel_packet relay_send session_send held (udp_from_buf buf)) _ t
          (tunnel_packet-NotOk held (udp_from_buf buf)) q)

  -- A datagram that carries a payload to an address, as the protocol encodes it, is sent into the
  -- tunnel with that payload and that address, from whatever source it comes; the source of the
  -- first datagram is kept as the client's address.
  pub relay_step-forwards :
      (s : RelayState) (a : SocksAddress) (payload : Bytes) (src : SocketAddr)
      → IsSocks a
      → session_send payload (to_ombrac a) ≡ ok tt
      → relay_step relay_send session_send s (from_client (ok (encode_unfragmented a payload, src)))
        ≡ (
          record s {
            client_addr = or_first s.client_addr src;
            tunnelled = (payload, to_ombrac a) ∷ s.tunnelled;
          },
          none,
        )
  unfolding relay_step tunnel_packet
  relay_step-forwards s a payload src h e = rw (udp_from_buf-encode a payload h) (rw e refl)
