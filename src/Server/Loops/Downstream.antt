-- ===== src/Server/Loops/Downstream.antt =====
-- What the way back of a session sends and counts (DownstreamHandler in
-- crates/ombrac-server/src/connection/datagram.rs).
use ombrac.Prelude.{
  ℕ, Option, none, some, List, [], ◌∷◌, ◌++◌, ◌+◌, ◌≡◌, refl, ok, err, length, arith, sym, ◌∙◌,
  append-nil, append_assoc,
}
use ombrac.Net.{Bytes, SocketAddr, IoResult}
use ombrac.Protocol.{from_socket_addr, UdpPacket, unfragmented}
use ombrac.Server.Loops.{
  DownstreamHandler, DownstreamTurn, cancelled, receiving, send_datagram, process_and_send_datagram,
  downstream_turn, downstream_loop,
}

-- The packets that were received before the shutdown.
unfoldable pub received : List DownstreamTurn → List (Bytes × SocketAddr)
received [] = []
received (cancelled ∷ rest) = []
received (receiving (err e) sending ∷ rest) = received rest
received (receiving (ok packet) sending ∷ rest) = packet ∷ received rest

-- The octets of their payloads.
unfoldable pub total : List (Bytes × SocketAddr) → ℕ
total [] = 0
total ((payload, from_addr) ∷ rest) = length payload + total rest

module _ (encode : UdpPacket → IoResult Bytes) where
  -- The datagrams are the encodings of some of the packets, each whole, with the number of the session
  -- and with its sender as the address, in the order of the packets.
  pub data Replies (session_id : ℕ) : List (Bytes × SocketAddr) → List Bytes → Type 0 where
    no_reply : Replies session_id [] []
    dropped :
        {p : Bytes × SocketAddr} {ps : List (Bytes × SocketAddr)} {bs : List Bytes}
        → Replies session_id ps bs
        → Replies session_id (p ∷ ps) bs
    passed :
        {payload : Bytes} {from_addr : SocketAddr} {ps : List (Bytes × SocketAddr)} {b : Bytes}
        {bs : List Bytes}
        → encode (unfragmented session_id (from_socket_addr from_addr) payload) ≡ ok b
        → Replies session_id ps bs
        → Replies session_id ((payload, from_addr) ∷ ps) (b ∷ bs)

  send_datagram-Replies :
      (session_id : ℕ) (payload : Bytes) (from_addr : SocketAddr) (ps : List (Bytes × SocketAddr))
      (bs : List Bytes) (encoded : IoResult Bytes) (sending : Option (IoResult (Unit {0})))
      → encode (unfragmented session_id (from_socket_addr from_addr) payload) ≡ encoded
      → Replies session_id ps bs
      → Replies session_id ((payload, from_addr) ∷ ps) ((send_datagram encoded sending).0 ++ bs)
  unfolding send_datagram
  send_datagram-Replies session_id payload from_addr ps bs (err e) sending q r = dropped r
  send_datagram-Replies session_id payload from_addr ps bs (ok b) none q r = dropped r
  send_datagram-Replies session_id payload from_addr ps bs (ok b) (some (err e)) q r = dropped r
  send_datagram-Replies session_id payload from_addr ps bs (ok b) (some (ok u)) q r = passed q r

  -- The loop adds to the session's count the octets of every packet that was received before the
  -- shutdown, and the connection has taken whole packets of them only, in their order.
  pub downstream_loop-Replies :
      (h : DownstreamHandler) (turns : List DownstreamTurn)
      → ((downstream_loop encode h turns).downstream_bytes
          ≡ h.downstream_bytes + total (received turns))
        × ((bs : List Bytes) × ((downstream_loop encode h turns).sent ≡ h.sent ++ bs)
            × Replies h.session_id (received turns) bs)
  unfolding downstream_loop downstream_turn process_and_send_datagram received total
  downstream_loop-Replies h [] = (omega arith, ([], sym (append-nil h.sent), no_reply))
  downstream_loop-Replies h (cancelled ∷ rest) =
      (omega arith, ([], sym (append-nil h.sent), no_reply))
  downstream_loop-Replies h (receiving (err e) sending ∷ rest) = downstream_loop-Replies h rest
  downstream_loop-Replies h (receiving (ok (payload, from_addr)) sending ∷ rest) =
      let encoded = encode (unfragmented h.session_id (from_socket_addr from_addr) payload) in
      let h' : DownstreamHandler = record h {
        downstream_bytes = h.downstream_bytes + length payload;
        sent = h.sent ++ (send_datagram encoded sending).0;
      } in
      let (count, (bs, sent, replies)) = downstream_loop-Replies h' rest in
      (
        omega arith,
        (
          (send_datagram encoded sending).0 ++ bs,
          sent ∙ append_assoc h.sent (send_datagram encoded sending).0 bs,
          send_datagram-Replies h.session_id payload from_addr _ bs encoded sending refl replies,
        ),
      )
