-- ===== src/Netstack/Prune.antt =====
-- Streams whose socket is taken away (accept_new_connection and prune_sockets in
-- crates/ombrac-netstack/src/tcp.rs).
use ombrac.Prelude.{
  ℕ, zero, suc, Bool, true, false, not, Option, none, some, List, [], ◌∷◌, ◌++◌, ◌&&◌, All,
  Bool-cases, ◌≡◌, ◌⊎◌, inl, inr, refl, ap, ok, err,
}
use ombrac.Net.{Bytes, SocketAddr, socket_addr, IoError, IoResult, Poll, pending}
use ombrac.Netstack.{Parsers, TcpHeader, IpPacket, new_checked, dst_addr}
use ombrac.Netstack.Worker.{
  Accepted, stream_of, Worker, emit, after_listen, accept_new_connection, accept_if_syn, inject,
  inject_after, process_inbound_frame, parse_tcp,
}
use ombrac.Netstack.Stream.{
  Connection, new_connection, read_buffered, poll_read, TcpSocket, handle_recv, close_read,
  send_rounds, handle_send, handle_socket_io, keep_active, prune_socket,
}

-- Reads in turn, each with its room.
unfoldable pub reads : Connection → List ℕ → List (Poll (IoResult Bytes))
reads c [] = []
reads c (room ∷ rooms) = let (c', r) = poll_read c room in r ∷ reads c' rooms

-- Nothing to read, and no end.
abbrev Waiting : Connection → Type 0
Waiting c = (c.recv_buffer.content ≡ []) × (c.read_closed ≡ false)

poll_read-pending :
    (c : Connection) (room : ℕ)
    → Waiting c
    → poll_read c room ≡ (record c { recv_waker = true }, pending)
unfolding poll_read read_buffered
poll_read-pending c room (e, k) = rw (e, k) refl

reads-pending :
    (c : Connection) (rooms : List ℕ) → Waiting c → All (λ r. r ≡ pending) (reads c rooms)
unfolding reads
reads-pending c [] h = tt
reads-pending c (room ∷ rooms) h =
    rw (poll_read-pending c room h) (refl, reads-pending (record c { recv_waker = true }) rooms h)

and-not : (a b : Bool) → (a && not b) ≡ true → (a ≡ true) × (b ≡ false)
and-not true false e = (refl, refl)
and-not true true e = absurd (cc (e))
and-not false b e = absurd (cc (e))

module _ {S : Type 0} (t : TcpSocket S) where
  send-nothing :
      (s : S) (c : Connection) → c.send_buffer.content ≡ [] → handle_send t (s, c) ≡ (s, c)
  unfolding handle_send send_rounds
  send-nothing s c e = rw e refl

  quiet :
      (s : S) (recv_size send_size : ℕ)
      → t.is_open s ≡ true
      → t.can_recv s ≡ false
      → handle_socket_io t s (new_connection recv_size send_size)
        ≡ (s, new_connection recv_size send_size)
  unfolding handle_socket_io handle_recv close_read
  quiet s recv_size send_size o r =
      rw (r, o) (send-nothing s (new_connection recv_size send_size) refl)

  -- A socket that still listens is open and not active: when the packet that was to wake it is lost,
  -- or went to another socket, its stream has been given to the application all the same. The worker
  -- then takes the socket away without closing the stream, so that every read waits for ever.
  pub handle_socket_io-pruned :
      (s : S) (recv_size send_size : ℕ) (rooms : List ℕ)
      → t.is_open s ≡ true
      → t.is_active s ≡ false
      → t.can_recv s ≡ false
      → (prune_socket t
            (handle_socket_io t s (new_connection recv_size send_size)).0
            (handle_socket_io t s (new_connection recv_size send_size)).1
          ≡ none)
        × All
            (λ r. r ≡ pending)
            (reads (handle_socket_io t s (new_connection recv_size send_size)).1 rooms)
  unfolding prune_socket keep_active
  handle_socket_io-pruned s recv_size send_size rooms o a r =
      rw (quiet s recv_size send_size o r, a)
        (refl, reads-pending (new_connection recv_size send_size) rooms (refl, refl))

-- What a frame adds to the streams and to the sockets: none of either, or one of each for the
-- connection of the packet.
abbrev pub Emits : Parsers → Bytes → Worker → Worker → Type 0
Emits w frame s s' =
    ((s'.emitted ≡ s.emitted) × (s'.sockets ≡ s.sockets))
    ⊎ ((p : IpPacket) × (h : TcpHeader) × (parse_tcp w (new_checked w frame) ≡ some (p, h))
        × (h.syn ≡ true)
        × (h.ack ≡ false)
        × (s'.emitted ≡ s.emitted ++ stream_of p h ∷ [])
        × (s'.sockets ≡ s.sockets ++ socket_addr (dst_addr p) h.dst_port ∷ []))

module _ (w : Parsers) (listen : SocketAddr → IoResult (Unit {0})) (frame : Bytes)
    (s : Worker) where
  emit-Emits :
      (room : ℕ) (p : IpPacket) (h : TcpHeader)
      → parse_tcp w (new_checked w frame) ≡ some (p, h)
      → h.syn ≡ true
      → h.ack ≡ false
      → Emits w frame s (emit s room (stream_of p h))
  unfolding emit
  emit-Emits zero p h e y a = inl (refl, refl)
  emit-Emits (suc room) p h e y a = inr (p, h, e, y, a, refl, refl)

  listen-Emits :
      (p : IpPacket) (h : TcpHeader) (r : IoResult (Unit {0}))
      → parse_tcp w (new_checked w frame) ≡ some (p, h)
      → h.syn ≡ true
      → h.ack ≡ false
      → Emits w frame s (after_listen s (stream_of p h) r).0
  unfolding after_listen
  listen-Emits p h (ok u) e y a = emit-Emits s.emit_room p h e y a
  listen-Emits p h (err x) e y a = inl (refl, refl)

  accept-Emits :
      (o : Option (IpPacket × TcpHeader))
      → parse_tcp w (new_checked w frame) ≡ o
      → Emits w frame s (accept_if_syn listen s o).0
  unfolding accept_if_syn accept_new_connection
  accept-Emits none e = inl (refl, refl)
  accept-Emits (some (p, h)) e = elim (Bool-cases (h.syn && not h.ack)) [
    | inr f ↦ rw f (inl (refl, refl))
    | inl y ↦
        let (syn, ack) = and-not h.syn h.ack y in
        rw y (listen-Emits p h (listen (socket_addr (dst_addr p) h.dst_port)) e syn ack)
  ]

  -- What a frame adds stays, and a frame that smoltcp has no room for is lost with an error.
  abbrev pub Handed : Worker × IoResult (Unit {0}) → Type 0
  Handed (s', r) =
      Emits w frame s s'
      × (((r ≡ ok tt) × (s'.injected ≡ s.injected ++ frame ∷ []))
          ⊎ ((e : IoError) × (r ≡ err e) × (s'.injected ≡ s.injected)))

  -- No frame is injected by the first step.
  injected-kept : (room : ℕ) (stream : Accepted) → (emit s room stream).injected ≡ s.injected
  unfolding emit
  injected-kept zero stream = refl
  injected-kept (suc room) stream = refl

  listen-injected :
      (stream : Accepted) (r : IoResult (Unit {0}))
      → (after_listen s stream r).0.injected ≡ s.injected
  unfolding after_listen
  listen-injected stream (ok u) = injected-kept s.emit_room stream
  listen-injected stream (err e) = refl

  accept-injected :
      (o : Option (IpPacket × TcpHeader)) → (accept_if_syn listen s o).0.injected ≡ s.injected
  unfolding accept_if_syn accept_new_connection
  accept-injected none = refl
  accept-injected (some (p, h)) = elim (Bool-cases (h.syn && not h.ack)) [
    | inr f ↦ rw f refl
    | inl y ↦ rw y (listen-injected (stream_of p h) (listen (socket_addr (dst_addr p) h.dst_port)))
  ]

  inject-Handed :
      (s' : Worker) (room : ℕ)
      → Emits w frame s s'
      → s'.injected ≡ s.injected
      → Handed (inject s' room frame)
  unfolding inject
  inject-Handed s' zero m i = (m, inr (_, refl, i))
  inject-Handed s' (suc room) m i = (m, inl (refl, ap (λ l. l ++ frame ∷ []) i))

  inject_after-Handed :
      (x : Worker × IoResult (Unit {0}))
      → Emits w frame s x.0
      → x.0.injected ≡ s.injected
      → Handed (inject_after frame x)
  unfolding inject_after
  inject_after-Handed (s', ok u) m i = inject-Handed s' s'.inject_room m i
  inject_after-Handed (s', err e) m i = (m, inr (e, refl, i))

  -- A frame is handed to smoltcp or refused with an error, for want of room or of a socket. The first
  -- packet of a connection, and no other frame, makes a socket, together with the stream that the
  -- application is given for it; it does so whether the frame is then handed on or refused.
  pub process_inbound_frame-Handed : Handed (process_inbound_frame w listen s frame)
  unfolding process_inbound_frame
  process_inbound_frame-Handed =
      inject_after-Handed (accept_if_syn listen s (parse_tcp w (new_checked w frame)))
        (accept-Emits (parse_tcp w (new_checked w frame)) refl)
        (accept-injected (parse_tcp w (new_checked w frame)))
