-- ===== src/Auth/Processor.antt =====
-- What the server does for one connection (ClientConnectionProcessor::handle and run_tunnel_loops in
-- crates/ombrac-server/src/connection/mod.rs).
use ombrac.Prelude.{
  true, false, Option, none, some, List, [], ◌∷◌, ◌≡◌, refl, ◌⊎◌, inl, inr, ◌==◌, arith, ◌+◌,
  Result, ok, err, Result-cases, Bool-cases,
}
use ombrac.Net.{Bytes, IoError, IoResult}
use ombrac.Protocol.{ClientHello, auth_ok, protocol_version}
use ombrac.Auth.{
  ConnectionAuthError, ClientMessage, hello, connect, Authenticator, Control, Observed, Step,
  read_message, read_frame, read_hello_message, send_encoded, send_auth_ok_response, after_verify,
  verify_authentication, verify_read, perform_authentication, ConnectionAcceptor,
  process_connection,
}

-- What is done for a connection: the authenticator is handed it, the two tunnels' tasks are spawned,
-- and the token that both watch is cancelled.
pub data Action : Type 0 where
  accept spawn_stream_tunnel spawn_datagram_tunnel cancel : Action

-- run_tunnel_loops, on the first of the two loops that ends, if one has ended yet.
unfoldable pub run_tunnel_loops : Option (IoResult (Unit {0})) → List Action
run_tunnel_loops none = spawn_stream_tunnel ∷ spawn_datagram_tunnel ∷ []
run_tunnel_loops (some result) = spawn_stream_tunnel ∷ spawn_datagram_tunnel ∷ cancel ∷ []

-- handle, as far as it has come: what the client observes, what is done, and the result of a call that
-- has returned.
pub record Handling : Type 0 where
  pub observed : Observed
  pub actions : List Action
  pub result : Option (IoResult (Unit {0}))

abbrev pub returned : Option (IoResult (Unit {0})) → Option (IoResult (Unit {0}))
returned none = none
returned (some result) = some (ok tt)

unfoldable pub after_authentication : Step (Unit {0}) → Option (IoResult (Unit {0})) → Handling
after_authentication (o, err e) first = record { observed = o; actions = []; result = some (err e) }
after_authentication (o, ok context) first = record {
  observed = o;
  actions = accept ∷ run_tunnel_loops first;
  result = returned first;
}

unfoldable pub handle : Control → Authenticator → Option (IoResult (Unit {0})) → Handling
handle c a first = after_authentication (perform_authentication c a) first

read_message-ok :
    (m : IoResult ClientMessage) (h : ClientHello) → (read_message m).1 ≡ ok h → m ≡ ok (hello h)
unfolding read_message
read_message-ok (err e) h q = absurd (cc (q))
read_message-ok (ok (connect c)) h q = absurd (cc (q))
read_message-ok (ok (hello h')) h q = let same : h' ≡ h = cc (q) in cc (same)

read_frame-ok :
    (decode : Bytes → IoResult ClientMessage) (next : Option (IoResult Bytes)) (h : ClientHello)
    → (read_frame decode next).1 ≡ ok h
    → (frame : Bytes) × (next ≡ some (ok frame)) × (decode frame ≡ ok (hello h))
unfolding read_frame
read_frame-ok decode none h q = absurd (cc (q))
read_frame-ok decode (some (err e)) h q = absurd (cc (q))
read_frame-ok decode (some (ok frame)) h q = (frame, refl, read_message-ok (decode frame) h q)

read_hello_message-ok :
    (c : Control) (h : ClientHello)
    → (read_hello_message c).1 ≡ ok h
    → (c.next_in_time ≡ true)
      × ((frame : Bytes) × (c.next ≡ some (ok frame)) × (c.decode frame ≡ ok (hello h)))
unfolding read_hello_message
read_hello_message-ok c h q = elim (Bool-cases c.next_in_time) [
  | inl b ↦ (b, read_frame-ok c.decode c.next h (simp (b) at q))
  | inr b ↦ absurd (cc (simp (b) at q))
]

-- The positive response, when sending it succeeded.
send_encoded-ok :
    (c : Control) (encoded : IoResult Bytes) (u : Unit {0})
    → (send_encoded c encoded).1 ≡ ok u
    → (reply : Bytes) × (encoded ≡ ok reply)
      × ((send_encoded c encoded).0 ≡ record { sent = reply ∷ []; delayed_shutdown = false })
unfolding send_encoded
send_encoded-ok c (err e) u q = absurd (cc (q))
send_encoded-ok c (ok reply) u q = elim (Bool-cases c.send_in_time) [
  | inr b ↦ absurd (cc (simp (b) at q))
  | inl b ↦ elim (Result-cases (c.send reply)) [
    | inl (v, k) ↦ (reply, refl, simp (b, k) refl)
    | inr (e, k) ↦ absurd (cc (simp (b, k) at q))
  ]
]

-- The observed response of a hello that was accepted.
abbrev pub Answered : Control → Observed → Type 0
Answered c o =
    (reply : Bytes) × (c.encode auth_ok ≡ ok reply)
    × (o ≡ record { sent = reply ∷ []; delayed_shutdown = false })

after_verify-ok :
    (c : Control) (verdict : Result (Unit {0}) ConnectionAuthError) (u : Unit {0})
    → (after_verify c verdict).1 ≡ ok u
    → (verdict ≡ ok tt) × Answered c (after_verify c verdict).0
unfolding after_verify send_auth_ok_response
after_verify-ok c (err e) u q = absurd (cc (q))
after_verify-ok c (ok v) u q = (refl, send_encoded-ok c (c.encode auth_ok) u q)

verify_authentication-ok :
    (c : Control) (a : Authenticator) (h : ClientHello) (u : Unit {0})
    → (verify_authentication c a h).1 ≡ ok u
    → (h.version ≡ protocol_version)
      × (a.verify h ≡ ok tt)
      × Answered c (verify_authentication c a h).0
unfolding verify_authentication
verify_authentication-ok c a h u q = elim (Bool-cases (h.version == protocol_version)) [
  | inr b ↦ absurd (cc (simp (b) at q))
  | inl b ↦ elim (Bool-cases a.in_time) [
    | inr t ↦ absurd (cc (simp (b, t) at q))
    | inl t ↦
        let (verified, answered) = after_verify-ok c (a.verify h) u (simp (b, t) at q) in
        (ground arith, verified, simp (b, t) answered)
  ]
]

-- The client's first frame is a hello of this version that the authenticator has accepted, and the
-- client has been sent the positive response and nothing else.
abbrev pub Authenticated : Control → Authenticator → Observed → Type 0
Authenticated c a o =
    (frame : Bytes) × (h : ClientHello) × (c.next ≡ some (ok frame))
    × (c.decode frame ≡ ok (hello h))
    × (h.version ≡ protocol_version)
    × (a.verify h ≡ ok tt)
    × Answered c o

verify_read-ok :
    (c : Control) (a : Authenticator) (read : Step ClientHello) (u : Unit {0})
    → (verify_read c a read).1 ≡ ok u
    → (h : ClientHello) × (read.1 ≡ ok h)
      × (h.version ≡ protocol_version)
      × (a.verify h ≡ ok tt)
      × Answered c (verify_read c a read).0
unfolding verify_read
verify_read-ok c a (o, err e) u q = absurd (cc (q))
verify_read-ok c a (o, ok h) u q =
    let (version, verified, answered) = verify_authentication-ok c a h u q in
    (h, refl, version, verified, answered)

perform_authentication-ok :
    (c : Control) (a : Authenticator) (u : Unit {0})
    → (perform_authentication c a).1 ≡ ok u
    → Authenticated c a (perform_authentication c a).0
unfolding perform_authentication
perform_authentication-ok c a u q = elim (Result-cases c.accept_bidirectional) [
  | inr (e, k) ↦ absurd (cc (rw (k, perform_authentication) at q))
  | inl (v, k) ↦
      let (h, read, version, verified, answered) =
        verify_read-ok c a (read_hello_message c) u (rw (k, perform_authentication) at q) in
      let (in_time, (frame, next, decoded)) = read_hello_message-ok c h read in
      (frame, h, next, decoded, version, verified, rw (k, perform_authentication) answered)
]

-- What is done for an authenticated connection, and with what result: its tunnels run until the first
-- of them ends, which is no error of the handling.
abbrev pub Served : Option (IoResult (Unit {0})) → Handling → Type 0
Served none h =
    (h.result ≡ none) × (h.actions ≡ accept ∷ spawn_stream_tunnel ∷ spawn_datagram_tunnel ∷ [])
Served (some ended) h =
    (h.result ≡ some (ok tt))
    × (h.actions ≡ accept ∷ spawn_stream_tunnel ∷ spawn_datagram_tunnel ∷ cancel ∷ [])

after_authentication-Served :
    (o : Observed) (u : Unit {0}) (first : Option (IoResult (Unit {0})))
    → Served first (after_authentication (o, ok u) first)
unfolding after_authentication run_tunnel_loops
after_authentication-Served o u none = (refl, refl)
after_authentication-Served o u (some ended) = (refl, refl)

after_authentication-cases :
    (s : Step (Unit {0})) (first : Option (IoResult (Unit {0})))
    → ((e : IoError) × ((after_authentication s first).actions ≡ [])
        × ((after_authentication s first).result ≡ some (err e)))
      ⊎ ((u : Unit {0}) × (s.1 ≡ ok u)
          × (s.0 ≡ (after_authentication s first).observed)
          × Served first (after_authentication s first))
unfolding after_authentication
after_authentication-cases (o, err e) first = inl (e, refl, refl)
after_authentication-cases (o, ok u) first =
    inr (u, refl, refl, after_authentication-Served o u first)

-- Nothing is done for a connection whose client is not authenticated: either the handling ends with an
-- error, no tunnel is spawned and the authenticator is not handed the connection; or the client's first
-- frame is a hello of this version that the authenticator accepts, the client has been sent the
-- positive response and nothing else, and then the connection is handed over and both tunnels are
-- spawned. Then the handling ends when one of the tunnels has ended, without an error, and cancels the
-- other.
pub handle-Authenticated :
    (c : Control) (a : Authenticator) (first : Option (IoResult (Unit {0})))
    → ((e : IoError) × ((handle c a first).actions ≡ [])
        × ((handle c a first).result ≡ some (err e)))
      ⊎ (Authenticated c a (handle c a first).observed × Served first (handle c a first))
unfolding handle
handle-Authenticated c a first =
    elim (after_authentication-cases (perform_authentication c a) first) [
      | inl refused ↦ inl refused
      | inr (u, accepted, same, served) ↦
          let verified = perform_authentication-ok c a u accepted in
          inr (rw (same) at verified, served)
    ]

-- The counter of failed authentications is stepped at the end of a connection exactly when no tunnel
-- was spawned for it.
pub process_connection-handle :
    (s : ConnectionAcceptor) (c : Control) (a : Authenticator)
    (first : Option (IoResult (Unit {0}))) (r : IoResult (Unit {0}))
    → (handle c a first).result ≡ some r
    → (((handle c a first).actions ≡ [])
        × ((process_connection s r).counters.connections_auth_failed
            ≡ s.counters.connections_auth_failed + 1))
      ⊎ (((handle c a first).actions
            ≡ accept ∷ spawn_stream_tunnel ∷ spawn_datagram_tunnel ∷ cancel ∷ [])
          × ((process_connection s r).counters ≡ s.counters))
unfolding process_connection
process_connection-handle s c a first r q = elim (handle-Authenticated c a first) [
  | inl (e, idle, failed) ↦
      let same : r ≡ err e = cc (q, failed) in inl (idle, rw (same, process_connection) refl)
  | inr (verified, served) ↦ inr (ended first r q served)
]
  where
    ended :
        (first' : Option (IoResult (Unit {0}))) (r' : IoResult (Unit {0}))
        → (handle c a first).result ≡ some r'
        → Served first' (handle c a first)
        → ((handle c a first).actions
            ≡ accept ∷ spawn_stream_tunnel ∷ spawn_datagram_tunnel ∷ cancel ∷ [])
          × ((process_connection s r').counters ≡ s.counters)
    ended none r' q' (running, done) = absurd (cc (q', running))
    ended (some e) r' q' (finished, done) =
        let same : r' ≡ ok tt = cc (q', finished) in (done, rw (same, process_connection) refl)
