-- ===== src/Server/Datagram.antt =====
-- What the server does with a datagram of the client (handle_upstream_packet and
-- get_or_create_session in crates/ombrac-server/src/connection/datagram.rs).
use ombrac.Prelude.{
  ℕ, ◌+◌, ◌≡◌, ◌∙◌, sym, ap, inl, inr, refl, Result-cases, Option, none, some, ok, err,
}
use ombrac.Net.{Bytes, SocketAddr, IoResult}
use ombrac.Cache.{Retains}
use ombrac.Protocol.{Address, UdpPacket}
use ombrac.Reassembly.{Delivery, process}
use ombrac.Server.{
  Parts, Tunnel, Session, Task, insert_session, create_session, try_get_with, get_or_create_session,
  spawn_task, forward, handle_decoded, handle_upstream_packet, bind_udp_socket_with_retry,
  bind_family, as_other,
}

module _ (c : Parts) where
  spawn_task-some :
      (address : Address) (payload : Bytes) (p : Tunnel c × IoResult Session) (t' : Tunnel c)
      (task : Task)
      → spawn_task c address payload p ≡ (t', ok (some task))
      → (p.0 ≡ t') × (p.1 ≡ ok task.session) × (address ≡ task.address) × (payload ≡ task.payload)
  unfolding spawn_task
  spawn_task-some address payload (t, ok session) t' task q =
      let made : record { session = session; address = address; payload = payload } ≡ task =
        cc (q) in
      (
        ap (λ r. r.0) q,
        ap (λ u. ok u.session) made,
        ap (λ u. u.address) made,
        ap (λ u. u.payload) made,
      )
  spawn_task-some address payload (t, err e) t' task q = absurd (cc (q))

  module _ (keeps : Retains c.sessions) where
    insert_session-found :
        (t : Tunnel c) (session_id : ℕ) (session : Session) (bound : IoResult (Unit {0}))
        (s : Session)
        → (insert_session c t session_id session bound).1 ≡ ok s
        → c.sessions.find (insert_session c t session_id session bound).0.sessions session_id
          ≡ some s
    unfolding insert_session
    insert_session-found t session_id session (err e) s q = absurd (cc (q))
    insert_session-found t session_id session (ok socket) s q =
        keeps.find-insert_self t.sessions session_id session ∙ cc (q)

    create_session-found :
        (t : Tunnel c) (session_id : ℕ) (dest : Address) (addr : IoResult SocketAddr) (s : Session)
        → (create_session c t session_id dest addr).1 ≡ ok s
        → c.sessions.find (create_session c t session_id dest addr).0.sessions session_id ≡ some s
    unfolding create_session
    create_session-found t session_id dest (err e) s q = absurd (cc (q))
    create_session-found t session_id dest (ok addr) s q =
        insert_session-found t session_id (record { family = bind_family addr; destination = dest })
          (bind_udp_socket_with_retry (c.bind (bind_family addr))) s q

    as_other-ok : {A : Type 0} (m : IoResult A) (a : A) → as_other c m ≡ ok a → m ≡ ok a
    as_other-ok (ok b) a q = q
    as_other-ok (err e) a q = absurd (cc (q))

    try_get_with-found :
        (t : Tunnel c) (session_id : ℕ) (dest : Address) (held : Option Session) (s : Session)
        → c.sessions.find t.sessions session_id ≡ held
        → (try_get_with c t session_id dest held).1 ≡ ok s
        → c.sessions.find (try_get_with c t session_id dest held).0.sessions session_id ≡ some s
    unfolding try_get_with
    try_get_with-found t session_id dest (some session) s e q = e ∙ cc (q)
    try_get_with-found t session_id dest none s e q =
        create_session-found _ session_id dest _ s (as_other-ok _ s q)

    forward-task :
        (t t' : Tunnel c) (delivery : IoResult Delivery) (task : Task)
        → forward c t delivery ≡ (t', ok (some task))
        → (session_id : ℕ) × (delivery ≡ ok (some (session_id, task.address, task.payload)))
          × (c.sessions.find t'.sessions session_id ≡ some task.session)
    unfolding forward get_or_create_session
    forward-task t t' (err e) task q = absurd (cc (q))
    forward-task t t' (ok none) task q = absurd (cc (q))
    forward-task t t' (ok (some (session_id, address, payload))) task q =
        let (tunnel, session, same_address, same_payload) =
          spawn_task-some address payload _ t' task q in
        (
          session_id,
          cc (same_address, same_payload),
          ap (λ u. c.sessions.find u.sessions session_id) (sym tunnel)
              ∙ try_get_with-found _ session_id address _ task.session refl session,
        )

    -- A datagram of the client spawns a task only when it decodes and its reassembly yields a packet;
    -- the task sends that packet's payload to its address, on the session that is then kept under the
    -- packet's number. The cache of sessions is taken to drop none.
    pub handle_upstream_packet-task :
        (t t' : Tunnel c) (packet_bytes : Bytes) (task : Task)
        → handle_upstream_packet c t packet_bytes ≡ (t', ok (some task))
        → (packet : UdpPacket) × (session_id : ℕ) × (c.decode packet_bytes ≡ ok packet)
          × ((process c.buffers t.reassembler packet).1
              ≡ ok (some (session_id, task.address, task.payload)))
          × (c.sessions.find t'.sessions session_id ≡ some task.session)
    unfolding handle_upstream_packet handle_decoded
    handle_upstream_packet-task t t' packet_bytes task q =
        elim (Result-cases (c.decode packet_bytes)) [
          | inr (e, k) ↦ absurd (cc (rw (k, handle_upstream_packet, handle_decoded) at q))
          | inl (packet, k) ↦
              let q' = rw (k, handle_upstream_packet) at q in
              let (session_id, made, held) = forward-task _ t' _ task q' in
              (packet, session_id, k, made, held)
        ]

  -- A packet of a session that is kept goes to the session's own socket, whatever family its address
  -- has: nothing is looked up or bound, and only the reassembler and its counter change.
  pub handle_upstream_packet-kept :
      (t : Tunnel c) (packet_bytes : Bytes) (packet : UdpPacket) (session_id : ℕ)
      (address : Address) (payload : Bytes) (s : Session)
      → c.decode packet_bytes ≡ ok packet
      → (process c.buffers t.reassembler packet).1 ≡ ok (some (session_id, address, payload))
      → c.sessions.find t.sessions session_id ≡ some s
      → handle_upstream_packet c t packet_bytes ≡ (
        record t {
          reassembler = (process c.buffers t.reassembler packet).0;
          counters = record t.counters {
            reassemblies_completed = t.counters.reassemblies_completed + 1;
          };
        },
        ok (some (record { session = s; address = address; payload = payload })),
      )
  unfolding handle_upstream_packet handle_decoded forward get_or_create_session try_get_with
      spawn_task
  handle_upstream_packet-kept t packet_bytes packet session_id address payload s d p f =
      rw (d, handle_upstream_packet, handle_decoded)
        (rw (p, forward) (rw (f, get_or_create_session) refl))
