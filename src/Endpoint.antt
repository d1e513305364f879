-- ===== src/Endpoint.antt =====
-- crates/ombrac-client/src/endpoint/socks/mod.rs: the exchange with a SOCKS5 client, and the relay of
-- its UDP datagrams, with the datagram feature. The tunnel, the copying of bytes and the sockets are
-- arguments.
pub mod Exchange
pub mod Relay
mod Examples
use ombrac.Prelude.{
  ℕ, zero, suc, Bool, true, false, not, Option, none, some, List, [], ◌∷◌, ◌++◌, ◌==◌, ◌||◌,
  if◌then◌else◌, Result, ok, err, ◌>>=◌,
}
use ombrac.Net.{
  Bytes, permission_denied, invalid_data, IoError, io_error, IoResult, SocketAddr, v4, v6, IpAddr,
  ip_v4, ip_v6, socket_addr,
}
use ombrac.Wire.{read_exact}
use ombrac.Protocol.{Address}
use ombrac.Socks.{
  version, no_authentication, no_acceptable_method, SocksAddress, unspecified_address, to_ombrac,
  try_from_ombrac, from_socket_addr, Request, connect, bind, associate, request_read, Reply,
  succeeded, command_not_supported, from_connect_error, encode_reply, udp_from_buf, SocksUdpPacket,
  encode_unfragmented,
}

-- The control connection: what it still gives, what was written, and how the next writes end (all
-- of them well when the list is empty). A write that fails leaves no octets.
pub record Stream : Type 0 where
  pub input : Bytes
  pub output : Bytes
  pub writes : List (IoResult (Unit {0}))

abbrev pub Action : Type 0 → Type 0
Action A = Stream → Stream × IoResult A

-- `?`
abbrev pub and_then : {A B : Type 0} → Stream × IoResult A → (A → Action B) → Stream × IoResult B
and_then (s, ok a) f = f a s
and_then (s, err e) f = (s, err e)

abbrev pub after_write : Stream → Bytes → List (IoResult (Unit {0})) → Stream × IoResult (Unit {0})
after_write s b [] = (record s { output = s.output ++ b }, ok tt)
after_write s b (ok u ∷ rest) = (record s { output = s.output ++ b; writes = rest }, ok tt)
after_write s b (err e ∷ rest) = (record s { writes = rest }, err e)

unfoldable pub write_all : Bytes → Action (Unit {0})
write_all b s = after_write s b s.writes

abbrev pub after_read : {A : Type 0} → Stream → IoResult (A × Bytes) → Stream × IoResult A
after_read s (ok (a, rest)) = (record s { input = rest }, ok a)
after_read s (err e) = (s, err e)

-- A reader of the protocol, on the stream.
abbrev pub read : {A : Type 0} → (Bytes → IoResult (A × Bytes)) → Action A
read reader s = after_read s (reader s.input)

unfoldable pub contains : ℕ → Bytes → Bool
contains n [] = false
contains n (x ∷ xs) = (x == n) || contains n xs

-- The end of negotiate_method, on the methods that the client offers.
unfoldable pub select_method : Bytes → Action (Unit {0})
select_method methods s =
    if not (contains no_authentication methods)
    then and_then (write_all (version ∷ no_acceptable_method ∷ []) s)
        (λ u s'. (s', err (io_error permission_denied "no acceptable authentication method")))
    else write_all (version ∷ no_authentication ∷ []) s

unfoldable pub check_version : Bytes → Action (Unit {0})
check_version (ver ∷ n ∷ []) s =
    if not (ver == version)
    then (s, err (io_error invalid_data "unsupported SOCKS version"))
    else and_then (read (read_exact n) s) select_method
check_version header s = (s, err (io_error invalid_data "unsupported SOCKS version"))

unfoldable pub negotiate_method : Action (Unit {0})
negotiate_method s = and_then (read (read_exact 2) s) check_version

unfoldable pub reply_failure : Reply → Action (Unit {0})
reply_failure reply s = write_all (encode_reply reply unspecified_address) s

-- handle_connect on the result of `client.open_bidirectional`; `copy` is copy_bidirectional.
unfoldable pub handle_connect :
    {U : Type 0} → (U → Action (Unit {0})) → IoResult U → Action (Unit {0})
handle_connect copy (err e) s =
    and_then (reply_failure (from_connect_error e) s) (λ u s'. (s', err e))
handle_connect copy (ok upstream) s =
    and_then (write_all (encode_reply succeeded unspecified_address) s) (λ u s'. copy upstream s')

unfoldable pub bind_addr_for : IpAddr → SocketAddr
bind_addr_for (ip_v4 o) = socket_addr (ip_v4 (0 ∷ 0 ∷ 0 ∷ 0 ∷ [])) 0
bind_addr_for (ip_v6 o) =
    socket_addr (ip_v6 (0 ∷ 0 ∷ 0 ∷ 0 ∷ 0 ∷ 0 ∷ 0 ∷ 0 ∷ 0 ∷ 0 ∷ 0 ∷ 0 ∷ 0 ∷ 0 ∷ 0 ∷ 0 ∷ [])) 0

-- handle_associate: `peer` and `local` are the addresses of the control connection, `bind_port`
-- binds the relay's socket, and `relay` is udp_relay_loop on the new session.
unfoldable pub handle_associate :
    IoResult SocketAddr
    → IoResult IpAddr
    → (SocketAddr → IoResult ℕ)
    → Action (Unit {0})
    → Action (Unit {0})
handle_associate peer local bind_port relay s =
    let bound : IoResult SocketAddr =
      (peer >>= λ p.
      local >>= λ ip. bind_port (bind_addr_for ip) >>= λ port. ok (socket_addr ip port)) in
    elim bound [
      | err e ↦ (s, err e)
      | ok relay_addr ↦
          and_then (write_all (encode_reply succeeded (from_socket_addr relay_addr)) s)
            (λ u s'. relay s')
    ]

-- What a connection calls.
pub record Parts : Type 1 where
  pub Upstream : Type 0
  pub open_bidirectional : Address → IoResult Upstream
  pub copy : Upstream → Action (Unit {0})
  pub peer : IoResult SocketAddr
  pub local : IoResult IpAddr
  pub bind_port : SocketAddr → IoResult ℕ
  pub relay : Action (Unit {0})

unfoldable pub dispatch : Parts → Request → Action (Unit {0})
dispatch c (connect address) s = handle_connect c.copy (c.open_bidirectional (to_ombrac address)) s
dispatch c (associate address) s = handle_associate c.peer c.local c.bind_port c.relay s
dispatch c (bind address) s = reply_failure command_not_supported s

unfoldable pub handle_connection : Parts → Action (Unit {0})
handle_connection c s =
    and_then (negotiate_method s) (λ u s'. and_then (read request_read s') (dispatch c))

-- The three branches of udp_relay_loop's select: an octet or the end of the control connection, a
-- packet of the tunnel, and what receiving on the relay's socket gave.
pub data Event : Type 0 where
  control : IoResult ℕ → Event
  from_tunnel : Bytes → Address → Event
  from_client : IoResult (Bytes × SocketAddr) → Event

-- The loop's variable, and what was sent on the relay's socket and into the tunnel, newest first.
pub record RelayState : Type 0 where
  pub client_addr : Option SocketAddr
  pub relayed : List (Bytes × SocketAddr)
  pub tunnelled : List (Bytes × Address)

-- `if client_addr.is_none()`
abbrev pub or_first : Option SocketAddr → SocketAddr → Option SocketAddr
or_first none src = some src
or_first (some a) src = some a

-- The loop goes on unless a turn ended it.
abbrev pub continue :
    RelayState × Option (IoResult (Unit {0}))
    → (RelayState → RelayState × Option (IoResult (Unit {0})))
    → RelayState × Option (IoResult (Unit {0}))
continue (s, none) k = k s
continue (s, some r) k = (s, some r)

module _ (relay_send : Bytes → SocketAddr → IoResult (Unit {0}))
    (session_send : Bytes → Address → IoResult (Unit {0})) where
  -- A result `some r` ends the loop with `r`.
  abbrev pub after_relay :
      RelayState
      → Bytes
      → SocketAddr
      → IoResult (Unit {0})
      → RelayState × Option (IoResult (Unit {0}))
  after_relay s packet dest (ok u) = (record s { relayed = (packet, dest) ∷ s.relayed }, none)
  after_relay s packet dest (err e) = (s, some (err e))

  unfoldable pub relay_to_client :
      RelayState
      → Bytes
      → SocketAddr
      → IoResult SocksAddress
      → RelayState × Option (IoResult (Unit {0}))
  relay_to_client s payload dest (err e) = (s, some (err e))
  relay_to_client s payload dest (ok from) =
      let packet = encode_unfragmented from payload in
      after_relay s packet dest (relay_send packet dest)

  abbrev pub after_tunnel :
      RelayState → Bytes → Address → IoResult (Unit {0}) → RelayState × Option (IoResult (Unit {0}))
  after_tunnel s payload dest (ok u) =
      (record s { tunnelled = (payload, dest) ∷ s.tunnelled }, none)
  after_tunnel s payload dest (err e) = (s, some (err e))

  unfoldable pub tunnel_packet :
      RelayState → IoResult SocksUdpPacket → RelayState × Option (IoResult (Unit {0}))
  tunnel_packet s (err e) = (s, some (err e))
  tunnel_packet s (ok packet) =
      if not (packet.frag == 0)
      then (s, none)
      else after_tunnel s packet.payload (to_ombrac packet.address)
          (session_send packet.payload (to_ombrac packet.address))

  abbrev pub to_tunnel_client :
      RelayState → Option SocketAddr → Bytes → Address → RelayState × Option (IoResult (Unit {0}))
  to_tunnel_client s none payload from = (s, none)
  to_tunnel_client s (some dest) payload from =
      relay_to_client s payload dest (try_from_ombrac from)

  -- One turn of udp_relay_loop.
  unfoldable pub relay_step : RelayState → Event → RelayState × Option (IoResult (Unit {0}))
  relay_step s (control (ok b)) = (s, none)
  relay_step s (control (err e)) = (s, some (ok tt))
  relay_step s (from_tunnel payload from) = to_tunnel_client s s.client_addr payload from
  relay_step s (from_client (err e)) = (s, some (err e))
  relay_step s (from_client (ok (buf, src))) =
      tunnel_packet (record s { client_addr = or_first s.client_addr src }) (udp_from_buf buf)

  -- udp_relay_loop on the events that come, in order; `none` is a loop that waits for the next one.
  unfoldable pub udp_relay_loop :
      RelayState → List Event → RelayState × Option (IoResult (Unit {0}))
  udp_relay_loop s [] = (s, none)
  udp_relay_loop s (e ∷ es) = continue (relay_step s e) (λ s'. udp_relay_loop s' es)
