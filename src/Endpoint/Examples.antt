-- ===== src/Endpoint/Examples.antt =====
-- A SOCKS5 client that connects, and one that sends datagrams
-- (crates/ombrac-client/src/endpoint/socks/mod.rs), and the theorems at these inputs.
use ombrac.Prelude.{◌≡◌, refl, arith, true, none, some, List, [], ◌∷◌, ◌++◌, ok, err}
use ombrac.Net.{
  Bytes, ip_v4, SocketAddr, socket_addr, io_error, timed_out, connection_reset, not_connected,
  invalid_data,
}
use ombrac.Wire.{read_exact, be_u16, put_u16}
use ombrac.Protocol.{Address, domain}
use ombrac.Socks.{
  version, no_authentication, cmd_connect, SocksAddress, domain_name, to_ombrac, try_from_ombrac,
  encode, encode_unfragmented, from_buf, udp_from_buf,
}
use ombrac.Socks.Address.{IsSocks}
use ombrac.Endpoint.{
  write_all, contains, select_method, check_version, negotiate_method, Parts, handle_connection,
  Event, control, from_tunnel, from_client, RelayState, relay_step, udp_relay_loop, relay_to_client,
  tunnel_packet,
}
use ombrac.Endpoint.Exchange.{stream, connect_outcome, handle_connection-connect}
use ombrac.Endpoint.Relay.{ToClient, Closes, IoUnit, udp_relay_loop-ToClient, udp_relay_loop-ok}

abbrev test_name : Bytes
test_name = 97 ∷ []

abbrev test_target : SocksAddress
test_target = domain_name test_name 443

test_target-IsSocks : IsSocks test_target
test_target-IsSocks = (omega arith, omega arith, (omega arith, tt), omega arith)

-- A tunnel on which every connection times out.
abbrev test_parts : Parts
test_parts = record {
  Upstream = Unit;
  open_bidirectional = λ a. err (io_error timed_out "");
  copy = λ u s. (s, ok tt);
  peer = err (io_error not_connected "");
  local = ok (ip_v4 []);
  bind_port = λ a. ok 1;
  relay = λ s. (s, ok tt);
}

-- No method of the list is the one without authentication.
test_negotiate : (negotiate_method (stream (5 ∷ 1 ∷ 2 ∷ []) [])).0.output ≡ 5 ∷ 255 ∷ []
unfolding negotiate_method check_version select_method contains write_all read_exact
test_negotiate = refl

test_contains : contains no_authentication (0 ∷ []) ≡ true
unfolding contains
test_contains = refl

handle_connection-connect_example :
    handle_connection test_parts
      (stream (version ∷ 1 ∷ 0 ∷ version ∷ cmd_connect ∷ 0 ∷ (encode test_target ++ [])) [])
    ≡ connect_outcome test_parts [] (version ∷ no_authentication ∷ []) (err (io_error timed_out ""))
handle_connection-connect_example =
    handle_connection-connect test_parts 1 0 (0 ∷ []) [] test_target refl test_contains
      test_target-IsSocks

abbrev test_relay_send : Bytes → SocketAddr → IoUnit
test_relay_send b a = ok tt

abbrev test_session_send : Bytes → Address → IoUnit
test_session_send b a = ok tt

abbrev test_source : SocketAddr
test_source = socket_addr (ip_v4 (127 ∷ 0 ∷ 0 ∷ 1 ∷ [])) 5000

abbrev idle : RelayState
idle = record { client_addr = none; relayed = []; tunnelled = [] }

abbrev test_events : List Event
test_events =
    from_client (ok (encode_unfragmented test_target (9 ∷ []), test_source))
    ∷ from_tunnel (8 ∷ []) (domain test_name 443)
    ∷ control (err (io_error connection_reset ""))
    ∷ []

test_relay : (udp_relay_loop test_relay_send test_session_send idle test_events).1 ≡ some (ok tt)
unfolding udp_relay_loop relay_step tunnel_packet relay_to_client udp_from_buf encode_unfragmented
    from_buf encode put_u16 be_u16 try_from_ombrac to_ombrac
test_relay = refl

abbrev relayed_state : RelayState
unfolding udp_relay_loop
relayed_state = (udp_relay_loop test_relay_send test_session_send idle test_events).0

test_relay_ok :
    udp_relay_loop test_relay_send test_session_send idle test_events
    ≡ (relayed_state, some (ok tt))
unfolding relayed_state udp_relay_loop relay_step tunnel_packet relay_to_client udp_from_buf
    encode_unfragmented from_buf encode put_u16 be_u16 try_from_ombrac to_ombrac
test_relay_ok = refl

udp_relay_loop-ToClient_example :
    ToClient (udp_relay_loop test_relay_send test_session_send idle test_events).0
udp_relay_loop-ToClient_example =
    udp_relay_loop-ToClient test_relay_send test_session_send idle test_events tt

udp_relay_loop-ok_example : Closes test_events
udp_relay_loop-ok_example =
    udp_relay_loop-ok test_relay_send test_session_send idle relayed_state test_events test_relay_ok

-- Any host that sends an octet to the relay's socket ends the association.
test_malformed :
    (relay_step test_relay_send test_session_send relayed_state
      (from_client (ok (0 ∷ [], test_source)))).1
    ≡ some (err (io_error invalid_data "insufficient data for UDP header"))
unfolding relay_step tunnel_packet udp_from_buf
test_malformed = refl
