-- ===== src/StreamTunnel/Examples.antt =====
-- A stream whose destination refuses, and one that is copied to its end
-- (crates/ombrac-server/src/connection/stream.rs), and the theorems at these inputs.
use ombrac.Prelude.{zero, suc, true, none, [], ◌∷◌, ◌≡◌, ◌⊎◌, refl, ok, err}
use ombrac.Net.{Bytes, IoError, io_error, IoResult, connection_refused, not_found}
use ombrac.Metrics.{zero_counters}
use ombrac.Protocol.{
  Address, socket_v4, ClientConnect, ServerConnectResponse, connect_ok, connect_err, from_io_error,
  refused,
}
use ombrac.Auth.{ClientMessage, connect}
use ombrac.Client.Stream.{open_bidirectional, to_error_kind}
use ombrac.Server.{Resolver}
use ombrac.Copy.{from_a, from_b}
use ombrac.StreamTunnel.{
  new_guard, Framed, Upstream, ServerMessage, auth_response, connect_response, read_connect_message,
  connect_to_destination, upstream_address, response_of, handle_connect, count_opened, StreamTunnel,
  opened_elsewhere, new_tunnel, accepted, start, later,
}
use ombrac.StreamTunnel.Respond.{Silent, Answered, handle_connect-Answered}
use ombrac.StreamTunnel.Agree.{serving, linked, open_bidirectional-handle_connect}
use ombrac.StreamTunnel.Count.{IsCounted, Reachable-IsCounted}

abbrev no_resolver : Resolver
no_resolver = record {
  is_utf8 = λ b. true;
  parse_ip = λ b. none;
  get_dns_resolver = err (io_error not_found "");
  lookup_aaaa = λ b. ok [];
  lookup_a = λ b. ok [];
}

abbrev refusing : Upstream
refusing = record {
  resolver = no_resolver;
  connect_in_time = true;
  connect_to = λ a. err (io_error connection_refused "refused");
  write_all = λ b. ok tt;
  turns = [];
}

abbrev test_address : Address
test_address = socket_v4 (record { ip = 10 ∷ 0 ∷ 0 ∷ 1 ∷ []; port = 80 })

abbrev test_encode : ServerMessage → IoResult Bytes
test_encode (auth_response r) = ok (9 ∷ [])
test_encode (connect_response connect_ok) = ok (0 ∷ [])
test_encode (connect_response (connect_err kind message)) = ok (1 ∷ [])

abbrev test_decode_response : Bytes → IoResult ServerConnectResponse
test_decode_response [] = err (io_error not_found "")
test_decode_response (zero ∷ rest) = ok connect_ok
test_decode_response (suc n ∷ rest) = ok (connect_err refused "refused")

abbrev test_encode_connect : ClientConnect → IoResult Bytes
test_encode_connect m = ok (7 ∷ [])

abbrev test_decode : Bytes → IoResult ClientMessage
test_decode b = ok (connect (record { address = test_address }))

-- A request behind which the codec has read two octets.
abbrev test_framed : Framed
test_framed =
    serving test_encode_connect test_decode_response test_decode test_encode (5 ∷ 6 ∷ []) []
      (7 ∷ [])

test_refused :
    connect_to_destination refusing test_address ≡ err (io_error connection_refused "refused")
unfolding connect_to_destination upstream_address
test_refused = refl

test_response :
    response_of (connect_to_destination refusing test_address) ≡ connect_err refused "refused"
unfolding response_of connect_to_destination upstream_address from_io_error
test_response = refl

handle_connect-Answered_example :
    Silent (handle_connect test_framed refusing new_guard)
    ⊎ ((dest : Address) × (read_connect_message test_framed ≡ ok dest)
        × Answered test_framed
            (connect_to_destination refusing dest)
            (handle_connect test_framed refusing new_guard))
handle_connect-Answered_example = handle_connect-Answered test_framed refusing new_guard

open_bidirectional-handle_connect_example :
    ((connect_to_destination refusing test_address ≡ ok tt)
      × (open_bidirectional zero_counters
            (ok (
              linked test_encode_connect test_decode_response test_decode test_encode
                (5 ∷ 6 ∷ [])
                []
                refusing))
            test_address
          ≡ (record zero_counters { streams_opened = 1 }, ok [])))
    ⊎ ((e : IoError) × (connect_to_destination refusing test_address ≡ err e)
        × (open_bidirectional zero_counters
              (ok (
                linked test_encode_connect test_decode_response test_decode test_encode
                  (5 ∷ 6 ∷ [])
                  []
                  refusing))
              test_address
            ≡ (
              record zero_counters { streams_failed = 1 },
              err (io_error (to_error_kind (from_io_error e)) e.message),
            ))
        × ((handle_connect test_framed refusing new_guard).result ≡ err e))
open_bidirectional-handle_connect_example =
    open_bidirectional-handle_connect test_encode_connect test_decode_response test_decode
      test_encode (5 ∷ 6 ∷ []) [] zero_counters refusing test_address (7 ∷ []) (1 ∷ []) refl refl
      (rw test_response refl) (rw test_response refl)

abbrev copying : Upstream
copying = record refusing {
  connect_to = λ a. ok tt;
  turns =
      (from_a, record { reading = ok (1 ∷ []); writing = ok tt })
      ∷ (from_a, record { reading = ok []; writing = ok tt })
      ∷ (from_b, record { reading = ok []; writing = ok tt })
      ∷ [];
}

-- A tunnel whose first stream comes in while another tunnel handles one.
abbrev beside : StreamTunnel
beside = record new_tunnel { elsewhere = 1; counters = count_opened zero_counters }

Reachable-IsCounted_example : IsCounted (record beside { waiting = 1 })
Reachable-IsCounted_example =
    Reachable-IsCounted (record beside { waiting = 1 })
      (later beside _ (later new_tunnel _ start opened_elsewhere) accepted)
