-- ===== src/Auth/Examples.antt =====
-- A client and a server with a secret (crates/ombrac-server/src/connection/mod.rs), and the theorems
-- at these inputs.
use native.Mathlib.Decide.{ℕ_discrete}
use ombrac.Prelude.{◌⊎◌, ◌≢◌, ℕ, suc, ◌≡◌, refl, [], ◌∷◌, ok, err, Option, some, false}
use ombrac.Net.{
  Bytes, IoError, IoResult, io_error, invalid_data, unexpected_eof, other, connection_reset,
}
use ombrac.Protocol.{ClientHello, ServerAuthResponse, auth_ok, auth_err}
use ombrac.Client.{Hello, authenticate}
use ombrac.Auth.Processor.{
  accept, spawn_stream_tunnel, spawn_datagram_tunnel, cancel, run_tunnel_loops,
  after_authentication, handle, Authenticated, Served, handle-Authenticated,
}
use ombrac.Auth.{
  secret_authenticator, Bytes-discrete, verify_decided, read_message, read_frame,
  read_hello_message, send_encoded, send_auth_ok_response, after_verify, verify_authentication,
  verify_read, perform_authentication, ClientMessage, hello, Control, ConnectionAcceptor,
  with_config, try_acquire, handle_incoming_connection, process_connection, incoming, closed,
  Reachable, start, later,
}
use ombrac.Auth.Verdict.{listening, link, authenticate-perform_authentication}

abbrev test_decode : Bytes → IoResult ClientMessage
test_decode [] = err (io_error invalid_data "")
test_decode (v ∷ secret) = ok (hello (record { version = v; secret = secret; options = [] }))

abbrev test_encode : ServerAuthResponse → IoResult Bytes
test_encode auth_ok = ok (0 ∷ [])
test_encode auth_err = ok (1 ∷ [])

abbrev test_connection : ℕ
test_connection = 8

abbrev test_hello : Hello
test_hello = record {
  encode_hello = λ m. ok (m.version ∷ m.secret);
  decode_response = λ b. ok auth_ok;
  secret = 5 ∷ [];
  options = [];
}

authenticate-perform_authentication_example :
    ((test_hello.secret ≡ 5 ∷ [])
      × (authenticate test_hello (link test_hello test_decode test_encode test_connection (5 ∷ []))
          ≡ ok test_connection))
    ⊎ ((test_hello.secret ≢ 5 ∷ [])
        × (authenticate test_hello
              (link test_hello test_decode test_encode test_connection (5 ∷ []))
            ≡ err (io_error unexpected_eof "connection closed by server during authentication")))
authenticate-perform_authentication_example =
    authenticate-perform_authentication test_hello test_decode test_encode test_connection (5 ∷ [])
      (1 ∷ 5 ∷ []) (0 ∷ []) refl refl refl refl

abbrev test_message : ClientHello
test_message = record { version = 1; secret = 6 ∷ []; options = [] }

abbrev test_control : Control
test_control = listening test_hello test_decode test_encode []

-- One connection is let in, a second is refused, and the first ends without authentication.
abbrev one_in : ConnectionAcceptor
unfolding handle_incoming_connection
one_in = handle_incoming_connection (with_config 1) (ok tt)

abbrev one_refused : ConnectionAcceptor
unfolding handle_incoming_connection
one_refused = handle_incoming_connection one_in (ok tt)

abbrev one_out : ConnectionAcceptor
unfolding process_connection
one_out = process_connection one_refused (err (io_error other ""))

test_counters :
    (one_out.counters.connections_rejected ≡ 1) × (one_out.counters.connections_auth_failed ≡ 1)
unfolding one_out one_refused one_in handle_incoming_connection process_connection try_acquire
test_counters = (refl, refl)

one_running : one_refused.running ≡ suc 0
unfolding one_refused one_in handle_incoming_connection try_acquire
one_running = refl

one_out-Reachable : Reachable 1 one_out
unfolding one_out one_refused one_in
one_out-Reachable =
    later one_refused _
      (later one_in _ (later (with_config 1) _ start (incoming (ok tt))) (incoming (ok tt)))
      (closed 0 one_running (err (io_error other "")))

-- The hello with the secret of the server, whose tunnels run until one has failed, and one without.
abbrev test_first : Option (IoResult (Unit {0}))
test_first = some (err (io_error connection_reset "reset"))

abbrev test_listening : Bytes → Control
test_listening frame = listening test_hello test_decode test_encode frame

test_handled :
    handle (test_listening (1 ∷ 5 ∷ [])) (secret_authenticator (5 ∷ [])) test_first ≡ record {
      observed = record { sent = (0 ∷ []) ∷ []; delayed_shutdown = false };
      actions = accept ∷ spawn_stream_tunnel ∷ spawn_datagram_tunnel ∷ cancel ∷ [];
      result = some (ok tt);
    }
unfolding handle after_authentication run_tunnel_loops perform_authentication read_hello_message
    read_frame read_message verify_read verify_authentication after_verify send_auth_ok_response
    send_encoded verify_decided Bytes-discrete ℕ_discrete
test_handled = refl

test_unread : (handle (test_listening []) (secret_authenticator (5 ∷ [])) test_first).actions ≡ []
unfolding handle after_authentication perform_authentication read_hello_message read_frame
    read_message verify_read
test_unread = refl

handle-Authenticated_example :
    ((e : IoError) × ((handle
          (test_listening (1 ∷ 5 ∷ []))
          (secret_authenticator (5 ∷ []))
          test_first).actions
        ≡ [])
      × ((handle (test_listening (1 ∷ 5 ∷ [])) (secret_authenticator (5 ∷ [])) test_first).result
          ≡ some (err e)))
    ⊎ (Authenticated
          (test_listening (1 ∷ 5 ∷ []))
          (secret_authenticator (5 ∷ []))
          (handle (test_listening (1 ∷ 5 ∷ [])) (secret_authenticator (5 ∷ [])) test_first).observed
        × Served test_first
            (handle (test_listening (1 ∷ 5 ∷ [])) (secret_authenticator (5 ∷ [])) test_first))
handle-Authenticated_example =
    handle-Authenticated (test_listening (1 ∷ 5 ∷ [])) (secret_authenticator (5 ∷ [])) test_first
