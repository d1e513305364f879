-- ===== src/Service/Examples.antt =====
-- Services set up from a configuration (crates/ombrac-server/src/service.rs and
-- crates/ombrac-client/src/service.rs), and the theorems at these inputs.
use ombrac.Prelude.{
  ◌+◌, arith, Bool, true, false, none, some, List, [], ◌∷◌, ◌≡◌, ◌≢◌, refl, ◌⊎◌, ok, err,
}
use ombrac.Net.{Bytes, SocketAddr, ip_v4, socket_addr, IoResult}
use ombrac.Config.{tls, m_tls, insecure}
use ombrac.Config.Client.{
  ServiceConfig as ClientServiceConfig, default_transport as client_transport,
  default_logging as client_logging, default_endpoint,
}
use ombrac.Config.Server.{ServiceConfig, default_transport, default_logging, default_connection}
use ombrac.Quic.{
  Loader, load_pair, load_certificates, load_private_key, ServerTls, server_certificate,
  client_verifier, server_tls_config, ClientTls, roots_of, client_roots, client_auth,
  client_tls_config,
}
use ombrac.Quic.Tls.{Trusts}
use ombrac.Metrics.{zero_counters}
use ombrac.Auth.{with_config, handle_incoming_connection, try_acquire}
use ombrac.Service.Drain.{
  AcceptorTurn, shutdown_signal, accepted, acceptor_loop, Tick, drain, shutdown_with_drain, Reports,
  shutdown_with_drain-Reports,
}
use ombrac.Service.{unwrap_or}
use ombrac.Service.Server.{
  tls_mode_of, with_tls_mode, quic_server_from_config, quic_server_from_config-Demands,
  config_failure,
}
use ombrac.Service.Client.{
  server_name_of, quic_config, new_client, quic_client_from_config, quic_client_from_config-Trusts,
}
use ombrac.Service.Client.{with_tls_mode as with_client_mode}

-- A file holds its own path; a path with an octet ends in "der", and all pairs and roots are taken.
abbrev test_loader : Loader
test_loader = record {
  read = λ path. ok path;
  is_der = λ path. elim path [ [] ↦ false | x ∷ rest ↦ true ];
  pem_certs = λ content. ok [];
  pem_private_key = λ content. ok none;
  accepts_pair = λ certs key. true;
  self_signed = none;
  accepts_roots = λ certs. true;
}

abbrev test_addr : SocketAddr
test_addr = socket_addr (ip_v4 (1 ∷ 2 ∷ 3 ∷ 4 ∷ [])) 443

-- A server in mTLS.
abbrev test_server : ServiceConfig
test_server = record {
  secret = 1 ∷ [];
  listen = test_addr;
  transport = record default_transport {
    tls_mode = some m_tls;
    ca_cert = some (3 ∷ []);
    tls_cert = some (1 ∷ []);
    tls_key = some (2 ∷ []);
  };
  connection = default_connection;
  logging = default_logging;
}

abbrev test_server_tls : ServerTls
test_server_tls = record {
  client_verifier = some ((3 ∷ []) ∷ []);
  certificate = ((1 ∷ []) ∷ [], 2 ∷ []);
  alpn_protocols = (104 ∷ 51 ∷ []) ∷ [];
  early_data = false;
}

test_server_made :
    quic_server_from_config test_loader (λ settings. ok tt) (λ a. ok tt) test_server
    ≡ ok test_server_tls
unfolding quic_server_from_config with_tls_mode server_tls_config server_certificate load_pair
    load_certificates load_private_key client_verifier
test_server_made = refl

-- Without a key the server is not set up.
test_no_key :
    quic_server_from_config test_loader
      (λ settings. ok tt)
      (λ a. ok tt)
      (record test_server { transport = record test_server.transport { tls_key = none } })
    ≡ err (config_failure "transport.tls_key for mTLS")
unfolding quic_server_from_config with_tls_mode
test_no_key = refl

quic_server_from_config-Demands_example :
    (((tls_mode_of test_server.transport ≡ m_tls)
        × ((ca : Bytes) × (certs : List Bytes) × (test_server.transport.ca_cert ≡ some ca)
            × (load_certificates test_loader ca ≡ ok certs)
            × (test_server_tls.client_verifier ≡ some certs)))
      ⊎ ((tls_mode_of test_server.transport ≢ m_tls) × (test_server_tls.client_verifier ≡ none)))
    × ((tls_mode_of test_server.transport ≡ insecure)
        ⊎ ((cert_path : Bytes) × (key_path : Bytes) × (test_server.transport.tls_cert
              ≡ some cert_path)
            × (test_server.transport.tls_key ≡ some key_path)
            × (load_pair test_loader (cert_path, key_path) ≡ ok test_server_tls.certificate)))
quic_server_from_config-Demands_example =
    quic_server_from_config-Demands test_loader (λ settings. ok tt) (λ a. ok tt) test_server
      test_server_tls test_server_made

-- A client with roots of its own, and a server name.
abbrev test_client : ClientServiceConfig
test_client = record {
  secret = 1 ∷ [];
  server = 97 ∷ 58 ∷ 49 ∷ [];
  auth_option = none;
  endpoint = default_endpoint;
  transport = record client_transport { server_name = some (97 ∷ []); ca_cert = some (3 ∷ []) };
  logging = client_logging;
}

abbrev test_lookup : Bytes → IoResult (List SocketAddr)
test_lookup server = ok (test_addr ∷ [])

abbrev unspecified : SocketAddr
unspecified = socket_addr (ip_v4 (0 ∷ 0 ∷ 0 ∷ 0 ∷ [])) 0

abbrev test_client_tls : ClientTls
test_client_tls = record {
  roots = roots_of ((3 ∷ []) ∷ []);
  client_auth = none;
  alpn_protocols = unwrap_or client_transport.alpn_protocols [];
  null_verifier = false;
  enable_early_data = false;
}

test_client_made :
    quic_client_from_config test_loader test_lookup (λ settings. ok tt) (λ a. ok tt) test_client
    ≡ ok (unspecified, test_client_tls)
unfolding quic_client_from_config quic_config new_client server_name_of with_client_mode
    client_tls_config client_roots client_auth load_certificates
test_client_made = refl

quic_client_from_config-Trusts_example :
    ((unwrap_or test_client.transport.tls_mode tls ≡ insecure)
      × (test_client_tls.null_verifier ≡ true))
    ⊎ ((unwrap_or test_client.transport.tls_mode tls ≢ insecure)
        × (test_client_tls.null_verifier ≡ false)
        × Trusts test_loader test_client.transport.ca_cert test_client_tls.roots)
quic_client_from_config-Trusts_example =
    quic_client_from_config-Trusts test_loader test_lookup (λ settings. ok tt) (λ a. ok tt)
      test_client unspecified test_client_tls test_client_made

-- A stream is active at the first tick and closed at the second; a connection comes in before the
-- signal.
abbrev test_ticks : List Tick
test_ticks =
    record { snapshot = record zero_counters { streams_opened = 1 }; now = 1000 }
    ∷ record {
      snapshot = record zero_counters { streams_opened = 1; streams_closed = 1 };
      now = 1055;
    }
    ∷ []

abbrev test_turns : List AcceptorTurn
test_turns = accepted (ok tt) ∷ shutdown_signal ∷ accepted (ok tt) ∷ []

test_drained : shutdown_with_drain 1000 50 test_ticks (with_config 2) test_turns ≡ some true
unfolding shutdown_with_drain drain acceptor_loop handle_incoming_connection try_acquire
test_drained = refl

test_late : shutdown_with_drain 1000 0 test_ticks (with_config 2) test_turns ≡ some false
unfolding shutdown_with_drain drain acceptor_loop handle_incoming_connection try_acquire
test_late = refl

test_signalled : (acceptor_loop (with_config 2) test_turns).1 ≡ true
unfolding acceptor_loop handle_incoming_connection try_acquire
test_signalled = refl

shutdown_with_drain-Reports_example :
    (b : Bool) × (shutdown_with_drain 1000 50 test_ticks (with_config 2) test_turns ≡ some b)
    × Reports (1000 + 50) test_ticks b
shutdown_with_drain-Reports_example =
    shutdown_with_drain-Reports 1000 50 test_ticks (with_config 2) test_turns (omega arith)
      (omega arith) test_signalled
