-- ===== src/Quic/Examples.antt =====
-- Configurations of the QUIC transport (crates/ombrac-transport/src/quic), and the theorem at these
-- inputs.
use ombrac.Prelude.{true, false, none, some, [], ◌∷◌, ◌≡◌, refl, ok, err}
use ombrac.Net.{not_found, io_error}
use ombrac.Client.{is_connection_error}
use ombrac.Quic.{
  reset, idle_timed_out, version_mismatch, connection_lost, too_large, quinn_connection,
  quinn_send_datagram, connection_kind, send_datagram_kind, from_connection_error, from_error, io,
  server_missing_certificate, Loader, load_certificates, load_private_key, load_pair, ServerConfig,
  ServerTls, new_server_config, client_verifier, server_certificate, server_tls_config,
}

-- An idle connection and a reset one are connected again, a wrong version is not.
test_retried :
    (is_connection_error (from_connection_error (quinn_connection idle_timed_out)) ≡ true)
    × (is_connection_error (from_connection_error (quinn_send_datagram (connection_lost reset)))
        ≡ true)
    × (is_connection_error (from_connection_error (quinn_connection version_mismatch)) ≡ false)
    × (is_connection_error (from_connection_error (quinn_send_datagram too_large)) ≡ false)
unfolding is_connection_error from_connection_error connection_kind send_datagram_kind
test_retried = (refl, refl, refl, refl)

test_error : from_error (io (io_error not_found "x")) ≡ io_error not_found "x"
unfolding from_error
test_error = refl

-- A file holds its own path. The path [2] ends in "der".
abbrev test_loader : Loader
test_loader = record {
  read = λ path. ok path;
  is_der = λ path. elim path [ [] ↦ false | x ∷ rest ↦ true ];
  pem_certs = λ content. ok [];
  pem_private_key = λ content. ok none;
  accepts_pair = λ certs key. true;
  self_signed = none;
  accepts_roots = λ certs. true;
}

test_no_key :
    load_private_key test_loader [] ≡ err (io_error not_found "no private key found in PEM file")
unfolding load_private_key
test_no_key = refl

test_missing : server_tls_config test_loader new_server_config ≡ err server_missing_certificate
unfolding server_tls_config server_certificate
test_missing = refl

abbrev test_config : ServerConfig
test_config = record new_server_config {
  root_ca_path = some (3 ∷ []);
  tls_cert_key_paths = some (1 ∷ [], 2 ∷ []);
}

abbrev test_tls : ServerTls
test_tls = record {
  client_verifier = some ((3 ∷ []) ∷ []);
  certificate = ((1 ∷ []) ∷ [], 2 ∷ []);
  alpn_protocols = [];
  early_data = false;
}

test_server : server_tls_config test_loader test_config ≡ ok test_tls
unfolding server_tls_config server_certificate load_pair load_certificates load_private_key
    client_verifier
test_server = refl
