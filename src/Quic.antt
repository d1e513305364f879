-- ===== src/Quic.antt =====
-- crates/ombrac-transport/src/quic: the errors of the transport and what is loaded and chosen for TLS
-- (mod.rs, error.rs and the configurations of client.rs and server.rs). Files, the PEM parser, rustls
-- and rcgen are arguments, quinn's errors are data.
pub mod Tls
mod Examples
use ombrac.Prelude.{
  ℕ, Bool, true, false, Option, none, some, List, [], ◌∷◌, ◌≡◌, Result, ok, err, ◌>>=◌,
  if◌then◌else◌,
}
use ombrac.Net.{
  Bytes, SocketAddr, v4, v6, ip_v4, ip_v6, socket_addr, ErrorKind, connection_reset, timed_out,
  not_found, other, IoError, io_error, IoResult,
}
use ombrac.Auth.{Bytes-discrete}
use ombrac.Config.{Congestion, bbr, cubic, new_reno}

-- quinn's ConnectionError, without the details of its variants.
pub data QuinnConnectionError : Type 0 where
  version_mismatch transport_error connection_closed application_closed reset idle_timed_out
        locally_closed cids_exhausted :
      QuinnConnectionError

-- quinn's SendDatagramError.
pub data QuinnSendDatagramError : Type 0 where
  unsupported_by_peer disabled too_large : QuinnSendDatagramError
  connection_lost : QuinnConnectionError → QuinnSendDatagramError

pub data ConnectionError : Type 0 where
  quinn_connection : QuinnConnectionError → ConnectionError
  quinn_send_datagram : QuinnSendDatagramError → ConnectionError

-- The Error of error.rs; its transparent variants for other crates' errors share one constructor.
pub data Error : Type 0 where
  io : IoError → Error
  transparent : Error
  server_missing_certificate invalid_congestion connection_closed_error : Error

-- `From<Error> for io::Error`
unfoldable pub from_error : Error → IoError
from_error (io e) = e
from_error _ = io_error other "{err}"

unfoldable pub connection_kind : QuinnConnectionError → ErrorKind
connection_kind locally_closed = connection_reset
connection_kind connection_closed = connection_reset
connection_kind application_closed = connection_reset
connection_kind reset = connection_reset
connection_kind idle_timed_out = timed_out
connection_kind _ = other

unfoldable pub send_datagram_kind : QuinnSendDatagramError → ErrorKind
send_datagram_kind (connection_lost e) = connection_reset
send_datagram_kind _ = other

-- `From<ConnectionError> for io::Error`
unfoldable pub from_connection_error : ConnectionError → IoError
from_connection_error (quinn_connection e) = io_error (connection_kind e) "{error}"
from_connection_error (quinn_send_datagram e) = io_error (send_datagram_kind e) "{error}"

-- `Congestion: FromStr`, on the text in lower case: "bbr", "cubic" and "newreno".
unfoldable pub congestion_named : Bytes → Result Congestion Error
congestion_named name = elim (Bytes-discrete name (98 ∷ 98 ∷ 114 ∷ [])) [
  | yes p ↦ ok bbr
  | no np ↦ elim (Bytes-discrete name (99 ∷ 117 ∷ 98 ∷ 105 ∷ 99 ∷ [])) [
    | yes p ↦ ok cubic
    | no nq ↦ elim (Bytes-discrete name (110 ∷ 101 ∷ 119 ∷ 114 ∷ 101 ∷ 110 ∷ 111 ∷ [])) [
      | yes p ↦ ok new_reno
      | no nr ↦ err invalid_congestion
    ]
  ]
]

unfoldable pub from_str : (Bytes → Bytes) → Bytes → Result Congestion Error
from_str to_lowercase value = congestion_named (to_lowercase value)

-- What is called to load and to check certificates and keys. A path is its octets.
pub record Loader : Type 0 where
  pub read : Bytes → IoResult Bytes
  pub is_der : Bytes → Bool
  pub pem_certs : Bytes → IoResult (List Bytes)
  pub pem_private_key : Bytes → IoResult (Option Bytes)
  pub accepts_pair : List Bytes → Bytes → Bool
  pub self_signed : Option (Bytes × Bytes)
  pub accepts_roots : List Bytes → Bool

-- `?` on the result of a file.
abbrev pub io_question : {A : Type 0} → IoResult A → Result A Error
io_question (ok a) = ok a
io_question (err e) = err (io e)

module _ (l : Loader) where
  unfoldable pub load_certificates : Bytes → IoResult (List Bytes)
  load_certificates path =
      l.read path >>= λ content. if l.is_der path then ok (content ∷ []) else l.pem_certs content

  abbrev pub or_not_found : Option Bytes → IoResult Bytes
  or_not_found (some key) = ok key
  or_not_found none = err (io_error not_found "no private key found in PEM file")

  unfoldable pub load_private_key : Bytes → IoResult Bytes
  load_private_key path = l.read path >>= λ content.
      if l.is_der path then ok content else (l.pem_private_key content >>= or_not_found)

  -- The certificates and the key at two paths.
  unfoldable pub load_pair : Bytes × Bytes → Result (List Bytes × Bytes) Error
  load_pair (cert_path, key_path) = io_question (load_certificates cert_path) >>= λ certs.
      io_question (load_private_key key_path) >>= λ key. ok (certs, key)

  -- rustls takes a pair or refuses it.
  abbrev pub checked_pair : List Bytes × Bytes → Result (List Bytes × Bytes) Error
  checked_pair (certs, key) = if l.accepts_pair certs key then ok (certs, key) else err transparent

-- The client's Config, as far as it is read for TLS and for the socket.
pub record ClientConfig : Type 0 where
  pub bind_addr : SocketAddr
  pub server_name : Bytes
  pub server_addr : SocketAddr
  pub enable_zero_rtt : Bool
  pub alpn_protocols : List Bytes
  pub skip_server_verification : Bool
  pub root_ca_path : Option Bytes
  pub client_cert_key_paths : Option (Bytes × Bytes)

--- Ipv4Addr::UNSPECIFIED and Ipv6Addr::UNSPECIFIED
abbrev pub default_bind_addr : SocketAddr → SocketAddr
default_bind_addr (v4 a) = socket_addr (ip_v4 (0 ∷ 0 ∷ 0 ∷ 0 ∷ [])) 0
default_bind_addr (v6 a) =
    socket_addr (ip_v6 (0 ∷ 0 ∷ 0 ∷ 0 ∷ 0 ∷ 0 ∷ 0 ∷ 0 ∷ 0 ∷ 0 ∷ 0 ∷ 0 ∷ 0 ∷ 0 ∷ 0 ∷ 0 ∷ [])) 0

abbrev pub new_client_config : SocketAddr → Bytes → ClientConfig
new_client_config server_addr server_name = record {
  bind_addr = default_bind_addr server_addr;
  server_name = server_name;
  server_addr = server_addr;
  enable_zero_rtt = false;
  alpn_protocols = [];
  skip_server_verification = false;
  root_ca_path = none;
  client_cert_key_paths = none;
}

-- The trusted roots: those of webpki_roots, or those of a file.
pub data Roots : Type 0 where
  webpki_roots : Roots
  roots_of : List Bytes → Roots

-- rustls's ClientConfig and ServerConfig, as far as they are set. `null_verifier` says that the
-- server's certificate is not looked at.
pub record ClientTls : Type 0 where
  pub roots : Roots
  pub client_auth : Option (List Bytes × Bytes)
  pub alpn_protocols : List Bytes
  pub null_verifier : Bool
  pub enable_early_data : Bool

pub record ServerTls : Type 0 where
  pub client_verifier : Option (List Bytes)
  pub certificate : List Bytes × Bytes
  pub alpn_protocols : List Bytes
  pub early_data : Bool

-- The server's Config.
pub record ServerConfig : Type 0 where
  pub enable_zero_rtt : Bool
  pub enable_self_signed : Bool
  pub alpn_protocols : List Bytes
  pub root_ca_path : Option Bytes
  pub tls_cert_key_paths : Option (Bytes × Bytes)

abbrev pub new_server_config : ServerConfig
new_server_config = record {
  enable_zero_rtt = false;
  enable_self_signed = false;
  alpn_protocols = [];
  root_ca_path = none;
  tls_cert_key_paths = none;
}

module _ (l : Loader) where
  unfoldable pub client_roots : Option Bytes → Result Roots Error
  client_roots none = ok webpki_roots
  client_roots (some path) = io_question (load_certificates l path) >>= λ certs. ok (roots_of certs)

  unfoldable pub client_auth : Option (Bytes × Bytes) → Result (Option (List Bytes × Bytes)) Error
  client_auth none = ok none
  client_auth (some paths) = load_pair l paths >>= checked_pair l >>= λ pair. ok (some pair)

  -- build_tls_config of the client.
  unfoldable pub client_tls_config : ClientConfig → Result ClientTls Error
  client_tls_config c = client_roots c.root_ca_path >>= λ roots.
      client_auth c.client_cert_key_paths >>= λ auth. ok (record {
        roots = roots;
        client_auth = auth;
        alpn_protocols = c.alpn_protocols;
        null_verifier = c.skip_server_verification;
        enable_early_data = c.enable_zero_rtt;
      })

  -- The certificate that is generated for "localhost", when rcgen does.
  abbrev pub generated : Option (Bytes × Bytes) → Result (List Bytes × Bytes) Error
  generated (some (cert, key)) = ok (cert ∷ [], key)
  generated none = err transparent

  abbrev pub configured : Option (Bytes × Bytes) → Result (List Bytes × Bytes) Error
  configured none = err server_missing_certificate
  configured (some paths) = load_pair l paths

  unfoldable pub server_certificate :
      Bool → Option (Bytes × Bytes) → Result (List Bytes × Bytes) Error
  server_certificate true paths = generated l.self_signed
  server_certificate false paths = configured paths

  abbrev pub checked_roots : List Bytes → Result (Option (List Bytes)) Error
  checked_roots certs =
      if l.accepts_roots certs then ok (some certs) else err (io (io_error other "{}"))

  -- The verifier of the clients' certificates.
  unfoldable pub client_verifier : Option Bytes → Result (Option (List Bytes)) Error
  client_verifier none = ok none
  client_verifier (some ca_path) = io_question (load_certificates l ca_path) >>= checked_roots

  -- build_tls_config of the server.
  unfoldable pub server_tls_config : ServerConfig → Result ServerTls Error
  server_tls_config c = server_certificate c.enable_self_signed c.tls_cert_key_paths >>= λ pair.
      client_verifier c.root_ca_path >>= λ verifier. checked_pair l pair >>= λ certificate.
      ok (record {
        client_verifier = verifier;
        certificate = certificate;
        alpn_protocols = c.alpn_protocols;
        early_data = c.enable_zero_rtt;
      })
