-- ===== src/Service/Server.antt =====
-- The server's QUIC from its configuration (quic_server_from_config in
-- crates/ombrac-server/src/service.rs, and the getters of TransportConfig in
-- crates/ombrac-server/src/config/mod.rs).
use ombrac.Prelude.{
  ℕ, true, false, Option, none, some, List, [], ◌∷◌, ◌≡◌, ◌≢◌, refl, sym, ap, ◌⊎◌, inl, inr, Result,
  ok, err, ◌>>=◌, ◌>>◌, ok_or, bind-ok, String,
}
use ombrac.Net.{Bytes, SocketAddr, IoError, IoResult}
use ombrac.Config.{TlsMode, tls, m_tls, insecure, Congestion, bbr, h3}
use ombrac.Config.Server.{TransportConfig, ServiceConfig}
use ombrac.Quic.{
  Error, Loader, ServerConfig, ServerTls, new_server_config, server_tls_config, load_pair,
  load_certificates,
}
use ombrac.Quic.Tls.{server_tls_config-Demands}
use ombrac.Service.{unwrap_or}

abbrev pub tls_mode_of : TransportConfig → TlsMode
tls_mode_of t = unwrap_or t.tls_mode tls

-- The settings that quinn is given: congestion and its window, idle_timeout, keep_alive, max_streams.
pub record Settings : Type 0 where
  pub congestion : Congestion
  pub cwnd_init : Option ℕ
  pub idle_timeout : ℕ
  pub keep_alive : ℕ
  pub max_streams : ℕ

abbrev pub settings_of : TransportConfig → Settings
settings_of t = record {
  congestion = unwrap_or t.congestion bbr;
  cwnd_init = t.cwnd_init;
  idle_timeout = unwrap_or t.idle_timeout 30000;
  keep_alive = unwrap_or t.keep_alive 8000;
  max_streams = unwrap_or t.max_streams 1000;
}

-- The server's Error.
pub data ServerError : Type 0 where
  io_failure : IoError → ServerError
  config_failure : String → ServerError
  quic_failure : Error → ServerError

-- require_config!
abbrev pub require_config : {A : Type 0} → Option A → String → Result A ServerError
require_config found field_name = ok_or found (config_failure field_name)

-- The match on the mode, which goes on with the configuration of QUIC.
unfoldable pub with_tls_mode :
    TlsMode → TransportConfig → ServerConfig → Result ServerConfig ServerError
with_tls_mode tls t q = require_config t.tls_cert "transport.tls_cert" >>= λ cert_path.
    require_config t.tls_key "transport.tls_key" >>= λ key_path.
    ok (record q { tls_cert_key_paths = some (cert_path, key_path) })
with_tls_mode m_tls t q = require_config t.tls_cert "transport.tls_cert for mTLS" >>= λ cert_path.
    require_config t.tls_key "transport.tls_key for mTLS" >>= λ key_path.
    require_config t.ca_cert "transport.ca_cert for mTLS" >>= λ ca_path.
    ok (record q { tls_cert_key_paths = some (cert_path, key_path); root_ca_path = some ca_path })
with_tls_mode insecure t q = ok (record q { enable_self_signed = true })

abbrev pub before_mode : TransportConfig → ServerConfig
before_mode t = record new_server_config {
  enable_zero_rtt = unwrap_or t.zero_rtt false;
  alpn_protocols = unwrap_or t.alpn_protocols (h3 ∷ []);
}

-- `map_err` to the server's Error.
abbrev pub as_quic : {A : Type 0} → Result A Error → Result A ServerError
as_quic (ok a) = ok a
as_quic (err e) = err (quic_failure e)

abbrev pub as_io : {A : Type 0} → IoResult A → Result A ServerError
as_io (ok a) = ok a
as_io (err e) = err (io_failure e)

module _ (l : Loader) (apply : Settings → Result (Unit {0}) Error)
    (bind : SocketAddr → IoResult (Unit {0})) where
  -- Up to the TLS that the endpoint is made with.
  unfoldable pub quic_server_from_config : ServiceConfig → Result ServerTls ServerError
  quic_server_from_config c =
      with_tls_mode (tls_mode_of c.transport) c.transport (before_mode c.transport) >>= λ q.
      as_quic (apply (settings_of c.transport))
      >> (as_io (bind c.listen) >> as_quic (server_tls_config l q))

  as_quic-ok : {A : Type 0} (m : Result A Error) (a : A) → as_quic m ≡ ok a → m ≡ ok a
  as_quic-ok (ok b) a q = cc (q)
  as_quic-ok (err e) a q = absurd (cc (q))

  ok_or-some :
      {A : Type 0} (found : Option A) (e : ServerError) (a : A)
      → ok_or found e ≡ ok a
      → found ≡ some a
  ok_or-some none e a q = absurd (cc (q))
  ok_or-some (some b) e a q = cc (q)

  same :
      (made q : ServerConfig)
      → ◌≡◌ {A = Result ServerConfig ServerError} (ok made) (ok q)
      → made ≡ q
  same made q e = cc (e)

  -- In mTLS the configuration of QUIC has the configured roots, and in the other modes no roots for its
  -- clients.
  with_tls_mode-roots :
      (mode : TlsMode) (t : TransportConfig) (q : ServerConfig)
      → with_tls_mode mode t (before_mode t) ≡ ok q
      → ((mode ≡ m_tls) × ((ca : Bytes) × (t.ca_cert ≡ some ca) × (q.root_ca_path ≡ some ca)))
        ⊎ ((mode ≢ m_tls) × (q.root_ca_path ≡ none))
  unfolding with_tls_mode
  with_tls_mode-roots tls t q e =
      let (cert_path, found, e1) = bind-ok (require_config t.tls_cert "transport.tls_cert") _ q e in
      let (key_path, found', e2) = bind-ok (require_config t.tls_key "transport.tls_key") _ q e1 in
      inr (λ p. cc (p), sym (ap (λ c. c.root_ca_path) (same _ q e2)))
  with_tls_mode-roots m_tls t q e =
      let (cert_path, found, e1) =
        bind-ok (require_config t.tls_cert "transport.tls_cert for mTLS") _ q e in
      let (key_path, found', e2) =
        bind-ok (require_config t.tls_key "transport.tls_key for mTLS") _ q e1 in
      let (ca_path, held, e3) =
        bind-ok (require_config t.ca_cert "transport.ca_cert for mTLS") _ q e2 in
      let is_q = same _ q e3 in
      inl
        (refl, (ca_path, ok_or-some t.ca_cert _ ca_path held, sym (ap (λ c. c.root_ca_path) is_q)))
  with_tls_mode-roots insecure t q e =
      inr (λ p. cc (p), sym (ap (λ c. c.root_ca_path) (same _ q e)))

  -- But for the insecure mode, no certificate is generated and the two paths are the configured ones.
  abbrev HasPair : TransportConfig → ServerConfig → Type 0
  HasPair t q =
      (q.enable_self_signed ≡ false)
      × ((cert_path : Bytes) × (key_path : Bytes) × (t.tls_cert ≡ some cert_path)
          × (t.tls_key ≡ some key_path)
          × (q.tls_cert_key_paths ≡ some (cert_path, key_path)))

  with_tls_mode-HasPair :
      (mode : TlsMode) (t : TransportConfig) (q : ServerConfig)
      → with_tls_mode mode t (before_mode t) ≡ ok q
      → (mode ≡ insecure) ⊎ HasPair t q
  unfolding with_tls_mode
  with_tls_mode-HasPair tls t q e =
      let (cert_path, found, e1) = bind-ok (require_config t.tls_cert "transport.tls_cert") _ q e in
      let (key_path, found', e2) = bind-ok (require_config t.tls_key "transport.tls_key") _ q e1 in
      let is_q = same _ q e2 in
      inr (
        sym (ap (λ c. c.enable_self_signed) is_q),
        (
          cert_path,
          key_path,
          ok_or-some t.tls_cert _ cert_path found,
          ok_or-some t.tls_key _ key_path found',
          sym (ap (λ c. c.tls_cert_key_paths) is_q),
        ),
      )
  with_tls_mode-HasPair m_tls t q e =
      let (cert_path, found, e1) =
        bind-ok (require_config t.tls_cert "transport.tls_cert for mTLS") _ q e in
      let (key_path, found', e2) =
        bind-ok (require_config t.tls_key "transport.tls_key for mTLS") _ q e1 in
      let (ca_path, held, e3) =
        bind-ok (require_config t.ca_cert "transport.ca_cert for mTLS") _ q e2 in
      let is_q = same _ q e3 in
      inr (
        sym (ap (λ c. c.enable_self_signed) is_q),
        (
          cert_path,
          key_path,
          ok_or-some t.tls_cert _ cert_path found,
          ok_or-some t.tls_key _ key_path found',
          sym (ap (λ c. c.tls_cert_key_paths) is_q),
        ),
      )
  with_tls_mode-HasPair insecure t q e = inl refl

  -- A server that is set up in mTLS demands a certificate of its clients, checked against the
  -- configured roots, and a server in another mode does not; but for the insecure mode, its own
  -- certificate is what is read of the configured files of certificate and key.
  pub quic_server_from_config-Demands :
      (c : ServiceConfig) (made : ServerTls)
      → quic_server_from_config c ≡ ok made
      → (((tls_mode_of c.transport ≡ m_tls)
            × ((ca : Bytes) × (certs : List Bytes) × (c.transport.ca_cert ≡ some ca)
                × (load_certificates l ca ≡ ok certs)
                × (made.client_verifier ≡ some certs)))
          ⊎ ((tls_mode_of c.transport ≢ m_tls) × (made.client_verifier ≡ none)))
        × ((tls_mode_of c.transport ≡ insecure)
            ⊎ ((cert_path : Bytes) × (key_path : Bytes) × (c.transport.tls_cert ≡ some cert_path)
                × (c.transport.tls_key ≡ some key_path)
                × (load_pair l (cert_path, key_path) ≡ ok made.certificate)))
  unfolding quic_server_from_config
  quic_server_from_config-Demands c made e =
      let (q, mode, e1) =
        bind-ok (with_tls_mode (tls_mode_of c.transport) c.transport _) _ made e in
      let (u, applied, e2) = bind-ok (as_quic (apply (settings_of c.transport))) _ made e1 in
      let (v, bound, e3) = bind-ok (as_io (bind c.listen)) _ made e2 in
      let (own, clients) =
        server_tls_config-Demands l q made (as_quic-ok (server_tls_config l q) made e3) in
      (
        elim (with_tls_mode-roots (tls_mode_of c.transport) c.transport q mode) [
          | inl (m, (ca, has, root)) ↦ elim clients [
            | inl (bare, unused) ↦ absurd (cc (bare, root))
            | inr (p, certs, path, loaded, verifier) ↦
                let same_path : p ≡ ca = cc (path, root) in
                inl (m, (ca, certs, has, rw (same_path) at loaded, verifier))
          ]
          | inr (m, bare) ↦ elim clients [
            | inl (unused, nobody) ↦ inr (m, nobody)
            | inr (p, certs, path, loaded, unused) ↦ absurd (cc (bare, path))
          ]
        ],
        elim (with_tls_mode-HasPair (tls_mode_of c.transport) c.transport q mode) [
          | inl m ↦ inl m
          | inr (plain, (cert_path, key_path, cert, key, paths)) ↦ elim own [
            | inl self ↦ absurd (cc (self, plain))
            | inr (ps, held, pair) ↦
                let same_paths : ps ≡ (cert_path, key_path) = cc (held, paths) in
                inr (cert_path, key_path, cert, key, rw (same_paths) at pair)
          ]
        ],
      )
