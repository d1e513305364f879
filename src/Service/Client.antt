-- ===== src/Service/Client.antt =====
-- The client's QUIC from its configuration (quic_client_from_config in
-- crates/ombrac-client/src/service.rs).
use ombrac.Prelude.{
  ℕ, true, false, Option, none, some, List, [], ◌∷◌, ◌≡◌, ◌≢◌, refl, sym, ◌∙◌, ap, ◌⊎◌, inl, inr,
  Result, ok, err, ◌>>=◌, ◌>>◌, ok_or, bind-ok,
}
use ombrac.Net.{Bytes, SocketAddr, invalid_input, not_found, IoError, io_error, IoResult}
use ombrac.Protocol.{rsplit_once}
use ombrac.Config.{or, TlsMode, tls, m_tls, insecure, Congestion}
use ombrac.Config.Client.{TransportConfig, ServiceConfig}
use ombrac.Quic.{
  Error, from_error, Loader, ClientConfig, ClientTls, new_client_config, client_tls_config,
}
use ombrac.Quic.Tls.{Trusts, client_tls_config-Trusts}
use ombrac.Service.{unwrap_or}

-- The name of the server: the configured one, or the text before the last colon of its address.
abbrev pub before_colon : Option (Bytes × Bytes) → IoResult Bytes
before_colon (some (host, port)) = ok host
before_colon none = err (io_error invalid_input "invalid server address: {}")

unfoldable pub server_name_of : Option Bytes → Bytes → IoResult Bytes
server_name_of (some value) server = ok value
server_name_of none server = before_colon (rsplit_once 58 server)

abbrev pub first_addr : List SocketAddr → IoResult SocketAddr
first_addr (a ∷ rest) = ok a
first_addr [] = err (io_error not_found "failed to resolve server address: '{}'")

-- The match on the mode, which goes on with the configuration of QUIC.
unfoldable pub with_tls_mode : TlsMode → TransportConfig → ClientConfig → IoResult ClientConfig
with_tls_mode tls t q = ok (record q { root_ca_path = or t.ca_cert q.root_ca_path })
with_tls_mode m_tls t q =
    ok_or t.ca_cert (io_error invalid_input "ca cert is required for mutual tls mode") >>= λ ca.
    ok_or t.client_cert (io_error invalid_input "client cert is required for mutual tls mode")
    >>= λ client_cert.
        ok_or t.client_key (io_error invalid_input "client key is required for mutual tls mode")
        >>= λ client_key. ok (record q {
          root_ca_path = some ca;
          client_cert_key_paths = some (client_cert, client_key);
        })
with_tls_mode insecure t q = ok (record q { skip_server_verification = true })

abbrev pub before_mode : TransportConfig → SocketAddr → Bytes → ClientConfig
before_mode t server_addr server_name = record (new_client_config server_addr server_name) {
  enable_zero_rtt = unwrap_or t.zero_rtt false;
  alpn_protocols = unwrap_or t.alpn_protocols [];
}

-- The settings that quinn is given, when they are set.
pub record Settings : Type 0 where
  pub idle_timeout : Option ℕ
  pub keep_alive : Option ℕ
  pub max_streams : Option ℕ
  pub congestion : Option Congestion
  pub cwnd_init : Option ℕ

abbrev pub settings_of : TransportConfig → Settings
settings_of t = record {
  idle_timeout = t.idle_timeout;
  keep_alive = t.keep_alive;
  max_streams = t.max_streams;
  congestion = t.congestion;
  cwnd_init = t.cwnd_init;
}

-- `?` on an Error of the transport.
abbrev pub as_io : {A : Type 0} → Result A Error → IoResult A
as_io (ok a) = ok a
as_io (err e) = err (from_error e)

module _ (l : Loader) (lookup_host : Bytes → IoResult (List SocketAddr))
    (apply : Settings → Result (Unit {0}) Error) (bind : SocketAddr → IoResult (Unit {0})) where
  -- The configuration of QUIC.
  unfoldable pub quic_config : ServiceConfig → IoResult ClientConfig
  quic_config c = server_name_of c.transport.server_name c.server >>= λ server_name.
      lookup_host c.server >>= λ addrs. first_addr addrs >>= λ server_addr.
      with_tls_mode (unwrap_or c.transport.tls_mode tls) c.transport
        (before_mode c.transport server_addr server_name)

  -- QuicClient::new: the socket is bound and TLS is set up.
  unfoldable pub new_client : ClientConfig → IoResult (SocketAddr × ClientTls)
  new_client q =
      bind q.bind_addr >> as_io (client_tls_config l q) >>= λ made. ok (q.bind_addr, made)

  -- The address that the client's socket is bound to, and its TLS.
  unfoldable pub quic_client_from_config : ServiceConfig → IoResult (SocketAddr × ClientTls)
  quic_client_from_config c =
      quic_config c >>= λ q. as_io (apply (settings_of c.transport)) >> new_client q

  with_tls_mode-bind :
      (mode : TlsMode) (t : TransportConfig) (a : Option SocketAddr) (q : ClientConfig)
      → with_tls_mode mode (record t { bind = a }) q ≡ with_tls_mode mode t q
  unfolding with_tls_mode
  with_tls_mode-bind tls t a q = refl
  with_tls_mode-bind m_tls t a q = refl
  with_tls_mode-bind insecure t a q = refl

  -- The configured address of the transport's socket is not read: whatever it is, the client is set up
  -- as it is without one.
  pub quic_client_from_config-bind :
      (c : ServiceConfig) (a : Option SocketAddr)
      → quic_client_from_config (record c { transport = record c.transport { bind = a } })
        ≡ quic_client_from_config c
  unfolding quic_client_from_config quic_config
  quic_client_from_config-bind c a = λ i.
      (server_name_of c.transport.server_name c.server >>= λ server_name.
      lookup_host c.server >>= λ addrs. first_addr addrs >>= λ server_addr.
      with_tls_mode-bind (unwrap_or c.transport.tls_mode tls) c.transport a
        (before_mode c.transport server_addr server_name) i)
      >>= λ q. as_io (apply (settings_of c.transport)) >> new_client q

  ok_or-some :
      {A : Type 0} (found : Option A) (e : IoError) (a : A) → ok_or found e ≡ ok a → found ≡ some a
  ok_or-some none e a q = absurd (cc (q))
  ok_or-some (some b) e a q = cc (q)

  as_io-ok : {A : Type 0} (m : Result A Error) (a : A) → as_io m ≡ ok a → m ≡ ok a
  as_io-ok (ok b) a q = cc (q)
  as_io-ok (err e) a q = absurd (cc (q))

  pair-same :
      (p r : SocketAddr × ClientTls)
      → ◌≡◌ {A = IoResult (SocketAddr × ClientTls)} (ok p) (ok r)
      → p ≡ r
  pair-same p r e = cc (e)

  same : (made q : ClientConfig) → ◌≡◌ {A = IoResult ClientConfig} (ok made) (ok q) → made ≡ q
  same made q e = cc (e)

  or-none : {A : Type 0} (o : Option A) → or o none ≡ o
  or-none none = refl
  or-none (some a) = refl

  -- The server's certificate is left unchecked in the insecure mode only.
  with_tls_mode-skips :
      (mode : TlsMode) (t : TransportConfig) (a : SocketAddr) (name : Bytes) (q : ClientConfig)
      → with_tls_mode mode t (before_mode t a name) ≡ ok q
      → ((mode ≡ insecure) × (q.skip_server_verification ≡ true))
        ⊎ ((mode ≢ insecure) × (q.skip_server_verification ≡ false) × (q.root_ca_path ≡ t.ca_cert))
  unfolding with_tls_mode
  with_tls_mode-skips tls t a name q e =
      let is_q = same _ q e in
      inr (
        λ p. cc (p),
        sym (ap (λ c. c.skip_server_verification) is_q),
        sym (ap (λ c. c.root_ca_path) is_q) ∙ or-none t.ca_cert,
      )
  with_tls_mode-skips m_tls t a name q e =
      let (ca, held, e1) = bind-ok (ok_or t.ca_cert _) _ q e in
      let (client_cert, held', e2) = bind-ok (ok_or t.client_cert _) _ q e1 in
      let (client_key, held'', e3) = bind-ok (ok_or t.client_key _) _ q e2 in
      let is_q = same _ q e3 in
      inr (
        λ p. cc (p),
        sym (ap (λ c. c.skip_server_verification) is_q),
        sym (ap (λ c. c.root_ca_path) is_q) ∙ sym (ok_or-some t.ca_cert _ ca held),
      )
  with_tls_mode-skips insecure t a name q e =
      inl (refl, sym (ap (λ c. c.skip_server_verification) (same _ q e)))

  -- A client that is set up leaves the server's certificate unchecked
  -- in the insecure mode only; in the others it checks it against the configured roots, or those
  -- compiled in from the webpki_roots crate when none are configured.
  pub quic_client_from_config-Trusts :
      (c : ServiceConfig) (a : SocketAddr) (made : ClientTls)
      → quic_client_from_config c ≡ ok (a, made)
      → ((unwrap_or c.transport.tls_mode tls ≡ insecure) × (made.null_verifier ≡ true))
        ⊎ ((unwrap_or c.transport.tls_mode tls ≢ insecure)
            × (made.null_verifier ≡ false)
            × Trusts l c.transport.ca_cert made.roots)
  unfolding quic_client_from_config quic_config new_client
  quic_client_from_config-Trusts c a made e =
      let (q, chosen, e1) = bind-ok (quic_config c) _ (a, made) e in
      let (name, named, c1) =
        bind-ok (server_name_of c.transport.server_name c.server) _ q chosen in
      let (addrs, found, c2) = bind-ok (lookup_host c.server) _ q c1 in
      let (addr, first, mode) = bind-ok (first_addr addrs) _ q c2 in
      let (u, applied, e2) = bind-ok (as_io (apply (settings_of c.transport))) _ (a, made) e1 in
      let (made', built, e3) =
        bind-ok (bind q.bind_addr >> as_io (client_tls_config l q)) _ (a, made) e2 in
      let (v, bound, e4) = bind-ok (bind q.bind_addr) _ made' built in
      let is_made : made' ≡ made = ap (λ p. p.1) (pair-same _ _ e3) in
      let (skips, trusts) =
        client_tls_config-Trusts l q made' (as_io-ok (client_tls_config l q) made' e4) in
      elim (with_tls_mode-skips (unwrap_or c.transport.tls_mode tls) c.transport addr name q mode) [
        | inl (m, on) ↦ inl (m, sym (ap (λ t. t.null_verifier) is_made) ∙ skips ∙ on)
        | inr (m, off, roots) ↦ inr (
          m,
          sym (ap (λ t. t.null_verifier) is_made) ∙ skips ∙ off,
          rw (is_made, roots) at trusts,
        )
      ]
