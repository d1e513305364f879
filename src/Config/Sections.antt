-- ===== src/Config/Sections.antt =====
-- The sections of the settings, merged from all sources, setting by setting (crates/ombrac-client/src/config/mod.rs and
-- crates/ombrac-server/src/config/mod.rs).
use ombrac.Prelude.{false, Option, none, some, [], ◌∷◌, ◌≡◌, refl}
use ombrac.Config.{or, first_given, first_given-or, setting, bbr, tls, h3, info}
use ombrac.Config.Client
use ombrac.Config.Server

abbrev pub client_transport :
    Client.TransportConfig → Option Client.TransportConfig → Client.TransportConfig
client_transport cli json = record {
  bind = first_given (cli.bind ∷ setting json (λ s. s.bind) ∷ none ∷ []);
  server_name = first_given (cli.server_name ∷ setting json (λ s. s.server_name) ∷ none ∷ []);
  tls_mode = first_given (cli.tls_mode ∷ setting json (λ s. s.tls_mode) ∷ some tls ∷ []);
  ca_cert = first_given (cli.ca_cert ∷ setting json (λ s. s.ca_cert) ∷ none ∷ []);
  client_cert = first_given (cli.client_cert ∷ setting json (λ s. s.client_cert) ∷ none ∷ []);
  client_key = first_given (cli.client_key ∷ setting json (λ s. s.client_key) ∷ none ∷ []);
  zero_rtt = first_given (cli.zero_rtt ∷ setting json (λ s. s.zero_rtt) ∷ some false ∷ []);
  alpn_protocols =
      first_given (cli.alpn_protocols ∷ setting json (λ s. s.alpn_protocols) ∷ some (h3 ∷ []) ∷ []);
  congestion = first_given (cli.congestion ∷ setting json (λ s. s.congestion) ∷ some bbr ∷ []);
  cwnd_init = first_given (cli.cwnd_init ∷ setting json (λ s. s.cwnd_init) ∷ none ∷ []);
  idle_timeout =
      first_given (cli.idle_timeout ∷ setting json (λ s. s.idle_timeout) ∷ some 30000 ∷ []);
  keep_alive = first_given (cli.keep_alive ∷ setting json (λ s. s.keep_alive) ∷ some 8000 ∷ []);
  max_streams = first_given (cli.max_streams ∷ setting json (λ s. s.max_streams) ∷ some 100 ∷ []);
}

pub client_transport_lem :
    (cli : Client.TransportConfig) (json : Option Client.TransportConfig)
    → Client.merge_transport
        (Client.merge_section Client.merge_transport Client.default_transport json)
        cli
      ≡ client_transport cli json
unfolding Client.merge_transport setting
client_transport_lem cli none = simp (first_given-or) refl
client_transport_lem cli (some json) = simp (first_given-or) refl

abbrev pub client_logging :
    Client.LoggingConfig → Option Client.LoggingConfig → Client.LoggingConfig
client_logging cli json = record {
  log_level = first_given (cli.log_level ∷ setting json (λ s. s.log_level) ∷ some info ∷ []);
}

pub client_logging_lem :
    (cli : Client.LoggingConfig) (json : Option Client.LoggingConfig)
    → Client.merge_logging
        (Client.merge_section Client.merge_logging Client.default_logging json)
        cli
      ≡ client_logging cli json
unfolding Client.merge_logging setting
client_logging_lem cli none = simp (first_given-or) refl
client_logging_lem cli (some json) = simp (first_given-or) refl

abbrev pub server_transport :
    Server.TransportConfig → Option Server.TransportConfig → Server.TransportConfig
server_transport cli json = record {
  tls_mode = first_given (cli.tls_mode ∷ setting json (λ s. s.tls_mode) ∷ some tls ∷ []);
  ca_cert = first_given (cli.ca_cert ∷ setting json (λ s. s.ca_cert) ∷ none ∷ []);
  tls_cert = first_given (cli.tls_cert ∷ setting json (λ s. s.tls_cert) ∷ none ∷ []);
  tls_key = first_given (cli.tls_key ∷ setting json (λ s. s.tls_key) ∷ none ∷ []);
  zero_rtt = first_given (cli.zero_rtt ∷ setting json (λ s. s.zero_rtt) ∷ some false ∷ []);
  alpn_protocols =
      first_given (cli.alpn_protocols ∷ setting json (λ s. s.alpn_protocols) ∷ some (h3 ∷ []) ∷ []);
  congestion = first_given (cli.congestion ∷ setting json (λ s. s.congestion) ∷ some bbr ∷ []);
  cwnd_init = first_given (cli.cwnd_init ∷ setting json (λ s. s.cwnd_init) ∷ none ∷ []);
  idle_timeout =
      first_given (cli.idle_timeout ∷ setting json (λ s. s.idle_timeout) ∷ some 30000 ∷ []);
  keep_alive = first_given (cli.keep_alive ∷ setting json (λ s. s.keep_alive) ∷ some 8000 ∷ []);
  max_streams = first_given (cli.max_streams ∷ setting json (λ s. s.max_streams) ∷ some 1000 ∷ []);
}

pub server_transport_lem :
    (cli : Server.TransportConfig) (json : Option Server.TransportConfig)
    → Server.merge_transport
        (Server.merge_section Server.merge_transport Server.default_transport json)
        cli
      ≡ server_transport cli json
unfolding Server.merge_transport setting
server_transport_lem cli none = simp (first_given-or) refl
server_transport_lem cli (some json) = simp (first_given-or) refl

abbrev pub server_logging :
    Server.LoggingConfig → Option Server.LoggingConfig → Server.LoggingConfig
server_logging cli json = record {
  log_level = first_given (cli.log_level ∷ setting json (λ s. s.log_level) ∷ some info ∷ []);
}

pub server_logging_lem :
    (cli : Server.LoggingConfig) (json : Option Server.LoggingConfig)
    → Server.merge_logging
        (Server.merge_section Server.merge_logging Server.default_logging json)
        cli
      ≡ server_logging cli json
unfolding Server.merge_logging setting
server_logging_lem cli none = simp (first_given-or) refl
server_logging_lem cli (some json) = simp (first_given-or) refl

-- The settings of a TUN device have no default: the section of one source is kept as it is, and two
-- sections are merged setting by setting.
abbrev pub client_tun : Option Client.TunConfig → Option Client.TunConfig → Option Client.TunConfig
client_tun none json = json
client_tun (some cli) none = some cli
client_tun (some cli) (some json) = some (record {
  tun_fd = first_given (cli.tun_fd ∷ json.tun_fd ∷ []);
  tun_ipv4 = first_given (cli.tun_ipv4 ∷ json.tun_ipv4 ∷ []);
  tun_ipv6 = first_given (cli.tun_ipv6 ∷ json.tun_ipv6 ∷ []);
  tun_mtu = first_given (cli.tun_mtu ∷ json.tun_mtu ∷ []);
  fake_dns = first_given (cli.fake_dns ∷ json.fake_dns ∷ []);
  disable_udp_443 = first_given (cli.disable_udp_443 ∷ json.disable_udp_443 ∷ []);
})

pub pair_given {ℓ} : {A : Type ℓ} (a b : Option A) → first_given (a ∷ b ∷ []) ≡ or a b
unfolding first_given
pair_given (some a) b = refl
pair_given none (some b) = refl
pair_given none none = refl

abbrev pub client_endpoint :
    Client.EndpointConfig → Option Client.EndpointConfig → Client.EndpointConfig
client_endpoint cli json = record {
  http = first_given (cli.http ∷ setting json (λ s. s.http) ∷ []);
  socks = first_given (cli.socks ∷ setting json (λ s. s.socks) ∷ []);
  tun = client_tun cli.tun (setting json (λ s. s.tun));
}

client_tun_lem :
    (cli json : Option Client.TunConfig)
    → Client.merge_tun (Client.merge_tun none json) cli ≡ client_tun cli json
unfolding Client.merge_tun
client_tun_lem none none = refl
client_tun_lem none (some json) = refl
client_tun_lem (some cli) none = refl
client_tun_lem (some cli) (some json) = simp (pair_given) refl

pub or-none {ℓ} : {A : Type ℓ} (a : Option A) → or a none ≡ a
or-none none = refl
or-none (some a) = refl

merge_tun-none : (cli : Option Client.TunConfig) → Client.merge_tun none cli ≡ client_tun cli none
unfolding Client.merge_tun
merge_tun-none none = refl
merge_tun-none (some cli) = refl

pub client_endpoint_lem :
    (cli : Client.EndpointConfig) (json : Option Client.EndpointConfig)
    → Client.merge_endpoint
        (Client.merge_section Client.merge_endpoint Client.default_endpoint json)
        cli
      ≡ client_endpoint cli json
unfolding Client.merge_endpoint setting
client_endpoint_lem cli none = simp (pair_given, or-none, merge_tun-none) refl
client_endpoint_lem cli (some json) = simp (pair_given, or-none, client_tun_lem) refl

-- The limits of the server's connections are not on the command line.
abbrev pub server_connection : Option Server.ConnectionConfig → Server.ConnectionConfig
server_connection json = record {
  max_connections = first_given (setting json (λ s. s.max_connections) ∷ some 10000 ∷ []);
  auth_timeout_secs = first_given (setting json (λ s. s.auth_timeout_secs) ∷ some 10 ∷ []);
  max_concurrent_streams =
      first_given (setting json (λ s. s.max_concurrent_streams) ∷ some 4096 ∷ []);
  max_concurrent_datagrams =
      first_given (setting json (λ s. s.max_concurrent_datagrams) ∷ some 4096 ∷ []);
}

pub server_connection_lem :
    (json : Option Server.ConnectionConfig)
    → Server.merge_section Server.merge_connection Server.default_connection json
      ≡ server_connection json
unfolding Server.merge_connection setting
server_connection_lem none = simp (pair_given) refl
server_connection_lem (some json) = simp (pair_given) refl
